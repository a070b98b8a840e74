-- ===== src/Packer/Commit/Sessions.antt =====
-- Any number of runs of `tp_pack_multi`, each of which may crash.
use tarpack.Checksum.Lines.{joined_lines}
use tarpack.Index.{IndexEntry}
use tarpack.Packer.Commit.{Repo, Calls, CommitObject, recover, session, Reach}
use tarpack.Packer.Commit.Crash.{HasFiles, IsConsistent}
use tarpack.Packer.Commit.Pack.{PrintsPack, write_packs-IsSafe}
use tarpack.Packer.Commit.Recovery.{
  indexed_packs, indexed-HasFiles, recover-IsConsistent, recover-indexed_packs, recover-swept,
}
use tarpack.Packer.Names.{next_pack_number}
use tarpack.Packer.Recovery.Sweep.{has}
use tarpack.Packer.Recovery.Sweep.Kept.{IsCommitted}
use tarpack.Prelude.{
  ◌≡◌, refl, ap, ◌∙◌, inl, inr, Bool, true, some, List, [], All, Bytes, Bool-cases, ℕ,
}

module _ (print : IndexEntry → Bytes) (elsewhere : List Bytes → Bytes → Bool) where
  session-IsConsistent :
      (r : Repo) (bins : List (Calls × List CommitObject)) (k : ℕ) (tail : Bytes)
      → PrintsPack print
      → IsConsistent r tail
      → (tail' : Bytes) × IsConsistent (session print elsewhere r bins k) tail'
  unfolding session
  session-IsConsistent r bins k tail prints h =
      let start = recover elsewhere r in
      let clean : IsConsistent start.0 [] = recover-IsConsistent r tail h elsewhere in
      elim (Bool-cases start.1) [
        | inl e ↦ rw e (
            write_packs-IsSafe print prints start.0 (next_pack_number (some start.0.packs)) bins
              clean k)
        | inr e ↦ rw e ([], clean)
      ]

  pub Reach-IsConsistent :
      (r : Repo) → PrintsPack print → Reach print elsewhere r → (tail : Bytes) × IsConsistent r tail
  Reach-IsConsistent _ prints Reach.created = (
    [],
    record { rows = []; complete = tt; torn = tt; split = unfold joined_lines in refl; named = tt },
  )
  Reach-IsConsistent _ prints (Reach.packed r bins k reach) =
      let (tail, h) = Reach-IsConsistent r prints reach in
      session-IsConsistent r bins k tail prints h

  -- After any number of runs, each of which may fail or crash anywhere, every pack that a complete
  -- line of the index names has its archive and its manifest. (The printer writes each entry on one
  -- line, from which the name of its pack is read.)
  pub Reach-HasFiles :
      (r : Repo) (base : Bytes)
      → PrintsPack print
      → Reach print elsewhere r
      → has (indexed_packs r) base ≡ true
      → HasFiles r.packs base
  Reach-HasFiles r base prints reach e =
      let (tail, h) = Reach-IsConsistent r prints reach in indexed-HasFiles r tail h base e

  -- The recovery at the start of a run, after any number of runs, leaves the packs that the index
  -- names, each with its archive and its manifest, and no other archive with a name that the
  -- recovery takes for a pack's, and no scratch file. It does not change which packs the index
  -- names. (The printer writes each entry on one line, from which the name of its pack is read.)
  pub recover-IsCommitted :
      (r : Repo)
      → PrintsPack print
      → Reach print elsewhere r
      → (indexed_packs (recover elsewhere r).0 ≡ indexed_packs r)
        × All (IsCommitted (indexed_packs r)) (recover elsewhere r).0.packs
        × ((base : Bytes)
            → has (indexed_packs r) base ≡ true
            → HasFiles (recover elsewhere r).0.packs base)
  recover-IsCommitted r prints reach =
      let (tail, h) = Reach-IsConsistent r prints reach in
      let clean = recover-IsConsistent r tail h elsewhere in
      let same = recover-indexed_packs r tail h elsewhere in
      (
        same,
        recover-swept r elsewhere,
        λ base e.
            indexed-HasFiles (recover elsewhere r).0 [] clean base
              (ap (λ ns. has ns base) same ∙ e),
      )
