-- ===== src/Packer/Commit/Success.antt =====
-- When the calls succeed, so does the commit.
use tarpack.Checksum.{LineEntry, checksums_append, line_of, path_max}
use tarpack.Checksum.Append.{not_le}
use tarpack.Checksum.Rewrite.{length-line_of}
use tarpack.Index.{IndexEntry}
use tarpack.Packer.Commit.{
  Repo, Effect, run, and_then, Write, Calls, CommitObject, archive_step, write_file_atomic, put_sum,
  sum_step, index_append, index_entries, pack_objects, write_one_pack_and_commit,
}
use tarpack.Packer.Commit.Crash.{IsConsistent}
use tarpack.Packer.Commit.Done.{write_one_pack_and_commit-indexed}
use tarpack.Packer.Commit.Pack.{PrintsPack}
use tarpack.Packer.Commit.Recovery.{indexed_packs}
use tarpack.Packer.Names.{pack_name}
use tarpack.Packer.Names.Numbers.{padded_small}
use tarpack.Packer.Recovery.Sweep.{has}
use tarpack.Packer.Recovery.Sweep.Survivors.{archive, manifest}
use tarpack.Prelude.{
  ◌≡◌, ◌<◌, ◌+◌, refl, ap, ◌∙◌, Bool, true, Option, none, some, List, [], ◌∷◌, ◌++◌, arith, Bytes,
  ℕ, codes, length, length-append,
}

-- No call fails, and a hash has 64 digits.
pub record IsSmooth (c : Calls) (warned : Bool) : Type 0 where
  pub opened : c.archive.opened ≡ true
  pub results : pack_objects c.archive.results ≡ some warned
  pub closed : c.archive.closed ≡ true
  pub synced : c.archive.synced ≡ true
  pub renamed : c.archive.renamed ≡ true
  pub manifest_written : c.manifest ≡ Write.written
  pub archive_hash : (hex : Bytes) × (c.archive_hash ≡ some hex) × (length hex ≡ 64)
  pub archive_sum : c.archive_sum ≡ none
  pub manifest_hash : (hex : Bytes) × (c.manifest_hash ≡ some hex) × (length hex ≡ 64)
  pub manifest_sum : c.manifest_sum ≡ none
  pub index_put : c.index ≡ none

and_then-rc :
    (step : List Effect × Bool) (next : List Effect × Option Bool)
    → step.1 ≡ true
    → (and_then step next).1 ≡ next.1
unfolding and_then
and_then-rc (es, ok) next h = rw h refl

sum_step-ok :
    (hash : Option Bytes) (stop : Option ℕ) (hex path : Bytes)
    → hash ≡ some hex
    → length hex ≡ 64
    → length path < 4000
    → stop ≡ none
    → (sum_step hash stop path).1 ≡ true
unfolding sum_step put_sum checksums_append
sum_step-ok hash stop hex path e l short none_left =
    let entry : LineEntry = record { sha256_hex = hex; relpath = path } in
    rw
      (
        e,
        none_left,
        not_le (path_max + 128) (length (line_of entry)) (omega (arith, length-line_of entry, l)),
      )
      refl

length-pack_name : (n : ℕ) → n < 1000000 → length (pack_name n) ≡ 11
unfolding pack_name
length-pack_name n h = ap (λ s. length (codes "pack-" ++ s)) (padded_small n h)

module _ (print : IndexEntry → Bytes) where
  write_one_pack_and_commit-rc :
      (c : Calls) (warned : Bool) (n : ℕ) (objects : List CommitObject)
      → IsSmooth c warned
      → n < 1000000
      → (write_one_pack_and_commit print c n objects).1 ≡ some warned
  unfolding write_one_pack_and_commit archive_step write_file_atomic index_append
  write_one_pack_and_commit-rc c warned n objects s h =
      let name = pack_name n in
      let (hex, e, l) = s.archive_hash in
      let (hex', e', l') = s.manifest_hash in
      let len = length-pack_name n h in
      let ok3 =
        sum_step-ok c.archive_hash c.archive_sum hex (codes "packs/" ++ archive name) e l
          (omega (arith, len, length-append name (codes ".tar.zst"))) s.archive_sum in
      let ok4 =
        sum_step-ok c.manifest_hash c.manifest_sum hex' (codes "packs/" ++ manifest name) e' l'
          (omega (arith, len, length-append name (codes ".json"))) s.manifest_sum in
      and_then-rc (archive_step c.archive (archive name)) _
        (rw (s.opened, s.results, s.closed, s.synced, s.renamed) refl)
      ∙ and_then-rc (write_file_atomic c.manifest (manifest name)) _ (rw s.manifest_written refl)
      ∙ and_then-rc (sum_step c.archive_hash c.archive_sum (codes "packs/" ++ archive name)) _ ok3
      ∙ and_then-rc (sum_step c.manifest_hash c.manifest_sum (codes "packs/" ++ manifest name)) _
          ok4
      ∙ and_then-rc (index_append print c.index (index_entries name objects)) _
          (rw s.index_put refl)
      ∙ s.results

-- If every call succeeds and the pack's number has six digits at most, the commit of a pack with at
-- least one object returns success, and the pack is indexed behind it. (The index before it is of
-- complete lines, and the packs that it names have their files. The printer writes each entry on one
-- line, from which the name of its pack is read.)
pub write_one_pack_and_commit-success :
    (print : IndexEntry → Bytes) (r : Repo) (c : Calls) (warned : Bool) (n : ℕ) (o : CommitObject)
    (objects : List CommitObject)
    → PrintsPack print
    → IsConsistent r []
    → IsSmooth c warned
    → n < 1000000
    → ((write_one_pack_and_commit print c n (o ∷ objects)).1 ≡ some warned)
      × (has
            (indexed_packs (run r (write_one_pack_and_commit print c n (o ∷ objects)).0))
            (pack_name n)
          ≡ true)
write_one_pack_and_commit-success print r c warned n o objects prints h s lt =
    let rc = write_one_pack_and_commit-rc print c warned n (o ∷ objects) s lt in
    (rc, write_one_pack_and_commit-indexed print r c n o objects warned prints h rc)
