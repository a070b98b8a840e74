-- ===== src/Packer/Commit/Durable.antt =====
-- What is in the index stays there.
use tarpack.Checksum.Lines.{NoNewline, IsLine, joined_lines, lines-line}
use tarpack.Index.{IndexEntry}
use tarpack.Packer.Commit.{
  Repo, Effect, Calls, CommitObject, apply, run, content, recover, session, Reach, write_packs,
}
use tarpack.Packer.Commit.Crash.{IsConsistent}
use tarpack.Packer.Commit.Pack.{PrintsPack, write_packs-IsSafe}
use tarpack.Packer.Commit.Recovery.{
  indexed_packs, indexed_packs-rows, recover-IsConsistent, recover-indexed_packs, has-later,
}
use tarpack.Packer.Commit.Sessions.{Reach-IsConsistent}
use tarpack.Packer.Names.{next_pack_number}
use tarpack.Packer.Recovery.Sweep.{has, collect_lines, add_pack, pack_of_line}
use tarpack.Prelude.{
  ◌≡◌, ◌≢◌, refl, sym, ap, ◌∙◌, inl, inr, Bool, true, some, List, [], ◌∷◌, ◌++◌, All, Bytes,
  Bool-cases, append_nil, append_assoc, ℕ, take, drop, drop-length, lines, length, get_or,
}

content-apply :
    (r : Repo) (e : Effect) → (s : Bytes) × (content (apply r e).index ≡ content r.index ++ s)
unfolding apply
content-apply r (Effect.create x) = ([], sym (append_nil (content r.index)))
content-apply r (Effect.move x y) = ([], sym (append_nil (content r.index)))
content-apply r (Effect.remove x) = ([], sym (append_nil (content r.index)))
content-apply r Effect.touch_sums = ([], sym (append_nil (content r.index)))
content-apply r (Effect.put_sums b) = ([], sym (append_nil (content r.index)))
content-apply r Effect.touch_index = ([], sym (append_nil (content r.index)))
content-apply r (Effect.put_index b) = (b ∷ [], refl)

-- The index only grows.
content-run :
    (r : Repo) (es : List Effect) → (s : Bytes) × (content (run r es).index ≡ content r.index ++ s)
unfolding run
content-run r [] = ([], sym (append_nil (content r.index)))
content-run r (e ∷ es) =
    let (s, h) = content-apply r e in
    let (t, h') = content-run (apply r e) es in
    (s ++ t, h' ∙ ap (λ u. u ++ t) h ∙ append_assoc (content r.index) s t)

line-in_torn : (s rest tail : Bytes) → NoNewline tail → (s ++ 10 ∷ []) ++ rest ≢ tail
line-in_torn [] rest [] h e = cc
line-in_torn [] rest (c ∷ tail) (hc, h) e = hc (ap (λ l. get_or l 0 0) (sym e))
line-in_torn (b ∷ s) rest [] h e = cc
line-in_torn (b ∷ s) rest (c ∷ tail) (hc, h) e = line-in_torn s rest tail h (ap (drop 1) e)

abbrev head_of : List Bytes → Bytes
head_of [] = []
head_of (l ∷ ls) = l

pub same_line : (l k x y : Bytes) → IsLine l → IsLine k → l ++ x ≡ k ++ y → (l ≡ k) × (x ≡ y)
same_line l k x y (s, el, hs) (t, ek, ht) e =
    let first : (u : Bytes)
        → NoNewline u
        → (z : Bytes) → head_of (lines ((u ++ 10 ∷ []) ++ z)) ≡ u ++ 10 ∷ [] =
      λ u hu z. ap head_of (lines-line u z hu) in
    let same : l ≡ k =
      el
      ∙ sym (first s hs x)
      ∙ ap (λ v. head_of (lines (v ++ x))) (sym el)
      ∙ ap (λ v. head_of (lines v)) e
      ∙ ap (λ v. head_of (lines (v ++ y))) ek
      ∙ first t ht y
      ∙ sym ek in
    (
      same,
      sym (drop-length l x)
          ∙ ap (drop (length l)) e
          ∙ ap (λ v. drop (length v) (k ++ y)) same
          ∙ drop-length k y,
    )

-- The lines of a file are still its first ones when it has grown.
pub rows_prefix :
    (rows rows' : List Bytes) (s tail : Bytes)
    → All IsLine rows
    → All IsLine rows'
    → NoNewline tail
    → joined_lines rows ++ s ≡ joined_lines rows' ++ tail
    → (more : List Bytes) × (rows' ≡ rows ++ more)
unfolding joined_lines
rows_prefix [] rows' s tail h h' ht e = (rows', refl)
rows_prefix (l ∷ rows) [] s tail ((t, el, hl), h) h' ht e = absurd (
    line-in_torn t (joined_lines rows ++ s) tail ht (
      ap (λ v. v ++ (joined_lines rows ++ s)) (sym el)
      ∙ sym (append_assoc l (joined_lines rows) s)
      ∙ e))
rows_prefix (l ∷ rows) (k ∷ rows') s tail (hl, h) (hk, h') ht e =
    let (same, rest) =
      same_line l k (joined_lines rows ++ s) (joined_lines rows' ++ tail) hl hk (
        sym (append_assoc l (joined_lines rows) s)
        ∙ e
        ∙ append_assoc k (joined_lines rows') tail) in
    let (more, eq) = rows_prefix rows rows' s tail h h' ht rest in
    (more, ap (λ v. v ∷ rows') (sym same) ∙ ap (◌∷◌ l) eq)

collect_lines-append :
    (names ls ks : List Bytes)
    → collect_lines names (ls ++ ks) ≡ collect_lines (collect_lines names ls) ks
unfolding collect_lines
collect_lines-append names [] ks = refl
collect_lines-append names (l ∷ ls) ks =
    collect_lines-append (add_pack names (pack_of_line l)) ls ks

-- A pack that is indexed before some effects is so behind them.
run-indexed :
    (r : Repo) (es : List Effect) (tail' b : Bytes) (h : IsConsistent r [])
    (h' : IsConsistent (run r es) tail')
    → has (indexed_packs r) b ≡ true
    → has (indexed_packs (run r es)) b ≡ true
run-indexed r es tail' b h h' e =
    let (s, grown) = content-run r es in
    let (more, eq) = rows_prefix h.rows h'.rows s tail' h.complete h'.complete h'.torn (
      ap (λ u. u ++ s) (sym (append_nil (joined_lines h.rows)) ∙ sym h.split)
      ∙ sym grown
      ∙ h'.split) in
    ap (λ ns. has ns b)
      (indexed_packs-rows (run r es) tail' h'
        ∙ ap (collect_lines []) eq
        ∙ collect_lines-append [] h.rows more)
    ∙ has-later (collect_lines [] h.rows) more b
        (ap (λ ns. has ns b) (sym (indexed_packs-rows r [] h)) ∙ e)

-- A pack that is indexed after any number of runs stays so through a further one, which may fail or
-- crash anywhere. (The printer writes each entry on one line, from which the name of its pack is
-- read.)
pub session-indexed :
    (print : IndexEntry → Bytes) (elsewhere : List Bytes → Bytes → Bool) (r : Repo)
    (bins : List (Calls × List CommitObject)) (k : ℕ) (base : Bytes)
    → PrintsPack print
    → Reach print elsewhere r
    → has (indexed_packs r) base ≡ true
    → has (indexed_packs (session print elsewhere r bins k)) base ≡ true
unfolding session
session-indexed print elsewhere r bins k base prints reach e =
    let (tail, h) = Reach-IsConsistent print elsewhere r prints reach in
    let start = recover elsewhere r in
    let clean = recover-IsConsistent r tail h elsewhere in
    let still : has (indexed_packs start.0) base ≡ true =
      ap (λ ns. has ns base) (recover-indexed_packs r tail h elsewhere) ∙ e in
    let es = take k (write_packs print (next_pack_number (some start.0.packs)) bins).0 in
    let (tail', h') =
      write_packs-IsSafe print prints start.0 (next_pack_number (some start.0.packs)) bins clean
        k in
    elim (Bool-cases start.1) [
      | inl f ↦ rw f (run-indexed start.0 es tail' base clean h' still)
      | inr f ↦ rw f still
    ]
