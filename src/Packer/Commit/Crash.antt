-- ===== src/Packer/Commit/Crash.antt =====
-- The invariant of a repository, and how the effects of a run keep it.
use tarpack.Checksum.Lines.{NoNewline, IsLine, joined_lines}
use tarpack.Packer.Commit.{Repo, Effect, apply, run, content}
use tarpack.Packer.Commit.Effects.{IsQuiet, run-has}
use tarpack.Packer.Commit.Lines.{Names, Names-map}
use tarpack.Packer.Recovery.Sweep.{has, pack_of_line}
use tarpack.Packer.Recovery.Sweep.Survivors.{archive, manifest, archive-no_part, manifest-no_part}
use tarpack.Prelude.{
  ◌≡◌, refl, sym, ap, ◌∙◌, true, List, [], ◌∷◌, ◌++◌, All, Bytes, subst, append_assoc, append_nil,
  map,
}

abbrev pub HasFiles : List Bytes → Bytes → Type 0
HasFiles packs base = (has packs (archive base) ≡ true) × (has packs (manifest base) ≡ true)

-- The index is `rows` and the bytes `tail` of a torn line, and the packs that the rows name have
-- their files.
pub record IsConsistent (r : Repo) (tail : Bytes) : Type 0 where
  pub rows : List Bytes
  pub complete : All IsLine rows
  pub torn : NoNewline tail
  pub split : content r.index ≡ joined_lines rows ++ tail
  pub named : All (λ l. Names (HasFiles r.packs) (pack_of_line l)) rows

pub named_later :
    (packs packs' : List Bytes) (rows : List Bytes)
    → ((b : Bytes) → HasFiles packs b → HasFiles packs' b)
    → All (λ l. Names (HasFiles packs) (pack_of_line l)) rows
    → All (λ l. Names (HasFiles packs') (pack_of_line l)) rows
named_later packs packs' [] f h = tt
named_later packs packs' (l ∷ rows) f (hl, h) = (
  Names-map (HasFiles packs) (HasFiles packs') (pack_of_line l) f hl,
  named_later packs packs' rows f h,
)

content_quiet : (r : Repo) (e : Effect) → IsQuiet e → content (apply r e).index ≡ content r.index
unfolding apply
content_quiet r (Effect.create x) q = refl
content_quiet r (Effect.move x z) q = refl
content_quiet r (Effect.remove x) q = refl
content_quiet r Effect.touch_sums q = refl
content_quiet r (Effect.put_sums b) q = refl
content_quiet r Effect.touch_index q = refl
content_quiet r (Effect.put_index b) q = elim q [ ]

pub run-HasFiles :
    (r : Repo) (es : List Effect) (b : Bytes)
    → All IsQuiet es
    → HasFiles r.packs b
    → HasFiles (run r es).packs b
run-HasFiles r es b q (ha, hm) = (
  run-has r es (archive b) q (archive-no_part b) ha,
  run-has r es (manifest b) q (manifest-no_part b) hm,
)

pub content-run :
    (r : Repo) (es : List Effect) → All IsQuiet es → content (run r es).index ≡ content r.index
unfolding run
content-run r [] q = refl
content-run r (e ∷ es) (qe, q) = content-run (apply r e) es q ∙ content_quiet r e qe

pub run-IsConsistent :
    (r : Repo) (es : List Effect) (tail : Bytes)
    → All IsQuiet es
    → IsConsistent r tail
    → IsConsistent (run r es) tail
run-IsConsistent r es tail q h = record {
  rows = h.rows;
  complete = h.complete;
  torn = h.torn;
  split = content-run r es q ∙ h.split;
  named = named_later r.packs (run r es).packs h.rows (λ b. run-HasFiles r es b q) h.named;
}

pub content-put :
    (r : Repo) (s : Bytes) → content (run r (map Effect.put_index s)).index ≡ content r.index ++ s
unfolding run apply
content-put r [] = sym (append_nil (content r.index))
content-put r (b ∷ s) =
    content-put (apply r (Effect.put_index b)) s ∙ append_assoc (content r.index) (b ∷ []) s

pub packs-put : (r : Repo) (s : Bytes) → (run r (map Effect.put_index s)).packs ≡ r.packs
unfolding run apply
packs-put r [] = refl
packs-put r (b ∷ s) = packs-put (apply r (Effect.put_index b)) s

pub NoNewline-append : (s t : Bytes) → NoNewline s → NoNewline t → NoNewline (s ++ t)
NoNewline-append [] t hs ht = ht
NoNewline-append (c ∷ s) t (hc, hs) ht = (hc, NoNewline-append s t hs ht)

-- Bytes of a line that is not complete yet.
pub put_line-IsConsistent :
    (r : Repo) (s tail : Bytes)
    → NoNewline s
    → IsConsistent r tail
    → IsConsistent (run r (map Effect.put_index s)) (tail ++ s)
put_line-IsConsistent r s tail clean h = record {
  rows = h.rows;
  complete = h.complete;
  torn = NoNewline-append tail s h.torn clean;
  split = content-put r s ∙ ap (λ t. t ++ s) h.split ∙ append_assoc (joined_lines h.rows) tail s;
  named =
      named_later r.packs (run r (map Effect.put_index s)).packs h.rows
        (λ b f. subst (λ ps. HasFiles ps b) (sym (packs-put r s)) f) h.named;
}

joined_lines-snoc :
    (ls : List Bytes) (l : Bytes) → joined_lines (ls ++ l ∷ []) ≡ joined_lines ls ++ l
unfolding joined_lines
joined_lines-snoc [] l = append_nil l
joined_lines-snoc (k ∷ ls) l =
    ap (λ t. k ++ t) (joined_lines-snoc ls l) ∙ sym (append_assoc k (joined_lines ls) l)

All-snoc :
    {A : Type 0} → (P : A → Type 0) (xs : List A) (x : A) → All P xs → P x → All P (xs ++ x ∷ [])
All-snoc P [] x h hx = (hx, tt)
All-snoc P (y ∷ xs) x (hy, h) hx = (hy, All-snoc P xs x h hx)

-- The newline that completes a line.
pub put_newline-IsConsistent :
    (r : Repo) (tail : Bytes)
    → Names (HasFiles r.packs) (pack_of_line (tail ++ 10 ∷ []))
    → IsConsistent r tail
    → IsConsistent (apply r (Effect.put_index 10)) []
unfolding apply
put_newline-IsConsistent r tail name h = record {
  rows = h.rows ++ (tail ++ 10 ∷ []) ∷ [];
  complete = All-snoc IsLine h.rows (tail ++ 10 ∷ []) h.complete (tail, refl, h.torn);
  torn = tt;
  split =
      ap (λ t. t ++ 10 ∷ []) h.split
      ∙ append_assoc (joined_lines h.rows) tail (10 ∷ [])
      ∙ sym (joined_lines-snoc h.rows (tail ++ 10 ∷ []))
      ∙ sym (append_nil (joined_lines (h.rows ++ (tail ++ 10 ∷ []) ∷ [])));
  named =
      All-snoc (λ l. Names (HasFiles r.packs) (pack_of_line l)) h.rows (tail ++ 10 ∷ []) h.named
        name;
}
