-- ===== src/Upload/Paths.antt =====
-- The paths on the command lines.
use tarpack.Upload.{strip_slashes, join_path}
use tarpack.Prelude.{
  ℕ, zero, suc, ◌≡◌, ◌≢◌, ◌∷◌, ◌++◌, arith, replicate, Bytes, refl, ap, ◌∙◌, [], append_assoc,
}
use mathlib.Core.List.{reverse, reverse-append, reverse-cons, reverse-reverse}

strip_slashes-replicate :
    (k c : ℕ) (s : Bytes) → c ≢ 47 → strip_slashes (replicate k 47 ++ c ∷ s) ≡ c ∷ s
unfolding strip_slashes
strip_slashes-replicate zero c s h = ground arith
strip_slashes-replicate (suc k) c s h = strip_slashes-replicate k c s h

abbrev slashes : ℕ → Bytes
slashes k = replicate k 47

slashes-snoc : (k : ℕ) → slashes k ++ 47 ∷ [] ≡ 47 ∷ slashes k
slashes-snoc zero = refl
slashes-snoc (suc k) = ap (◌∷◌ 47) (slashes-snoc k)

reverse-slashes : (k : ℕ) → reverse (slashes k) ≡ slashes k
reverse-slashes zero = refl
reverse-slashes (suc k) =
    reverse-cons 47 (slashes k) ∙ ap (λ l. l ++ 47 ∷ []) (reverse-slashes k) ∙ slashes-snoc k

-- A directory that ends in a byte `c` other than a slash is joined with one slash, however many
-- slashes follow it.
pub join_path-trailing :
    (base : Bytes) (c k : ℕ) (subdir : Bytes)
    → c ≢ 47
    → join_path (base ++ c ∷ replicate k 47) subdir ≡ base ++ c ∷ 47 ∷ subdir
unfolding join_path
join_path-trailing base c k subdir h =
    rw
      (
        reverse-append base (c ∷ replicate k 47),
        reverse-cons c (replicate k 47),
        reverse-slashes k,
        append_assoc (replicate k 47) (c ∷ []) (reverse base),
        strip_slashes-replicate k c (reverse base) h,
        reverse-cons c (reverse base),
        reverse-reverse base,
      )
      (append_assoc base (c ∷ []) (47 ∷ subdir))
