-- ===== src/Packer/Names/Fresh.antt =====
-- What `next_pack_number` returns, for the names in the directory.
use tarpack.Packer.Names.{best_of, best_number, next_pack_number, pack_number, ulong_mod}
use tarpack.Packer.Names.Numbers.{
  archive_name, pack_number-archive_name, pack_number-archive_name_seven,
}
use tarpack.Packer.Names.Bounds.{best_number-lt_ulong}
use tarpack.Prelude.{
  ℕ, zero, suc, ◌+◌, ◌%◌, ◌≤◌, ◌<◌, ◌≡◌, refl, ap, ◌≢◌, ◌∙◌, Option, none, some, List, [], ◌∷◌,
  arith, get_elem?, Bytes, some-same, none-ne,
}

best_of-bound : (best : ℕ) (o : Option ℕ) → best ≤ best_of best o
unfolding best_of
best_of-bound best none = omega arith
best_of-bound best (some n) = ground arith

best_of-some : (best n : ℕ) → n ≤ best_of best (some n)
unfolding best_of
best_of-some best n = ground arith

best_number-bound : (best : ℕ) (names : List Bytes) → best ≤ best_number best names
unfolding best_number
best_number-bound best [] = omega arith
best_number-bound best (name ∷ names) = omega (
  arith,
  best_of-bound best (pack_number name),
  best_number-bound (best_of best (pack_number name)) names,
)

best_number-get_elem? :
    (best : ℕ) (names : List Bytes) (i : ℕ) (x : Bytes) (n : ℕ)
    → get_elem? names i ≡ some x
    → pack_number x ≡ some n
    → n ≤ best_number best names
unfolding best_number
best_number-get_elem? best [] i x n e h = absurd (none-ne e)
best_number-get_elem? best (name ∷ names) zero x n e h =
    let o : pack_number name ≡ some n = ap pack_number (some-same e) ∙ h in
    let ahead : n ≤ best_of best (pack_number name) = rw o (best_of-some best n) in
    omega (arith, ahead, best_number-bound (best_of best (pack_number name)) names)
best_number-get_elem? best (name ∷ names) (suc i) x n e h =
    best_number-get_elem? (best_of best (pack_number name)) names i x n e h

below : (b : ℕ) → b < ulong_mod → 0 < (b + 1) % ulong_mod → (b + 1) % ulong_mod ≤ b → ⊥
below b bound pos h = omega arith

-- From the next number on, if that is positive, no number of at most six digits is that of an
-- archive in the directory.
pub next_pack_number-fresh :
    (names : List Bytes) (i n : ℕ)
    → 0 < next_pack_number (some names)
    → next_pack_number (some names) ≤ n
    → n < 1000000
    → get_elem? names i ≢ some (archive_name n)
unfolding next_pack_number
next_pack_number-fresh names i n pos from small e =
    let best : n ≤ best_number 0 names =
      best_number-get_elem? 0 names i (archive_name n) n e (pack_number-archive_name n small) in
    below (best_number 0 names) (best_number-lt_ulong 0 names (omega arith)) pos
      (omega (arith, best, from))

-- An archive with a number of seven digits does not count: the next number is the same as without
-- it.
pub next_pack_number-seven :
    (n : ℕ) (names : List Bytes)
    → 1000000 ≤ n
    → n < 10000000
    → next_pack_number (some (archive_name n ∷ names)) ≡ next_pack_number (some names)
unfolding next_pack_number best_number best_of
next_pack_number-seven n names lo hi = rw (pack_number-archive_name_seven n lo hi) refl
