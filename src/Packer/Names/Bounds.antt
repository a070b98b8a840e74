-- ===== src/Packer/Names/Bounds.antt =====
-- The numbers that are read from names are values of an unsigned long.
use tarpack.Packer.Names.{
  scan_digits, is_decimal, scan_number, scan_signed, scan_ulong, negated, skip_spaces, pack_number,
  ulong_mod, best_of, best_number, after_prefix, scan_word,
}
use tarpack.Prelude.{
  ℕ, zero, suc, ◌+◌, ◌-◌, ◌*◌, ◌≤◌, ◌<◌, ◌≡◌, inl, inr, Option, none, some, List, [], ◌∷◌, arith,
  ltb, ◌==◌, Bytes, Bool-cases, Option-cases, true, codes, str_eq, subst,
}

-- `val` followed by `width` nines.
unfoldable nines : ℕ → ℕ → ℕ
nines zero val = val
nines (suc width) val = nines width (val * 10 + 9)

nines_mono : (width : ℕ) {a b : ℕ} → a ≤ b → nines width a ≤ nines width b
unfolding nines
nines_mono zero h = h
nines_mono (suc width) h = nines_mono width (omega arith)

nines-bound : (width val : ℕ) → val ≤ nines width val
unfolding nines
nines-bound zero val = omega arith
nines-bound (suc width) val = omega (arith, nines-bound width (val * 10 + 9))

decimal_digit : (c : ℕ) → is_decimal c ≡ true → c - b'0' ≤ 9
unfolding is_decimal
decimal_digit c e = ground arith

scan_digits-nines : (width val : ℕ) (s : Bytes) → (scan_digits width val s).0 ≤ nines width val
unfolding scan_digits nines
scan_digits-nines zero val s = omega arith
scan_digits-nines (suc width) val [] = nines-bound (suc width) val
scan_digits-nines (suc width) val (c ∷ s) = elim (Bool-cases (is_decimal c)) [
  | inl e ↦ rw e (
      omega (
        arith,
        scan_digits-nines width (val * 10 + (c - 48)) s,
        nines_mono width {a = val * 10 + (c - 48)} {b = val * 10 + 9}
            (omega (arith, decimal_digit c e)),
      ))
  | inr e ↦ rw e (nines-bound (suc width) val)
]

-- The value of a conversion.
abbrev IsUlong : Option (ℕ × Bytes) → Type 0
IsUlong none = Unit {0}
IsUlong (some (val, s)) = val < ulong_mod

scan_number-IsUlong :
    (width : ℕ) (s : Bytes) → nines width 0 < ulong_mod → IsUlong (scan_number width s)
unfolding scan_number nines
scan_number-IsUlong zero s h = tt
scan_number-IsUlong (suc width) [] h = tt
scan_number-IsUlong (suc width) (c ∷ s) h = elim (Bool-cases (is_decimal c)) [
  | inl e ↦ rw e (
      omega (
        arith,
        scan_digits-nines width (c - 48) s,
        nines_mono width {a = c - 48} {b = 9} (decimal_digit c e),
      ))
  | inr e ↦ rw e tt
]

negated-IsUlong : (o : Option (ℕ × Bytes)) → IsUlong (negated o)
negated-IsUlong none = tt
negated-IsUlong (some (val, s)) = omega arith

scan_signed-IsUlong : (s : Bytes) → IsUlong (scan_signed 6 s)
unfolding scan_signed nines
scan_signed-IsUlong [] = tt
scan_signed-IsUlong (c ∷ s) = elim (Bool-cases (c == b'+')) [
  | inl e ↦ rw e (scan_number-IsUlong 5 s (omega arith))
  | inr e ↦ elim (Bool-cases (c == b'-')) [
    | inl f ↦ rw (e, f) (negated-IsUlong (scan_number 5 s))
    | inr f ↦ rw (e, f) (scan_number-IsUlong 6 (c ∷ s) (omega arith))
  ]
]

abbrev IsValue : Option ℕ → Type 0
IsValue none = Unit {0}
IsValue (some n) = n < ulong_mod

pack_number-IsValue : (name : Bytes) → IsValue (pack_number name)
unfolding pack_number scan_ulong
pack_number-IsValue name = elim (Option-cases (after_prefix (codes "pack-") name)) [
  | inl e ↦ rw e tt
  | inr (s, e) ↦ elim (Option-cases (scan_signed 6 (skip_spaces s))) [
    | inl f ↦ rw (e, f) tt
    | inr ((n, rest), f) ↦
        let bound : n < ulong_mod = subst IsUlong f (scan_signed-IsUlong (skip_spaces s)) in
        elim (Bool-cases (str_eq (scan_word 15 (skip_spaces rest)) (codes ".tar.zst"))) [
          | inl g ↦ rw (e, f, g) bound
          | inr g ↦ rw (e, f, g) tt
        ]
  ]
]

pub best_number-lt_ulong :
    (best : ℕ) (names : List Bytes) → best < ulong_mod → best_number best names < ulong_mod
unfolding best_number best_of
best_number-lt_ulong best [] h = h
best_number-lt_ulong best (name ∷ names) h = elim (Option-cases (pack_number name)) [
  | inl e ↦ rw e (best_number-lt_ulong best names h)
  | inr (n, e) ↦
      let bound : n < ulong_mod = subst IsValue e (pack_number-IsValue name) in
      elim (Bool-cases (ltb best n)) [
        | inl g ↦ rw (e, g) (best_number-lt_ulong n names bound)
        | inr g ↦ rw (e, g) (best_number-lt_ulong best names h)
      ]
]
