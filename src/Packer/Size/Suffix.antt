-- ===== src/Packer/Size/Suffix.antt =====
-- The suffix letter of `tp_parse_size`, its factor, and the overflow tests on the product.
use tarpack.Prelude.{
  ℕ, ◌+◌, ◌*◌, ◌≤◌, ◌<◌, ◌≡◌, ◌⊎◌, inl, inr, true, false, some, [], ◌∷◌, Bytes, arith,
}
use tarpack.Packer.Size.Digits.{IsDigit}
use tarpack.Packer.Size.{uint64_max, int64_max, is_letter, suffix_of, multiplier, scale}

-- The suffixes of the --target-size argument and their factors.
pub data IsUnit : Bytes → ℕ → Type 0 where
  bytes : IsUnit [] 1
  kibi : (c : ℕ) → (c ≡ b'K') ⊎ (c ≡ b'k') → IsUnit (c ∷ []) 1024
  mebi : (c : ℕ) → (c ≡ b'M') ⊎ (c ≡ b'm') → IsUnit (c ∷ []) 1048576
  gibi : (c : ℕ) → (c ≡ b'G') ⊎ (c ≡ b'g') → IsUnit (c ∷ []) 1073741824

-- The factor of the suffix letter, for each case of the `switch`.
abbrev pub UnitCase : ℕ → ℕ → Type 0
UnitCase last m =
    (is_letter last ≡ false) × (m ≡ 1) ⊎ (is_letter last ≡ true) × IsUnit (last ∷ []) m

pub multiplier_cases :
    (k m : ℕ)
    → multiplier k ≡ some m
    → (k ≡ 0) × (m ≡ 1)
      ⊎ ((k ≡ b'K') × (m ≡ 1024) ⊎ ((k ≡ b'M') × (m ≡ 1048576) ⊎ (k ≡ b'G') × (m ≡ 1073741824)))
unfolding multiplier
multiplier_cases k m h = ground arith

pub suffix_of_letter :
    (last k : ℕ)
    → suffix_of last ≡ k
    → 0 < k
    → (is_letter last ≡ true) × ((last ≡ k) ⊎ (last ≡ k + 32))
unfolding suffix_of
suffix_of_letter last k e h = ground arith

pub suffix_of_zero : (last : ℕ) → suffix_of last ≡ 0 → is_letter last ≡ false
unfolding suffix_of
suffix_of_zero last e = ground arith

pub multiplier-suffix_of : (last m : ℕ) → multiplier (suffix_of last) ≡ some m → UnitCase last m
multiplier-suffix_of last m h = elim (multiplier_cases (suffix_of last) m h) [
  | inl (k, e) ↦ inl (suffix_of_zero last k, e)
  | inr (inl (k, e)) ↦
      let (letter, which) = suffix_of_letter last _ k (omega arith) in
      inr (letter, rw e (kibi last which))
  | inr (inr (inl (k, e))) ↦
      let (letter, which) = suffix_of_letter last _ k (omega arith) in
      inr (letter, rw e (mebi last which))
  | inr (inr (inr (k, e))) ↦
      let (letter, which) = suffix_of_letter last _ k (omega arith) in
      inr (letter, rw e (gibi last which))
]

pub scale_lem :
    (val m n : ℕ) {s : Bytes} → IsUnit s m → scale val m ≡ some n → (n ≡ val * m) × (n ≤ int64_max)
unfolding scale
scale_lem val _ n bytes h = ground arith
scale_lem val _ n (kibi c e) h = ground arith
scale_lem val _ n (mebi c e) h = ground arith
scale_lem val _ n (gibi c e) h = ground arith

pub scale_complete :
    (val m : ℕ) {s : Bytes} → IsUnit s m → val * m ≤ int64_max → scale val m ≡ some (val * m)
unfolding scale
scale_complete val _ bytes h = ground arith
scale_complete val _ (kibi c e) h = ground arith
scale_complete val _ (mebi c e) h = ground arith
scale_complete val _ (gibi c e) h = ground arith

pub le-uint64_max : (v m : ℕ) {u : Bytes} → IsUnit u m → v * m ≤ int64_max → v ≤ uint64_max
le-uint64_max v _ bytes h = omega arith
le-uint64_max v _ (kibi c e) h = omega arith
le-uint64_max v _ (mebi c e) h = omega arith
le-uint64_max v _ (gibi c e) h = omega arith

module _ (c : ℕ) where
  pub multiplier_kibi : (c ≡ b'K') ⊎ (c ≡ b'k') → multiplier (suffix_of c) ≡ some 1024
  unfolding multiplier suffix_of
  multiplier_kibi e = ground arith

  pub multiplier_mebi : (c ≡ b'M') ⊎ (c ≡ b'm') → multiplier (suffix_of c) ≡ some 1048576
  unfolding multiplier suffix_of
  multiplier_mebi e = ground arith

  pub multiplier_gibi : (c ≡ b'G') ⊎ (c ≡ b'g') → multiplier (suffix_of c) ≡ some 1073741824
  unfolding multiplier suffix_of
  multiplier_gibi e = ground arith

  pub multiplier_digit : IsDigit c → multiplier (suffix_of c) ≡ some 1
  unfolding multiplier suffix_of
  multiplier_digit h = ground arith
