-- ===== src/Packer/Size/Digits.antt =====
-- The two loops of `tp_parse_size` over the digits.
use tarpack.Prelude.{ℕ, ◌+◌, ◌-◌, ◌*◌, ◌≤◌, ◌≡◌, refl, true, some, [], ◌∷◌, Bytes, All, arith}
use tarpack.Packer.Size.{uint64_max, all_digits, parse_digits}

abbrev pub IsDigit : ℕ → Type 0
IsDigit c = (b'0' ≤ c) × (c ≤ b'9')

-- The number that the digits spell behind `val`, with no bound.
unfoldable pub value : ℕ → Bytes → ℕ
value val [] = val
value val (c ∷ s) = value (val * 10 + (c - b'0')) s

pub all_digits-All : (s : Bytes) → all_digits s ≡ true → All IsDigit s
unfolding all_digits
all_digits-All [] h = tt
all_digits-All (c ∷ s) h = ground (arith, all_digits-All s)

pub All-all_digits : (s : Bytes) → All IsDigit s → all_digits s ≡ true
unfolding all_digits
All-all_digits [] h = refl
All-all_digits (c ∷ s) h = ground (arith, All-all_digits s h.1)

pub parse_digits_sound :
    (s : Bytes) (val r : ℕ)
    → val ≤ uint64_max
    → All IsDigit s
    → parse_digits val s ≡ some r
    → (r ≡ value val s) × (r ≤ uint64_max)
unfolding parse_digits value
parse_digits_sound [] val r b d h = ground arith
parse_digits_sound (c ∷ s) val r b d h =
    ground (arith, parse_digits_sound s (val * 10 + (c - b'0')) r)

pub le-value : (s : Bytes) (val : ℕ) → val ≤ value val s
unfolding value
le-value [] val = omega arith
le-value (c ∷ s) val = omega (arith, le-value s (val * 10 + (c - b'0')))

pub parse_digits_complete :
    (s : Bytes) (val : ℕ)
    → All IsDigit s
    → value val s ≤ uint64_max
    → parse_digits val s ≡ some (value val s)
unfolding parse_digits value
parse_digits_complete [] val d h = refl
parse_digits_complete (c ∷ s) val d h =
    let next = val * 10 + (c - b'0') in
    ground (arith, parse_digits_complete s next d.1 h, le-value s next)
