-- ===== src/Util/Base64/Digits.antt =====
-- The 64 digits, and the words that they spell.
use native.Mathlib.Decide.{ℕ_discrete}
use tarpack.Prelude.{
  ℕ, zero, suc, ◌%◌, ◌<◌, ◌≡◌, refl, Bool, true, false, ◌&&◌, not, none, some, arith, ◌==◌, ◌/◌,
  ◌^◌, ap, subst, get_or, ◌+◌, ◌≤◌, &&-elim,
}
use tarpack.Util.Base64.{digit, b64_val, b64_val_pad, join, table}

-- A check of every value of six bits.
-- The test holds of the `count` numbers from `start` on.
each_from : (ℕ → Bool) → ℕ → ℕ → Bool
each_from test start zero = true
each_from test start (suc count) = test start && each_from test (start + 1) count

each_from_lem :
    (test : ℕ → Bool) (start count v : ℕ)
    → each_from test start count ≡ true
    → start ≤ v
    → v < start + count
    → test v ≡ true
unfolding each_from
each_from_lem test start zero v checked low high = absurd (omega arith)
each_from_lem test start (suc count) v checked low high =
    let (here, later) = &&-elim (test start) (each_from test (start + 1) count) checked in
    elim (ℕ_discrete start v) [
      | yes e ↦ subst (λ k. test k ≡ true) e here
      | no ne ↦ each_from_lem test (start + 1) count v later (omega arith) (omega arith)
    ]

-- The digit of `x` has the value `x`, and is no padding.
is_read_back : ℕ → Bool
is_read_back x = elim (b64_val (digit x)) [
  | none ↦ false
  | some v ↦ v == x && not (digit x == b'=')
]

digit_table : each_from is_read_back 0 64 ≡ true
unfolding each_from is_read_back digit b64_val
digit_table = refl

digit_lem : (x : ℕ) → x < 64 → (b64_val (digit x) ≡ some x) × ((digit x == b'=') ≡ false)
digit_lem x lt =
    let h = each_from_lem is_read_back 0 64 x digit_table (omega arith) (omega arith) in
    unfold is_read_back in ground arith

digit_mod : (v : ℕ) → digit (v % 64) ≡ digit v
unfolding digit
digit_mod v = let e : v % 64 % 64 ≡ v % 64 = omega arith in ap (λ t. get_or table t 0) e

pub digit_val : (v : ℕ) → b64_val (digit v) ≡ some (v % 64)
digit_val v =
    subst (λ t. b64_val t ≡ some (v % 64)) (digit_mod v) (digit_lem (v % 64) (omega arith)).0

pub digit_pad : (v : ℕ) → (digit v == b'=') ≡ false
digit_pad v = subst (λ t. (t == b'=') ≡ false) (digit_mod v) (digit_lem (v % 64) (omega arith)).1

-- A digit at a place that may hold padding.
pub digit_val_pad : (v : ℕ) → b64_val_pad (digit v) ≡ some (v % 64)
unfolding b64_val_pad
digit_val_pad v = rw (digit_pad v) (digit_val v)

-- The digits of 24 bits put them together again.
pub join_digits :
    (v : ℕ) → v < 2 ^ 24 → join (v / 2 ^ 18 % 64) (v / 2 ^ 12 % 64) (v / 2 ^ 6 % 64) (v % 64) ≡ v
join_digits v h = omega arith

-- The same where the last digits are padding.
pub join_two :
    (v : ℕ)
    → v < 2 ^ 24
    → v % 2 ^ 8 ≡ 0
    → join (v / 2 ^ 18 % 64) (v / 2 ^ 12 % 64) (v / 2 ^ 6 % 64) 0 ≡ v
join_two v h e = omega arith

pub join_one :
    (v : ℕ) → v < 2 ^ 24 → v % 2 ^ 16 ≡ 0 → join (v / 2 ^ 18 % 64) (v / 2 ^ 12 % 64) 0 0 ≡ v
join_one v h e = omega arith
