-- ===== src/Packer/Bins/NextFit.antt =====
-- `tp_bin_assign_next_fit` of src/packer.c. `target` is the int64_t parameter, 0 standing for all that
-- is not positive. The sum of two int64_t is a pattern of 64 bits: it wraps around, as it does on
-- two's complement machines, and a pattern from 2 ^ 63 on is negative.
pub mod Places
pub mod Overflow
pub mod Capacity
pub mod Count
mod Tests
use tarpack.Prelude.{
  ℕ, ◌+◌, ◌-◌, Bool, true, false, not, ◌||◌, Option, none, some, List, [], ◌∷◌, ltb, ◌==◌,
  if◌then◌else◌, ◌%◌, ◌^◌, ◌&&◌,
}
use tarpack.Packer.Bins.{BinItem}

-- The variables of the loop.
pub record State : Type 0 where
  pub bin_count : ℕ
  pub have_current : Bool
  pub current_used : ℕ

abbrev pub init : State
init = record { bin_count = 0; have_current = false; current_used = 0 }

-- `a + b` on int64_t.
unfoldable pub add_int64 : ℕ → ℕ → ℕ
add_int64 a b = (a + b) % 2 ^ 64

-- `u > target`, for a `target` that is not negative.
unfoldable pub exceeds : ℕ → ℕ → Bool
exceeds target u = ltb u (2 ^ 63) && ltb target u

-- One round: the new state, and what is written to `bin_out[i]`.
unfoldable pub place : ℕ → State → ℕ → State × ℕ
place target s cost =
    if ltb target cost
    then (
      record { bin_count = s.bin_count + 1; have_current = false; current_used = 0 },
      s.bin_count,
    )
    else if not s.have_current || exceeds target (add_int64 s.current_used cost)
    then (
      record { bin_count = s.bin_count + 1; have_current = true; current_used = cost },
      s.bin_count,
    )
    else (record s { current_used = add_int64 s.current_used cost }, s.bin_count - 1)

-- The loop: the state behind it, and `bin_out`.
unfoldable pub loop : ℕ → State → List BinItem → State × List ℕ
loop target s [] = (s, [])
loop target s (i ∷ items) =
    let (s', b) = place target s i.cost in let (s'', bins) = loop target s' items in (s'', b ∷ bins)

-- `none` is the return value -1; otherwise the number of bins and `bin_out`.
unfoldable pub assign_next_fit : List BinItem → ℕ → Option (ℕ × List ℕ)
unfolding place loop
assign_next_fit items target =
    if target == 0 then none else let (s, bins) = loop target init items in some (s.bin_count, bins)
