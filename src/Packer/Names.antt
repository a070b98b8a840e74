-- ===== src/Packer/Names.antt =====
-- The names of packs in src/packer.c: "pack-%06lu" with a suffix, and the formats by which
-- `next_pack_number` and `recover_crashed_state` read them. The conversions are those of sscanf.
pub mod Numbers
mod Bounds
pub mod Fresh
mod Tests
use tarpack.Prelude.{
  ℕ, ◌>>=◌, zero, suc, ◌+◌, ◌-◌, ◌*◌, ◌/◌, ◌%◌, ◌^◌, Bool, ◌&&◌, ◌||◌, Option, none, some, List, [],
  ◌∷◌, ◌++◌, ltb, leb, ◌==◌, if◌then◌else◌, Bytes, codes, str_eq,
}

-- The rest of `s` behind `key`.
unfoldable pub after_prefix : Bytes → Bytes → Option Bytes
after_prefix [] s = some s
after_prefix (k ∷ key) [] = none
after_prefix (k ∷ key) (c ∷ s) = let rest = after_prefix key s in if k == c then rest else none

-- `isspace`
unfoldable pub is_space : ℕ → Bool
is_space c = c == 32 || (leb 9 c && leb c 13)

unfoldable pub skip_spaces : Bytes → Bytes
skip_spaces [] = []
skip_spaces (c ∷ s) = let rest = skip_spaces s in if is_space c then rest else c ∷ s

unfoldable pub is_decimal : ℕ → Bool
is_decimal c = leb b'0' c && leb c b'9'

-- At most `width` digits behind the value `val`.
unfoldable pub scan_digits : ℕ → ℕ → Bytes → ℕ × Bytes
scan_digits zero val s = (val, s)
scan_digits (suc width) val [] = (val, [])
scan_digits (suc width) val (c ∷ s) =
    let rest = scan_digits width (val * 10 + (c - b'0')) s in
    if is_decimal c then rest else (val, c ∷ s)

-- Digits, of which there must be one.
unfoldable pub scan_number : ℕ → Bytes → Option (ℕ × Bytes)
scan_number zero s = none
scan_number (suc width) [] = none
scan_number (suc width) (c ∷ s) =
    if is_decimal c then some (scan_digits width (c - b'0') s) else none

abbrev pub ulong_mod : ℕ
ulong_mod = 2 ^ 64

abbrev pub negated : Option (ℕ × Bytes) → Option (ℕ × Bytes)
negated none = none
negated (some (val, s)) = some ((ulong_mod - val) % ulong_mod, s)

-- A sign takes one of the `width` characters.
unfoldable pub scan_signed : ℕ → Bytes → Option (ℕ × Bytes)
scan_signed width [] = none
scan_signed width (c ∷ s) =
    if c == b'+'
    then scan_number (width - 1) s
    else if c == b'-'
    then negated (scan_number (width - 1) s)
    else scan_number width (c ∷ s)

-- "%6lu"
unfoldable pub scan_ulong : Bytes → Option (ℕ × Bytes)
scan_ulong s = scan_signed 6 (skip_spaces s)

-- At most `width` characters that are not spaces.
unfoldable pub scan_word : ℕ → Bytes → Bytes
scan_word zero s = []
scan_word (suc width) [] = []
scan_word (suc width) (c ∷ s) = let rest = scan_word width s in if is_space c then [] else c ∷ rest

-- The number of a name that `sscanf(name, "pack-%6lu%15s", &n, suffix)` reads with the suffix
-- ".tar.zst".
unfoldable pub pack_number : Bytes → Option ℕ
pack_number name = do
  s ← after_prefix (codes "pack-") name
  (n, rest) ← scan_ulong s
  if str_eq (scan_word 15 (skip_spaces rest)) (codes ".tar.zst") then some n else none

unfoldable pub best_of : ℕ → Option ℕ → ℕ
best_of best none = best
best_of best (some n) = if ltb best n then n else best

unfoldable pub best_number : ℕ → List Bytes → ℕ
best_number best [] = best
best_number best (name ∷ names) = best_number (best_of best (pack_number name)) names

-- `next_pack_number`, for the names in the directory; none if it cannot be opened.
unfoldable pub next_pack_number : Option (List Bytes) → ℕ
next_pack_number none = 1
next_pack_number (some names) = (best_number 0 names + 1) % ulong_mod

-- Decimal digits without leading zeros; 20 rounds are enough for an unsigned long.
unfoldable pub decimal : ℕ → ℕ → Bytes
decimal zero n = []
decimal (suc f) n =
    let rest = decimal f (n / 10) in if n == 0 then [] else rest ++ (48 + n % 10) ∷ []

-- At least `width` digits.
unfoldable pub padded : ℕ → ℕ → Bytes
padded zero n = decimal 20 n
padded (suc width) n = padded width (n / 10) ++ (48 + n % 10) ∷ []

-- "pack-%06lu"
unfoldable pub pack_name : ℕ → Bytes
pack_name n = codes "pack-" ++ padded 6 n
