-- ===== src/Packer/Size.antt =====
-- `tp_parse_size` and `tp_estimate_entry_cost` of src/packer.c: the --target-size argument and the
-- estimated share of one object in the uncompressed tar stream. A C string is the list of its bytes
-- before the terminator; a byte above 127 is a negative `char` there and passes no test here either.
pub mod Digits
pub mod Suffix
pub mod Parse
pub mod Cost
mod Tests
use tarpack.Prelude.{
  ℕ, zero, suc, ◌+◌, ◌-◌, ◌*◌, ◌/◌, ◌%◌, ◌^◌, ◌&&◌, ◌||◌, Bool, true, false, not, Option, none,
  some, List, [], ◌∷◌, Bytes, length, get_or, take, ltb, leb, ◌==◌, if◌then◌else◌,
}

abbrev pub uint64_max : ℕ
uint64_max = 2 ^ 64 - 1

abbrev pub int64_max : ℕ
int64_max = 2 ^ 63 - 1

abbrev pub is_lower : ℕ → Bool
is_lower c = leb b'a' c && leb c b'z'

abbrev pub is_letter : ℕ → Bool
is_letter c = is_lower c || leb b'A' c && leb c b'Z'

abbrev pub is_digit : ℕ → Bool
is_digit c = not (ltb c b'0' || ltb b'9' c)

-- The suffix letter in upper case; 0 is the '\0' that stands for no suffix.
unfoldable pub suffix_of : ℕ → ℕ
suffix_of last = if is_letter last then (if is_lower last then last - b'a' + b'A' else last) else 0

-- The first loop over the digits: none is something else.
unfoldable pub all_digits : Bytes → Bool
all_digits [] = true
all_digits (c ∷ s) = is_digit c && all_digits s

-- The second loop: `val` is a uint64_t, and the test comes before the product.
unfoldable pub parse_digits : ℕ → Bytes → Option ℕ
parse_digits val [] = some val
parse_digits val (c ∷ s) =
    let d = c - b'0' in
    if ltb ((uint64_max - d) / 10) val then none else parse_digits ((val * 10 + d) % 2 ^ 64) s

-- The `switch` on the suffix.
unfoldable pub multiplier : ℕ → Option ℕ
multiplier suffix =
    if suffix == 0
    then some 1
    else if suffix == b'K'
    then some 1024
    else if suffix == b'M'
    then some (1024 * 1024)
    else if suffix == b'G'
    then some (1024 * 1024 * 1024)
    else none

-- The two overflow tests behind the `switch`.
unfoldable pub scale : ℕ → ℕ → Option ℕ
scale val m =
    if ltb (int64_max / m) val
    then none
    else let result = val * m % 2 ^ 64 in if ltb int64_max result then none else some result

abbrev pub bind {ℓ κ} : {A : Type ℓ} {B : Type κ} → Option A → (A → Option B) → Option B
bind none f = none
bind (some a) f = f a

-- `s[len - 1]`
unfoldable pub last_char : Bytes → ℕ
last_char s = get_or s (length s - 1) 0

-- The first `digits_len` bytes.
unfoldable pub digits_part : Bytes → Bytes
digits_part s = take (if is_letter (last_char s) then length s - 1 else length s) s

-- From `digits_len == 0` on.
unfoldable pub convert : Bytes → ℕ → Option ℕ
convert digits last =
    if length digits == 0
    then none
    else if not (all_digits digits)
    then none
    else bind (parse_digits 0 digits) λ val. bind (multiplier (suffix_of last)) λ m. scale val m

-- `tp_parse_size`; `none` is the return value -1, and `some n` writes n to `*out_bytes`.
unfoldable pub parse_size : Bytes → Option ℕ
unfolding last_char digits_part convert suffix_of all_digits parse_digits multiplier scale
parse_size [] = none
parse_size (c ∷ s) = convert (digits_part (c ∷ s)) (last_char (c ∷ s))

-- `tp_estimate_entry_cost`, for the sizes of regular files from 0 to 2 ^ 63 - 2561; above them its
-- int64_t sums overflow, which C does not define.
unfoldable pub estimate_entry_cost : ℕ → ℕ
estimate_entry_cost size = let data_blocks = ((size + 511) / 512) * 512 in 512 + data_blocks + 1536
