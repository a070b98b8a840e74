-- ===== src/Util/Base64.antt =====
-- `tp_base64_encode` of src/util.c, and the three decoders of the program: `b64_decode` of
-- src/packer.c, `base64_decode` of src/manifest.c and the decoder inside `load_line_cb` of
-- src/index.c. Shifts and masks of disjoint bits are written as sums and remainders.
pub mod Digits
pub mod Chunks
pub mod RoundTrip
pub mod Agreement
mod Tests
use tarpack.Prelude.{
  ◌>>=◌, ℕ, ◌+◌, ◌-◌, ◌*◌, ◌/◌, ◌%◌, ◌^◌, ◌&&◌, not, Option, none, some, [], ◌∷◌, ◌++◌, leb, ◌==◌,
  if◌then◌else◌, length, take, get_or, Bytes, codes,
}

-- `table`
abbrev pub table : Bytes
table = codes "ABCDEFGHIJKLMNOPQRSTUVWXYZabcdefghijklmnopqrstuvwxyz0123456789+/"

-- `table[v & 0x3F]`
unfoldable pub digit : ℕ → ℕ
digit v = get_or table (v % 64) 0

-- The loop over three bytes at a time and the two shapes of the remainder.
unfoldable pub base64_encode : Bytes → Bytes
base64_encode (a ∷ b ∷ c ∷ rest) =
    let v = a * 2 ^ 16 + b * 2 ^ 8 + c in
    digit (v / 2 ^ 18) ∷ digit (v / 2 ^ 12) ∷ digit (v / 2 ^ 6) ∷ digit v ∷ base64_encode rest
base64_encode (a ∷ b ∷ []) =
    let v = a * 2 ^ 16 + b * 2 ^ 8 in
    digit (v / 2 ^ 18) ∷ digit (v / 2 ^ 12) ∷ digit (v / 2 ^ 6) ∷ b'=' ∷ []
base64_encode (a ∷ []) =
    let v = a * 2 ^ 16 in digit (v / 2 ^ 18) ∷ digit (v / 2 ^ 12) ∷ b'=' ∷ b'=' ∷ []
base64_encode [] = []

-- `b64_val` of src/packer.c and `base64_decode_char` of src/manifest.c; `none` is -1.
unfoldable pub b64_val : ℕ → Option ℕ
b64_val c =
    if leb b'A' c && leb c b'Z'
    then some (c - b'A')
    else if leb b'a' c && leb c b'z'
    then some (c - b'a' + 26)
    else if leb b'0' c && leb c b'9'
    then some (c - b'0' + 52)
    else if c == b'+'
    then some 62
    else if c == b'/'
    then some 63
    else none

-- A character that may be padding.
unfoldable pub b64_val_pad : ℕ → Option ℕ
b64_val_pad c = if c == b'=' then some 0 else b64_val c

abbrev pub join : ℕ → ℕ → ℕ → ℕ → ℕ
join v0 v1 v2 v3 = v0 * 2 ^ 18 + v1 * 2 ^ 12 + v2 * 2 ^ 6 + v3

-- One round of `b64_decode`: always three bytes.
unfoldable pub packer_chunk : ℕ → ℕ → ℕ → ℕ → Option Bytes
packer_chunk c0 c1 c2 c3 = do
  v0 ← b64_val c0
  v1 ← b64_val c1
  v2 ← b64_val_pad c2
  v3 ← b64_val_pad c3
  let triple = join v0 v1 v2 v3
  some ((triple / 2 ^ 16) % 256 ∷ (triple / 2 ^ 8) % 256 ∷ triple % 256 ∷ [])

-- What the other two decoders write: no byte for a padding character.
unfoldable pub unpadded : ℕ → ℕ → ℕ → Bytes
unpadded c2 c3 v =
    (v / 2 ^ 16) % 256
    ∷ ((if c2 == b'=' then [] else (v / 2 ^ 8) % 256 ∷ [])
        ++ (if c3 == b'=' then [] else v % 256 ∷ []))

-- One round of `base64_decode`.
unfoldable pub manifest_chunk : ℕ → ℕ → ℕ → ℕ → Option Bytes
manifest_chunk c0 c1 c2 c3 = do
  v0 ← b64_val c0
  v1 ← b64_val c1
  v2 ← b64_val_pad c2
  v3 ← b64_val_pad c3
  some (unpadded c2 c3 (join v0 v1 v2 v3))

-- One round of the decoder in `load_line_cb`: padding counts as 0 at every place.
unfoldable pub index_chunk : ℕ → ℕ → ℕ → ℕ → Option Bytes
index_chunk c0 c1 c2 c3 = do
  v0 ← b64_val_pad c0
  v1 ← b64_val_pad c1
  v2 ← b64_val_pad c2
  v3 ← b64_val_pad c3
  some (unpadded c2 c3 (join v0 v1 v2 v3))

-- The loop over four characters at a time. Its callers have tested that their number is a multiple
-- of four.
unfoldable pub decode_chunks : (ℕ → ℕ → ℕ → ℕ → Option Bytes) → Bytes → Option Bytes
decode_chunks chunk (c0 ∷ c1 ∷ c2 ∷ c3 ∷ rest) = do
  out ← chunk c0 c1 c2 c3
  more ← decode_chunks chunk rest
  some (out ++ more)
decode_chunks chunk [] = some []
decode_chunks chunk _ = none

-- `pad`: how many of the last two characters are '='.
unfoldable pub pad : Bytes → ℕ
pad s =
    let len = length s in
    (if leb 1 len && get_or s (len - 1) 0 == b'=' then 1 else 0)
    + (if leb 2 len && get_or s (len - 2) 0 == b'=' then 1 else 0)

-- `b64_decode` of src/packer.c.
unfoldable pub b64_decode : Bytes → Option Bytes
b64_decode s =
    if not (length s % 4 == 0)
    then none
    else (do out ← decode_chunks packer_chunk s; some (take (length out - pad s) out))

-- `base64_decode` of src/manifest.c.
unfoldable pub base64_decode : Bytes → Option Bytes
base64_decode s =
    if length s == 0
    then some []
    else if not (length s % 4 == 0)
    then none
    else decode_chunks manifest_chunk s

-- The decoder of "path_b64" in `load_line_cb` of src/index.c.
unfoldable pub decode_path_b64 : Bytes → Option Bytes
decode_path_b64 s = if not (length s % 4 == 0) then none else decode_chunks index_chunk s
