-- ===== src/Checksum.antt =====
-- checksums/SHA256SUMS (src/checksum.c): reading its lines, appending one, and the rewriting of
-- src/packer.c (`rewrite_checksums_filtered`) that drops the lines of files that are gone. A missing
-- file is none. The file functions succeed; SHA-256 itself is not modelled.
pub mod Lines
pub mod Append
pub mod Rewrite
pub mod Torn
mod Tests
use tarpack.Prelude.{
  ◌>>=◌, ℕ, ◌+◌, ◌-◌, ◌*◌, ◌/◌, Bool, ◌||◌, not, Option, none, some, List, [], ◌∷◌, ◌++◌, ltb, leb,
  ◌==◌, if◌then◌else◌, length, take, drop, get_or, Bytes, c_string, lines,
}
use mathlib.Core.List.{reverse}

-- `struct tp_checksums_line_entry`
pub record LineEntry : Type 0 where
  pub sha256_hex : Bytes
  pub relpath : Bytes

-- The loop that cuts newlines and carriage returns off, on the bytes from right to left.
unfoldable pub strip_ends : Bytes → Bytes
strip_ends [] = []
strip_ends (c ∷ s) = let rest = strip_ends s in if c == 10 || c == 13 then rest else c ∷ s

unfoldable pub trim_line : Bytes → Bytes
trim_line line = reverse (strip_ends (reverse line))

-- A trimmed line that is not empty.
unfoldable pub parse_line : Bytes → Option LineEntry
parse_line line =
    if ltb (length line) (64 + 2 + 1)
      || (not (get_or line 64 0 == 32) || not (get_or line 65 0 == 32))
    then none
    else some (record { sha256_hex = c_string (take 64 line); relpath = c_string (drop 66 line) })

-- The loop over the lines.
unfoldable pub read_lines : List Bytes → Option (List LineEntry)
read_lines [] = some []
read_lines (l ∷ ls) =
    let line = trim_line l in
    let rest = read_lines ls in
    if length line == 0 then rest else (do e ← parse_line line; es ← rest; some (e ∷ es))

-- `tp_checksums_read`
unfoldable pub checksums_read : Option Bytes → Option (List LineEntry)
checksums_read none = some []
checksums_read (some file) = read_lines (lines file)

abbrev pub path_max : ℕ
path_max = 4096

-- The format "%s  %s\n".
unfoldable pub line_of : LineEntry → Bytes
line_of e = e.sha256_hex ++ (32 ∷ 32 ∷ (e.relpath ++ 10 ∷ []))

-- `tp_checksums_append`: what the file holds afterwards.
unfoldable pub checksums_append : Option Bytes → LineEntry → Option Bytes
checksums_append file e =
    if leb (path_max + 128) (length (line_of e))
    then none
    else some (elim file [ none ↦ line_of e | some s ↦ s ++ line_of e ])

-- The entries whose file `exists` finds.
unfoldable pub kept : (Bytes → Bool) → List LineEntry → List LineEntry
kept exists [] = []
kept exists (e ∷ es) = let rest = kept exists es in if exists e.relpath then e ∷ rest else rest

-- The loop that prints the lines into `buf`, which has room for `room` bytes and a terminator.
unfoldable pub print_lines : ℕ → List LineEntry → Option Bytes
print_lines room [] = some []
print_lines room (e ∷ es) =
    let line = line_of e in
    if leb room (length line)
    then none
    else (do rest ← print_lines (room - length line) es; some (line ++ rest))

-- The rest of `rewrite_checksums_filtered` for entries that were read.
unfoldable pub rewrite_kept : Option Bytes → List LineEntry → List LineEntry → Option (Option Bytes)
rewrite_kept file entries keep =
    if length keep == length entries
    then some file
    else (do buf ← print_lines (length keep * (64 + 2 + path_max / 4) + 1) keep; some (some buf))

-- `rewrite_checksums_filtered`: the file behind it, or none where it returns -1.
unfoldable pub rewrite_checksums_filtered : (Bytes → Bool) → Option Bytes → Option (Option Bytes)
rewrite_checksums_filtered exists file = do
  entries ← checksums_read file
  rewrite_kept file entries (kept exists entries)
