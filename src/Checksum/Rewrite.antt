-- ===== src/Checksum/Rewrite.antt =====
-- The rewritten file holds exactly the entries whose file exists.
use tarpack.Prelude.{
  ◌+◌, ◌/◌, ◌<◌, ◌≡◌, refl, sym, ap, ◌∙◌, some, List, [], ◌∷◌, ◌++◌, map, arith, length, All,
  length-append, append_nil, Bytes, lines,
}
use tarpack.Checksum.{LineEntry, path_max, line_of, read_lines, checksums_read}
use tarpack.Checksum.Lines.{IsLine, joined_lines, lines-append}
use tarpack.Checksum.Append.{
  IsEntry, read_lines-append, read_lines-entry, text_of, text_newline, text-NoNewline,
}

-- The path leaves room for its line in the buffer.
abbrev pub IsShort : LineEntry → Type 0
IsShort e = length e.relpath < path_max / 4

abbrev pub all_lines : List LineEntry → List Bytes
all_lines es = map line_of es

all_lines-IsLine : (es : List LineEntry) → All IsEntry es → All IsLine (all_lines es)
all_lines-IsLine [] h = tt
all_lines-IsLine (e ∷ es) (he, h) = (
  (text_of e, text_newline e, text-NoNewline e.sha256_hex e.relpath he.hex_bytes he.path_bytes),
  all_lines-IsLine es h,
)

read_all_lines : (es : List LineEntry) → All IsEntry es → read_lines (all_lines es) ≡ some es
read_all_lines [] h = unfold read_lines in refl
read_all_lines (e ∷ es) (he, h) =
    read_lines-append (line_of e ∷ []) (all_lines es) (e ∷ []) es (read_lines-entry e he)
      (read_all_lines es h)

-- What was printed reads back.
pub joined-read :
    (es : List LineEntry)
    → All IsEntry es
    → checksums_read (some (joined_lines (all_lines es))) ≡ some es
unfolding checksums_read lines
joined-read es h =
    ap read_lines (
      ap lines (sym (append_nil (joined_lines (all_lines es))))
      ∙ lines-append (all_lines es) [] (all_lines-IsLine es h)
      ∙ append_nil (all_lines es))
    ∙ read_all_lines es h

pub length-line_of :
    (e : LineEntry) → length (line_of e) ≡ length e.sha256_hex + length e.relpath + 3
unfolding line_of
length-line_of e = omega (
  arith,
  length-append e.sha256_hex (32 ∷ 32 ∷ (e.relpath ++ 10 ∷ [])),
  length-append e.relpath (10 ∷ []),
)
