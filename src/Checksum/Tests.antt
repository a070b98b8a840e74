-- ===== src/Checksum/Tests.antt =====
-- Runs of the checksum file, and the applications of its theorems.
use tarpack.Checksum.Torn.{rewrite_checksums_filtered-torn}
use tarpack.Prelude.{
  ◌≡◌, refl, Bool, none, some, [], ◌∷◌, ◌++◌, arith, replicate, Bytes, codes, str_eq, lines,
}
use tarpack.Checksum.{
  LineEntry, checksums_read, rewrite_checksums_filtered, read_lines, checksums_append, line_of,
  trim_line, strip_ends, parse_line,
}
use tarpack.Checksum.Lines.{joined_lines}
use tarpack.Checksum.Append.{IsEntry, checksums_append-read}

abbrev hex : Bytes
hex = replicate 64 b'a'

abbrev pack_entry : LineEntry
pack_entry = record { sha256_hex = hex; relpath = codes "packs/p" }

abbrev json_entry : LineEntry
json_entry = record { sha256_hex = hex; relpath = codes "packs/j" }

pack_entry-IsEntry : IsEntry pack_entry
pack_entry-IsEntry = record {
  hex_length = refl;
  hex_bytes = omega arith;
  hex_no_zero = omega arith;
  path_bytes = omega arith;
  path_no_zero = omega arith;
  path_end = (codes "packs/", b'p', refl, omega arith, omega arith);
}

no_spaces : checksums_read (some (codes "x" ++ 10 ∷ [])) ≡ none
unfolding checksums_read lines read_lines trim_line strip_ends parse_line
no_spaces = refl

checksums_append-read_example :
    (file : Bytes) × (checksums_append (some []) pack_entry ≡ some file)
    × (checksums_read (some file) ≡ some (pack_entry ∷ []))
unfolding joined_lines
checksums_append-read_example =
    checksums_append-read [] [] pack_entry tt (unfold checksums_read lines read_lines in refl)
      pack_entry-IsEntry (unfold line_of in omega arith)

abbrev only_json : Bytes → Bool
only_json path = str_eq path (codes "packs/j")

rewrite_checksums_filtered-torn_example :
    (checksums_read (some ([] ++ (codes "aaaa" ++ b'b' ∷ []))) ≡ none)
    × (rewrite_checksums_filtered only_json (some ([] ++ (codes "aaaa" ++ b'b' ∷ []))) ≡ none)
unfolding joined_lines
rewrite_checksums_filtered-torn_example =
    rewrite_checksums_filtered-torn only_json [] (codes "aaaa") b'b' tt (omega arith) (omega arith)
      (omega arith) (omega arith)
