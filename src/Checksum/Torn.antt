-- ===== src/Checksum/Torn.antt =====
-- What the reader makes of a line whose writing was cut short.
use tarpack.Checksum.Append.{strip_ends-keep}
use tarpack.Checksum.{
  read_lines, trim_line, parse_line, checksums_read, LineEntry, strip_ends,
  rewrite_checksums_filtered,
}
use tarpack.Prelude.{
  ℕ, ◌<◌, ◌≡◌, refl, ap, ◌∙◌, ◌≢◌, inl, inr, Bool, false, Option, none, some, List, [], ◌∷◌, ◌++◌,
  arith, ◌==◌, ◌>>=◌, lt→ltb, Bool-cases, length, All, length-append, snoc-ne_nil, Bytes, lines,
}
use mathlib.Core.List.{reverse, reverse-append, reverse-cons, reverse-reverse}
use tarpack.Checksum.Lines.{
  NoNewline, IsLine, joined_lines, lines-append, lines-torn, NoNewline-snoc,
}

read_lines-fails : (ls ks : List Bytes) → read_lines ks ≡ none → read_lines (ls ++ ks) ≡ none
unfolding read_lines
read_lines-fails [] ks h = h
read_lines-fails (l ∷ ls) ks h = elim (Bool-cases (length (trim_line l) == 0)) [
  | inl e ↦ rw e (read_lines-fails ls ks h)
  | inr e ↦ rw (e, read_lines-fails ls ks h) (no_rest (parse_line (trim_line l)))
]
  where
    no_rest :
        (o : Option LineEntry) → (o >>= λ x. none >>= λ (es : List LineEntry). some (x ∷ es)) ≡ none
    no_rest none = refl
    no_rest (some x) = refl

trim_line-torn : (s : Bytes) (c : ℕ) → c ≢ 10 → c ≢ 13 → trim_line (s ++ c ∷ []) ≡ s ++ c ∷ []
unfolding trim_line
trim_line-torn s c hn hr =
    ap (λ l. reverse (strip_ends l)) (reverse-append s (c ∷ []))
    ∙ ap reverse (strip_ends-keep c (reverse s) hn hr)
    ∙ reverse-cons c (reverse s)
    ∙ ap (λ l. l ++ c ∷ []) (reverse-reverse s)

parse_line-short : (l : Bytes) → length l < 67 → parse_line l ≡ none
unfolding parse_line
parse_line-short l h = rw (lt→ltb (length l) 67 h) refl

read_lines-short :
    (s : Bytes) (c : ℕ) → c ≢ 10 → c ≢ 13 → length s < 66 → read_lines ((s ++ c ∷ []) ∷ []) ≡ none
unfolding read_lines
read_lines-short s c hn hr h =
    let l = length-append s (c ∷ []) in
    let long : (length (s ++ c ∷ []) == 0) ≡ false = ground (arith, l) in
    rw (trim_line-torn s c hn hr, long, parse_line-short (s ++ c ∷ []) (omega (arith, l))) refl

-- If the last append was cut short inside the digits or the two spaces, the file is not read, and
-- neither is it rewritten: `rewrite_checksums_filtered` returns -1 whatever files exist. (`s` and `c`
-- are the bytes of the torn line, which has no newline.)
pub rewrite_checksums_filtered-torn :
    (exists : Bytes → Bool) (ls : List Bytes) (s : Bytes) (c : ℕ)
    → All IsLine ls
    → NoNewline s
    → c ≢ 10
    → c ≢ 13
    → length s < 66
    → (checksums_read (some (joined_lines ls ++ (s ++ c ∷ []))) ≡ none)
      × (rewrite_checksums_filtered exists (some (joined_lines ls ++ (s ++ c ∷ []))) ≡ none)
unfolding checksums_read rewrite_checksums_filtered
rewrite_checksums_filtered-torn exists ls s c complete hs hn hr h =
    let fails : read_lines (lines (joined_lines ls ++ (s ++ c ∷ []))) ≡ none =
      ap read_lines (
        lines-append ls (s ++ c ∷ []) complete
        ∙ ap (λ k. ls ++ k) (lines-torn (s ++ c ∷ []) (NoNewline-snoc s c hs hn) (snoc-ne_nil s c)))
      ∙ read_lines-fails ls ((s ++ c ∷ []) ∷ []) (read_lines-short s c hn hr h) in
    (fails, rw fails refl)
