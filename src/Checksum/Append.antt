-- ===== src/Checksum/Append.antt =====
-- What is appended is read back behind the entries that were there.
use tarpack.Prelude.{
  ℕ, ◌≡◌, refl, ◌≢◌, [], ◌∷◌, ◌++◌, arith, length, All, Bytes, c_string, suc, ◌+◌, sym, ap, ◌∙◌,
  some, get_or, append_assoc, ◌<◌, ap₂, inl, inr, false, List, ltb, ◌==◌, ltb→lt, Bool-cases, take,
  length-append, take-length, leb, Option-cases, some-same, append_nil, lines, none-ne, drop-past,
}
use mathlib.Core.List.{reverse, reverse-append, reverse-cons, reverse-reverse}
use tarpack.Checksum.{
  LineEntry, strip_ends, trim_line, line_of, parse_line, read_lines, checksums_append,
  checksums_read, path_max,
}
use tarpack.Checksum.Lines.{NoNewline, IsLine, joined_lines, lines-line, lines-append}

-- An entry as the packer writes them: 64 digits, none of them a zero byte, and a path of bytes that a line can hold, the last
-- of which is not a carriage return.
pub record IsEntry (e : LineEntry) : Type 0 where
  pub hex_length : length e.sha256_hex ≡ 64
  pub hex_bytes : NoNewline e.sha256_hex
  pub hex_no_zero : All (λ c. c ≢ 0) e.sha256_hex
  pub path_bytes : NoNewline e.relpath
  pub path_no_zero : All (λ c. c ≢ 0) e.relpath
  pub path_end : (s : Bytes) × (c : ℕ) × (e.relpath ≡ s ++ c ∷ []) × (c ≢ 10) × (c ≢ 13)

c_string-All : (s : Bytes) → All (λ c. c ≢ 0) s → c_string s ≡ s
unfolding c_string
c_string-All [] h = refl
c_string-All (c ∷ s) (hc, h) = ground (arith, c_string-All s h)

pub strip_ends-keep : (c : ℕ) (s : Bytes) → c ≢ 10 → c ≢ 13 → strip_ends (c ∷ s) ≡ c ∷ s
unfolding strip_ends
strip_ends-keep c s hn hr = ground arith

-- A line without its newline is left when the newline is cut off.
trim_line-line :
    (s : Bytes) (c : ℕ) → c ≢ 10 → c ≢ 13 → trim_line ((s ++ c ∷ []) ++ 10 ∷ []) ≡ s ++ c ∷ []
unfolding trim_line strip_ends
trim_line-line s c hn hr =
    ap (λ l. reverse (strip_ends l))
      (reverse-append (s ++ c ∷ []) (10 ∷ []) ∙ ap (◌∷◌ 10) (reverse-append s (c ∷ [])))
    ∙ ap reverse (strip_ends-keep c (reverse s) hn hr)
    ∙ reverse-cons c (reverse s)
    ∙ ap (λ l. l ++ c ∷ []) (reverse-reverse s)

-- The bytes of a line without its newline.
abbrev pub text_of : LineEntry → Bytes
text_of e = e.sha256_hex ++ (32 ∷ 32 ∷ e.relpath)

pub text_newline : (e : LineEntry) → line_of e ≡ text_of e ++ 10 ∷ []
unfolding line_of
text_newline e = sym (append_assoc e.sha256_hex (32 ∷ 32 ∷ e.relpath) (10 ∷ []))

pub text-NoNewline :
    (hex path : Bytes) → NoNewline hex → NoNewline path → NoNewline (hex ++ (32 ∷ 32 ∷ path))
text-NoNewline [] path h k = (omega arith, (omega arith, k))
text-NoNewline (c ∷ hex) path (hc, h) k = (hc, text-NoNewline hex path h k)

pub get_or-past :
    (xs ys : Bytes) (n i : ℕ) → length xs ≡ n → get_or (xs ++ ys) (n + i) 0 ≡ get_or ys i 0
get_or-past [] ys n i h = ap (λ j. get_or ys j 0) (omega arith)
get_or-past (x ∷ xs) ys n i h =
    ap (λ j. get_or (x ∷ xs ++ ys) j 0) {y = suc (length xs + i)} (omega arith)
    ∙ get_or-past xs ys (length xs) i refl

not_short : (n k : ℕ) → ¬ (n < k) → ltb n k ≡ false
not_short n k h = elim (Bool-cases (ltb n k)) [ inl e ↦ absurd (h (ltb→lt n k e)) | inr e ↦ e ]

parse_line-text : (e : LineEntry) → IsEntry e → parse_line (text_of e) ≡ some e
unfolding parse_line
parse_line-text e h =
    let (s, c, last, not_newline, not_return) = h.path_end in
    let l = length-append e.sha256_hex (32 ∷ 32 ∷ e.relpath) in
    let at_64 = get_or-past e.sha256_hex (32 ∷ 32 ∷ e.relpath) 64 0 h.hex_length in
    let at_65 = get_or-past e.sha256_hex (32 ∷ 32 ∷ e.relpath) 64 1 h.hex_length in
    let long : length (text_of e) < 67 → ⊥ =
      λ lt. absurd (omega (arith, l, h.hex_length, ap length last, length-append s (c ∷ []))) in
    rw (not_short (length (text_of e)) 67 long, at_64, at_65)
      (ap₂ (λ hex path. some (record { sha256_hex = hex; relpath = path }))
        (ap (λ n. c_string (take n (text_of e))) (sym h.hex_length)
          ∙ ap c_string (take-length e.sha256_hex (32 ∷ 32 ∷ e.relpath))
          ∙ c_string-All e.sha256_hex h.hex_no_zero)
        (ap c_string (drop-past e.sha256_hex (32 ∷ 32 ∷ e.relpath) 64 2 h.hex_length)
          ∙ c_string-All e.relpath h.path_no_zero))

trim_line-text : (e : LineEntry) → IsEntry e → trim_line (line_of e) ≡ text_of e
trim_line-text e h =
    let (s, c, last, not_newline, not_return) = h.path_end in
    let split : text_of e ≡ (e.sha256_hex ++ (32 ∷ 32 ∷ s)) ++ c ∷ [] =
      ap (λ p. e.sha256_hex ++ (32 ∷ 32 ∷ p)) last
      ∙ sym (append_assoc e.sha256_hex (32 ∷ 32 ∷ s) (c ∷ [])) in
    ap trim_line (text_newline e ∙ ap (λ t. t ++ 10 ∷ []) split)
    ∙ trim_line-line (e.sha256_hex ++ (32 ∷ 32 ∷ s)) c not_newline not_return
    ∙ sym split

pub read_lines-entry : (e : LineEntry) → IsEntry e → read_lines (line_of e ∷ []) ≡ some (e ∷ [])
unfolding read_lines
read_lines-entry e h =
    let l = length-append e.sha256_hex (32 ∷ 32 ∷ e.relpath) in
    let long : (length (text_of e) == 0) ≡ false = ground (arith, l, h.hex_length) in
    rw (trim_line-text e h, long, parse_line-text e h) refl

pub read_lines-append :
    (ls ks : List Bytes) (es fs : List LineEntry)
    → read_lines ls ≡ some es
    → read_lines ks ≡ some fs
    → read_lines (ls ++ ks) ≡ some (es ++ fs)
unfolding read_lines
read_lines-append [] ks es fs h k = k ∙ ap (λ l. some (l ++ fs)) (some-same h)
read_lines-append (l ∷ ls) ks es fs h k = elim (Bool-cases (length (trim_line l) == 0)) [
  | inl e ↦ rw e (read_lines-append ls ks es fs (rw e at h) k)
  | inr e ↦ elim (Option-cases (parse_line (trim_line l))) [
    | inl p ↦ absurd (none-ne (rw (e, p) at h))
    | inr (x, p) ↦ elim (Option-cases (read_lines ls)) [
      | inl q ↦ absurd (none-ne (rw (e, p, q) at h))
      | inr (more, q) ↦
          rw (e, p, read_lines-append ls ks more fs q k)
            (ap (λ r. some (r ++ fs)) (some-same (rw (e, p, q) at h)))
    ]
  ]
]

pub not_le : (k n : ℕ) → n < k → leb k n ≡ false
not_le k n h = ground arith

-- If a file of complete lines reads as `es`, then with the line of a further entry it reads as `es`
-- and that entry, if the line is short enough to be appended.
pub checksums_append-read :
    (ls : List Bytes) (es : List LineEntry) (e : LineEntry)
    → All IsLine ls
    → checksums_read (some (joined_lines ls)) ≡ some es
    → IsEntry e
    → length (line_of e) < path_max + 128
    → (file : Bytes) × (checksums_append (some (joined_lines ls)) e ≡ some file)
      × (checksums_read (some file) ≡ some (es ++ e ∷ []))
unfolding checksums_append checksums_read lines
checksums_append-read ls es e complete h he short =
    let one : lines (line_of e) ≡ line_of e ∷ [] =
      ap lines (sym (append_nil (line_of e)) ∙ ap (λ l. l ++ []) (text_newline e))
      ∙ lines-line (text_of e) [] (text-NoNewline e.sha256_hex e.relpath he.hex_bytes he.path_bytes)
      ∙ ap (λ l. l ∷ []) (sym (text_newline e)) in
    let all : lines (joined_lines ls) ≡ ls =
      ap lines (sym (append_nil (joined_lines ls))) ∙ lines-append ls [] complete ∙ append_nil ls in
    (
      joined_lines ls ++ line_of e,
      rw (not_le (path_max + 128) (length (line_of e)) short) refl,
      ap read_lines (lines-append ls (line_of e) complete ∙ ap (λ k. ls ++ k) one)
          ∙ read_lines-append ls (line_of e ∷ []) es (e ∷ []) (ap read_lines (sym all) ∙ h)
              (read_lines-entry e he),
    )
