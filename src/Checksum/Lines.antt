-- ===== src/Checksum/Lines.antt =====
-- The lines of a file, and the line that is appended.
use tarpack.Prelude.{
  ◌≡◌, refl, ap, ◌∙◌, ◌≢◌, List, [], ◌∷◌, ◌++◌, arith, All, append_assoc, Bytes, lines_from, lines,
  sym, ap₂, append_nil, ℕ,
}

abbrev pub NoNewline : Bytes → Type 0
NoNewline s = All (λ c. c ≢ 10) s

-- A file whose last line is complete: the lines are a sequence of such.
abbrev pub IsLine : Bytes → Type 0
IsLine l = (s : Bytes) × (l ≡ s ++ 10 ∷ []) × NoNewline s

unfoldable pub joined_lines : List Bytes → Bytes
joined_lines [] = []
joined_lines (l ∷ ls) = l ++ joined_lines ls

lines_from-line :
    (line s rest : Bytes)
    → NoNewline s
    → lines_from line (s ++ 10 ∷ rest) ≡ (line ++ (s ++ 10 ∷ [])) ∷ lines_from [] rest
unfolding lines_from
lines_from-line line [] rest h = refl
lines_from-line line (c ∷ s) rest (hc, h) =
    ground
      (arith, lines_from-line (line ++ c ∷ []) s rest h, append_assoc line (c ∷ []) (s ++ 10 ∷ []))

-- A complete line at the head of a file is its first line.
pub lines-line :
    (s rest : Bytes) → NoNewline s → lines ((s ++ 10 ∷ []) ++ rest) ≡ (s ++ 10 ∷ []) ∷ lines rest
unfolding lines
lines-line s rest h =
    ap (lines_from []) (append_assoc s (10 ∷ []) rest) ∙ lines_from-line [] s rest h

pub lines-append :
    (ls : List Bytes) (rest : Bytes)
    → All IsLine ls
    → lines (joined_lines ls ++ rest) ≡ ls ++ lines rest
unfolding joined_lines
lines-append [] rest h = refl
lines-append (l ∷ ls) rest ((s, e, hs), h) =
    ap (λ k. lines ((k ++ joined_lines ls) ++ rest)) e
    ∙ ap lines (append_assoc (s ++ 10 ∷ []) (joined_lines ls) rest)
    ∙ lines-line s (joined_lines ls ++ rest) hs
    ∙ ap₂ (◌∷◌) (sym e) (lines-append ls rest h)

lines_from-torn :
    (line s : Bytes) → NoNewline s → line ++ s ≢ [] → lines_from line s ≡ (line ++ s) ∷ []
unfolding lines_from
lines_from-torn [] [] h n = absurd (n refl)
lines_from-torn (c ∷ line) [] h n = ap (λ l. l ∷ []) (sym (append_nil (c ∷ line)))
lines_from-torn line (c ∷ s) (hc, h) n = ground (
  arith,
  append_assoc line (c ∷ []) s,
  lines_from-torn (line ++ c ∷ []) s h (λ e. n (sym (append_assoc line (c ∷ []) s) ∙ e)),
)

-- What follows the last newline is a line of its own.
pub lines-torn : (s : Bytes) → NoNewline s → s ≢ [] → lines s ≡ s ∷ []
unfolding lines
lines-torn s h n = lines_from-torn [] s h n

pub NoNewline-snoc : (s : Bytes) (c : ℕ) → NoNewline s → c ≢ 10 → NoNewline (s ++ c ∷ [])
NoNewline-snoc [] c h hc = (hc, tt)
NoNewline-snoc (b ∷ s) c (hb, h) hc = (hb, NoNewline-snoc s c h hc)
