-- ===== src/Packer/Names/Numbers.antt =====
-- Which names are read back as the numbers that they were made from.
use tarpack.Packer.Names.{
  scan_digits, scan_signed, skip_spaces, scan_ulong, decimal, pack_name, padded, pack_number,
  is_decimal, scan_number, is_space, after_prefix, scan_word,
}
use tarpack.Prelude.{
  ℕ, zero, suc, ◌+◌, ◌*◌, ◌/◌, ◌%◌, ◌<◌, ◌≡◌, refl, ap, ◌∙◌, true, ◌&&◌, some, [], ◌∷◌, ◌++◌, arith,
  leb, ◌==◌, Bytes, codes, append_assoc, str_eq, ◌≤◌, false, none,
}

-- A digit's character.
abbrev pub chr : ℕ → ℕ
chr d = 48 + d

scan_digits-digit :
    (width val d : ℕ) (s : Bytes)
    → d < 10
    → scan_digits (suc width) val (chr d ∷ s) ≡ scan_digits width (val * 10 + d) s
unfolding scan_digits is_decimal
scan_digits-digit width val d s h =
    let digit : (leb b'0' (chr d) && leb (chr d) b'9') ≡ true = ground arith in
    rw digit (ap (λ v. scan_digits width v s) (omega arith))

scan_signed-digit :
    (width d : ℕ) (s : Bytes)
    → d < 10
    → scan_signed (suc width) (chr d ∷ s) ≡ some (scan_digits width d s)
unfolding scan_signed scan_number is_decimal
scan_signed-digit width d s h =
    let plus : (chr d == b'+') ≡ false = ground arith in
    let minus : (chr d == b'-') ≡ false = ground arith in
    let digit : (leb b'0' (chr d) && leb (chr d) b'9') ≡ true = ground arith in
    rw (plus, minus, digit) (ap (λ v. some (scan_digits width v s)) (omega arith))

skip_spaces-digit : (d : ℕ) (s : Bytes) → d < 10 → skip_spaces (chr d ∷ s) ≡ chr d ∷ s
unfolding skip_spaces is_space
skip_spaces-digit d s h = ground arith

module _ (d5 d4 d3 d2 d1 d0 : ℕ) (h5 : d5 < 10) (h4 : d4 < 10) (h3 : d3 < 10) (h2 : d2 < 10)
    (h1 : d1 < 10) (h0 : d0 < 10) (s : Bytes) where
  abbrev six : Bytes
  six = chr d5 ∷ chr d4 ∷ chr d3 ∷ chr d2 ∷ chr d1 ∷ chr d0 ∷ s

  abbrev value : ℕ
  value = ((((d5 * 10 + d4) * 10 + d3) * 10 + d2) * 10 + d1) * 10 + d0

  scan_ulong-six : scan_ulong six ≡ some (value, s)
  unfolding scan_ulong scan_digits
  scan_ulong-six =
      let s0 : Bytes = chr d0 ∷ s in
      let s1 : Bytes = chr d1 ∷ s0 in
      let s2 : Bytes = chr d2 ∷ s1 in
      let s3 : Bytes = chr d3 ∷ s2 in
      let s4 : Bytes = chr d4 ∷ s3 in
      let v4 = d5 * 10 + d4 in
      let v3 = v4 * 10 + d3 in
      let v2 = v3 * 10 + d2 in
      let v1 = v2 * 10 + d1 in
      ap (scan_signed 6) (skip_spaces-digit d5 s4 h5)
      ∙ scan_signed-digit 5 d5 s4 h5
      ∙ ap some (
          scan_digits-digit 4 d5 d4 s3 h4
          ∙ scan_digits-digit 3 v4 d3 s2 h3
          ∙ scan_digits-digit 2 v3 d2 s1 h2
          ∙ scan_digits-digit 1 v2 d1 s0 h1
          ∙ scan_digits-digit 0 v1 d0 s h0)

decimal_zero : (f n : ℕ) → n ≡ 0 → decimal f n ≡ []
unfolding decimal
decimal_zero zero n h = refl
decimal_zero (suc f) n h = ground arith

decimal-digit : (f n : ℕ) → 0 < n → n < 10 → decimal (suc f) n ≡ chr n ∷ []
unfolding decimal
decimal-digit f n pos lt =
    let nz : (n == 0) ≡ false = ground arith in
    rw (nz, decimal_zero f (n / 10) (omega arith)) (ap (λ d. (48 + d) ∷ []) (omega arith))

abbrev pub archive_name : ℕ → Bytes
archive_name n = pack_name n ++ codes ".tar.zst"

-- The digits of `n` from the highest of `k + 1` on.
padded_six :
    (n : ℕ)
    → padded 6 n
      ≡ decimal 20 (n / 10 / 10 / 10 / 10 / 10 / 10)
        ++ (chr (n / 10 / 10 / 10 / 10 / 10 % 10)
            ∷ chr (n / 10 / 10 / 10 / 10 % 10)
            ∷ chr (n / 10 / 10 / 10 % 10)
            ∷ chr (n / 10 / 10 % 10)
            ∷ chr (n / 10 % 10)
            ∷ chr (n % 10)
            ∷ [])
unfolding padded
padded_six n =
    let a = decimal 20 (n / 10 / 10 / 10 / 10 / 10 / 10) in
    let d5 = chr (n / 10 / 10 / 10 / 10 / 10 % 10) in
    let d4 = chr (n / 10 / 10 / 10 / 10 % 10) in
    let d3 = chr (n / 10 / 10 / 10 % 10) in
    let d2 = chr (n / 10 / 10 % 10) in
    let d1 = chr (n / 10 % 10) in
    let d0 = chr (n % 10) in
    ap (λ t. (((t ++ d3 ∷ []) ++ d2 ∷ []) ++ d1 ∷ []) ++ d0 ∷ [])
      (append_assoc a (d5 ∷ []) (d4 ∷ []))
    ∙ ap (λ t. ((t ++ d2 ∷ []) ++ d1 ∷ []) ++ d0 ∷ []) (append_assoc a (d5 ∷ d4 ∷ []) (d3 ∷ []))
    ∙ ap (λ t. (t ++ d1 ∷ []) ++ d0 ∷ []) (append_assoc a (d5 ∷ d4 ∷ d3 ∷ []) (d2 ∷ []))
    ∙ ap (λ t. t ++ d0 ∷ []) (append_assoc a (d5 ∷ d4 ∷ d3 ∷ d2 ∷ []) (d1 ∷ []))
    ∙ append_assoc a (d5 ∷ d4 ∷ d3 ∷ d2 ∷ d1 ∷ []) (d0 ∷ [])

pub padded_small :
    (n : ℕ)
    → n < 1000000
    → padded 6 n
      ≡ chr (n / 10 / 10 / 10 / 10 / 10 % 10)
        ∷ chr (n / 10 / 10 / 10 / 10 % 10)
        ∷ chr (n / 10 / 10 / 10 % 10)
        ∷ chr (n / 10 / 10 % 10)
        ∷ chr (n / 10 % 10)
        ∷ chr (n % 10)
        ∷ []
padded_small n h =
    padded_six n
    ∙ ap
        (λ t.
          t
          ++ (chr (n / 10 / 10 / 10 / 10 / 10 % 10)
              ∷ chr (n / 10 / 10 / 10 / 10 % 10)
              ∷ chr (n / 10 / 10 / 10 % 10)
              ∷ chr (n / 10 / 10 % 10)
              ∷ chr (n / 10 % 10)
              ∷ chr (n % 10)
              ∷ []))
        (decimal_zero 20 (n / 10 / 10 / 10 / 10 / 10 / 10) (omega arith))

suffix-read : str_eq (scan_word 15 (skip_spaces (codes ".tar.zst"))) (codes ".tar.zst") ≡ true
unfolding str_eq scan_word skip_spaces is_space
suffix-read = refl

-- A number of at most six digits is read back from its pack's name.
pub pack_number-archive_name : (n : ℕ) → n < 1000000 → pack_number (archive_name n) ≡ some n
unfolding pack_number pack_name after_prefix
pack_number-archive_name n h =
    let d : (m : ℕ) → m % 10 < 10 = λ m. omega arith in
    let read =
      scan_ulong-six (n / 10 / 10 / 10 / 10 / 10 % 10) (n / 10 / 10 / 10 / 10 % 10)
        (n / 10 / 10 / 10 % 10) (n / 10 / 10 % 10) (n / 10 % 10) (n % 10)
        (d (n / 10 / 10 / 10 / 10 / 10)) (d (n / 10 / 10 / 10 / 10)) (d (n / 10 / 10 / 10))
        (d (n / 10 / 10)) (d (n / 10)) (d n) (codes ".tar.zst") in
    ap (λ t. pack_number ((codes "pack-" ++ t) ++ codes ".tar.zst")) (padded_small n h)
    ∙ rw (read, suffix-read) (ap some (omega arith))

padded_seven :
    (n : ℕ)
    → 1000000 ≤ n
    → n < 10000000
    → padded 6 n
      ≡ chr (n / 10 / 10 / 10 / 10 / 10 / 10)
        ∷ chr (n / 10 / 10 / 10 / 10 / 10 % 10)
        ∷ chr (n / 10 / 10 / 10 / 10 % 10)
        ∷ chr (n / 10 / 10 / 10 % 10)
        ∷ chr (n / 10 / 10 % 10)
        ∷ chr (n / 10 % 10)
        ∷ chr (n % 10)
        ∷ []
padded_seven n lo hi =
    padded_six n
    ∙ ap
        (λ t.
          t
          ++ (chr (n / 10 / 10 / 10 / 10 / 10 % 10)
              ∷ chr (n / 10 / 10 / 10 / 10 % 10)
              ∷ chr (n / 10 / 10 / 10 % 10)
              ∷ chr (n / 10 / 10 % 10)
              ∷ chr (n / 10 % 10)
              ∷ chr (n % 10)
              ∷ []))
        (decimal-digit 19 (n / 10 / 10 / 10 / 10 / 10 / 10) (omega arith) (omega arith))

suffix-digit :
    (d : ℕ)
    → d < 10
    → str_eq (scan_word 15 (skip_spaces (chr d ∷ codes ".tar.zst"))) (codes ".tar.zst") ≡ false
unfolding str_eq scan_word is_space
suffix-digit d h =
    let dot : (chr d == 46) ≡ false = ground arith in
    let word : is_space (chr d) ≡ false = ground arith in
    rw (skip_spaces-digit d (codes ".tar.zst") h, word, dot) refl

pub pack_number-archive_name_seven :
    (n : ℕ) → 1000000 ≤ n → n < 10000000 → pack_number (archive_name n) ≡ none
unfolding pack_number pack_name after_prefix
pack_number-archive_name_seven n lo hi =
    let d : (m : ℕ) → m % 10 < 10 = λ m. omega arith in
    let read =
      scan_ulong-six (n / 10 / 10 / 10 / 10 / 10 / 10) (n / 10 / 10 / 10 / 10 / 10 % 10)
        (n / 10 / 10 / 10 / 10 % 10) (n / 10 / 10 / 10 % 10) (n / 10 / 10 % 10) (n / 10 % 10)
        (omega arith) (d (n / 10 / 10 / 10 / 10 / 10)) (d (n / 10 / 10 / 10 / 10))
        (d (n / 10 / 10 / 10)) (d (n / 10 / 10)) (d (n / 10)) (chr (n % 10) ∷ codes ".tar.zst") in
    ap (λ t. pack_number ((codes "pack-" ++ t) ++ codes ".tar.zst")) (padded_seven n lo hi)
    ∙ rw (read, suffix-digit (n % 10) (d n)) refl
