-- ===== src/Packer/Size/Parse.antt =====
-- What `tp_parse_size` accepts, and what it returns.
use tarpack.Prelude.{
  ℕ, ◌-◌, ◌*◌, ◌≤◌, ◌≡◌, ◌≢◌, inl, inr, refl, sym, true, false, Option, none, some, [], ◌∷◌, ◌++◌,
  Bytes, All, length, length-snoc, take-length, take_all, get_or-length, snoc_view, Bool-cases,
  if◌then◌else◌, arith, All-of_append, snoc-ne_nil, subst,
}
use mathlib.Core.List.{append-nil}
use tarpack.Packer.Size.Digits.{
  IsDigit, value, all_digits-All, All-all_digits, parse_digits_sound, parse_digits_complete,
}
use tarpack.Packer.Size.Suffix.{
  IsUnit, bytes, kibi, mebi, gibi, UnitCase, multiplier-suffix_of, scale_lem, scale_complete,
  le-uint64_max, multiplier_kibi, multiplier_mebi, multiplier_gibi, multiplier_digit,
}
use tarpack.Packer.Size.{
  int64_max, is_letter, suffix_of, all_digits, parse_digits, multiplier, scale, bind, last_char,
  digits_part, convert, parse_size,
}

last_char-snoc : (xs : Bytes) (c : ℕ) → last_char (xs ++ c ∷ []) ≡ c
unfolding last_char
last_char-snoc xs c =
    let e : length (xs ++ c ∷ []) - 1 ≡ length xs = omega (arith, length-snoc xs c) in
    rw e (get_or-length xs c 0)

digits_part-snoc :
    (xs : Bytes) (c : ℕ) → digits_part (xs ++ c ∷ []) ≡ (if is_letter c then xs else xs ++ c ∷ [])
unfolding digits_part
digits_part-snoc xs c =
    let e : length (xs ++ c ∷ []) - 1 ≡ length xs = omega (arith, length-snoc xs c) in
    rw (last_char-snoc xs c) (elim (Bool-cases (is_letter c)) [
      | inl y ↦ rw y (rw e (take-length xs (c ∷ [])))
      | inr n ↦ rw n (take_all (xs ++ c ∷ []))
    ])

parse_size-cons :
    (c : ℕ) (s : Bytes) → parse_size (c ∷ s) ≡ convert (digits_part (c ∷ s)) (last_char (c ∷ s))
unfolding parse_size
parse_size-cons c s = refl

parse_size-snoc :
    (xs : Bytes) (c : ℕ)
    → parse_size (xs ++ c ∷ []) ≡ convert (if is_letter c then xs else xs ++ c ∷ []) c
parse_size-snoc [] c = rw (parse_size-cons c []) (rw (digits_part-snoc [] c, last_char-snoc [] c))
parse_size-snoc (x ∷ xs) c =
    rw (parse_size-cons x (xs ++ c ∷ []))
      (rw (digits_part-snoc (x ∷ xs) c, last_char-snoc (x ∷ xs) c))

-- What an accepted text is made of.
pub record Accepted (s : Bytes) (n : ℕ) : Type 0 where
  pub digits : Bytes
  pub suffix : Bytes
  pub factor : ℕ
  pub text : s ≡ digits ++ suffix
  pub some_digit : digits ≢ []
  pub each_digit : All IsDigit digits
  pub has_unit : IsUnit suffix factor
  pub result : n ≡ value 0 digits * factor
  pub fits : n ≤ int64_max

bind-eq_some :
    {A B : Type 0} (o : Option A) (f : A → Option B) {b : B}
    → bind o f ≡ some b
    → (a : A) × (o ≡ some a) × (f a ≡ some b)
bind-eq_some none f h = cc
bind-eq_some (some a) f h = (a, refl, h)

convert_digits :
    (digits : Bytes) (last n : ℕ)
    → convert digits last ≡ some n
    → (digits ≢ [])
      × (all_digits digits ≡ true)
      × (bind (parse_digits 0 digits) (λ val. bind (multiplier (suffix_of last)) (λ m. scale val m))
          ≡ some n)
unfolding convert
convert_digits [] last n h = cc
convert_digits (c ∷ s) last n h = ground arith

-- The steps behind the two tests of an accepted text.
convert_sound :
    (digits : Bytes) (last n : ℕ)
    → convert digits last ≡ some n
    → (m : ℕ) × UnitCase last m
      × (digits ≢ [])
      × All IsDigit digits
      × (n ≡ value 0 digits * m)
      × (n ≤ int64_max)
convert_sound digits last n h =
    let (some_digit, tested, steps) = convert_digits digits last n h in
    let each = all_digits-All digits tested in
    let (val, parsed, rest) = bind-eq_some (parse_digits 0 digits) _ steps in
    let (m, found, scaled) = bind-eq_some (multiplier (suffix_of last)) _ rest in
    let unit_case = multiplier-suffix_of last m found in
    let (exact, _) = parse_digits_sound digits 0 val (omega arith) each parsed in
    let result : (n ≡ val * m) × (n ≤ int64_max) = elim unit_case [
      | inl (_, e) ↦ scale_lem val m n {s = []} (rw e bytes) scaled
      | inr (_, u) ↦ scale_lem val m n u scaled
    ] in
    (m, unit_case, some_digit, each, rw exact at result.0, result.1)

module _ (xs : Bytes) (c n : ℕ) where
  Accepted-suffix : convert xs c ≡ some n → is_letter c ≡ true → Accepted (xs ++ c ∷ []) n
  Accepted-suffix h y =
      let (m, unit_case, some_digit, each, exact, fits) = convert_sound xs c n h in
      elim unit_case [
        | inl (w, _) ↦ absurd (cc)
        | inr (_, u) ↦ record {
          digits = xs;
          suffix = c ∷ [];
          factor = m;
          text = refl;
          some_digit = some_digit;
          each_digit = each;
          has_unit = u;
          result = exact;
          fits = fits;
        }
      ]

  Accepted-plain :
      convert (xs ++ c ∷ []) c ≡ some n → is_letter c ≡ false → Accepted (xs ++ c ∷ []) n
  Accepted-plain h e =
      let (m, unit_case, some_digit, each, exact, fits) = convert_sound (xs ++ c ∷ []) c n h in
      elim unit_case [
        | inl (_, one) ↦ record {
          digits = xs ++ c ∷ [];
          suffix = [];
          factor = 1;
          text = sym (append-nil (xs ++ c ∷ []));
          some_digit = some_digit;
          each_digit = each;
          has_unit = bytes;
          result = rw one at exact;
          fits = fits;
        }
        | inr (w, _) ↦ absurd (cc)
      ]

  Accepted-snoc : parse_size (xs ++ c ∷ []) ≡ some n → Accepted (xs ++ c ∷ []) n
  Accepted-snoc h =
      let h' = rw (parse_size-snoc xs c) at h in
      elim (Bool-cases (is_letter c)) [
        | inl y ↦ Accepted-suffix (rw y at h') y
        | inr e ↦ Accepted-plain (rw e at h') e
      ]

-- Whatever the text, a value that `tp_parse_size` returns is the value of a non-empty run of
-- digits times the factor of an optional K, M or G suffix of either case, with nothing else in the
-- text, and it fits an int64_t: no step wrapped around.
pub parse_size_sound : (s : Bytes) (n : ℕ) → parse_size s ≡ some n → Accepted s n
parse_size_sound [] n h = absurd (unfold parse_size in cc)
parse_size_sound (x ∷ xs) n h =
    let (ys, y, e) = snoc_view x xs in rw e (Accepted-snoc ys y n (rw e at h))

digit_not_letter : (c : ℕ) → IsDigit c → is_letter c ≡ false
digit_not_letter c h = ground arith

convert_complete :
    (digits : Bytes) (last m : ℕ) {u : Bytes}
    → digits ≢ []
    → All IsDigit digits
    → IsUnit u m
    → multiplier (suffix_of last) ≡ some m
    → value 0 digits * m ≤ int64_max
    → convert digits last ≡ some (value 0 digits * m)
convert_complete [] last m some_digit each u found fits = absurd (some_digit refl)
convert_complete (c ∷ s) last m some_digit each u found fits =
    let parsed = parse_digits_complete (c ∷ s) 0 each (le-uint64_max _ _ u fits) in
    let tested = All-all_digits (c ∷ s) each in
    let scaled = scale_complete (value 0 (c ∷ s)) m u fits in unfold convert in ground arith

module _ (digits : Bytes) (some_digit : digits ≢ []) (each : All IsDigit digits) where
  complete_suffix :
      (c m : ℕ)
      → IsUnit (c ∷ []) m
      → is_letter c ≡ true
      → multiplier (suffix_of c) ≡ some m
      → value 0 digits * m ≤ int64_max
      → parse_size (digits ++ c ∷ []) ≡ some (value 0 digits * m)
  complete_suffix c m u letter found fits =
      rw (parse_size-snoc digits c)
        (rw letter (convert_complete digits c m some_digit each u found fits))

complete_plain :
    (ys : Bytes) (y : ℕ)
    → All IsDigit (ys ++ y ∷ [])
    → value 0 (ys ++ y ∷ []) * 1 ≤ int64_max
    → parse_size (ys ++ y ∷ []) ≡ some (value 0 (ys ++ y ∷ []) * 1)
complete_plain ys y each fits =
    let digit = (All-of_append IsDigit ys (y ∷ []) each).1.0 in
    rw (parse_size-snoc ys y) (
      rw (digit_not_letter y digit) (
        convert_complete (ys ++ y ∷ []) y 1 (snoc-ne_nil ys y) each bytes (multiplier_digit y digit)
          fits))

-- Every non-empty run of digits, alone or before a K, M or G suffix of either case, is accepted
-- with its value times the factor, if that fits an int64_t: the overflow tests refuse nothing else.
pub parse_size_complete :
    (digits suffix : Bytes) (m : ℕ)
    → digits ≢ []
    → All IsDigit digits
    → IsUnit suffix m
    → value 0 digits * m ≤ int64_max
    → parse_size (digits ++ suffix) ≡ some (value 0 digits * m)
parse_size_complete [] _ _ some_digit each u fits = absurd (some_digit refl)
parse_size_complete (x ∷ xs) _ _ some_digit each bytes fits =
    let (ys, y, e) = snoc_view x xs in
    rw (append-nil (x ∷ xs))
      (rw e (complete_plain ys y (subst (All IsDigit) e each) (rw e at fits)))
parse_size_complete (x ∷ xs) _ _ some_digit each (kibi c e) fits =
    complete_suffix (x ∷ xs) some_digit each c 1024 (kibi c e) (ground arith) (multiplier_kibi c e)
      fits
parse_size_complete (x ∷ xs) _ _ some_digit each (mebi c e) fits =
    complete_suffix (x ∷ xs) some_digit each c 1048576 (mebi c e) (ground arith)
      (multiplier_mebi c e) fits
parse_size_complete (x ∷ xs) _ _ some_digit each (gibi c e) fits =
    complete_suffix (x ∷ xs) some_digit each c 1073741824 (gibi c e) (ground arith)
      (multiplier_gibi c e) fits
