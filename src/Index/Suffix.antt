-- ===== src/Index/Suffix.antt =====
-- The number of an object id is read back from it.
use tarpack.Prelude.{
  ℕ, zero, suc, ◌+◌, ◌-◌, ◌*◌, ◌/◌, ◌%◌, ◌<◌, ◌≡◌, refl, sym, ap, ◌∙◌, inl, inr, true, some, [],
  ◌∷◌, ◌++◌, arith, ltb, ◌==◌, if◌then◌else◌, lt→ltb, ==_iff, Bool-cases, &&-elim, Bytes,
}
use tarpack.Index.Load.{
  only_digits, digits_value, suffix_digits, numeric_suffix, object_id_of, suffix_value,
}
use tarpack.Packer.Names.{decimal, padded, is_decimal, ulong_mod}

digit-IsDecimal : (d : ℕ) → d < 10 → is_decimal (48 + d) ≡ true
unfolding is_decimal
digit-IsDecimal d h = ground arith

only_digits-snoc :
    (s : Bytes) (d : ℕ) → only_digits s ≡ true → d < 10 → only_digits (s ++ (48 + d) ∷ []) ≡ true
unfolding only_digits
only_digits-snoc [] d h lt = rw (digit-IsDecimal d lt) refl
only_digits-snoc (c ∷ s) d h lt =
    let (hc, hs) = &&-elim (is_decimal c) (only_digits s) h in rw hc (only_digits-snoc s d hs lt)

digits_value-snoc :
    (v : ℕ) (s : Bytes) (d : ℕ) → digits_value v (s ++ (48 + d) ∷ []) ≡ digits_value v s * 10 + d
unfolding digits_value
digits_value-snoc v [] d = omega arith
digits_value-snoc v (c ∷ s) d = digits_value-snoc (v * 10 + (c - 48)) s d

pow10 : ℕ → ℕ
pow10 zero = 1
pow10 (suc f) = 10 * pow10 f

decimal-digits : (f n : ℕ) → only_digits (decimal f n) ≡ true
unfolding decimal only_digits
decimal-digits zero n = refl
decimal-digits (suc f) n = elim (Bool-cases (n == 0)) [
  | inl e ↦ rw e refl
  | inr e ↦
      rw e
        (only_digits-snoc (decimal f (n / 10)) (n % 10) (decimal-digits f (n / 10)) (omega arith))
]

decimal-value : (f n : ℕ) → n < pow10 f → digits_value 0 (decimal f n) ≡ n
unfolding decimal digits_value pow10
decimal-value zero n h = omega arith
decimal-value (suc f) n h = elim (Bool-cases (n == 0)) [
  | inl e ↦ rw e (sym ((==_iff n 0).0 e))
  | inr e ↦ rw e (
      digits_value-snoc 0 (decimal f (n / 10)) (n % 10)
      ∙ ap (λ v. v * 10 + n % 10) (decimal-value f (n / 10) (omega arith))
      ∙ omega arith)
]

suffix_digits-snoc :
    (s : Bytes) (c : ℕ)
    → only_digits (s ++ c ∷ []) ≡ true
    → suffix_digits (79 ∷ (s ++ c ∷ [])) ≡ some (s ++ c ∷ [])
unfolding suffix_digits
suffix_digits-snoc [] c h = rw h refl
suffix_digits-snoc (d ∷ s) c h = rw h refl

pub numeric_suffix-object_id_of : (n : ℕ) → n < ulong_mod → numeric_suffix (object_id_of n) ≡ n
unfolding numeric_suffix object_id_of padded
numeric_suffix-object_id_of n h =
    let s = decimal 20 (n / 10) in
    let digits = only_digits-snoc s (n % 10) (decimal-digits 20 (n / 10)) (omega arith) in
    let value : digits_value 0 (s ++ (48 + n % 10) ∷ []) ≡ n =
      digits_value-snoc 0 s (n % 10)
      ∙ ap (λ v. v * 10 + n % 10) (decimal-value 20 (n / 10) (unfold pow10 in omega arith))
      ∙ omega arith in
    ap suffix_value (suffix_digits-snoc s (48 + n % 10) digits)
    ∙ ap (λ v. if ltb v ulong_mod then v else ulong_mod - 1) value
    ∙ rw (lt→ltb n ulong_mod h) refl
