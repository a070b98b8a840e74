-- ===== src/Packer/Recovery/Sweep/Survivors.antt =====
-- The files of an indexed pack survive the sweep.
use tarpack.Packer.Recovery.Sweep.Doomed.{dooms_pack, dooms, doomed_by, has-to_delete}
use mathlib.Core.List.{reverse, reverse-append}
use tarpack.Packer.Recovery.Sweep.{
  has, unlink_all, is_part, sweep, pack_base, to_delete, has_suffix, is_numbered,
}
use tarpack.Prelude.{
  ℕ, ◌≡◌, refl, sym, ap, ◌∙◌, ◌≢◌, inl, inr, Bool, true, false, ◌&&◌, not, Option, none, some, List,
  [], ◌∷◌, ◌++◌, arith, Bool-cases, get_or, Bytes, codes, str_eq, str_eq_iff, ◌+◌, ◌-◌, ◌≤◌, ap₂,
  ltb, &&-elim, some-same, none-ne, length, take, drop, length-append, take-append-drop,
  take-length, drop-past,
}

pub has-unlink_all :
    (marked names : List Bytes) (x : Bytes)
    → has (unlink_all marked names) x ≡ (has names x && not (has marked x))
unfolding unlink_all has
has-unlink_all marked [] x = refl
has-unlink_all marked (n ∷ names) x = elim (Bool-cases (str_eq n x)) [
  | inl same ↦
      ground (arith, same, ap (has marked) ((str_eq_iff n x).0 same), has-unlink_all marked names x)
  | inr other ↦ ground (arith, other, has-unlink_all marked names x)
]

-- A name that no name of the directory can mark.
module _ (indexed : List Bytes) (x : Bytes) (no_part : is_part x ≡ false)
    (as_pack : (b : Bytes) → pack_base x ≡ some b → has indexed b ≡ true)
    (as_json : (b : Bytes) → b ++ codes ".json" ≡ x → has indexed b ≡ true) where
  by_pack : (n : Bytes) (o : Option Bytes) → pack_base n ≡ o → dooms_pack indexed n x o ≡ false
  unfolding dooms_pack
  by_pack n none e = refl
  by_pack n (some b) e = elim (Bool-cases (has indexed b)) [
    | inl h ↦ rw h refl
    | inr h ↦
        rw
          (
            h,
            not_true (str_eq n x) (λ t.
                absurd (clash b h (as_pack b (ap pack_base (sym ((str_eq_iff n x).0 t)) ∙ e)))),
            not_true (str_eq (b ++ codes ".json") x)
                (λ t. absurd (clash b h (as_json b ((str_eq_iff (b ++ codes ".json") x).0 t)))),
          )
          refl
  ]
    where
      clash : (b : Bytes) → has indexed b ≡ false → has indexed b ≡ true → ⊥
      clash b f t = cc

      not_true : (c : Bool) → (c ≡ true → ⊥) → c ≡ false
      not_true true h = absurd (h refl)
      not_true false h = refl

  dooms_not : (n : Bytes) → dooms indexed n x ≡ false
  unfolding dooms
  dooms_not n = elim (Bool-cases (is_part n)) [
    | inl e ↦ rw e (elim (Bool-cases (str_eq n x)) [
      | inl t ↦ absurd (clash (ap is_part (sym ((str_eq_iff n x).0 t)) ∙ e))
      | inr f ↦ f
    ])
    | inr e ↦ rw e (by_pack n (pack_base n) refl)
  ]
    where
      clash : is_part x ≡ true → ⊥
      clash t = cc

  doomed_by_not : (names : List Bytes) → doomed_by indexed names x ≡ false
  unfolding doomed_by
  doomed_by_not [] = refl
  doomed_by_not (n ∷ names) = rw (dooms_not n, doomed_by_not names) refl

  stays : (names : List Bytes) → has (sweep indexed names) x ≡ has names x
  unfolding sweep has
  stays names =
      has-unlink_all (to_delete indexed [] names) names x
      ∙ rw (has-to_delete indexed [] names x, doomed_by_not names) (ground arith)

abbrev pub archive : Bytes → Bytes
archive base = base ++ codes ".tar.zst"

abbrev pub manifest : Bytes → Bytes
manifest base = base ++ codes ".json"

first_of_reverse :
    (p s : Bytes) → get_or (reverse (p ++ s)) 0 0 ≡ get_or (reverse s ++ reverse p) 0 0
first_of_reverse p s = ap (λ l. get_or l 0 0) (reverse-append p s)

archive-ne-manifest : (p q : Bytes) → archive p ≢ manifest q
archive-ne-manifest p q e = absurd (
    omega (
      arith,
      ap (λ l. get_or (reverse l) 0 0) e,
      first_of_reverse p (codes ".tar.zst"),
      first_of_reverse q (codes ".json"),
    ))

no_suffix :
    (suffix base e : Bytes) (i : ℕ)
    → length (base ++ e) - length suffix ≡ length base + i
    → str_eq (drop i e) suffix ≡ false
    → has_suffix suffix (base ++ e) ≡ false
unfolding has_suffix
no_suffix suffix base e i at differs =
    let rest : str_eq (drop (length (base ++ e) - length suffix) (base ++ e)) suffix ≡ false =
      ap (λ l. str_eq l suffix)
        (ap (λ k. drop k (base ++ e)) at ∙ drop-past base e (length base) i refl)
      ∙ differs in
    ground (arith, rest)

not_part :
    (base e : Bytes)
    → 5 ≤ length e
    → str_eq (drop (length e - 5) e) (codes ".part") ≡ false
    → is_part (base ++ e) ≡ false
unfolding is_part
not_part base e long differs =
    no_suffix (codes ".part") base e (length e - 5) (omega (arith, length-append base e)) differs

pub archive-no_part : (base : Bytes) → is_part (archive base) ≡ false
archive-no_part base = not_part base (codes ".tar.zst") (omega arith) (unfold str_eq in refl)

pub manifest-no_part : (base : Bytes) → is_part (manifest base) ≡ false
manifest-no_part base = not_part base (codes ".json") (omega arith) (unfold str_eq in refl)

pack_base-cases :
    (name b : Bytes)
    → pack_base name ≡ some b
    → (take (length name - 8) name ≡ b) × (has_suffix (codes ".tar.zst") name ≡ true)
unfolding pack_base
pack_base-cases name b h = elim (Bool-cases (has_suffix (codes ".tar.zst") name)) [
  | inl e ↦
      elim (Bool-cases (
        ltb (length (take (length name - 8) name)) 64
        && is_numbered (take (length name - 8) name))) [
          | inl t ↦ (some-same (rw (e, t) at h), e)
          | inr t ↦ absurd (none-ne (rw (e, t) at h))
        ]
  | inr e ↦ absurd (none-ne (rw e at h))
]

archive-base : (base b : Bytes) → pack_base (archive base) ≡ some b → base ≡ b
archive-base base b h =
    sym (take-length base (codes ".tar.zst"))
    ∙ ap (λ k. take k (archive base)) {x = length base}
        (omega (arith, length-append base (codes ".tar.zst")))
    ∙ (pack_base-cases (archive base) b h).0

manifest-no_pack : (base b : Bytes) → pack_base (manifest base) ≡ some b → ⊥
unfolding has_suffix
manifest-no_pack base b h =
    let x = manifest base in
    let at_end : str_eq (drop (length x - 8) x) (codes ".tar.zst") ≡ true =
      (&&-elim (ltb 8 (length x)) (str_eq (drop (length x - 8) x) (codes ".tar.zst"))
        (pack_base-cases x b h).1).1 in
    archive-ne-manifest (take (length x - 8) x) base (
      ap (λ l. take (length x - 8) x ++ l)
        (sym ((str_eq_iff (drop (length x - 8) x) (codes ".tar.zst")).0 at_end))
      ∙ take-append-drop (length x - 8) x)

manifest-base : (b base : Bytes) → manifest b ≡ manifest base → b ≡ base
manifest-base b base e =
    sym (take-length b (codes ".json"))
    ∙ ap₂ take {x = length b} {y = length base}
        (omega
          (arith, ap length e, length-append b (codes ".json"), length-append base (codes ".json")))
        e
    ∙ take-length base (codes ".json")

-- The archive and the manifest of an indexed pack are in the directory after the sweep if they were
-- there before.
pub sweep-indexed :
    (indexed names : List Bytes) (base : Bytes)
    → has indexed base ≡ true
    → (has (sweep indexed names) (archive base) ≡ has names (archive base))
      × (has (sweep indexed names) (manifest base) ≡ has names (manifest base))
sweep-indexed indexed names base h = (
  stays indexed (archive base) (archive-no_part base)
      (λ b e. ap (has indexed) (sym (archive-base base b e)) ∙ h)
      (λ b e. absurd (archive-ne-manifest base b (sym e))) names,
  stays indexed (manifest base) (manifest-no_part base) (λ b e. absurd (manifest-no_pack base b e))
      (λ b e. ap (has indexed) (manifest-base b base e) ∙ h) names,
)
