-- ===== src/Restore/Order.antt =====
-- `qsort` with the comparisons of src/restore.c, and the order of the directories.
use tarpack.Restore.PathSafe.{slash}
use tarpack.Restore.Plan.{DirMeta, NeededObj, System}
use tarpack.Restore.Extract.{deepest_first}
use tarpack.Prelude.{
  ◌≡◌, refl, sym, ap, ◌∙◌, Bool, true, false, ◌&&◌, ◌||◌, List, [], ◌∷◌, ◌++◌, arith, ltb, ◌==◌,
  All, Bytes, c_string, str_eq, if◌then◌else◌, subst, All-map, All-snoc,
}
use mathlib.Core.List.{reverse, reverse-cons, Permᴰ}

-- `strcmp(a, b) <= 0`
unfoldable pub strcmp_le : Bytes → Bytes → Bool
strcmp_le [] t = true
strcmp_le (a ∷ s) [] = false
strcmp_le (a ∷ s) (b ∷ t) = ltb a b || (a == b && strcmp_le s t)

-- `dir_meta_cmp(a, b) <= 0`
unfoldable pub dir_le : DirMeta → DirMeta → Bool
dir_le a b = strcmp_le (c_string a.path) (c_string b.path)

-- `needed_obj_cmp(a, b) <= 0`
unfoldable pub needed_le : NeededObj → NeededObj → Bool
needed_le a b =
    if str_eq a.ie.pack b.ie.pack
    then strcmp_le a.group.object_id b.group.object_id
    else strcmp_le a.ie.pack b.ie.pack

-- Every element relates to all that follow it.
abbrev pub Ordered {ℓ} : {A : Type ℓ} → (A → A → Type 0) → List A → Type 0
Ordered R [] = Unit
Ordered R (x ∷ xs) = All (R x) xs × Ordered R xs

-- What `qsort` does for a comparison.
pub record IsSort {A : Type 0} (le : A → A → Bool) (sort : List A → List A) : Type 0 where
  pub permutes : (l : List A) → Permᴰ l (sort l)
  pub orders : (l : List A) → Ordered (λ a b. le a b ≡ true) (sort l)

pub record IsSystem (s : System) : Type 0 where
  pub needed_sort : IsSort needed_le s.sort_needed
  pub dirs_sort : IsSort dir_le s.sort_dirs

module _ {A : Type 0} where
  pub All-Permᴰ : (P : A → Type 0) {xs ys : List A} → Permᴰ xs ys → All P xs → All P ys
  All-Permᴰ P Permᴰ.nil h = tt
  All-Permᴰ P (Permᴰ.cons e p) (hx, h) = (subst P e hx, All-Permᴰ P p h)
  All-Permᴰ P (Permᴰ.swap e e') (ha, (hb, h)) = (subst P e' hb, (subst P e ha, h))
  All-Permᴰ P (Permᴰ.trans p q) h = All-Permᴰ P q (All-Permᴰ P p h)

  pub Permᴰ-symm : {xs ys : List A} → Permᴰ xs ys → Permᴰ ys xs
  Permᴰ-symm Permᴰ.nil = Permᴰ.nil
  Permᴰ-symm (Permᴰ.cons e p) = Permᴰ.cons (sym e) (Permᴰ-symm p)
  Permᴰ-symm (Permᴰ.swap e e') = Permᴰ.swap (sym e') (sym e)
  Permᴰ-symm (Permᴰ.trans p q) = Permᴰ.trans (Permᴰ-symm q) (Permᴰ-symm p)

  pub All-reverse : (P : A → Type 0) (xs : List A) → All P xs → All P (reverse xs)
  All-reverse P [] h = tt
  All-reverse P (x ∷ xs) (hx, h) =
      subst (All P) (sym (reverse-cons x xs)) (All-snoc P (reverse xs) x (All-reverse P xs h) hx)

  Ordered-snoc :
      (R : A → A → Type 0) (xs : List A) (x : A)
      → Ordered R xs
      → All (λ y. R y x) xs
      → Ordered R (xs ++ x ∷ [])
  Ordered-snoc R [] x h hx = (tt, tt)
  Ordered-snoc R (y ∷ xs) x (hy, h) (yx, hx) = (All-snoc (R y) xs x hy yx, Ordered-snoc R xs x h hx)

  Ordered-reverse :
      (R S : A → A → Type 0) (xs : List A)
      → ((x y : A) → R x y → S y x)
      → Ordered R xs
      → Ordered S (reverse xs)
  Ordered-reverse R S [] f h = tt
  Ordered-reverse R S (x ∷ xs) f (hx, h) = subst (Ordered S) (sym (reverse-cons x xs)) (
      Ordered-snoc S (reverse xs) x (Ordered-reverse R S xs f h)
        (All-reverse (λ y. S y x) xs (All-map (R x) (λ y. S y x) xs (λ y. f x y) hx)))

strcmp_le-prefix : (p x : Bytes) → strcmp_le (p ++ slash ∷ x) p ≡ false
unfolding strcmp_le
strcmp_le-prefix [] x = refl
strcmp_le-prefix (c ∷ p) x =
    let less : ltb c c ≡ false = ground arith in
    let same : (c == c) ≡ true = ground arith in rw (less, same) (strcmp_le-prefix p x)

-- `e` lies in the directory `d` or below it.
abbrev pub IsBelow : DirMeta → DirMeta → Type 0
IsBelow d e = (x : Bytes) × (c_string e.path ≡ c_string d.path ++ slash ∷ x)

-- In the order in which the directories' modes and times are set, no directory comes before one
-- that lies below it. (`qsort` sorts.)
pub deepest_first-Ordered :
    (s : System) (dest : Bytes) (dirs : List DirMeta)
    → IsSystem s
    → Ordered (λ d e. ¬ IsBelow d e) (deepest_first s dest dirs)
unfolding deepest_first dir_le
deepest_first-Ordered s dest dirs h =
    Ordered-reverse (λ a b. dir_le a b ≡ true) (λ d e. ¬ IsBelow d e) (s.sort_dirs dirs)
      (λ e d le (x, below). false-ne (
        sym (strcmp_le-prefix (c_string d.path) x)
        ∙ ap (λ p. strcmp_le p (c_string d.path)) (sym below)
        ∙ le))
      (h.dirs_sort.orders dirs)
  where
    false-ne : false ≡ true → ⊥
    false-ne e = cc
