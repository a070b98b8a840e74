-- ===== src/Restore/Sorting.antt =====
-- A sort that does what the model asks of `qsort`, for the comparisons of src/restore.c.
use tarpack.Restore.Order.{strcmp_le, dir_le, needed_le, Ordered, IsSort}
use tarpack.Restore.Plan.{NeededObj}
use tarpack.Prelude.{
  ◌≡◌, refl, sym, ap, ◌∙◌, inl, inr, Bool, true, false, ◌&&◌, List, [], ◌∷◌, arith, All, Bytes,
  Bool-cases, c_string, str_eq, str_eq_iff, str_eq_comm, if◌then◌else◌,
}
use mathlib.Core.List.{Permᴰ}

strcmp_le_total : (s t : Bytes) → strcmp_le s t ≡ false → strcmp_le t s ≡ true
unfolding strcmp_le
strcmp_le_total [] t h = cc
strcmp_le_total (a ∷ s) [] h = refl
strcmp_le_total (a ∷ s) (b ∷ t) h = elim (Bool-cases (strcmp_le s t)) [
  | inl e ↦ ground (arith, h, e)
  | inr e ↦ ground (arith, h, e, strcmp_le_total s t e)
]

strcmp_le_trans :
    (s t u : Bytes) → strcmp_le s t ≡ true → strcmp_le t u ≡ true → strcmp_le s u ≡ true
unfolding strcmp_le
strcmp_le_trans [] t u h k = refl
strcmp_le_trans (a ∷ s) [] u h k = cc
strcmp_le_trans (a ∷ s) (b ∷ t) [] h k = cc
strcmp_le_trans (a ∷ s) (b ∷ t) (c ∷ u) h k = elim (Bool-cases (strcmp_le s t && strcmp_le t u)) [
  | inl e ↦ ground (arith, h, k, strcmp_le_trans s t u (ground arith) (ground arith))
  | inr e ↦ ground (arith, h, k, e)
]

strcmp_le_antisymm : (s t : Bytes) → strcmp_le s t ≡ true → strcmp_le t s ≡ true → str_eq s t ≡ true
unfolding strcmp_le str_eq
strcmp_le_antisymm [] [] h k = refl
strcmp_le_antisymm [] (b ∷ t) h k = cc
strcmp_le_antisymm (a ∷ s) [] h k = cc
strcmp_le_antisymm (a ∷ s) (b ∷ t) h k = elim (Bool-cases (strcmp_le s t && strcmp_le t s)) [
  | inl e ↦ ground (arith, h, k, strcmp_le_antisymm s t (ground arith) (ground arith))
  | inr e ↦ ground (arith, h, k, e)
]

pub record IsTotalOrder {A : Type 0} (le : A → A → Bool) : Type 0 where
  pub total : (a b : A) → le a b ≡ false → le b a ≡ true
  pub transitive : (a b c : A) → le a b ≡ true → le b c ≡ true → le a c ≡ true

dir_le-IsTotalOrder : IsTotalOrder dir_le
unfolding dir_le
dir_le-IsTotalOrder = record {
  total = λ a b. strcmp_le_total (c_string a.path) (c_string b.path);
  transitive = λ a b c. strcmp_le_trans (c_string a.path) (c_string b.path) (c_string c.path);
}

module _ {A : Type 0} (le : A → A → Bool) where
  unfoldable pub insert : A → List A → List A
  insert x [] = x ∷ []
  insert x (y ∷ ys) = let rest = insert x ys in if le x y then x ∷ y ∷ ys else y ∷ rest

  unfoldable pub sorted : List A → List A
  sorted [] = []
  sorted (x ∷ xs) = insert x (sorted xs)

  same_list : (xs : List A) → Permᴰ xs xs
  same_list [] = Permᴰ.nil
  same_list (x ∷ xs) = Permᴰ.cons refl (same_list xs)

  insert-Permᴰ : (x : A) (ys : List A) → Permᴰ (x ∷ ys) (insert x ys)
  unfolding insert
  insert-Permᴰ x [] = Permᴰ.cons refl Permᴰ.nil
  insert-Permᴰ x (y ∷ ys) = elim (Bool-cases (le x y)) [
    | inl e ↦ rw e (same_list (x ∷ y ∷ ys))
    | inr e ↦ rw e (Permᴰ.trans (Permᴰ.swap refl refl) (Permᴰ.cons refl (insert-Permᴰ x ys)))
  ]

  sorted-Permᴰ : (xs : List A) → Permᴰ xs (sorted xs)
  unfolding sorted
  sorted-Permᴰ [] = Permᴰ.nil
  sorted-Permᴰ (x ∷ xs) =
      Permᴰ.trans (Permᴰ.cons refl (sorted-Permᴰ xs)) (insert-Permᴰ x (sorted xs))

  abbrev Le : A → A → Type 0
  Le a b = le a b ≡ true

  All-insert : (P : A → Type 0) (x : A) (ys : List A) → P x → All P ys → All P (insert x ys)
  unfolding insert
  All-insert P x [] hx h = (hx, tt)
  All-insert P x (y ∷ ys) hx (hy, h) = elim (Bool-cases (le x y)) [
    | inl e ↦ rw e (hx, (hy, h))
    | inr e ↦ rw e (hy, All-insert P x ys hx h)
  ]

  below-All : (o : IsTotalOrder le) (x y : A) (ys : List A) → Le x y → All (Le y) ys → All (Le x) ys
  below-All o x y [] e h = tt
  below-All o x y (z ∷ ys) e (hz, h) = (o.transitive x y z e hz, below-All o x y ys e h)

  insert-Ordered :
      (o : IsTotalOrder le) (x : A) (ys : List A) → Ordered Le ys → Ordered Le (insert x ys)
  unfolding insert
  insert-Ordered o x [] h = (tt, tt)
  insert-Ordered o x (y ∷ ys) (hy, h) = elim (Bool-cases (le x y)) [
    | inl e ↦ rw e ((e, below-All o x y ys e hy), (hy, h))
    | inr e ↦ rw e (All-insert (Le y) x ys (o.total x y e) hy, insert-Ordered o x ys h)
  ]

  sorted-Ordered : (o : IsTotalOrder le) (xs : List A) → Ordered Le (sorted xs)
  unfolding sorted
  sorted-Ordered o [] = tt
  sorted-Ordered o (x ∷ xs) = insert-Ordered o x (sorted xs) (sorted-Ordered o xs)

  pub sorted-IsSort : IsTotalOrder le → IsSort le sorted
  sorted-IsSort o = record { permutes = sorted-Permᴰ; orders = sorted-Ordered o }

pub sorted-dirs : IsSort dir_le (sorted dir_le)
sorted-dirs = sorted-IsSort dir_le dir_le-IsTotalOrder

pub sorted-names : IsSort strcmp_le (sorted strcmp_le)
sorted-names =
    sorted-IsSort strcmp_le (record { total = strcmp_le_total; transitive = strcmp_le_trans })

needed_le_total : (a b : NeededObj) → needed_le a b ≡ false → needed_le b a ≡ true
unfolding needed_le
needed_le_total a b h = elim (Bool-cases (str_eq a.ie.pack b.ie.pack)) [
  | inl e ↦
      rw (str_eq_comm b.ie.pack a.ie.pack ∙ e)
        (strcmp_le_total a.group.object_id b.group.object_id (rw e at h))
  | inr e ↦
      rw (str_eq_comm b.ie.pack a.ie.pack ∙ e) (strcmp_le_total a.ie.pack b.ie.pack (rw e at h))
]

-- Two comparisons of packs and ids, with what is known of the packs.
chain :
    (p q r i j k : Bytes)
    → (if str_eq p q then strcmp_le i j else strcmp_le p q) ≡ true
    → (if str_eq q r then strcmp_le j k else strcmp_le q r) ≡ true
    → (if str_eq p r then strcmp_le i k else strcmp_le p r) ≡ true
chain p q r i j k h h' = elim (Bool-cases (str_eq p q)) [
  | inl e ↦
      let same : p ≡ q = (str_eq_iff p q).0 e in
      elim (Bool-cases (str_eq q r)) [
        | inl f ↦
            let e' : str_eq p r ≡ true = ap (λ v. str_eq v r) same ∙ f in
            rw e' (strcmp_le_trans i j k (rw e at h) (rw f at h'))
        | inr f ↦
            let e' : str_eq p r ≡ false = ap (λ v. str_eq v r) same ∙ f in
            rw e' (ap (λ v. strcmp_le v r) same ∙ (rw f at h'))
      ]
  | inr e ↦ elim (Bool-cases (str_eq q r)) [
    | inl f ↦
        let same : q ≡ r = (str_eq_iff q r).0 f in
        let e' : str_eq p r ≡ false = ap (str_eq p) (sym same) ∙ e in
        rw e' (ap (strcmp_le p) (sym same) ∙ (rw e at h))
    | inr f ↦
        let pq : strcmp_le p q ≡ true = rw e at h in
        let qr : strcmp_le q r ≡ true = rw f at h' in
        elim (Bool-cases (str_eq p r)) [
          | inl g ↦
              let back : strcmp_le q p ≡ true = ap (strcmp_le q) ((str_eq_iff p r).0 g) ∙ qr in
              absurd (true-ne (sym (strcmp_le_antisymm p q pq back) ∙ e))
          | inr g ↦ rw g (strcmp_le_trans p q r pq qr)
        ]
  ]
]
  where
    true-ne : true ≡ false → ⊥
    true-ne e = cc

needed_le-IsTotalOrder : IsTotalOrder needed_le
unfolding needed_le
needed_le-IsTotalOrder = record {
  total = needed_le_total;
  transitive = λ a b c.
      chain a.ie.pack b.ie.pack c.ie.pack a.group.object_id b.group.object_id c.group.object_id;
}

pub sorted-needed : IsSort needed_le (sorted needed_le)
sorted-needed = sorted-IsSort needed_le needed_le-IsTotalOrder
