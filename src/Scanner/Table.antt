-- ===== src/Scanner/Table.antt =====
-- The ids of the object table: each was taken from elsewhere, or has a number of its own.
use tarpack.Prelude.{
  ℕ, ◌%◌, ◌≤◌, ◌<◌, ◌≡◌, refl, sym, ap, ◌∙◌, subst, ◌≢◌, ◌⊎◌, inl, inr, ◌&&◌, some, List, [], ◌∷◌,
  arith, ◌==◌, Bool-cases, some-same, none-ne, Bytes,
}
use tarpack.Scanner.{Object, object_find}
use tarpack.Index.Load.{object_id_of, numeric_suffix}
use tarpack.Index.Suffix.{numeric_suffix-object_id_of}
use tarpack.Packer.Names.{ulong_mod}

-- `K dev ino id` is about an object whose id is not made from a number.
module _ (K : ℕ → ℕ → Bytes → Type 0) (lo : ℕ) where
  -- An id that was made from a number between `lo` and `hi`.
  abbrev pub IsMade : ℕ → Bytes → Type 0
  IsMade hi id = (n : ℕ) × (id ≡ object_id_of (n % ulong_mod)) × (lo ≤ n) × (n < hi)

  -- The numbers grow towards the latest object.
  abbrev pub Objects : ℕ → List Object → Type 0
  Objects hi [] = Unit
  Objects hi (o ∷ os) =
      (K o.dev o.ino o.id × Objects hi os)
      ⊎ ((n : ℕ) × (o.id ≡ object_id_of (n % ulong_mod)) × (lo ≤ n) × (n < hi) × Objects n os)

  pub Objects-raise : (hi hi' : ℕ) (os : List Object) → hi ≤ hi' → Objects hi os → Objects hi' os
  Objects-raise hi hi' [] le h = tt
  Objects-raise hi hi' (o ∷ os) le (inl (known, h)) = inl (known, Objects-raise hi hi' os le h)
  Objects-raise hi hi' (o ∷ os) le (inr (n, e, l, u, h)) = inr (n, e, l, omega arith, h)

  pub object_find-found :
      (hi : ℕ) (os : List Object) (dev ino : ℕ) (o : Object)
      → Objects hi os
      → object_find os dev ino ≡ some o
      → K dev ino o.id ⊎ IsMade hi o.id
  unfolding object_find
  object_find-found hi [] dev ino o h e = absurd (none-ne e)
  object_find-found hi (p ∷ os) dev ino o h e = elim (Bool-cases (p.dev == dev && p.ino == ino)) [
    | inl t ↦
        let same : p ≡ o = some-same (sym (rw t refl) ∙ e) in
        subst (λ q. K dev ino q.id ⊎ IsMade hi q.id) same
          (here h (ground (arith, t)) (ground (arith, t)))
    | inr t ↦ later h (λ n h'. object_find-found n os dev ino o h' (sym (rw t refl) ∙ e))
  ]
    where
      here : Objects hi (p ∷ os) → p.dev ≡ dev → p.ino ≡ ino → K dev ino p.id ⊎ IsMade hi p.id
      here (inl (known, h')) ed ei =
          inl (subst (λ d. K d ino p.id) ed (subst (λ i. K p.dev i p.id) ei known))
      here (inr (n, en, l, u, h')) ed ei = inr (n, en, l, u)

      later :
          Objects hi (p ∷ os)
          → ((n : ℕ) → Objects n os → K dev ino o.id ⊎ IsMade n o.id)
          → K dev ino o.id ⊎ IsMade hi o.id
      later (inl (known, h')) found = found hi h'
      later (inr (n, en, l, u, h')) found = elim (found n h') [
        | inl known ↦ inl known
        | inr (m, em, lm, um) ↦ inr (m, em, lm, omega arith)
      ]

  made_apart :
      (m n : ℕ) (a b : Bytes)
      → m < n
      → n < ulong_mod
      → a ≡ object_id_of (m % ulong_mod)
      → b ≡ object_id_of (n % ulong_mod)
      → a ≢ b
  made_apart m n a b lt small ea eb same =
      let number : m % ulong_mod ≡ n % ulong_mod =
        sym (numeric_suffix-object_id_of (m % ulong_mod) (omega arith))
        ∙ ap numeric_suffix (sym ea ∙ same ∙ eb)
        ∙ numeric_suffix-object_id_of (n % ulong_mod) (omega arith) in
      absurd (omega arith)

  -- An object of the head and one behind it with the same id: one of the ids is not made.
  head_and_later :
      (hi : ℕ) (p : Object) (os : List Object) (dev ino : ℕ) (o : Object)
      → hi ≤ ulong_mod
      → Objects hi (p ∷ os)
      → object_find os dev ino ≡ some o
      → p.id ≡ o.id
      → K p.dev p.ino p.id ⊎ K dev ino o.id
  head_and_later hi p os dev ino o small (inl (known, h)) f same = inl known
  head_and_later hi p os dev ino o small (inr (n, en, l, u, h)) f same =
      elim (object_find-found n os dev ino o h f) [
        | inl known ↦ inr known
        | inr (m, em, lm, um) ↦ absurd (made_apart m n o.id p.id um (omega arith) em en (sym same))
      ]

  -- The head is the object that is looked up.
  head-K :
      (p a : Object) (dev ino : ℕ)
      → p ≡ a
      → p.dev ≡ dev
      → p.ino ≡ ino
      → K p.dev p.ino p.id
      → K dev ino a.id
  head-K p a dev ino pa ed ei known =
      subst (λ q. K dev ino q.id) pa
        (subst (λ d. K d ino p.id) ed (subst (λ i. K p.dev i p.id) ei known))

  behind : (hi : ℕ) (p : Object) (os : List Object) → Objects hi (p ∷ os) → Objects hi os
  behind hi p os (inl (known, h)) = h
  behind hi p os (inr (n, e, l, u, h)) = Objects-raise n hi os (omega arith) h

  pub object_find-apart :
      (hi : ℕ) (os : List Object) (dev ino dev' ino' : ℕ) (a b : Object)
      → hi ≤ ulong_mod
      → Objects hi os
      → object_find os dev ino ≡ some a
      → object_find os dev' ino' ≡ some b
      → a.id ≡ b.id
      → ((dev ≡ dev') × (ino ≡ ino')) ⊎ (K dev ino a.id ⊎ K dev' ino' b.id)
  unfolding object_find
  object_find-apart hi [] dev ino dev' ino' a b small h fa fb same = absurd (none-ne fa)
  object_find-apart hi (p ∷ os) dev ino dev' ino' a b small h fa fb same =
      elim (Bool-cases (p.dev == dev && p.ino == ino)) [
        | inl t ↦ elim (Bool-cases (p.dev == dev' && p.ino == ino')) [
          | inl t' ↦ inl (ground (arith, t, t'), ground (arith, t, t'))
          | inr t' ↦
              let pa : p ≡ a = some-same (sym (rw t refl) ∙ fa) in
              let ed : p.dev ≡ dev = ground (arith, t) in
              let ei : p.ino ≡ ino = ground (arith, t) in
              elim (head_and_later hi p os dev' ino' b small h (sym (rw t' refl) ∙ fb)
                (ap (λ q. q.id) pa ∙ same)) [
                  | inl known ↦ inr (inl (head-K p a dev ino pa ed ei known))
                  | inr known ↦ inr (inr known)
                ]
        ]
        | inr t ↦ elim (Bool-cases (p.dev == dev' && p.ino == ino')) [
          | inl t' ↦
              let pb : p ≡ b = some-same (sym (rw t' refl) ∙ fb) in
              let ed : p.dev ≡ dev' = ground (arith, t') in
              let ei : p.ino ≡ ino' = ground (arith, t') in
              elim (head_and_later hi p os dev ino a small h (sym (rw t refl) ∙ fa)
                (ap (λ q. q.id) pb ∙ sym same)) [
                  | inl known ↦ inr (inr (head-K p b dev' ino' pb ed ei known))
                  | inr known ↦ inr (inl known)
                ]
          | inr t' ↦
              object_find-apart hi os dev ino dev' ino' a b small (behind hi p os h)
                (sym (rw t refl) ∙ fa) (sym (rw t' refl) ∙ fb) same
        ]
      ]
