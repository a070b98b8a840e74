-- ===== src/Packer/Pipeline/Classes.antt =====
-- The bins of one class, and the two classes put together.
use tarpack.Packer.Ordering.{pick}
use native.Mathlib.Decide.{ℕ_discrete}
use tarpack.Prelude.{
  ℕ, ◌+◌, ◌≤◌, ◌<◌, ◌≡◌, refl, inl, inr, Bool, true, List, [], ◌∷◌, map, arith, ◌==◌, Bool-cases,
  length, All, ap, ltb, ltb→lt, ==_refl,
}
use tarpack.Packer.Bins.{members, load}
use tarpack.Packer.Pipeline.{PackedObject, zip, items_from, select, estimate_entry_cost}
use tarpack.Packer.Ordering.Slices.{InRange}

-- The sum of the estimates of some objects.
unfoldable pub cost_of : List PackedObject → ℕ
cost_of [] = 0
cost_of (o ∷ os) = estimate_entry_cost o.size + cost_of os

pub length-pick-zip :
    (b : ℕ) (os : List PackedObject) (bins : List ℕ)
    → length bins ≡ length os
    → length (pick b (zip os bins)) ≡ members b bins
unfolding pick zip members
length-pick-zip b [] [] e = refl
length-pick-zip b [] (c ∷ bins) e = absurd (omega arith)
length-pick-zip b (o ∷ os) [] e = absurd (omega arith)
length-pick-zip b (o ∷ os) (c ∷ bins) e = ground (arith, length-pick-zip b os bins (omega arith))

pub cost_of-pick :
    (b i : ℕ) (os : List PackedObject) (bins : List ℕ)
    → length bins ≡ length os
    → cost_of (pick b (zip os bins)) ≡ load b (items_from i os) bins
unfolding pick zip load items_from cost_of
cost_of-pick b i [] [] e = refl
cost_of-pick b i [] (c ∷ bins) e = absurd (omega arith)
cost_of-pick b i (o ∷ os) [] e = absurd (omega arith)
cost_of-pick b i (o ∷ os) (c ∷ bins) e =
    ground (arith, cost_of-pick b (i + 1) os bins (omega arith))

pub All-pick {κ} :
    (P : PackedObject → Type κ) (b : ℕ) (os : List PackedObject) (bins : List ℕ)
    → All P os
    → All P (pick b (zip os bins))
unfolding pick zip
All-pick P b [] [] h = tt
All-pick P b [] (c ∷ bins) h = tt
All-pick P b (o ∷ os) [] h = tt
All-pick P b (o ∷ os) (c ∷ bins) (ho, h) = elim (Bool-cases (c == b)) [
  | inl e ↦ rw e (ho, All-pick P b os bins h)
  | inr e ↦ rw e (All-pick P b os bins h)
]

pub pick-shift :
    (n b : ℕ) (os : List PackedObject) (bins : List ℕ)
    → pick (b + n) (zip os (map (λ c. c + n) bins)) ≡ pick b (zip os bins)
unfolding pick zip
pick-shift n b [] [] = refl
pick-shift n b [] (c ∷ bins) = refl
pick-shift n b (o ∷ os) [] = refl
pick-shift n b (o ∷ os) (c ∷ bins) = elim (ℕ_discrete c b) [
  | yes e ↦
      rw (ap (λ k. k == b) e, ==_refl b, ap (λ k. (k + n) == (b + n)) e, ==_refl (b + n))
        (ap (◌∷◌ o) (pick-shift n b os bins))
  | no ne ↦ ground (arith, pick-shift n b os bins)
]

pub pick-shift_below :
    (n b : ℕ) (os : List PackedObject) (bins : List ℕ)
    → b < n
    → pick b (zip os (map (λ c. c + n) bins)) ≡ []
unfolding pick zip
pick-shift_below n b [] [] h = refl
pick-shift_below n b [] (c ∷ bins) h = refl
pick-shift_below n b (o ∷ os) [] h = refl
pick-shift_below n b (o ∷ os) (c ∷ bins) h = ground (arith, pick-shift_below n b os bins h)

-- Bins that only have numbers below `n`.
pub InRange-zip :
    (n : ℕ) (os : List PackedObject) (bins : List ℕ)
    → ((b : ℕ) → n ≤ b → members b bins ≡ 0)
    → InRange n (zip os bins)
unfolding zip members
InRange-zip n [] [] h = tt
InRange-zip n [] (c ∷ bins) h = tt
InRange-zip n (o ∷ os) [] h = tt
InRange-zip n (o ∷ os) (c ∷ bins) h = (
  elim (Bool-cases (ltb c n)) [ inl e ↦ ltb→lt c n e | inr e ↦ absurd (ground (arith, h c)) ],
  InRange-zip n os bins (λ b hb. omega (arith, h b hb)),
)

pub All-select {ℓ} :
    {A : Type ℓ} (test : A → Bool) (xs : List A) → All (λ x. test x ≡ true) (select test xs)
unfolding select
All-select test [] = tt
All-select test (x ∷ xs) = elim (Bool-cases (test x)) [
  | inl e ↦ rw e (e, All-select test xs)
  | inr e ↦ rw e (All-select test xs)
]
