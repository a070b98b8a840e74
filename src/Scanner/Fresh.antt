-- ===== src/Scanner/Fresh.antt =====
-- The ids that are made from a number at or above the next one of the index are new.
use tarpack.Scanner.Table.{IsMade}
use tarpack.Prelude.{
  ℕ, ◌+◌, ◌%◌, ◌≤◌, ◌<◌, ◌≡◌, sym, ap, ◌∙◌, subst, ◌≢◌, inl, inr, List, [], ◌∷◌, arith, All, Bytes,
  zero, suc, ◌/◌, refl, ◌==◌, Bool-cases, length, take, Member, length-append,
}
use tarpack.Index.{IndexEntry}
use tarpack.Index.Load.{ObjectIndex, numeric_suffix, object_id_of}
use tarpack.Index.NextId.{IsBelowNext}
use tarpack.Index.Suffix.{numeric_suffix-object_id_of}
use tarpack.Packer.Names.{ulong_mod, decimal, padded}

-- The numbers of the ids in the index leave room for the next one.
abbrev pub HasRoom : ObjectIndex → Type 0
HasRoom idx = All (λ e. numeric_suffix e.object_id + 1 < ulong_mod) idx.entries

pub made_new :
    (K : ℕ → ℕ → Bytes → Type 0) (entries : List IndexEntry) (lo hi : ℕ) (id : Bytes)
    → hi ≤ ulong_mod
    → All (IsBelowNext lo) entries
    → All (λ e. numeric_suffix e.object_id + 1 < ulong_mod) entries
    → IsMade K lo hi id
    → All (λ e. e.object_id ≢ id) entries
made_new K [] lo hi id small below room made = tt
made_new K (e ∷ entries) lo hi id small (below, hs) (room, rs) (n, made, l, u) =
    let read : e.object_id ≡ id → numeric_suffix e.object_id ≡ n = λ same.
      ap numeric_suffix (same ∙ made)
      ∙ numeric_suffix-object_id_of (n % ulong_mod) (omega arith)
      ∙ omega arith in
    (
      λ same. let number = read same in let less = below room in absurd (omega arith),
      made_new K entries lo hi id small hs rs (n, made, l, u),
    )

length-decimal : (f n : ℕ) → length (decimal f n) ≤ f
unfolding decimal
length-decimal zero n = omega arith
length-decimal (suc f) n = elim (Bool-cases (n == 0)) [
  | inl e ↦ rw e (omega arith)
  | inr e ↦ rw e (
      omega
        (arith, length-append (decimal f (n / 10)) ((48 + n % 10) ∷ []), length-decimal f (n / 10)))
]

pub length-object_id_of : (n : ℕ) → length (object_id_of n) < 31
unfolding object_id_of padded
length-object_id_of n =
    omega
      (arith, length-append (decimal 20 (n / 10)) ((48 + n % 10) ∷ []), length-decimal 20 (n / 10))

pub take_short : (k : ℕ) (x : Bytes) → length (take k x) < k → take k x ≡ x
take_short zero x h = absurd (omega arith)
take_short (suc k) [] h = refl
take_short (suc k) (c ∷ x) h = ap (◌∷◌ c) (take_short k x (omega arith))

pub All-Member : {A : Type 0} (P : A → Type 0) (x : A) (xs : List A) → Member x xs → All P xs → P x
All-Member P x [] m h = elim m [ ]
All-Member P x (y ∷ xs) (inl e) (hy, h) = subst P (sym e) hy
All-Member P x (y ∷ xs) (inr m) (hy, h) = All-Member P x xs m h
