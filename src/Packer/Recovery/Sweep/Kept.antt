-- ===== src/Packer/Recovery/Sweep/Kept.antt =====
-- What the sweep leaves and what it keeps.
use tarpack.Packer.Recovery.Sweep.Doomed.{dooms, doomed_by, dooms_pack, has-to_delete}
use tarpack.Packer.Recovery.Sweep.{is_part, unlink_all, sweep, pack_base, has, to_delete}
use tarpack.Prelude.{
  ◌≡◌, ◌⊎◌, inl, inr, true, false, none, some, List, [], ◌∷◌, ◌++◌, arith, Bool-cases, Option-cases,
  All, Bytes, str_eq_refl, sym, ap, ◌∙◌, All-of_append, append_assoc,
}
use tarpack.Packer.Recovery.Sweep.{has}

-- The name is no scratch file, and if it is that of a pack, the pack is indexed.
abbrev pub IsCommitted : List Bytes → Bytes → Type 0
IsCommitted indexed n =
    (is_part n ≡ false)
    × ((pack_base n ≡ none)
        ⊎ ((base : Bytes) × (pack_base n ≡ some base) × (has indexed base ≡ true)))

committed : (indexed : List Bytes) (n : Bytes) → dooms indexed n n ≡ false → IsCommitted indexed n
unfolding dooms dooms_pack
committed indexed n h = elim (Bool-cases (is_part n)) [
  | inl e ↦ absurd (ground (arith, str_eq_refl n, rw e at h))
  | inr e ↦ (
    e,
    elim (Option-cases (pack_base n)) [
      | inl p ↦ inl p
      | inr (base, p) ↦ inr (base, p, ground (arith, str_eq_refl n, rw (e, p) at h))
    ],
  )
]

-- A name that is not marked is marked by no name of the directory.
not_doomed :
    (indexed names : List Bytes) (x : Bytes)
    → doomed_by indexed names x ≡ false
    → All (λ n. dooms indexed n x ≡ false) names
unfolding doomed_by
not_doomed indexed [] x h = tt
not_doomed indexed (n ∷ names) x h =
    (ground (arith, h), not_doomed indexed names x (ground (arith, h)))

All-IsCommitted :
    (indexed pre names : List Bytes) (marked : List Bytes)
    → ((x : Bytes) → has marked x ≡ doomed_by indexed (pre ++ names) x)
    → All (IsCommitted indexed) (unlink_all marked names)
unfolding unlink_all
All-IsCommitted indexed pre [] marked h = tt
All-IsCommitted indexed pre (n ∷ names) marked h = elim (Bool-cases (has marked n)) [
  | inl e ↦ rw e (All-IsCommitted indexed (pre ++ n ∷ []) names marked further)
  | inr e ↦ rw e (
    committed indexed n (
        (All-of_append (λ m. dooms indexed m n ≡ false) pre (n ∷ names)
          (not_doomed indexed (pre ++ n ∷ names) n (sym (h n) ∙ e))).1.0),
    All-IsCommitted indexed (pre ++ n ∷ []) names marked further,
  )
]
  where
    further : (x : Bytes) → has marked x ≡ doomed_by indexed ((pre ++ n ∷ []) ++ names) x
    further x = h x ∙ ap (λ l. doomed_by indexed l x) (sym (append_assoc pre (n ∷ []) names))

-- After the sweep no scratch file is left, and every name left that is recognised as a pack's is
-- that of an indexed one.
pub sweep-IsCommitted :
    (indexed names : List Bytes) → All (IsCommitted indexed) (sweep indexed names)
unfolding sweep doomed_by has
sweep-IsCommitted indexed names =
    All-IsCommitted indexed [] names (to_delete indexed [] names) (has-to_delete indexed [] names)
