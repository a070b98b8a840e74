-- ===== src/Packer/Recovery/Sweep/Doomed.antt =====
-- Which names are marked for deletion.
use tarpack.Packer.Recovery.Sweep.{add, is_part, mark_pack, mark, to_delete, pack_base}
use tarpack.Prelude.{
  ◌≡◌, refl, sym, ap, ◌∙◌, ◌⊎◌, inl, inr, Bool, true, false, ◌&&◌, ◌||◌, not, Option, none, some,
  List, [], ◌∷◌, ◌++◌, arith, if◌then◌else◌, Bool-cases, Bytes, codes, str_eq, str_eq_iff,
}
use tarpack.Packer.Recovery.Sweep.{has}

pub has-snoc :
    (names : List Bytes) (y x : Bytes) → has (names ++ y ∷ []) x ≡ (has names x || str_eq y x)
unfolding has
has-snoc [] y x = ground arith
has-snoc (k ∷ names) y x = ground (arith, has-snoc names y x)

pub has-add : (names : List Bytes) (y x : Bytes) → has (add names y) x ≡ (has names x || str_eq y x)
unfolding add
has-add names y x = elim (Bool-cases (has names y)) [
  | inl e ↦ rw e (already (Bool-cases (str_eq y x)) e)
  | inr e ↦ rw e (has-snoc names y x)
]
  where
    already :
        (str_eq y x ≡ true) ⊎ (str_eq y x ≡ false)
        → has names y ≡ true
        → has names x ≡ (has names x || str_eq y x)
    already (inl same) h = rw (ap (has names) (sym ((str_eq_iff y x).0 same)) ∙ h) refl
    already (inr other) h = ground arith

-- The name `n` of the directory causes `x` to be deleted.
unfoldable pub dooms_pack : List Bytes → Bytes → Bytes → Option Bytes → Bool
dooms_pack indexed n x none = false
dooms_pack indexed n x (some base) =
    not (has indexed base) && (str_eq n x || str_eq (base ++ codes ".json") x)

unfoldable pub dooms : List Bytes → Bytes → Bytes → Bool
dooms indexed n x = if is_part n then str_eq n x else dooms_pack indexed n x (pack_base n)

unfoldable pub doomed_by : List Bytes → List Bytes → Bytes → Bool
doomed_by indexed [] x = false
doomed_by indexed (n ∷ names) x = dooms indexed n x || doomed_by indexed names x

has-mark_pack :
    (indexed marked : List Bytes) (n x : Bytes) (b : Option Bytes)
    → has (mark_pack indexed marked n b) x ≡ (has marked x || dooms_pack indexed n x b)
unfolding mark_pack dooms_pack
has-mark_pack indexed marked n x none = ground arith
has-mark_pack indexed marked n x (some base) =
    ground (arith, has-add marked n x, has-add (add marked n) (base ++ codes ".json") x)

has-mark :
    (indexed marked : List Bytes) (n x : Bytes)
    → has (mark indexed marked n) x ≡ (has marked x || dooms indexed n x)
unfolding mark dooms
has-mark indexed marked n x = elim (Bool-cases (is_part n)) [
  | inl e ↦ rw e (has-add marked n x)
  | inr e ↦ rw e (has-mark_pack indexed marked n x (pack_base n))
]

-- The set of marked names is described by the names of the directory one by one.
pub has-to_delete :
    (indexed marked names : List Bytes) (x : Bytes)
    → has (to_delete indexed marked names) x ≡ (has marked x || doomed_by indexed names x)
unfolding to_delete doomed_by
has-to_delete indexed marked [] x = ground arith
has-to_delete indexed marked (n ∷ names) x =
    ground
      (arith, has-mark indexed marked n x, has-to_delete indexed (mark indexed marked n) names x)
