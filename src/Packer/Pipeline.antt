-- ===== src/Packer/Pipeline.antt =====
-- The part of `tp_pack_multi` (src/packer.c) that decides which objects go into which pack:
-- `collect_cb`, the selection of the objects that the index does not have, the partition into
-- classes, and the binning of each class. An object's owner, mode, times and extended attributes
-- are copied along by the code and left out. The verdict of `tp_sample_is_incompressible` is the
-- function `is_store`.
pub mod Collect
pub mod Classes
pub mod Packs
pub mod Plan
pub mod Result
mod Tests
use tarpack.Manifest.{EntryType, ManifestEntry}
use tarpack.Packer.Bins.NextFit.{assign_next_fit}
use tarpack.Packer.Ordering.{subset}
use tarpack.Packer.Bins.Ffd.{Memory, assign_ffd}
use tarpack.Packer.Size.{estimate_entry_cost}
use tarpack.Prelude.{
  ℕ, ◌+◌, Bool, false, ◌||◌, not, Option, none, some, List, [], ◌∷◌, ◌++◌, map, ltb, if◌then◌else◌,
  length, take, drop, Bytes, str_eq, subst,
}
use tarpack.Packer.Bins.{BinItem}

-- `struct tp_packed_object`
pub record PackedObject : Type 0 where
  pub object_id : Bytes
  pub path : Bytes
  pub size : ℕ

-- `struct collect_ctx`
pub record CollectCtx : Type 0 where
  pub objects : List PackedObject
  pub root : Option Bytes

unfoldable pub find_by_object_id : List PackedObject → Bytes → Option PackedObject
find_by_object_id [] id = none
find_by_object_id (o ∷ os) id =
    let rest = find_by_object_id os id in if str_eq o.object_id id then some o else rest

abbrev pub packed_object : Bytes → ManifestEntry → PackedObject
packed_object id e = record { object_id = id; path = e.path; size = e.size }

-- The object is added unless `find_by_object_id` has found one.
unfoldable pub keep_or_add : CollectCtx → PackedObject → Option PackedObject → CollectCtx
keep_or_add ctx o (some found) = ctx
keep_or_add ctx o none = record ctx { objects = ctx.objects ++ o ∷ [] }

unfoldable pub collect_file : CollectCtx → ManifestEntry → Option Bytes → CollectCtx
collect_file ctx e none = ctx
collect_file ctx e (some id) =
    keep_or_add ctx (packed_object id e) (find_by_object_id ctx.objects id)

unfoldable pub collect_header : CollectCtx → Option Bytes → CollectCtx
collect_header ctx none = ctx
collect_header ctx (some root) = record ctx { root = some root }

-- `collect_cb`, for an entry of type `type`.
unfoldable pub collect_type : CollectCtx → ManifestEntry → EntryType → CollectCtx
collect_type ctx e EntryType.header = collect_header ctx e.root
collect_type ctx e EntryType.file = collect_file ctx e e.object_id
collect_type ctx e EntryType.dir = ctx
collect_type ctx e EntryType.symlink = ctx

unfoldable pub collect_cb : CollectCtx → ManifestEntry → CollectCtx
collect_cb ctx e = collect_type ctx e e.type

-- `tp_pack_collect` over the entries of a snapshot in their order.
unfoldable pub pack_collect : CollectCtx → List ManifestEntry → CollectCtx
pack_collect ctx [] = ctx
pack_collect ctx (e ∷ es) = pack_collect (collect_cb ctx e) es

-- `tp_index_object_id_present`, for the ids of the index.
unfoldable pub object_id_present : List Bytes → Bytes → Bool
object_id_present [] id = false
object_id_present (k ∷ ids) id = str_eq k id || object_id_present ids id

-- The elements that pass the test, in their order.
unfoldable pub select {ℓ} : {A : Type ℓ} → (A → Bool) → List A → List A
select test [] = []
select test (x ∷ xs) = let rest = select test xs in if test x then x ∷ rest else rest

-- The loop that fills `new_set`.
unfoldable pub new_objects : List Bytes → List PackedObject → List PackedObject
new_objects ids objects = select (λ o. not (object_id_present ids o.object_id)) objects

pub data Algo : Type 0 where
  next_fit : Algo
  ffd : Algo

-- `items`, from index `i` on.
unfoldable pub items_from : ℕ → List PackedObject → List BinItem
items_from i [] = []
items_from i (o ∷ os) = record { id = i; cost = estimate_entry_cost o.size } ∷ items_from (i + 1) os

-- One of the two calls `algo == TP_PACK_ALGO_FFD ? tp_bin_assign_ffd(...) : tp_bin_assign_next_fit(...)`.
unfoldable pub assign : Algo → Memory → List BinItem → ℕ → List ℕ → Option (ℕ × List ℕ)
assign Algo.ffd m items target bin_out = assign_ffd m items target bin_out
assign Algo.next_fit m items target bin_out = assign_next_fit items target

unfoldable pub zip : List PackedObject → List ℕ → List (PackedObject × ℕ)
zip (o ∷ os) (b ∷ bins) = (o, b) ∷ zip os bins
zip _ _ = []

-- The variables behind the binning; `assigned` holds `new_set.objects` with `bin_of`.
pub record PackPlan : Type 0 where
  pub bin_count_normal : ℕ
  pub bin_count : ℕ
  pub assigned : List (PackedObject × ℕ)

-- The bins of the store class are numbered behind the normal ones.
unfoldable pub join_classes :
    List PackedObject
    → List PackedObject
    → Option (ℕ × List ℕ)
    → Option (ℕ × List ℕ)
    → Option PackPlan
join_classes normal store (some (n, bins)) (some (n', bins')) = some (record {
  bin_count_normal = n;
  bin_count = n + n';
  assigned = zip normal bins ++ zip store (map (λ b. b + n) bins');
})
join_classes normal store _ _ = none

-- From the classification to `bin_of`. `bin_out` is what malloc left in the array.
unfoldable pub pack_plan :
    Algo → Memory → (PackedObject → Bool) → ℕ → List PackedObject → List ℕ → Option PackPlan
pack_plan algo m is_store target objects bin_out =
    let normal = select (λ o. not (is_store o)) objects in
    let store = select is_store objects in
    let split = length normal in
    join_classes normal store (assign algo m (items_from 0 normal) target (take split bin_out))
      (assign algo m (items_from split store) target (drop split bin_out))

-- `TP_PACK_STORE_ZSTD_LEVEL`
abbrev pub store_zstd_level : ℕ
store_zstd_level = 1

-- What the last loop hands to `write_one_pack_and_commit` for bin `b`: the level and the objects.
unfoldable pub pack_at : PackPlan → ℕ → ℕ × List (Option PackedObject)
pack_at p b =
    (if ltb b p.bin_count_normal then 0 else store_zstd_level, subset p.bin_count p.assigned b)
