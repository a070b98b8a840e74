-- ===== src/Packer/Pipeline/Tests.antt =====
-- Runs of the pipeline, and the applications of its theorems.
use tarpack.Packer.Pipeline.Collect.{Distinct, nothing, first_object, pack_collect-objects}
use tarpack.Packer.Pipeline.Result.{pack_plan-packs, pack_plan_total}
use Prim.Native.String.{String}
use tarpack.Prelude.{
  ℕ, ◌≡◌, refl, Bool, true, some, List, [], ◌∷◌, arith, ltb, codes, Option, none, Bytes, str_eq,
}
use tarpack.Packer.Size.{estimate_entry_cost}
use tarpack.Packer.Bins.NextFit.{assign_next_fit, place, loop, exceeds, add_int64}
use tarpack.Manifest.{EntryType, ManifestEntry}
use tarpack.Packer.Pipeline.{
  PackedObject, PackPlan, Algo, Memory, pack_plan, join_classes, assign, select, items_from, zip,
  pack_collect, new_objects, collect_cb, object_id_present, collect_type, find_by_object_id,
  collect_file, keep_or_add,
}
use tarpack.Packer.Pipeline.Plan.{IsPack, objects_of, parted}
use tarpack.Packer.Ordering.Slices.{InRange}

abbrev ample : Memory
ample = record { has_order = true; has_tmp = λ order. true; grows = λ c. true }

abbrev object : String → ℕ → PackedObject
object id size = record { object_id = codes id; path = codes id; size = size }

abbrev four : List PackedObject
four = object "O1" 100 ∷ object "O2" 9000 ∷ object "O3" 200 ∷ object "O4" 300 ∷ []

abbrev large : PackedObject → Bool
large o = ltb 5000 o.size

abbrev unset : List ℕ
unset = 7 ∷ 7 ∷ 7 ∷ 7 ∷ []

abbrev planned : PackPlan
planned = record {
  bin_count_normal = 2;
  bin_count = 3;
  assigned =
      (object "O1" 100, 0)
      ∷ (object "O3" 200, 0)
      ∷ (object "O4" 300, 1)
      ∷ (object "O2" 9000, 2)
      ∷ [];
}

plan_run : pack_plan Algo.next_fit ample large 5200 four unset ≡ some planned
unfolding pack_plan join_classes assign select items_from zip estimate_entry_cost assign_next_fit
    place loop exceeds add_int64
plan_run = refl

pack_plan_total_example :
    (p : PackPlan) × (pack_plan Algo.next_fit ample large 5200 four unset ≡ some p)
    × (objects_of p ≡ parted large four)
    × InRange p.bin_count p.assigned
pack_plan_total_example =
    pack_plan_total Algo.next_fit ample large 5200 four unset (omega arith) refl (λ c. refl) refl

pack_plan-packs_example : IsPack 5200 large planned 1
pack_plan-packs_example =
    pack_plan-packs Algo.next_fit ample large 5200 four unset (omega arith) (omega arith)
      (omega arith, (omega arith, (omega arith, (omega arith, tt)))) refl (λ c. refl) refl planned
      plan_run 1 (omega arith)

abbrev entry : EntryType → Option Bytes → String → ManifestEntry
entry type id path = record {
  type = type;
  root = none;
  object_id = id;
  path = codes path;
  size = 5;
  target = [];
  meta = record { uid = 0; gid = 0; mode_perm = 420; mtime_sec = 0; mtime_nsec = 0; atime = none };
}

-- Two names of one file, a directory and another file.
abbrev tree : List ManifestEntry
tree =
    entry EntryType.file (some (codes "O1")) "a"
    ∷ entry EntryType.dir none "d"
    ∷ entry EntryType.file (some (codes "O1")) "d/b"
    ∷ entry EntryType.file (some (codes "O2")) "d/c"
    ∷ []

abbrev collected : String → String → PackedObject
collected id path = record { object_id = codes id; path = codes path; size = 5 }

tree_objects : (pack_collect nothing tree).objects ≡ collected "O1" "a" ∷ collected "O2" "d/c" ∷ []
unfolding pack_collect collect_cb collect_type collect_file keep_or_add find_by_object_id str_eq
tree_objects = refl

only_new :
    new_objects (codes "O2" ∷ []) (collected "O1" "a" ∷ collected "O2" "d/c" ∷ [])
    ≡ collected "O1" "a" ∷ []
unfolding new_objects select object_id_present str_eq
only_new = refl

pack_collect-objects_example :
    Distinct (pack_collect nothing tree).objects
    × (find_by_object_id (pack_collect nothing tree).objects (codes "O1")
        ≡ first_object (codes "O1") tree)
pack_collect-objects_example = pack_collect-objects tree (codes "O1")
