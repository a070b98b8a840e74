-- ===== src/Packer/Pipeline/Collect.antt =====
-- What `tp_pack_collect` finds in a snapshot.
use tarpack.Prelude.{
  ◌≡◌, refl, ◌∙◌, inl, inr, Option, none, some, List, [], ◌∷◌, ◌++◌, if◌then◌else◌, Bool-cases,
  Bytes, str_eq, arith, str_eq_comm, sym, ap, subst, str_eq_iff,
}
use tarpack.Manifest.{EntryType, ManifestEntry}
use tarpack.Packer.Pipeline.{
  PackedObject, CollectCtx, packed_object, find_by_object_id, collect_cb, collect_file, keep_or_add,
  collect_header, collect_type, pack_collect,
}

abbrev pub or_else : Option PackedObject → Option PackedObject → Option PackedObject
or_else (some o) b = some o
or_else none b = b

-- The object of a file with this object id.
unfoldable pub object_with : Bytes → ManifestEntry → Option Bytes → Option PackedObject
object_with id e none = none
object_with id e (some k) = if str_eq k id then some (packed_object k e) else none

-- The object of one entry, if it is a file with this object id.
unfoldable pub object_in : Bytes → ManifestEntry → EntryType → Option PackedObject
object_in id e EntryType.file = object_with id e e.object_id
object_in id e _ = none

-- The object of the first file with this object id.
unfoldable pub first_object : Bytes → List ManifestEntry → Option PackedObject
first_object id [] = none
first_object id (e ∷ es) = or_else (object_in id e e.type) (first_object id es)

-- No two objects have the same id.
abbrev pub Distinct : List PackedObject → Type 0
Distinct [] = Unit
Distinct (o ∷ os) = (find_by_object_id os o.object_id ≡ none) × Distinct os

find-snoc :
    (os : List PackedObject) (o : PackedObject) (id : Bytes)
    → find_by_object_id (os ++ o ∷ []) id
      ≡ or_else (find_by_object_id os id) (if str_eq o.object_id id then some o else none)
unfolding find_by_object_id
find-snoc [] o id = refl
find-snoc (p ∷ os) o id = elim (Bool-cases (str_eq p.object_id id)) [
  | inl e ↦ rw e refl
  | inr e ↦ rw e (find-snoc os o id)
]

Distinct-snoc :
    (os : List PackedObject) (o : PackedObject)
    → Distinct os
    → find_by_object_id os o.object_id ≡ none
    → Distinct (os ++ o ∷ [])
unfolding find_by_object_id
Distinct-snoc [] o d h = (refl, tt)
Distinct-snoc (p ∷ os) o (hp, d) h = elim (Bool-cases (str_eq p.object_id o.object_id)) [
  | inl e ↦ absurd (ground (arith, e, h))
  | inr e ↦ (
    find-snoc os o p.object_id ∙ rw (hp, str_eq_comm o.object_id p.object_id, e) refl,
    Distinct-snoc os o d (ground (arith, e, h)),
  )
]

or_else_assoc : (a b c : Option PackedObject) → or_else (or_else a b) c ≡ or_else a (or_else b c)
or_else_assoc none b c = refl
or_else_assoc (some o) b c = refl

or_else-none : (a : Option PackedObject) → or_else a none ≡ a
or_else-none none = refl
or_else-none (some o) = refl

keep_or_add-find :
    (ctx : CollectCtx) (o : PackedObject) (id : Bytes) (r : Option PackedObject)
    → find_by_object_id ctx.objects o.object_id ≡ r
    → find_by_object_id (keep_or_add ctx o r).objects id
      ≡ or_else (find_by_object_id ctx.objects id) (if str_eq o.object_id id then some o else none)
unfolding keep_or_add
keep_or_add-find ctx o id none h = find-snoc ctx.objects o id
keep_or_add-find ctx o id (some found) h = elim (Bool-cases (str_eq o.object_id id)) [
  | inl e ↦
      let same = (str_eq_iff o.object_id id).0 e in
      rw (sym (ap (find_by_object_id ctx.objects) same) ∙ h) refl
  | inr e ↦ rw e (sym (or_else-none (find_by_object_id ctx.objects id)))
]

collect_file-find :
    (ctx : CollectCtx) (e : ManifestEntry) (id : Bytes) (k : Option Bytes)
    → find_by_object_id (collect_file ctx e k).objects id
      ≡ or_else (find_by_object_id ctx.objects id) (object_with id e k)
unfolding collect_file object_with
collect_file-find ctx e id none = sym (or_else-none (find_by_object_id ctx.objects id))
collect_file-find ctx e id (some k) =
    keep_or_add-find ctx (packed_object k e) id (find_by_object_id ctx.objects k) refl

header_objects :
    (ctx : CollectCtx) (root : Option Bytes) → (collect_header ctx root).objects ≡ ctx.objects
unfolding collect_header
header_objects ctx none = refl
header_objects ctx (some root) = refl

collect_type-find :
    (ctx : CollectCtx) (e : ManifestEntry) (id : Bytes) (t : EntryType)
    → find_by_object_id (collect_type ctx e t).objects id
      ≡ or_else (find_by_object_id ctx.objects id) (object_in id e t)
unfolding collect_type object_in
collect_type-find ctx e id EntryType.header =
    ap (λ os. find_by_object_id os id) (header_objects ctx e.root)
    ∙ sym (or_else-none (find_by_object_id ctx.objects id))
collect_type-find ctx e id EntryType.file = collect_file-find ctx e id e.object_id
collect_type-find ctx e id EntryType.dir = sym (or_else-none (find_by_object_id ctx.objects id))
collect_type-find ctx e id EntryType.symlink = sym (or_else-none (find_by_object_id ctx.objects id))

keep_or_add-Distinct :
    (ctx : CollectCtx) (o : PackedObject) (r : Option PackedObject)
    → find_by_object_id ctx.objects o.object_id ≡ r
    → Distinct ctx.objects
    → Distinct (keep_or_add ctx o r).objects
unfolding keep_or_add
keep_or_add-Distinct ctx o none h d = Distinct-snoc ctx.objects o d h
keep_or_add-Distinct ctx o (some found) h d = d

collect_file-Distinct :
    (ctx : CollectCtx) (e : ManifestEntry) (k : Option Bytes)
    → Distinct ctx.objects
    → Distinct (collect_file ctx e k).objects
unfolding collect_file
collect_file-Distinct ctx e none d = d
collect_file-Distinct ctx e (some k) d =
    keep_or_add-Distinct ctx (packed_object k e) (find_by_object_id ctx.objects k) refl d

collect_type-Distinct :
    (ctx : CollectCtx) (e : ManifestEntry) (t : EntryType)
    → Distinct ctx.objects
    → Distinct (collect_type ctx e t).objects
unfolding collect_type
collect_type-Distinct ctx e EntryType.header d = subst Distinct (sym (header_objects ctx e.root)) d
collect_type-Distinct ctx e EntryType.file d = collect_file-Distinct ctx e e.object_id d
collect_type-Distinct ctx e EntryType.dir d = d
collect_type-Distinct ctx e EntryType.symlink d = d

abbrev pub nothing : CollectCtx
nothing = record { objects = []; root = none }

collect-find :
    (ctx : CollectCtx) (es : List ManifestEntry) (id : Bytes)
    → find_by_object_id (pack_collect ctx es).objects id
      ≡ or_else (find_by_object_id ctx.objects id) (first_object id es)
unfolding pack_collect first_object collect_cb
collect-find ctx [] id = sym (or_else-none (find_by_object_id ctx.objects id))
collect-find ctx (e ∷ es) id =
    collect-find (collect_cb ctx e) es id
    ∙ ap (λ o. or_else o (first_object id es)) (collect_type-find ctx e id e.type)
    ∙ or_else_assoc (find_by_object_id ctx.objects id) (object_in id e e.type) (first_object id es)

collect-Distinct :
    (ctx : CollectCtx) (es : List ManifestEntry)
    → Distinct ctx.objects
    → Distinct (pack_collect ctx es).objects
unfolding pack_collect collect_cb
collect-Distinct ctx [] d = d
collect-Distinct ctx (e ∷ es) d =
    collect-Distinct (collect_cb ctx e) es (collect_type-Distinct ctx e e.type d)

-- The objects collected from a snapshot have different ids, and what is found under an id is the
-- object of the first file entry with that id; nothing is found if there is no such entry.
pub pack_collect-objects :
    (es : List ManifestEntry) (id : Bytes)
    → Distinct (pack_collect nothing es).objects
      × (find_by_object_id (pack_collect nothing es).objects id ≡ first_object id es)
unfolding find_by_object_id
pack_collect-objects es id = (collect-Distinct nothing es tt, collect-find nothing es id)
