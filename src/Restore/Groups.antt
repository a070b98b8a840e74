-- ===== src/Restore/Groups.antt =====
-- What the grouping of a snapshot's files holds.
use tarpack.Manifest.{EntryType, ManifestEntry}
use tarpack.Restore.Links.{
  LinkGroup, add_ref, new_group, find_or_add, link_file, collect_links_type, collect_links,
}
use tarpack.Prelude.{
  ◌≡◌, refl, sym, ap, ◌∙◌, inl, inr, true, false, Option, none, some, List, [], ◌∷◌, ◌++◌, Bytes,
  Bool-cases, if◌then◌else◌, append_nil, append_assoc, str_eq, str_eq_iff,
}

-- The paths of the group of an object.
unfoldable pub refs_of : Bytes → List LinkGroup → List Bytes
refs_of id [] = []
refs_of id (g ∷ groups) =
    let rest = refs_of id groups in if str_eq g.object_id id then g.first ∷ g.others else rest

abbrev pub path_if : Bytes → ManifestEntry → Option Bytes → List Bytes
path_if id e none = []
path_if id e (some k) = if str_eq k id then e.path ∷ [] else []

abbrev pub path_in : Bytes → ManifestEntry → EntryType → List Bytes
path_in id e EntryType.file = path_if id e e.object_id
path_in id e _ = []

-- The paths of the file entries of an object, in their order.
unfoldable pub paths_with : Bytes → List ManifestEntry → List Bytes
paths_with id [] = []
paths_with id (e ∷ es) = path_in id e e.type ++ paths_with id es

-- The path, if it is that of the object `id`.
abbrev if_same : Bytes → Bytes → Bytes → List Bytes
if_same k id path = if str_eq k id then path ∷ [] else []

abbrev HasAdded : List LinkGroup → Bytes → Bytes → Bytes → Option (List LinkGroup) → Type 0
HasAdded groups k path id none =
    (x : LinkGroup)
    → x.object_id ≡ k
    → x.first ≡ path
    → x.others ≡ []
    → refs_of id (groups ++ x ∷ []) ≡ refs_of id groups ++ if_same k id path
HasAdded groups k path id (some added) = refs_of id added ≡ refs_of id groups ++ if_same k id path

str_eq-other : (a k id : Bytes) → str_eq a id ≡ true → str_eq a k ≡ false → str_eq k id ≡ false
str_eq-other a k id same other = elim (Bool-cases (str_eq k id)) [
  | inl e ↦ absurd (
      true-ne
        (sym ((str_eq_iff a k).1 ((str_eq_iff a id).0 same ∙ sym ((str_eq_iff k id).0 e))) ∙ other))
  | inr e ↦ e
]
  where
    true-ne : true ≡ false → ⊥
    true-ne e = cc

extended :
    (g : LinkGroup) (groups : List LinkGroup) (k path id : Bytes)
    → str_eq g.object_id k ≡ true
    → refs_of id (record g { others = g.others ++ path ∷ [] } ∷ groups)
      ≡ refs_of id (g ∷ groups) ++ if_same k id path
unfolding refs_of
extended g groups k path id e =
    let same : str_eq k id ≡ str_eq g.object_id id =
      ap (λ v. str_eq v id) (sym ((str_eq_iff g.object_id k).0 e)) in
    elim (Bool-cases (str_eq g.object_id id)) [
      | inl f ↦ rw (f, same ∙ f) refl
      | inr f ↦ rw (f, same ∙ f) (sym (append_nil (refs_of id groups)))
    ]

-- A group in front of a list to which the path was added.
behind :
    (g : LinkGroup) (k path id : Bytes) (before after : List Bytes)
    → str_eq g.object_id k ≡ false
    → after ≡ before ++ if_same k id path
    → (if str_eq g.object_id id then g.first ∷ g.others else after)
      ≡ (if str_eq g.object_id id then g.first ∷ g.others else before) ++ if_same k id path
behind g k path id before after e h = elim (Bool-cases (str_eq g.object_id id)) [
  | inl f ↦ rw (f, str_eq-other g.object_id k id f e) (sym (append_nil (g.first ∷ g.others)))
  | inr f ↦ rw f h
]

add_ref-cons :
    (g : LinkGroup) (groups : List LinkGroup) (k path id : Bytes) (o : Option (List LinkGroup))
    → str_eq g.object_id k ≡ false
    → HasAdded groups k path id o
    → HasAdded (g ∷ groups) k path id (elim o [ none ↦ none | some more ↦ some (g ∷ more) ])
unfolding refs_of
add_ref-cons g groups k path id none e h =
    λ x a b c. behind g k path id (refs_of id groups) (refs_of id (groups ++ x ∷ [])) e (h x a b c)
add_ref-cons g groups k path id (some more) e h =
    behind g k path id (refs_of id groups) (refs_of id more) e h

alone :
    (x : LinkGroup) (k path id : Bytes)
    → x.object_id ≡ k
    → x.first ≡ path
    → x.others ≡ []
    → refs_of id (x ∷ []) ≡ if_same k id path
unfolding refs_of
alone x k path id a b c = rw (a, b, c) refl

add_ref-refs :
    (groups : List LinkGroup) (k path id : Bytes)
    → HasAdded groups k path id (add_ref groups k path)
unfolding add_ref
add_ref-refs [] k path id = λ x a b c. unfold refs_of in alone x k path id a b c
add_ref-refs (g ∷ groups) k path id = elim (Bool-cases (str_eq g.object_id k)) [
  | inl e ↦ simp e (extended g groups k path id e)
  | inr e ↦
      simp e
        (add_ref-cons g groups k path id (add_ref groups k path) e (add_ref-refs groups k path id))
]

find_or_add-refs :
    (groups : List LinkGroup) (k id : Bytes) (e : ManifestEntry) (o : Option (List LinkGroup))
    → HasAdded groups k e.path id o
    → refs_of id (find_or_add groups (new_group k e) o) ≡ refs_of id groups ++ if_same k id e.path
unfolding find_or_add
find_or_add-refs groups k id e none h = h (new_group k e) refl refl refl
find_or_add-refs groups k id e (some added) h = h

link_file-refs :
    (groups : List LinkGroup) (id : Bytes) (e : ManifestEntry) (o : Option Bytes)
    → refs_of id (link_file groups e o) ≡ refs_of id groups ++ path_if id e o
unfolding link_file
link_file-refs groups id e none = sym (append_nil (refs_of id groups))
link_file-refs groups id e (some k) =
    find_or_add-refs groups k id e (add_ref groups k e.path) (add_ref-refs groups k e.path id)

entry-refs :
    (groups : List LinkGroup) (id : Bytes) (e : ManifestEntry) (t : EntryType)
    → refs_of id (collect_links_type groups e t) ≡ refs_of id groups ++ path_in id e t
unfolding collect_links_type
entry-refs groups id e EntryType.file = link_file-refs groups id e e.object_id
entry-refs groups id e EntryType.header = sym (append_nil (refs_of id groups))
entry-refs groups id e EntryType.dir = sym (append_nil (refs_of id groups))
entry-refs groups id e EntryType.symlink = sym (append_nil (refs_of id groups))

refs_of-collect_links :
    (groups : List LinkGroup) (es : List ManifestEntry) (id : Bytes)
    → refs_of id (collect_links groups es) ≡ refs_of id groups ++ paths_with id es
unfolding collect_links paths_with
refs_of-collect_links groups [] id = sym (append_nil (refs_of id groups))
refs_of-collect_links groups (e ∷ es) id =
    refs_of-collect_links (collect_links_type groups e e.type) es id
    ∙ ap (λ l. l ++ paths_with id es) (entry-refs groups id e e.type)
    ∙ append_assoc (refs_of id groups) (path_in id e e.type) (paths_with id es)

-- The group of an object has the paths of all file entries of the object, in their order: the first
-- of them is the file that is extracted, the others are its hard links.
pub collect_links-refs :
    (es : List ManifestEntry) (id : Bytes) → refs_of id (collect_links [] es) ≡ paths_with id es
collect_links-refs es id = refs_of-collect_links [] es id ∙ unfold refs_of in refl
