-- ===== src/Restore/Links.antt =====
-- The grouping of a snapshot's files by object (src/restore.c): `tp_restore_collect_links` and
-- `collect_links_cb`.
use tarpack.Manifest.{EntryType, ManifestEntry, Meta}
use tarpack.Prelude.{ℕ, Option, none, some, List, [], ◌∷◌, ◌++◌, if◌then◌else◌, Bytes, str_eq}

-- `struct tp_restore_link_group`. The first path is a field of its own: a group that is added gets
-- its first path at once.
pub record LinkGroup : Type 0 where
  pub object_id : Bytes
  pub first : Bytes
  pub others : List Bytes
  pub size : ℕ
  pub meta : Meta

-- `link_set_find`, and the group that it finds with a further path.
unfoldable pub add_ref : List LinkGroup → Bytes → Bytes → Option (List LinkGroup)
add_ref [] id path = none
add_ref (g ∷ groups) id path =
    let rest = add_ref groups id path in
    if str_eq g.object_id id
    then some (record g { others = g.others ++ path ∷ [] } ∷ groups)
    else elim rest [ none ↦ none | some more ↦ some (g ∷ more) ]

abbrev pub new_group : Bytes → ManifestEntry → LinkGroup
new_group id e = record {
  object_id = id;
  first = e.path;
  others = [];
  size = e.size;
  meta = e.meta;
}

unfoldable pub find_or_add : List LinkGroup → LinkGroup → Option (List LinkGroup) → List LinkGroup
find_or_add groups g none = groups ++ g ∷ []
find_or_add groups g (some added) = added

unfoldable pub link_file : List LinkGroup → ManifestEntry → Option Bytes → List LinkGroup
link_file groups e none = groups
link_file groups e (some id) = find_or_add groups (new_group id e) (add_ref groups id e.path)

-- `collect_links_cb`, for an entry of type `type`.
unfoldable pub collect_links_type : List LinkGroup → ManifestEntry → EntryType → List LinkGroup
collect_links_type groups e EntryType.file = link_file groups e e.object_id
collect_links_type groups e EntryType.header = groups
collect_links_type groups e EntryType.dir = groups
collect_links_type groups e EntryType.symlink = groups

-- `tp_restore_collect_links` over the entries of a snapshot in their order.
unfoldable pub collect_links : List LinkGroup → List ManifestEntry → List LinkGroup
collect_links groups [] = groups
collect_links groups (e ∷ es) = collect_links (collect_links_type groups e e.type) es
