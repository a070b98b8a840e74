-- ===== src/Restore/Refusal.antt =====
-- Which snapshots `tp_restore` refuses before its first call.
use tarpack.Index.{IndexEntry}
use tarpack.Manifest.{EntryType, ManifestEntry}
use tarpack.Restore.Links.{
  LinkGroup, add_ref, new_group, find_or_add, link_file, collect_links_type, collect_links,
}
use tarpack.Restore.Groups.{refs_of, paths_with, collect_links-refs}
use tarpack.Restore.PathSafe.{path_safe}
use tarpack.Restore.Plan.{
  System, dirs_of, syms_of, refs_safe, groups_safe, dirs_safe, syms_safe, needed_with, resolve,
  add_dir, add_sym,
}
use tarpack.Restore.Extract.{restore, restore_rc}
use tarpack.Prelude.{
  ◌≡◌, refl, ap, ◌∙◌, inl, inr, ◌⊎◌, Bool, true, false, ◌&&◌, Option, none, some, List, [], ◌∷◌,
  ◌++◌, arith, Bytes, Bool-cases, str_eq, str_eq_iff,
}

-- The test of the path of one entry.
abbrev pub id_safe : ManifestEntry → Option Bytes → Bool
id_safe e none = true
id_safe e (some id) = path_safe e.path

abbrev pub type_safe : ManifestEntry → EntryType → Bool
type_safe e EntryType.header = true
type_safe e EntryType.file = id_safe e e.object_id
type_safe e EntryType.dir = path_safe e.path
type_safe e EntryType.symlink = path_safe e.path

-- The path of each file with an object, directory and symbolic link passes the test.
unfoldable pub entries_safe : List ManifestEntry → Bool
entries_safe [] = true
entries_safe (e ∷ es) = type_safe e e.type && entries_safe es

refs_safe-snoc :
    (ps : List Bytes) (p : Bytes) → refs_safe (ps ++ p ∷ []) ≡ (refs_safe ps && path_safe p)
unfolding refs_safe
refs_safe-snoc [] p = ground arith
refs_safe-snoc (q ∷ ps) p = ground (arith, refs_safe-snoc ps p)

groups_safe-snoc :
    (groups : List LinkGroup) (g : LinkGroup)
    → groups_safe (groups ++ g ∷ []) ≡ (groups_safe groups && refs_safe (g.first ∷ g.others))
unfolding groups_safe
groups_safe-snoc [] g = ground arith
groups_safe-snoc (k ∷ groups) g = ground (arith, groups_safe-snoc groups g)

abbrev AddsSafe : List LinkGroup → Bytes → Option (List LinkGroup) → Type 0
AddsSafe groups path none = Unit {0}
AddsSafe groups path (some added) = groups_safe added ≡ (groups_safe groups && path_safe path)

add_ref-cons :
    (g : LinkGroup) (groups : List LinkGroup) (path : Bytes) (o : Option (List LinkGroup))
    → AddsSafe groups path o
    → AddsSafe (g ∷ groups) path (elim o [ none ↦ none | some more ↦ some (g ∷ more) ])
unfolding groups_safe
add_ref-cons g groups path none h = tt
add_ref-cons g groups path (some more) h = ground (arith, h)

add_ref-safe :
    (groups : List LinkGroup) (k path : Bytes) → AddsSafe groups path (add_ref groups k path)
unfolding add_ref
add_ref-safe [] k path = tt
add_ref-safe (g ∷ groups) k path = elim (Bool-cases (str_eq g.object_id k)) [
  | inl e ↦ simp e (unfold groups_safe refs_safe in ground (arith, refs_safe-snoc g.others path))
  | inr e ↦ simp e (add_ref-cons g groups path (add_ref groups k path) (add_ref-safe groups k path))
]

find_or_add-safe :
    (groups : List LinkGroup) (k : Bytes) (e : ManifestEntry) (o : Option (List LinkGroup))
    → AddsSafe groups e.path o
    → groups_safe (find_or_add groups (new_group k e) o) ≡ (groups_safe groups && path_safe e.path)
unfolding find_or_add refs_safe
find_or_add-safe groups k e none h = groups_safe-snoc groups (new_group k e) ∙ ground arith
find_or_add-safe groups k e (some added) h = h

link_file-safe :
    (groups : List LinkGroup) (e : ManifestEntry) (o : Option Bytes)
    → groups_safe (link_file groups e o) ≡ (groups_safe groups && id_safe e o)
unfolding link_file
link_file-safe groups e none = ground arith
link_file-safe groups e (some k) =
    find_or_add-safe groups k e (add_ref groups k e.path) (add_ref-safe groups k e.path)

-- One entry among the groups, the directories and the symbolic links; `rest` is the test of the
-- following entries.
entry_safe :
    (groups : List LinkGroup) (e : ManifestEntry) (es : List ManifestEntry) (t : EntryType)
    (rest : Bool)
    → ((gs : List LinkGroup)
        → (groups_safe (collect_links gs es) && (dirs_safe (dirs_of es) && syms_safe (syms_of es)))
          ≡ (groups_safe gs && rest))
    → (groups_safe (collect_links (collect_links_type groups e t) es)
        && (dirs_safe (add_dir t e (dirs_of es)) && syms_safe (add_sym t e (syms_of es))))
      ≡ (groups_safe groups && (type_safe e t && rest))
unfolding collect_links_type dirs_safe syms_safe
entry_safe groups e es EntryType.header rest h = h groups
entry_safe groups e es EntryType.file rest h =
    h (link_file groups e e.object_id)
    ∙ ap (λ b. b && rest) (link_file-safe groups e e.object_id)
    ∙ ground arith
entry_safe groups e es EntryType.dir rest h = ground (arith, h groups)
entry_safe groups e es EntryType.symlink rest h = ground (arith, h groups)

collect_links-safe :
    (groups : List LinkGroup) (es : List ManifestEntry)
    → (groups_safe (collect_links groups es) && (dirs_safe (dirs_of es) && syms_safe (syms_of es)))
      ≡ (groups_safe groups && entries_safe es)
unfolding collect_links entries_safe dirs_of syms_of dirs_safe syms_safe
collect_links-safe groups [] = ground arith
collect_links-safe groups (e ∷ es) =
    entry_safe groups e es e.type (entries_safe es) (λ gs. collect_links-safe gs es)

-- An object that the index does not have.
resolve-missing :
    (find : Bytes → Option IndexEntry) (groups : List LinkGroup) (id p : Bytes) (ps : List Bytes)
    → refs_of id groups ≡ p ∷ ps
    → find id ≡ none
    → resolve find groups ≡ none
unfolding resolve refs_of
resolve-missing find [] id p ps h missing = cc
resolve-missing find (g ∷ groups) id p ps h missing = elim (Bool-cases (str_eq g.object_id id)) [
  | inl e ↦
      ap (λ o. needed_with g o (resolve find groups))
        (ap find ((str_eq_iff g.object_id id).0 e) ∙ missing)
  | inr e ↦
      ap (needed_with g (find g.object_id))
        (resolve-missing find groups id p ps (rw e at h) missing)
      ∙ none_left (find g.object_id)
]
  where
    none_left : (o : Option IndexEntry) → needed_with g o none ≡ none
    none_left none = refl
    none_left (some ie) = refl

-- If the path of a file with an object, of a directory or of a symbolic link fails the test, or a
-- file has an object that the index does not have, no call is made and the result is -1.
pub restore-refuses :
    (s : System) (dest : Bytes) (es : List ManifestEntry) (find : Bytes → Option IndexEntry)
    → (entries_safe es ≡ false)
      ⊎ ((id : Bytes) × (p : Bytes) × (ps : List Bytes) × (paths_with id es ≡ p ∷ ps)
          × (find id ≡ none))
    → ((restore s dest (some es) (some find)).ops ≡ [])
      × (restore_rc (restore s dest (some es) (some find)) ≡ none)
unfolding restore restore_rc
restore-refuses s dest es find (inl unsafe) =
    let fails : (groups_safe (collect_links [] es)
          && (dirs_safe (dirs_of es) && syms_safe (syms_of es)))
        ≡ false =
      ground (arith, collect_links-safe [] es, unsafe) in
    simp fails (refl, refl)
restore-refuses s dest es find (inr (id, p, ps, named, missing)) =
    let gone =
      resolve-missing find (collect_links [] es) id p ps (collect_links-refs es id ∙ named)
        missing in
    elim (Bool-cases
      (groups_safe (collect_links [] es) && (dirs_safe (dirs_of es) && syms_safe (syms_of es)))) [
        | inl e ↦ simp (e, gone) (refl, refl)
        | inr e ↦ simp e (refl, refl)
      ]
