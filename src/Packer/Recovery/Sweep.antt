-- ===== src/Packer/Recovery/Sweep.antt =====
-- `recover_crashed_state` of src/packer.c: which files of the packs directory an earlier crash left.
-- Removing a file succeeds; paths are shorter than PATH_MAX.
pub mod Doomed
pub mod Kept
pub mod Survivors
mod Tests
use tarpack.Prelude.{
  ℕ, ◌>>=◌, ◌-◌, Bool, false, ◌&&◌, ◌||◌, Option, none, some, List, [], ◌∷◌, ◌++◌, ltb, ◌==◌,
  if◌then◌else◌, length, take, drop, Bytes, codes, str_eq, c_string, lines,
}
use tarpack.Packer.Names.{after_prefix, scan_ulong}

-- `pack_name_set_has`
unfoldable pub has : List Bytes → Bytes → Bool
has [] name = false
has (k ∷ names) name = str_eq k name || has names name

-- `pack_name_set_add`
unfoldable pub add : List Bytes → Bytes → List Bytes
add names name = if has names name then names else names ++ name ∷ []

-- `strstr`: what follows the first occurrence of `key`.
unfoldable pub find_after : Bytes → Bytes → Option Bytes
find_after key [] = after_prefix key []
find_after key (c ∷ s) =
    let later = find_after key s in
    elim (after_prefix key (c ∷ s)) [ some rest ↦ some rest | none ↦ later ]

-- The bytes before the first quotation mark.
unfoldable pub until_quote : Bytes → Option Bytes
until_quote [] = none
until_quote (c ∷ s) =
    let rest = until_quote s in if c == 34 then some [] else (do name ← rest; some (c ∷ name))

abbrev pub pack_key : Bytes
pack_key = 34 ∷ (codes "pack" ++ (34 ∷ 58 ∷ 34 ∷ []))

-- The pack that one line of objects.jsonl names.
unfoldable pub pack_of_line : Bytes → Option Bytes
pack_of_line line = do
  rest ← find_after pack_key (c_string line)
  name ← until_quote rest
  if ltb (length name) 64 then some name else none

unfoldable pub add_pack : List Bytes → Option Bytes → List Bytes
add_pack names none = names
add_pack names (some name) = add names name

unfoldable pub collect_lines : List Bytes → List Bytes → List Bytes
collect_lines names [] = names
collect_lines names (l ∷ ls) = collect_lines (add_pack names (pack_of_line l)) ls

-- `collect_indexed_packs`, for the content of objects.jsonl.
unfoldable pub collect_indexed_packs : Option Bytes → List Bytes
collect_indexed_packs none = []
collect_indexed_packs (some file) = collect_lines [] (lines file)

-- `len > strlen(suffix) && strcmp(name + len - strlen(suffix), suffix) == 0`
unfoldable pub has_suffix : Bytes → Bytes → Bool
has_suffix suffix name =
    ltb (length suffix) (length name) && str_eq (drop (length name - length suffix) name) suffix

unfoldable pub is_part : Bytes → Bool
is_part name = has_suffix (codes ".part") name

-- `sscanf(base, "pack-%6lu%c", &num, &rest) == 1`
unfoldable pub is_numbered : Bytes → Bool
is_numbered base = elim (do s ← after_prefix (codes "pack-") base; scan_ulong s) [
  | none ↦ false
  | some (n, rest) ↦ length rest == 0
]

-- `base`, if the name is that of a pack.
unfoldable pub pack_base : Bytes → Option Bytes
pack_base name =
    let base = take (length name - 8) name in
    if has_suffix (codes ".tar.zst") name && (ltb (length base) 64 && is_numbered base)
    then some base
    else none

unfoldable pub mark_pack : List Bytes → List Bytes → Bytes → Option Bytes → List Bytes
mark_pack indexed marked name none = marked
mark_pack indexed marked name (some base) =
    if has indexed base then marked else add (add marked name) (base ++ codes ".json")

-- One round of the loop over the directory.
unfoldable pub mark : List Bytes → List Bytes → Bytes → List Bytes
mark indexed marked name =
    if is_part name then add marked name else mark_pack indexed marked name (pack_base name)

unfoldable pub to_delete : List Bytes → List Bytes → List Bytes → List Bytes
to_delete indexed marked [] = marked
to_delete indexed marked (name ∷ names) = to_delete indexed (mark indexed marked name) names

unfoldable pub unlink_all : List Bytes → List Bytes → List Bytes
unlink_all marked [] = []
unlink_all marked (name ∷ names) =
    let rest = unlink_all marked names in if has marked name then rest else name ∷ rest

-- What is left in the directory.
unfoldable pub sweep : List Bytes → List Bytes → List Bytes
sweep indexed names = unlink_all (to_delete indexed [] names) names
