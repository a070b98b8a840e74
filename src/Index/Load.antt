-- ===== src/Index/Load.antt =====
-- `tp_index_load` and the lookups of src/index.c. cJSON's parser and the hash tables (uthash) are
-- parameters: what a line's JSON object has under a key, and which of the nodes with an equal key a
-- lookup finds.
use tarpack.Prelude.{
  ◌>>=◌, ℕ, ◌+◌, ◌-◌, ◌*◌, ◌%◌, Bool, true, ◌&&◌, Option, none, some, List, [], ◌∷◌, ltb, ◌==◌,
  if◌then◌else◌, length, take, Bytes, codes, str_eq, c_string, lines,
}
use tarpack.Checksum.{trim_line}
use tarpack.Index.{IndexEntry}
use tarpack.Packer.Names.{is_decimal, padded, ulong_mod}
use tarpack.Util.Base64.{decode_path_b64}

-- `cJSON_GetObjectItemCaseSensitive` with `cJSON_IsString` and with `cJSON_IsNumber`.
pub record Fields : Type 0 where
  pub string : Bytes → Option Bytes
  pub number : Bytes → Option ℕ

-- `struct tp_index`, the nodes from the latest one on.
pub record ObjectIndex : Type 0 where
  pub entries : List IndexEntry
  pub next_id : ℕ

pub data IndexFile : Type 0 where
  missing : IndexFile
  unreadable : IndexFile
  holds : Bytes → IndexFile

unfoldable pub only_digits : Bytes → Bool
only_digits [] = true
only_digits (c ∷ s) = is_decimal c && only_digits s

-- The value of digits behind the value `val`.
unfoldable pub digits_value : ℕ → Bytes → ℕ
digits_value val [] = val
digits_value val (c ∷ s) = digits_value (val * 10 + (c - b'0')) s

-- `strtoull`, which stops at the largest value.
abbrev pub strtoull : Bytes → ℕ
strtoull s = let val = digits_value 0 s in if ltb val ulong_mod then val else ulong_mod - 1

-- The digits of an id behind its `O`.
unfoldable pub suffix_digits : Bytes → Option Bytes
suffix_digits (c ∷ d ∷ s) = if c == b'O' && only_digits (d ∷ s) then some (d ∷ s) else none
suffix_digits _ = none

abbrev pub suffix_value : Option Bytes → ℕ
suffix_value none = 0
suffix_value (some s) = strtoull s

unfoldable pub numeric_suffix : Bytes → ℕ
numeric_suffix id = suffix_value (suffix_digits id)

-- "O%llu"
unfoldable pub object_id_of : ℕ → Bytes
object_id_of n = 79 ∷ padded 1 n

abbrev pub path_or_b64 : Option Bytes → Option Bytes → Option Bytes
path_or_b64 (some path) b64 = some path
path_or_b64 none (some b64) = decode_path_b64 b64
path_or_b64 none none = none

abbrev pub or_empty : Option Bytes → Bytes
or_empty none = []
or_empty (some s) = s

abbrev pub or_zero : Option ℕ → ℕ
or_zero none = 0
or_zero (some n) = n

-- The entry of one line.
unfoldable pub entry_of : Fields → Option IndexEntry
entry_of f = do
  id ← f.string (codes "object_id")
  pack ← f.string (codes "pack")
  offset ← f.number (codes "offset")
  size ← f.number (codes "size")
  path ← path_or_b64 (f.string (codes "path")) (f.string (codes "path_b64"))
  some (record {
    object_id = id;
    pack = pack;
    offset = offset;
    size = size;
    sha256_hex = take 64 (or_empty (f.string (codes "sha256")));
    path = path;
    mtime_sec = or_zero (f.number (codes "mtime_sec"));
    mtime_nsec = or_zero (f.number (codes "mtime_nsec"));
  })

unfoldable pub raise_next : ℕ → ℕ → ℕ
raise_next next suffix =
    let after = (suffix + 1) % ulong_mod in if ltb next after then after else next

unfoldable pub add_entry : ObjectIndex → IndexEntry → ObjectIndex
add_entry idx e = record {
  entries = e ∷ idx.entries;
  next_id = raise_next idx.next_id (numeric_suffix e.object_id);
}

-- `load_line_cb`
unfoldable pub load_line : (Bytes → Option Fields) → ObjectIndex → Bytes → Option ObjectIndex
load_line parse idx line = do f ← parse line; e ← entry_of f; some (add_entry idx e)

unfoldable pub next_line : (Bytes → Option Fields) → ObjectIndex → Bytes → Option ObjectIndex
next_line parse idx l =
    if length (trim_line l) == 0 then some idx else load_line parse idx (c_string (trim_line l))

unfoldable pub load_lines : (Bytes → Option Fields) → ObjectIndex → List Bytes → Option ObjectIndex
load_lines parse idx [] = some idx
load_lines parse idx (l ∷ ls) = do idx' ← next_line parse idx l; load_lines parse idx' ls

abbrev pub empty_index : ObjectIndex
empty_index = record { entries = []; next_id = 1 }

-- `tp_index_load`; none is its -1.
unfoldable pub index_load : (Bytes → Option Fields) → IndexFile → Option ObjectIndex
index_load parse IndexFile.missing = some empty_index
index_load parse IndexFile.unreadable = none
index_load parse (IndexFile.holds file) = load_lines parse empty_index (lines file)

-- The nodes of a hash table whose keys are equal to the one looked up.
unfoldable pub nodes_with : (IndexEntry → Bool) → List IndexEntry → List IndexEntry
nodes_with same [] = []
nodes_with same (e ∷ es) = let rest = nodes_with same es in if same e then e ∷ rest else rest

-- `make_path_key` of both sides, compared.
unfoldable pub same_path_key : Bytes → ℕ → ℕ → ℕ → IndexEntry → Bool
same_path_key path size mtime_sec mtime_nsec e =
    e.size == size
    && (e.mtime_sec == mtime_sec && (e.mtime_nsec == mtime_nsec && str_eq e.path path))

module _ (pick : List IndexEntry → Option IndexEntry) (idx : ObjectIndex) where
  unfoldable pub find_by_path : Bytes → ℕ → ℕ → ℕ → Option IndexEntry
  find_by_path path size mtime_sec mtime_nsec =
      pick (nodes_with (same_path_key path size mtime_sec mtime_nsec) idx.entries)

  unfoldable pub find_by_sha256 : Bytes → Option IndexEntry
  find_by_sha256 sha256_hex =
      if length sha256_hex == 0
      then none
      else pick (nodes_with (λ e. str_eq e.sha256_hex (take 64 sha256_hex)) idx.entries)

  unfoldable pub index_find_by_object_id : Bytes → Option IndexEntry
  index_find_by_object_id id = pick (nodes_with (λ e. str_eq e.object_id id) idx.entries)
