-- ===== src/Scanner/Hits.antt =====
-- What it takes that a scan finds an object in the object index.
use tarpack.Index.Load.{same_path_key}
use tarpack.Prelude.{
  ℕ, ◌≡◌, ◌⊎◌, Bool, true, ◌&&◌, some, List, ◌==◌, ==_iff, &&-elim, take, Member, Bytes, str_eq,
  str_eq_iff,
}
use tarpack.Scanner.{ScanSystem, Stat, join_rel_path, IndexEntry}

-- The entry has the path, the size and the modification time of a file.
abbrev pub HasStat : IndexEntry → Bytes → Stat → Type 0
HasStat e rel st =
    (e.path ≡ rel)
    × (e.size ≡ st.size)
    × (e.mtime_sec ≡ st.mtime_sec)
    × (e.mtime_nsec ≡ st.mtime_nsec)

module _ (s : ScanSystem) (hash_mode : Bool) where
  -- In the hash mode, the entry has the hash of a file's content.
  abbrev pub HasHash : IndexEntry → Bytes → Type 0
  HasHash e rel =
      (hash_mode ≡ true)
      × ((bytes : Bytes) × (s.read_file rel ≡ some bytes)
          × (e.sha256_hex ≡ take 64 (s.sha256_hex bytes)))

  abbrev pub Matches : IndexEntry → Bytes → Stat → Type 0
  Matches e rel st = HasStat e rel st ⊎ HasHash e rel

  -- `rel` is the path of a file in the tree.
  abbrev pub IsName : Stat → Bytes → Type 0
  IsName st rel =
      (dir : Bytes) × (name : Bytes) × (s.stat_at dir name ≡ some st)
      × (join_rel_path dir name ≡ some rel)

  -- An entry with this id, as it fits the buffer, matches a name of the inode.
  pub record IsHit (entries : List IndexEntry) (dev ino : ℕ) (id : Bytes) : Type 0 where
    pub entry : IndexEntry
    pub listed : Member entry entries
    pub same_id : id ≡ take 31 entry.object_id
    pub rel : Bytes
    pub st : Stat
    pub named : IsName st rel
    pub same_inode : (st.dev ≡ dev) × (st.ino ≡ ino)
    pub matches : Matches entry rel st

-- A lookup by the path finds an entry that matches.
pub same_path_key-HasStat :
    (e : IndexEntry) (rel : Bytes) (st : Stat)
    → same_path_key rel st.size st.mtime_sec st.mtime_nsec e ≡ true
    → HasStat e rel st
unfolding same_path_key
same_path_key-HasStat e rel st h =
    let a = e.mtime_sec == st.mtime_sec in
    let b = e.mtime_nsec == st.mtime_nsec in
    let (h0, h1) = &&-elim (e.size == st.size) (a && (b && str_eq e.path rel)) h in
    let (h2, h3) = &&-elim a (b && str_eq e.path rel) h1 in
    let (h4, h5) = &&-elim b (str_eq e.path rel) h3 in
    (
      (str_eq_iff e.path rel).0 h5,
      (==_iff e.size st.size).0 h0,
      (==_iff e.mtime_sec st.mtime_sec).0 h2,
      (==_iff e.mtime_nsec st.mtime_nsec).0 h4,
    )
