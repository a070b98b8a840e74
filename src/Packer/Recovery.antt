-- ===== src/Packer/Recovery.antt =====
-- `repair_index_tail` of src/packer.c, on the bytes of objects.jsonl: a final line without its
-- newline is cut off. Reads and the truncation succeed.
pub mod Tail
pub mod Sweep
mod Tests
use tarpack.Prelude.{
  ℕ, ◌+◌, ◌-◌, zero, suc, Bool, Option, none, some, List, ltb, ◌==◌, if◌then◌else◌, length, take,
  drop, get_or, Bytes,
}

abbrev pub newline : ℕ
newline = 10

-- `sizeof(chunk)`
abbrev pub chunk_size : ℕ
chunk_size = 4096

-- The inner loop, over the first `n` bytes of the chunk from right to left: the index behind the
-- newline.
unfoldable pub scan_back : Bytes → ℕ → Option ℕ
scan_back chunk zero = none
scan_back chunk (suc i) =
    let rest = scan_back chunk i in if get_or chunk i 0 == newline then some (i + 1) else rest

-- `good` behind a chunk that starts at `start`; `rest` is what the next rounds find.
unfoldable pub good_of : ℕ → Option ℕ → ℕ → ℕ
good_of start none rest = rest
good_of start (some k) rest = start + k

-- The outer loop from `pos` on, with fuel for its rounds.
unfoldable pub find_good : ℕ → Bytes → ℕ → ℕ
find_good zero file pos = 0
find_good (suc f) file pos =
    let want = if ltb chunk_size pos then chunk_size else pos in
    let start = pos - want in
    let rest = find_good f file start in
    if pos == 0 then 0 else good_of start (scan_back (take want (drop start file)) want) rest

-- The content behind the repair.
unfoldable pub repair_index_tail : Bytes → Bytes
repair_index_tail file =
    if length file == 0
    then file
    else if get_or file (length file - 1) 0 == newline
    then file
    else take (find_good (length file) file (length file)) file
