-- ===== src/Index/NextId.antt =====
-- The next id of a loaded index is above the numbers of its ids.
use tarpack.Checksum.{trim_line}
use tarpack.Prelude.{
  ℕ, ◌+◌, ◌%◌, ◌≤◌, ◌<◌, ◌≡◌, subst, inl, inr, Option, none, some, List, [], ◌∷◌, arith, ltb, ◌==◌,
  ◌>>=◌, ltb→lt, Bool-cases, some-same, none-ne, length, All, All-map, Bytes, c_string, lines,
}
use tarpack.Index.{IndexEntry}
use tarpack.Index.Load.{
  Fields, ObjectIndex, IndexFile, numeric_suffix, raise_next, add_entry, load_line, next_line,
  load_lines, empty_index, index_load, entry_of,
}
use tarpack.Packer.Names.{ulong_mod}

-- Above the number of `e`, unless its successor overflows.
abbrev pub IsBelowNext : ℕ → IndexEntry → Type 0
IsBelowNext next e = numeric_suffix e.object_id + 1 < ulong_mod → numeric_suffix e.object_id < next

abbrev pub HasNext : ObjectIndex → Type 0
HasNext idx = (idx.next_id < ulong_mod) × All (IsBelowNext idx.next_id) idx.entries

raise_next-bounds :
    (next suffix : ℕ)
    → next < ulong_mod
    → (next ≤ raise_next next suffix)
      × (raise_next next suffix < ulong_mod)
      × (suffix + 1 < ulong_mod → suffix < raise_next next suffix)
unfolding raise_next
raise_next-bounds next suffix h = elim (Bool-cases (ltb next ((suffix + 1) % ulong_mod))) [
  | inl e ↦ rw e (
      let lt = ltb→lt next ((suffix + 1) % ulong_mod) e in
      (omega arith, omega arith, λ small. omega arith))
  | inr e ↦ rw e (
      let le : (suffix + 1) % ulong_mod ≤ next = ground arith in
      (omega arith, h, λ small. omega arith))
]

add_entry-HasNext : (idx : ObjectIndex) (e : IndexEntry) → HasNext idx → HasNext (add_entry idx e)
unfolding add_entry
add_entry-HasNext idx e (lt, h) =
    let n = numeric_suffix e.object_id in
    let (up, small, above) = raise_next-bounds idx.next_id n lt in
    (
      small,
      (
        above,
        All-map (IsBelowNext idx.next_id) (IsBelowNext (raise_next idx.next_id n)) idx.entries
            (λ x hx k. let below = hx k in omega arith) h,
      ),
    )

-- Every result satisfies `P`.
abbrev Yields : {A : Type 0} → (A → Type 0) → Option A → Type 0
Yields P none = Unit
Yields P (some a) = P a

Yields->>= :
    {A B : Type 0} (P : A → Type 0) (Q : B → Type 0) (o : Option A) (f : A → Option B)
    → Yields P o
    → ((a : A) → P a → Yields Q (f a))
    → Yields Q (o >>= f)
Yields->>= P Q none f h k = tt
Yields->>= P Q (some a) f h k = k a h

any_result : {A : Type 0} (o : Option A) → Yields (λ a. Unit) o
any_result none = tt
any_result (some a) = tt

load_line-HasNext :
    (parse : Bytes → Option Fields) (idx : ObjectIndex) (line : Bytes)
    → HasNext idx
    → Yields HasNext (load_line parse idx line)
unfolding load_line
load_line-HasNext parse idx line h =
    Yields->>= (λ f. Unit) HasNext (parse line) (λ f. entry_of f >>= λ e. some (add_entry idx e))
      (any_result (parse line))
      (λ f u.
        Yields->>= (λ e. Unit) HasNext (entry_of f) (λ e. some (add_entry idx e))
          (any_result (entry_of f)) (λ e u'. add_entry-HasNext idx e h))

next_line-HasNext :
    (parse : Bytes → Option Fields) (idx : ObjectIndex) (l : Bytes)
    → HasNext idx
    → Yields HasNext (next_line parse idx l)
unfolding next_line
next_line-HasNext parse idx l h = elim (Bool-cases (length (trim_line l) == 0)) [
  | inl e ↦ simp e h
  | inr e ↦ simp e (load_line-HasNext parse idx (c_string (trim_line l)) h)
]

load_lines-HasNext :
    (parse : Bytes → Option Fields) (idx : ObjectIndex) (ls : List Bytes)
    → HasNext idx
    → Yields HasNext (load_lines parse idx ls)
unfolding load_lines
load_lines-HasNext parse idx [] h = h
load_lines-HasNext parse idx (l ∷ ls) h =
    Yields->>= HasNext HasNext (next_line parse idx l) (λ i. load_lines parse i ls)
      (next_line-HasNext parse idx l h) (λ i hi. load_lines-HasNext parse i ls hi)

-- When the index of any file loads, its next id is a 64-bit number, and it is above the number of
-- every object id in the index whose number's successor is one too.
pub index_load-HasNext :
    (parse : Bytes → Option Fields) (file : IndexFile) (idx : ObjectIndex)
    → index_load parse file ≡ some idx
    → HasNext idx
unfolding index_load
index_load-HasNext parse IndexFile.missing idx e = subst HasNext (some-same e) (omega arith, tt)
index_load-HasNext parse IndexFile.unreadable idx e = absurd (none-ne e)
index_load-HasNext parse (IndexFile.holds file) idx e =
    subst (Yields HasNext) e (load_lines-HasNext parse empty_index (lines file) (omega arith, tt))
