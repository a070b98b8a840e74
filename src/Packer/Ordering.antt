-- ===== src/Packer/Ordering.antt =====
-- The counting sort of `tp_pack_multi` (src/packer.c) that brings the objects of one bin together,
-- and the slices of its result that become packs. The parallel arrays `new_set.objects` and
-- `bin_of` are a list of pairs.
pub mod Layout
pub mod Slices
pub mod Fill
pub mod Subset
mod Tests
use tarpack.Prelude.{
  ℕ, ◌+◌, ◌-◌, Option, none, some, List, [], ◌∷◌, ltb, ◌==◌, if◌then◌else◌, length, set, take, drop,
  get_or, replicate,
}

-- The offsets of bins of these sizes, from `running` on.
unfoldable pub bin_offsets : ℕ → List ℕ → List ℕ
bin_offsets running [] = []
bin_offsets running (s ∷ sizes) = running ∷ bin_offsets (running + s) sizes

module _ {A : Type 0} where
  -- `bin_sizes[bin_of[i]]++` for every `i`.
  unfoldable pub bin_sizes : List ℕ → List (A × ℕ) → List ℕ
  bin_sizes sizes [] = sizes
  bin_sizes sizes ((x, b) ∷ ps) = bin_sizes (set sizes b (get_or sizes b 0 + 1)) ps

  -- The last loop: `ordered[cursor[b]] = new_set.objects[i]; cursor[b]++`. A cell that is not
  -- written holds none.
  unfoldable pub fill : List (Option A) → List ℕ → List (A × ℕ) → List (Option A)
  fill ordered cursor [] = ordered
  fill ordered cursor ((x, b) ∷ ps) =
      fill (set ordered (get_or cursor b 0) (some x)) (set cursor b (get_or cursor b 0 + 1)) ps

  -- `bin_offsets` for `n` bins.
  unfoldable pub offsets_of : ℕ → List (A × ℕ) → List ℕ
  offsets_of n ps = bin_offsets 0 (bin_sizes (replicate n 0) ps)

  unfoldable pub ordered : ℕ → List (A × ℕ) → List (Option A)
  ordered n ps = fill (replicate (length ps) none) (offsets_of n ps) ps

  -- The subset of pack `b`, between its offset and the next one's.
  unfoldable pub subset : ℕ → List (A × ℕ) → ℕ → List (Option A)
  subset n ps b =
      let start = get_or (offsets_of n ps) b 0 in
      let end = if ltb (b + 1) n then get_or (offsets_of n ps) (b + 1) 0 else length ps in
      take (end - start) (drop start (ordered n ps))

  -- The objects of bin `b`, in their order.
  unfoldable pub pick : ℕ → List (A × ℕ) → List A
  pick b [] = []
  pick b ((x, c) ∷ ps) = let rest = pick b ps in if c == b then x ∷ rest else rest
