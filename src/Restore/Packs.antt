-- ===== src/Restore/Packs.antt =====
-- The passes over the packs, and the hard links: where they make their calls.
use tarpack.Restore.Links.{LinkGroup}
use tarpack.Restore.PathSafe.{path_safe}
use tarpack.Restore.Plan.{
  Op, ArchiveEntry, NeededObj, System, Run, succeeded, call, warn, die, try, dest_path, EntryData,
}
use tarpack.Restore.Contained.{
  Extends-self, Extends-trans, call-Extends, try-Extends, if-Extends, next-Extends, IsWithin,
  IsEarly,
}
use tarpack.Restore.Early.{Goes, IsSafeItem, IsSafeMatch, find_match-safe, stream_one_entry-Goes}
use tarpack.Restore.Extract.{
  find_match, extract, pack_entry, some_left, pack_loop, restore_one_pack, run_length, passes,
  fill_empty, fill_all, link_names, link_groups,
}
use tarpack.Prelude.{
  ℕ, zero, suc, ◌≡◌, refl, Bool, true, false, Option, none, some, List, [], ◌∷◌, ◌++◌, All, Bytes,
  ◌==◌, take, drop, if◌then◌else◌,
}

abbrev pub IsSafeGroup : LinkGroup → Type 0
IsSafeGroup g = All (λ p. path_safe p ≡ true) (g.first ∷ g.others)

module _ (s : System) (dest : Bytes) where
  -- The calls are in place, and the items are safe.
  abbrev pub GoesWith : Run → Run × List NeededObj → Type 0
  GoesWith a (r, items) = Goes s dest a r × All (IsSafeItem s dest) items

  if-GoesWith :
      (a : Run) (b : Bool) (x y : Run × List NeededObj)
      → GoesWith a x
      → GoesWith a y
      → GoesWith a (if b then x else y)
  if-GoesWith a true x y hx hy = hx
  if-GoesWith a false x y hx hy = hy

  GoesWith-after :
      (a r : Run) (x : Run × List NeededObj) → Goes s dest a r → GoesWith r x → GoesWith a x
  GoesWith-after a r (r', items) h (h', safe) = (Extends-trans (IsEarly dest) a r r' h h', safe)

  extract-GoesWith :
      (r : Run) (items : List NeededObj) (bytes : EntryData)
      (o : Option (NeededObj × List NeededObj))
      → All (IsSafeItem s dest) items
      → IsSafeMatch s dest o
      → GoesWith r (extract s dest r items bytes o)
  extract-GoesWith r items bytes none h m = (Extends-self (IsEarly dest) r r refl, h)
  extract-GoesWith r items bytes (some (need, marked)) h (hn, hm) = (
    stream_one_entry-Goes s dest r (dest_path dest need.group.first) need.ie bytes
        (need.group.first, hn, refl),
    hm,
  )

  pack_entry-GoesWith :
      (r : Run) (items : List NeededObj) (e : ArchiveEntry) (name : Option Bytes)
      → All (IsSafeItem s dest) items
      → GoesWith r (pack_entry s dest r items e name)
  unfolding pack_entry
  pack_entry-GoesWith r items e none h = (Extends-self (IsEarly dest) r r refl, h)
  pack_entry-GoesWith r items e (some pathname) h =
      extract-GoesWith r items e.data_of (find_match s dest items pathname) h
        (find_match-safe s dest items pathname h)

  pack_loop-GoesWith :
      (r : Run) (items : List NeededObj) (es : List ArchiveEntry)
      → All (IsSafeItem s dest) items
      → GoesWith r (pack_loop s dest r items es)
  unfolding pack_loop
  pack_loop-GoesWith r items [] h = (Extends-self (IsEarly dest) r r refl, h)
  pack_loop-GoesWith r items (e ∷ es) h =
      let step = pack_entry s dest r items e e.pathname in
      let (goes, safe) = pack_entry-GoesWith r items e e.pathname h in
      let rest = pack_loop s dest step.0 step.1 es in
      if-GoesWith r (some_left s dest items) (if step.0.alive then rest else step) (r, items)
        (if-GoesWith r step.0.alive rest step
          (GoesWith-after r step.0 rest goes (pack_loop-GoesWith step.0 step.1 es safe))
          (goes, safe))
        (Extends-self (IsEarly dest) r r refl, h)

  restore_one_pack-GoesWith :
      (r : Run) (items : List NeededObj) (entries : Option (List ArchiveEntry))
      → All (IsSafeItem s dest) items
      → GoesWith r (restore_one_pack s dest r items entries)
  unfolding restore_one_pack
  restore_one_pack-GoesWith r items none h =
      (Extends-self (IsEarly dest) r (record r { alive = false }) refl, h)
  restore_one_pack-GoesWith r items (some entries) h = pack_loop-GoesWith r items entries h

  All-take :
      (n : ℕ) (items : List NeededObj)
      → All (IsSafeItem s dest) items
      → All (IsSafeItem s dest) (take n items)
  All-take zero items h = tt
  All-take (suc n) [] h = tt
  All-take (suc n) (x ∷ items) (hx, h) = (hx, All-take n items h)

  All-drop :
      (n : ℕ) (items : List NeededObj)
      → All (IsSafeItem s dest) items
      → All (IsSafeItem s dest) (drop n items)
  All-drop zero items h = h
  All-drop (suc n) [] h = tt
  All-drop (suc n) (x ∷ items) (hx, h) = All-drop n items h

  All-both :
      (xs ys : List NeededObj)
      → All (IsSafeItem s dest) xs
      → All (IsSafeItem s dest) ys
      → All (IsSafeItem s dest) (xs ++ ys)
  All-both [] ys hx hy = hy
  All-both (x ∷ xs) ys (h, hx) hy = (h, All-both xs ys hx hy)

  pub passes-GoesWith :
      (f : ℕ) (r : Run) (items : List NeededObj)
      → All (IsSafeItem s dest) items
      → GoesWith r (passes s dest f r items)
  unfolding passes
  passes-GoesWith zero r items h = (Extends-self (IsEarly dest) r r refl, h)
  passes-GoesWith (suc f) r [] h = (Extends-self (IsEarly dest) r r refl, tt)
  passes-GoesWith (suc f) r (need ∷ items) h =
      let n = suc (run_length s dest need.ie.pack items) in
      let now = take n (need ∷ items) in
      let after = drop n (need ∷ items) in
      let here = restore_one_pack s dest r now (s.archive need.ie.pack) in
      let (goes, safe) =
        restore_one_pack-GoesWith r now (s.archive need.ie.pack) (All-take n (need ∷ items) h) in
      let dropped = All-drop n (need ∷ items) h in
      let later = passes s dest f here.0 after in
      let (goes', safe') = passes-GoesWith f here.0 after dropped in
      if-GoesWith r here.0.alive (later.0, here.1 ++ later.1) (here.0, here.1 ++ after)
        (
          Extends-trans (IsEarly dest) r here.0 later.0 goes goes',
          All-both here.1 later.1 safe safe',
        )
        (goes, All-both here.1 after safe dropped)

  fill_empty-Goes :
      (r : Run) (need : NeededObj)
      → IsSafeItem s dest need
      → Goes s dest r (fill_empty s dest r need)
  unfolding fill_empty
  fill_empty-Goes r need h =
      let P = IsEarly dest in
      let full = dest_path dest need.group.first in
      let r' = call r (Op.create full) in
      let made : Goes s dest r r' = call-Extends P r (Op.create full) (need.group.first, h, refl) in
      let same : Goes s dest r r = Extends-self P r r refl in
      let ok = succeeded (s.rc r.ops (Op.create full)) in
      if-Extends P r need.written r
        (if need.ie.size == 0 then (if ok then r' else die r') else warn r) same
        (if-Extends P r (need.ie.size == 0) (if ok then r' else die r') (warn r)
          (if-Extends P r ok r' (die r') made made) same)

  pub fill_all-Goes :
      (r : Run) (items : List NeededObj)
      → All (IsSafeItem s dest) items
      → Goes s dest r (fill_all s dest r items)
  unfolding fill_all
  fill_all-Goes r [] h = Extends-self (IsEarly dest) r r refl
  fill_all-Goes r (need ∷ items) (hn, h) =
      next-Extends (IsEarly dest) r (fill_empty s dest r need) (λ q. fill_all s dest q items)
        (fill_empty-Goes r need hn) (λ q. fill_all-Goes q items h)

  link_names-Goes :
      (r : Run) (target : Bytes) (ps : List Bytes)
      → IsWithin dest target
      → All (λ p. path_safe p ≡ true) ps
      → Goes s dest r (link_names s dest r target ps)
  unfolding link_names
  link_names-Goes r target [] w h = Extends-self (IsEarly dest) r r refl
  link_names-Goes r target (p ∷ ps) w (hp, h) =
      let op = Op.link target (dest_path dest p) in
      let r' = try s r op in
      Extends-trans (IsEarly dest) r r' (link_names s dest r' target ps)
        (try-Extends (IsEarly dest) s r op (w, (p, hp, refl))) (link_names-Goes r' target ps w h)

  pub link_groups-Goes :
      (r : Run) (groups : List LinkGroup)
      → All IsSafeGroup groups
      → Goes s dest r (link_groups s dest r groups)
  unfolding link_groups
  link_groups-Goes r [] h = Extends-self (IsEarly dest) r r refl
  link_groups-Goes r (g ∷ groups) ((hf, ho), h) =
      let r' = link_names s dest r (dest_path dest g.first) g.others in
      Extends-trans (IsEarly dest) r r' (link_groups s dest r' groups)
        (link_names-Goes r (dest_path dest g.first) g.others (g.first, hf, refl) ho)
        (link_groups-Goes r' groups h)
