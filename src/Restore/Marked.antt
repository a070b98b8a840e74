-- ===== src/Restore/Marked.antt =====
-- The items of the passes over the packs: those that are marked are extracted, and the rest is filled
-- in behind them.
use tarpack.Prelude.{
  ℕ, zero, suc, ◌≡◌, refl, sym, ap, ◌∙◌, subst, inr, Bool, true, false, ◌&&◌, not, Option, none,
  some, List, [], ◌∷◌, ◌++◌, map, ◌==◌, if◌then◌else◌, ◌>>=◌, ==_iff, take, drop, All,
  take-append-drop, All-of_append, All-map, map-append, Bytes, str_eq, c_string,
}
use tarpack.Restore.Clean.{
  Done, IsClean, Sub, All-join, alive-Done, call-Done, die-Done, if-Done, warn-Done,
}
use tarpack.Restore.Extracted.{IsExtracted, IsExtracted-Sub, stream_one_entry-Done}
use tarpack.Restore.Plan.{
  Op, ArchiveEntry, EntryData, NeededObj, System, Run, succeeded, call, warn, die, dest_path,
}
use tarpack.Restore.Extract.{
  find_match, extract, pack_entry, some_left, pack_loop, restore_one_pack, run_length, passes,
  fill_empty, fill_all, stream_one_entry,
}

-- An item without its mark.
abbrev pub erase : NeededObj → NeededObj
erase need = record need { written = false }

module _ (s : System) (dest : Bytes) where
  abbrev pub Marks : List Op → List NeededObj → Type 0
  Marks ops items = All (λ n. n.written ≡ true → IsExtracted s dest ops n) items

  Marks-Sub : (a b : Run) (items : List NeededObj) → Sub a b → Marks a.ops items → Marks b.ops items
  Marks-Sub a b items sub h =
      All-map (λ n. n.written ≡ true → IsExtracted s dest a.ops n)
        (λ n. n.written ≡ true → IsExtracted s dest b.ops n) items
        (λ n f w. IsExtracted-Sub s dest a b n sub (f w)) h

  -- A step keeps the items but for marks, and a clean end has right marks if the start has.
  abbrev pub Step : Run → List NeededObj → Run × List NeededObj → Type 0
  Step a items (r, items') =
      (map erase items' ≡ map erase items)
      × (IsClean r → IsClean a × Sub a r × (Marks a.ops items → Marks r.ops items'))

  Step-self : (a : Run) (items : List NeededObj) → Step a items (a, items)
  Step-self a items = (refl, λ c. (c, λ o h. h, λ m. m))

  Step-trans :
      (a r q : Run) (xs ys zs : List NeededObj)
      → Step a xs (r, ys)
      → Step r ys (q, zs)
      → Step a xs (q, zs)
  Step-trans a r q xs ys zs (e, f) (e', g) = (
    e' ∙ e,
    λ c.
        let (cr, sub2, m2) = g c in
        let (ca, sub1, m1) = f cr in (ca, λ o h. sub2 o (sub1 o h), λ m. m2 (m1 m)),
  )

  Step-die : (a r : Run) (items : List NeededObj) → Step a items (die r, items)
  Step-die a r items = (
    refl,
    λ c.
        let (ca, sub, m) = die-Done a r (λ ops. Marks a.ops items → Marks ops items) c in
        (ca, sub, m),
  )

  if-Step :
      (a : Run) (items : List NeededObj) (b : Bool) (x y : Run × List NeededObj)
      → Step a items x
      → Step a items y
      → Step a items (if b then x else y)
  if-Step a items true x y hx hy = hx
  if-Step a items false x y hx hy = hy

  abbrev IsMarked : List NeededObj → Option (NeededObj × List NeededObj) → Type 0
  IsMarked items none = Unit
  IsMarked items (some (need, marked)) =
      (map erase marked ≡ map erase items)
      × ((ops : List Op) → IsExtracted s dest ops need → Marks ops items → Marks ops marked)

  skip-IsMarked :
      (need : NeededObj) (items : List NeededObj) (o : Option (NeededObj × List NeededObj))
      → IsMarked items o
      → IsMarked (need ∷ items) (o >>= λ (found, marked). some (found, need ∷ marked))
  skip-IsMarked need items none h = tt
  skip-IsMarked need items (some (found, marked)) (e, f) =
      (ap (◌∷◌ (erase need)) e, λ ops ex (m, ms). (m, f ops ex ms))

  if-IsMarked :
      (items : List NeededObj) (b : Bool) (x y : Option (NeededObj × List NeededObj))
      → IsMarked items x
      → IsMarked items y
      → IsMarked items (if b then x else y)
  if-IsMarked items true x y hx hy = hx
  if-IsMarked items false x y hx hy = hy

  find_match-IsMarked :
      (items : List NeededObj) (pathname : Bytes)
      → IsMarked items (find_match s dest items pathname)
  unfolding find_match
  find_match-IsMarked [] pathname = tt
  find_match-IsMarked (need ∷ items) pathname =
      let rest = find_match s dest items pathname in
      if-IsMarked (need ∷ items) (not need.written && str_eq (c_string need.ie.path) pathname)
        (some (need, record need { written = true } ∷ items))
        (rest >>= λ (found, marked). some (found, need ∷ marked))
        (refl, λ ops ex (m, ms). (λ w. ex, ms))
        (skip-IsMarked need items rest (find_match-IsMarked items pathname))

  extract-Step :
      (r : Run) (items : List NeededObj) (d : EntryData) (o : Option (NeededObj × List NeededObj))
      → IsMarked items o
      → Step r items (extract s dest r items d o)
  extract-Step r items d none h = Step-self r items
  extract-Step r items d (some (need, marked)) (e, f) =
      let r' = stream_one_entry s dest r (dest_path dest need.group.first) need.ie d in
      (
        e,
        λ c.
            let (cr, sub, ex) = stream_one_entry-Done s dest r need d c in
            (cr, sub, λ m. f r'.ops ex (Marks-Sub r r' items sub m)),
      )

  pack_entry-Step :
      (r : Run) (items : List NeededObj) (e : ArchiveEntry) (name : Option Bytes)
      → Step r items (pack_entry s dest r items e name)
  unfolding pack_entry
  pack_entry-Step r items e none = Step-self r items
  pack_entry-Step r items e (some pathname) =
      extract-Step r items e.data_of (find_match s dest items pathname)
        (find_match-IsMarked items pathname)

  pack_loop-Step :
      (r : Run) (items : List NeededObj) (es : List ArchiveEntry)
      → Step r items (pack_loop s dest r items es)
  unfolding pack_loop
  pack_loop-Step r items [] = Step-self r items
  pack_loop-Step r items (e ∷ es) =
      let step = pack_entry s dest r items e e.pathname in
      let rest = pack_loop s dest step.0 step.1 es in
      let first = pack_entry-Step r items e e.pathname in
      if-Step r items (some_left s dest items) (if step.0.alive then rest else step) (r, items)
        (if-Step r items step.0.alive rest step
          (Step-trans r step.0 rest.0 items step.1 rest.1 first (pack_loop-Step step.0 step.1 es))
          first)
        (Step-self r items)

  restore_one_pack-Step :
      (r : Run) (items : List NeededObj) (entries : Option (List ArchiveEntry))
      → Step r items (restore_one_pack s dest r items entries)
  unfolding restore_one_pack
  restore_one_pack-Step r items none = Step-die r r items
  restore_one_pack-Step r items (some entries) = pack_loop-Step r items entries

  join-Step :
      (a r q : Run) (xs ys xs' ys' : List NeededObj)
      → Step a xs (r, xs')
      → Step r ys (q, ys')
      → Step a (xs ++ ys) (q, xs' ++ ys')
  join-Step a r q xs ys xs' ys' (e, f) (e', g) = (
    map-append erase xs' ys'
        ∙ ap (λ l. l ++ map erase ys') e
        ∙ ap (λ l. map erase xs ++ l) e'
        ∙ sym (map-append erase xs ys),
    λ c.
        let (cr, sub2, m2) = g c in
        let (ca, sub1, m1) = f cr in
        (
          ca,
          λ o h. sub2 o (sub1 o h),
          λ m.
              let (mx, my) =
                All-of_append (λ n. n.written ≡ true → IsExtracted s dest a.ops n) xs ys m in
              All-join (λ n. n.written ≡ true → IsExtracted s dest q.ops n) xs' ys'
                (Marks-Sub r q xs' sub2 (m1 mx)) (m2 (Marks-Sub a r ys sub1 my)),
        ),
  )

  pub passes-Step :
      (f : ℕ) (r : Run) (items : List NeededObj) → Step r items (passes s dest f r items)
  unfolding passes
  passes-Step zero r items = Step-self r items
  passes-Step (suc f) r [] = Step-self r []
  passes-Step (suc f) r (need ∷ items) =
      let all = need ∷ items in
      let n = suc (run_length s dest need.ie.pack items) in
      let here = restore_one_pack s dest r (take n all) (s.archive need.ie.pack) in
      let later = passes s dest f here.0 (drop n all) in
      let first = restore_one_pack-Step r (take n all) (s.archive need.ie.pack) in
      let whole = take-append-drop n all in
      if-Step r all here.0.alive (later.0, here.1 ++ later.1) (here.0, here.1 ++ drop n all)
        (subst (λ l. Step r l (later.0, here.1 ++ later.1)) whole
          (join-Step r here.0 later.0 (take n all) (drop n all) here.1 later.1 first
            (passes-Step f here.0 (drop n all))))
        (subst (λ l. Step r l (here.0, here.1 ++ drop n all)) whole
          (join-Step r here.0 here.0 (take n all) (drop n all) here.1 (drop n all) first
            (Step-self here.0 (drop n all))))

  fill_empty-Done :
      (r : Run) (need : NeededObj)
      → Done r (fill_empty s dest r need) (λ ops.
        (need.written ≡ true → IsExtracted s dest r.ops need) → IsExtracted s dest ops need)
  unfolding fill_empty
  fill_empty-Done r need = split need.written refl (need.ie.size == 0) refl
    where
      split :
          (b : Bool)
          → need.written ≡ b
          → (z : Bool) → (need.ie.size == 0) ≡ z
          → Done r
              (if b
                then r
                else if z
                then (if succeeded (s.rc r.ops (Op.create (dest_path dest need.group.first)))
                    then call r (Op.create (dest_path dest need.group.first))
                    else die (call r (Op.create (dest_path dest need.group.first))))
                else warn r)
              (λ ops.
                (need.written ≡ true → IsExtracted s dest r.ops need) → IsExtracted s dest ops need)
      split true e z ez = λ c. (c, λ o h. h, λ f. f e)
      split false e false ez = warn-Done r r (λ ops.
          (need.written ≡ true → IsExtracted s dest r.ops need) → IsExtracted s dest ops need)
      split false e true ez =
          let op = Op.create (dest_path dest need.group.first) in
          let P : List Op → Type 0 = λ ops.
            (need.written ≡ true → IsExtracted s dest r.ops need) → IsExtracted s dest ops need in
          if-Done r (succeeded (s.rc r.ops op)) (call r op) (die (call r op)) P
            (λ c.
              let (cr, sub, (m, u)) = call-Done r op c in
              (cr, sub, λ f. (m, inr ((==_iff need.ie.size 0).0 ez))))
            (die-Done r (call r op) P)

  pub fill_all-Done :
      (r : Run) (items : List NeededObj)
      → Done r
          (fill_all s dest r items)
          (λ ops. Marks r.ops items → All (IsExtracted s dest ops) items)
  unfolding fill_all
  fill_all-Done r [] = λ c. (c, λ o h. h, λ m. tt)
  fill_all-Done r (need ∷ items) =
      let r1 = fill_empty s dest r need in
      let r2 = fill_all s dest r1 items in
      alive-Done r r1 (λ q. fill_all s dest q items)
        (λ ops. Marks r.ops (need ∷ items) → All (IsExtracted s dest ops) (need ∷ items))
        (λ c.
          let (c1, sub2, rest) = fill_all-Done r1 items c in
          let (c0, sub1, first) = fill_empty-Done r need c1 in
          (
            c0,
            λ o h. sub2 o (sub1 o h),
            λ (m, ms). (
              IsExtracted-Sub s dest r1 r2 need sub2 (first m),
              rest (Marks-Sub r r1 items sub1 ms),
            ),
          ))
