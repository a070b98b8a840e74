-- ===== src/Restore/Calls.antt =====
-- The calls of a whole run of `tp_restore`.
use mathlib.Core.List.{reverse}
use tarpack.Index.{IndexEntry}
use tarpack.Manifest.{ManifestEntry}
use tarpack.Restore.Links.{LinkGroup, collect_links}
use tarpack.Restore.PathSafe.{path_safe}
use tarpack.Restore.Plan.{
  Op, DirMeta, SymMeta, NeededObj, System, Run, succeeded, call, die, next, dirs_of, syms_of,
  refs_safe, groups_safe, dirs_safe, syms_safe, resolve, needed_with,
}
use tarpack.Restore.Contained.{
  Extends-trans, call-Extends, if-Extends, next-Extends, IsEarly, IsLate,
}
use tarpack.Restore.Early.{Goes, make_dirs-Goes, IsSafeItem}
use tarpack.Restore.Packs.{passes-GoesWith, fill_all-Goes, link_groups-Goes, IsSafeGroup}
use tarpack.Restore.Late.{Sets, make_symlinks-Sets, files_meta-Sets, dirs_meta-Sets}
use tarpack.Restore.Order.{IsSystem, All-Permᴰ, All-reverse}
use tarpack.Restore.Extract.{
  make_dirs, passes, fill_all, link_groups, make_symlinks, files_meta, dirs_meta, deepest_first,
  finish, extract_all, create_tree, start, resolved, with_index, restore,
}
use tarpack.Prelude.{
  ◌≡◌, refl, sym, ap, ◌∙◌, inl, inr, Bool, true, false, ◌&&◌, Option, none, some, List, [], ◌∷◌,
  ◌++◌, All, Bytes, Bool-cases, if◌then◌else◌, length, &&-elim, append_nil,
}

refs_safe-All : (ps : List Bytes) → refs_safe ps ≡ true → All (λ p. path_safe p ≡ true) ps
unfolding refs_safe
refs_safe-All [] h = tt
refs_safe-All (p ∷ ps) h =
    let (a, b) = &&-elim (path_safe p) (refs_safe ps) h in (a, refs_safe-All ps b)

groups_safe-All : (groups : List LinkGroup) → groups_safe groups ≡ true → All IsSafeGroup groups
unfolding groups_safe
groups_safe-All [] h = tt
groups_safe-All (g ∷ groups) h =
    let (a, b) = &&-elim (refs_safe (g.first ∷ g.others)) (groups_safe groups) h in
    (refs_safe-All (g.first ∷ g.others) a, groups_safe-All groups b)

dirs_safe-All :
    (dirs : List DirMeta) → dirs_safe dirs ≡ true → All (λ d. path_safe d.path ≡ true) dirs
unfolding dirs_safe
dirs_safe-All [] h = tt
dirs_safe-All (d ∷ dirs) h =
    let (a, b) = &&-elim (path_safe d.path) (dirs_safe dirs) h in (a, dirs_safe-All dirs b)

syms_safe-All :
    (syms : List SymMeta) → syms_safe syms ≡ true → All (λ y. path_safe y.path ≡ true) syms
unfolding syms_safe
syms_safe-All [] h = tt
syms_safe-All (y ∷ syms) h =
    let (a, b) = &&-elim (path_safe y.path) (syms_safe syms) h in (a, syms_safe-All syms b)

firsts_safe :
    (groups : List LinkGroup) → All IsSafeGroup groups → All (λ g. path_safe g.first ≡ true) groups
firsts_safe [] h = tt
firsts_safe (g ∷ groups) ((hg, ho), h) = (hg, firsts_safe groups h)

-- Calls of the first kind, and behind them calls of the second kind.
abbrev pub InPhases : Bytes → Run → Type 0
InPhases dest r =
    (early : List Op) × (late : List Op) × (r.ops ≡ early ++ late)
    × All (IsEarly dest) early
    × All (IsLate dest) late

module _ (s : System) (dest : Bytes) (sys : IsSystem s) where
  -- The items that are needed come from the groups.
  abbrev AreSafe : Option (List NeededObj) → Type 0
  AreSafe none = Unit {0}
  AreSafe (some needed) = All (IsSafeItem s dest) needed

  needed_with-safe :
      (g : LinkGroup) (o : Option IndexEntry) (rest : Option (List NeededObj))
      → path_safe g.first ≡ true
      → AreSafe rest
      → AreSafe (needed_with g o rest)
  needed_with-safe g none rest h hr = tt
  needed_with-safe g (some ie) none h hr = tt
  needed_with-safe g (some ie) (some rest) h hr = (h, hr)

  resolve-safe :
      (find : Bytes → Option IndexEntry) (groups : List LinkGroup)
      → All (λ g. path_safe g.first ≡ true) groups
      → AreSafe (resolve find groups)
  unfolding resolve
  resolve-safe find [] h = tt
  resolve-safe find (g ∷ groups) (hg, h) =
      needed_with-safe g (find g.object_id) (resolve find groups) hg (resolve-safe find groups h)

  extract_all-Goes :
      (needed : List NeededObj) (r : Run)
      → All (IsSafeItem s dest) needed
      → Goes s dest r (extract_all s dest needed r)
  unfolding extract_all
  extract_all-Goes needed r h =
      let sorted = s.sort_needed needed in
      let passed = passes s dest (length sorted) r sorted in
      let (goes, safe) =
        passes-GoesWith s dest (length sorted) r sorted
          (All-Permᴰ (IsSafeItem s dest) (sys.needed_sort.permutes needed) h) in
      next-Extends (IsEarly dest) r passed.0 (λ q. fill_all s dest q passed.1) goes
        (λ q. fill_all-Goes s dest q passed.1 safe)

  if-InPhases :
      (b : Bool) (x y : Run)
      → InPhases dest x
      → InPhases dest y
      → InPhases dest (if b then x else y)
  if-InPhases true x y hx hy = hx
  if-InPhases false x y hx hy = hy

  finished :
      (r q : Run) (groups : List LinkGroup) (dirs : List DirMeta) (syms : List SymMeta)
      → r.ops ≡ []
      → All IsSafeGroup groups
      → All (λ d. path_safe d.path ≡ true) dirs
      → All (λ y. path_safe y.path ≡ true) syms
      → Goes s dest r q
      → InPhases dest (next q (finish s dest groups dirs syms))
  unfolding finish deepest_first
  finished r q groups dirs syms empty hg hd hy h =
      let linked = link_groups s dest q groups in
      let (early, e, he) =
        Extends-trans (IsEarly dest) r q linked h (link_groups-Goes s dest q groups hg) in
      let with_symlinks = make_symlinks s dest linked syms in
      let with_files = files_meta s dest with_symlinks groups in
      let order = reverse (s.sort_dirs dirs) in
      let done = dirs_meta s dest with_files order in
      let sets : Sets s dest linked done =
        Extends-trans (IsLate dest) linked with_files done
          (Extends-trans (IsLate dest) linked with_symlinks with_files
            (make_symlinks-Sets s dest linked syms hy)
            (files_meta-Sets s dest with_symlinks groups (firsts_safe groups hg)))
          (dirs_meta-Sets s dest with_files order (
            All-reverse (λ d. path_safe d.path ≡ true) (s.sort_dirs dirs)
              (All-Permᴰ (λ d. path_safe d.path ≡ true) (sys.dirs_sort.permutes dirs) hd))) in
      let (late, e', hl) = sets in
      let (only, e0, h0) = h in
      if-InPhases q.alive done q
        (early, late, e' ∙ ap (λ l. l ++ late) (e ∙ ap (λ l. l ++ early) empty), he, hl)
        (only, [], e0 ∙ ap (λ l. l ++ only) empty ∙ sym (append_nil only), h0, tt)

  create_tree-InPhases :
      (r : Run) (groups : List LinkGroup) (dirs : List DirMeta) (syms : List SymMeta)
      (needed : List NeededObj)
      → r.ops ≡ []
      → All IsSafeGroup groups
      → All (λ d. path_safe d.path ≡ true) dirs
      → All (λ y. path_safe y.path ≡ true) syms
      → All (IsSafeItem s dest) needed
      → InPhases dest (create_tree s dest r groups dirs syms needed)
  unfolding create_tree
  create_tree-InPhases r groups dirs syms needed empty hg hd hy hn =
      let P = IsEarly dest in
      let r1 = call r (Op.mkdir_p dest) in
      let started = if succeeded (s.rc r.ops (Op.mkdir_p dest)) then r1 else die r1 in
      let made : Goes s dest r r1 = call-Extends P r (Op.mkdir_p dest) refl in
      let h1 : Goes s dest r started =
        if-Extends P r (succeeded (s.rc r.ops (Op.mkdir_p dest))) r1 (die r1) made made in
      let h2 : Goes s dest r (next started (λ q. make_dirs s dest q dirs)) =
        next-Extends P r started (λ q. make_dirs s dest q dirs) h1
          (λ q. make_dirs-Goes s dest q dirs hd) in
      let extracted =
        next (next started (λ q. make_dirs s dest q dirs)) (extract_all s dest needed) in
      let h3 : Goes s dest r extracted =
        next-Extends P r (next started (λ q. make_dirs s dest q dirs)) (extract_all s dest needed)
          h2 (λ q. extract_all-Goes needed q hn) in
      finished r extracted groups dirs syms empty hg hd hy h3

  -- The value of a passed test.
  restored :
      (groups : List LinkGroup) (dirs : List DirMeta) (syms : List SymMeta)
      (o : Option (List NeededObj))
      → All IsSafeGroup groups
      → All (λ d. path_safe d.path ≡ true) dirs
      → All (λ y. path_safe y.path ≡ true) syms
      → AreSafe o
      → InPhases dest (resolved s dest groups dirs syms o)
  restored groups dirs syms none hg hd hy hn = ([], [], refl, tt, tt)
  restored groups dirs syms (some needed) hg hd hy hn =
      create_tree-InPhases (start s dest) groups dirs syms needed refl hg hd hy hn

  indexed :
      (groups : List LinkGroup) (dirs : List DirMeta) (syms : List SymMeta)
      (index : Option (Bytes → Option IndexEntry))
      → All IsSafeGroup groups
      → All (λ d. path_safe d.path ≡ true) dirs
      → All (λ y. path_safe y.path ≡ true) syms
      → InPhases dest (with_index s dest groups dirs syms index)
  indexed groups dirs syms none hg hd hy = ([], [], refl, tt, tt)
  indexed groups dirs syms (some find) hg hd hy =
      restored groups dirs syms (resolve find groups) hg hd hy
        (resolve-safe find groups (firsts_safe groups hg))

-- Whatever the snapshot, the index, the archives and the system's answers are: the calls of
-- `tp_restore` create the destination and directories, files and hard links in it, and behind all of
-- these symbolic links and owners, modes and times; and each of their paths is the destination or a
-- path joined to it that has passed the test. (`qsort` sorts.)
pub restore-InPhases :
    (s : System) (dest : Bytes) (entries : Option (List ManifestEntry))
    (index : Option (Bytes → Option IndexEntry))
    → IsSystem s
    → InPhases dest (restore s dest entries index)
unfolding restore
restore-InPhases s dest none index sys = ([], [], refl, tt, tt)
restore-InPhases s dest (some entries) index sys =
    let groups = collect_links [] entries in
    let dirs = dirs_of entries in
    let syms = syms_of entries in
    elim (Bool-cases (groups_safe groups && (dirs_safe dirs && syms_safe syms))) [
      | inl e ↦
          let (hg, rest) = &&-elim (groups_safe groups) (dirs_safe dirs && syms_safe syms) e in
          let (hd, hy) = &&-elim (dirs_safe dirs) (syms_safe syms) rest in
          simp e (
            indexed s dest sys groups dirs syms index (groups_safe-All groups hg)
              (dirs_safe-All dirs hd) (syms_safe-All syms hy))
      | inr e ↦ simp e ([], [], refl, tt, tt)
    ]
