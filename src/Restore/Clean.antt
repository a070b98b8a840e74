-- ===== src/Restore/Clean.antt =====
-- What a run that ends without a warning has called: the directories, links and metadata.
use tarpack.Prelude.{
  ◌≡◌, refl, sym, ◌∙◌, inl, inr, Bool, true, false, List, [], ◌∷◌, ◌++◌, if◌then◌else◌, All, Member,
  All-map, Bytes,
}
use tarpack.Manifest.{Meta}
use tarpack.Restore.Links.{LinkGroup}
use tarpack.Restore.Plan.{
  Op, SymMeta, System, Run, succeeded, call, warn, die, next, try, dest_path,
}
use tarpack.Restore.Extract.{
  link_names, link_groups, own_and_time, make_symlink, make_symlinks, set_meta, files_meta,
}

abbrev pub IsClean : Run → Type 0
IsClean r = (r.alive ≡ true) × (r.warned ≡ false)

abbrev pub Sub : Run → Run → Type 0
Sub a b = (o : Op) → Member o a.ops → Member o b.ops

-- A clean end has a clean start, keeps its calls, and satisfies `P`.
abbrev pub Done : Run → Run → (List Op → Type 0) → Type 0
Done a b P = IsClean b → IsClean a × Sub a b × P b.ops

-- The calls `os` are made.
abbrev pub Makes : List Op → List Op → Type 0
Makes os ops = All (λ o. Member o ops) os

Member-left : {A : Type 0} (x : A) (xs ys : List A) → Member x xs → Member x (xs ++ ys)
Member-left x [] ys h = elim h [ ]
Member-left x (y ∷ xs) ys (inl e) = inl e
Member-left x (y ∷ xs) ys (inr h) = inr (Member-left x xs ys h)

Member-last : {A : Type 0} (xs : List A) (x : A) → Member x (xs ++ x ∷ [])
Member-last [] x = inl refl
Member-last (y ∷ xs) x = inr (Member-last xs x)

pub All-join :
    {A : Type 0} (P : A → Type 0) (xs ys : List A) → All P xs → All P ys → All P (xs ++ ys)
All-join P [] ys hx hy = hy
All-join P (x ∷ xs) ys (h, hx) hy = (h, All-join P xs ys hx hy)

pub warn-Done : (a r : Run) (P : List Op → Type 0) → Done a (warn r) P
warn-Done a r P (alive, clean) = absurd (true-ne clean)
  where
    true-ne : true ≡ false → ⊥
    true-ne e = cc

pub die-Done : (a r : Run) (P : List Op → Type 0) → Done a (die r) P
die-Done a r P (alive, clean) = absurd (false-ne alive)
  where
    false-ne : false ≡ true → ⊥
    false-ne e = cc

pub if-Done :
    (a : Run) (b : Bool) (x y : Run) (P : List Op → Type 0)
    → Done a x P
    → Done a y P
    → Done a (if b then x else y) P
if-Done a true x y P hx hy = hx
if-Done a false x y P hx hy = hy

pub call-Done : (r : Run) (op : Op) → Done r (call r op) (Makes (op ∷ []))
call-Done r op clean = (clean, λ o h. Member-left o r.ops (op ∷ []) h, (Member-last r.ops op, tt))

pub self-Done : (r : Run) → Done r r (Makes [])
self-Done r clean = (clean, λ o h. h, tt)

pub seq-Done :
    (a b c : Run) (os ps : List Op)
    → Done a b (Makes os)
    → Done b c (Makes ps)
    → Done a c (Makes (os ++ ps))
seq-Done a b c os ps f g clean =
    let (clean_b, sub, hp) = g clean in
    let (clean_a, sub_a, ho) = f clean_b in
    (
      clean_a,
      λ o h. sub o (sub_a o h),
      All-join (λ o. Member o c.ops) os ps
          (All-map (λ o. Member o b.ops) (λ o. Member o c.ops) os (λ o h. sub o h) ho) hp,
    )

pub drop-Done : (a b : Run) (os : List Op) → Done a b (Makes os) → Done a b (Makes [])
drop-Done a b os f clean = let (clean_a, sub, h) = f clean in (clean_a, sub, tt)

-- What follows a run that has not ended, which a clean end shows.
pub alive-Done :
    (a r : Run) (f : Run → Run) (P : List Op → Type 0) → Done a (f r) P → Done a (next r f) P
alive-Done a r f P g = split r.alive refl
  where
    false-ne : false ≡ true → ⊥
    false-ne e = cc

    split : (b : Bool) → r.alive ≡ b → Done a (if b then f r else r) P
    split true e = g
    split false e = λ (alive, clean). absurd (false-ne (sym e ∙ alive))

pub next-Done :
    (a r : Run) (f : Run → Run) (os ps : List Op)
    → Done a r (Makes os)
    → ((q : Run) → Done q (f q) (Makes ps))
    → Done a (next r f) (Makes (os ++ ps))
next-Done a r f os ps h g = alive-Done a r f (Makes (os ++ ps)) (seq-Done a r (f r) os ps h (g r))

module _ (s : System) (dest : Bytes) where
  pub try-Done : (r : Run) (op : Op) → Done r (try s r op) (Makes (op ∷ []))
  unfolding try
  try-Done r op =
      if-Done r (succeeded (s.rc r.ops op)) (call r op) (warn (call r op)) (Makes (op ∷ []))
        (call-Done r op) (warn-Done r (call r op) (Makes (op ∷ [])))

  abbrev pub links_of : Bytes → List Bytes → List Op
  links_of target [] = []
  links_of target (p ∷ ps) = Op.link target (dest_path dest p) ∷ links_of target ps

  link_names-Done :
      (r : Run) (target : Bytes) (ps : List Bytes)
      → Done r (link_names s dest r target ps) (Makes (links_of target ps))
  unfolding link_names
  link_names-Done r target [] = self-Done r
  link_names-Done r target (p ∷ ps) =
      let op = Op.link target (dest_path dest p) in
      let r' = try s r op in
      seq-Done r r' (link_names s dest r' target ps) (op ∷ []) (links_of target ps) (try-Done r op)
        (link_names-Done r' target ps)

  -- The hard links of the groups.
  abbrev pub group_links : List LinkGroup → List Op
  group_links [] = []
  group_links (g ∷ groups) = links_of (dest_path dest g.first) g.others ++ group_links groups

  pub link_groups-Done :
      (r : Run) (groups : List LinkGroup)
      → Done r (link_groups s dest r groups) (Makes (group_links groups))
  unfolding link_groups
  link_groups-Done r [] = self-Done r
  link_groups-Done r (g ∷ groups) =
      let target = dest_path dest g.first in
      let r' = link_names s dest r target g.others in
      seq-Done r r' (link_groups s dest r' groups) (links_of target g.others) (group_links groups)
        (link_names-Done r target g.others) (link_groups-Done r' groups)

  -- The call that sets an owner, which only root makes.
  abbrev pub owner_ops : Op → List Op
  owner_ops own = if s.is_root then own ∷ [] else []

  owner-Done :
      (r : Run) (own : Op) → Done r (if s.is_root then try s r own else r) (Makes (owner_ops own))
  owner-Done r own = split s.is_root
    where
      split :
          (b : Bool) → Done r (if b then try s r own else r) (Makes (if b then own ∷ [] else []))
      split true = try-Done r own
      split false = self-Done r

  own_and_time-Done :
      (r : Run) (full : Bytes) (meta : Meta) (own : Op)
      → Done r
          (own_and_time s dest r full meta own)
          (Makes (owner_ops own ++ Op.set_times full meta ∷ []))
  unfolding own_and_time
  own_and_time-Done r full meta own =
      let r' = if s.is_root then try s r own else r in
      seq-Done r r' (try s r' (Op.set_times full meta)) (owner_ops own)
        (Op.set_times full meta ∷ []) (owner-Done r own) (try-Done r' (Op.set_times full meta))

  -- The mode, the owner, if the user is root, and the times of a path.
  abbrev pub meta_ops : Bytes → Meta → List Op
  meta_ops path meta =
      Op.chmod (dest_path dest path) meta.mode_perm
        ∷ owner_ops (Op.chown (dest_path dest path) meta.uid meta.gid)
      ++ Op.set_times (dest_path dest path) meta ∷ []

  pub set_meta-Done :
      (r : Run) (path : Bytes) (meta : Meta)
      → Done r (set_meta s dest r path meta) (Makes (meta_ops path meta))
  unfolding set_meta
  set_meta-Done r path meta =
      let full = dest_path dest path in
      let chmod = Op.chmod full meta.mode_perm in
      let own = Op.chown full meta.uid meta.gid in
      let r' = try s r chmod in
      seq-Done r r' (own_and_time s dest r' full meta own) (chmod ∷ [])
        (owner_ops own ++ Op.set_times full meta ∷ []) (try-Done r chmod)
        (own_and_time-Done r' full meta own)

  abbrev pub file_metas : List LinkGroup → List Op
  file_metas [] = []
  file_metas (g ∷ groups) = meta_ops g.first g.meta ++ file_metas groups

  pub files_meta-Done :
      (r : Run) (groups : List LinkGroup)
      → Done r (files_meta s dest r groups) (Makes (file_metas groups))
  unfolding files_meta
  files_meta-Done r [] = self-Done r
  files_meta-Done r (g ∷ groups) =
      let r' = set_meta s dest r g.first g.meta in
      seq-Done r r' (files_meta s dest r' groups) (meta_ops g.first g.meta) (file_metas groups)
        (set_meta-Done r g.first g.meta) (files_meta-Done r' groups)

  -- A symbolic link, its times and, if the user is root, its owner.
  abbrev pub one_symlink : SymMeta → List Op
  one_symlink y =
      Op.symlink y.target (dest_path dest y.path)
      ∷ Op.set_times (dest_path dest y.path) y.meta
      ∷ owner_ops (Op.lchown (dest_path dest y.path) y.meta.uid y.meta.gid)

  abbrev pub symlink_ops : List SymMeta → List Op
  symlink_ops [] = []
  symlink_ops (y ∷ syms) = one_symlink y ++ symlink_ops syms

  make_symlink-Done :
      (r : Run) (y : SymMeta) → Done r (make_symlink s dest r y) (Makes (one_symlink y))
  unfolding make_symlink
  make_symlink-Done r y =
      let full = dest_path dest y.path in
      let op = Op.symlink y.target full in
      let r1 = call r op in
      let r2 = try s r1 (Op.set_times full y.meta) in
      let own = Op.lchown full y.meta.uid y.meta.gid in
      let r3 = if s.is_root then try s r2 own else r2 in
      let timed =
        seq-Done r r1 r2 (op ∷ []) (Op.set_times full y.meta ∷ []) (call-Done r op)
          (try-Done r1 (Op.set_times full y.meta)) in
      if-Done r (succeeded (s.rc r.ops op)) r3 (warn r1) (Makes (one_symlink y))
        (seq-Done r r2 r3 (op ∷ Op.set_times full y.meta ∷ []) (owner_ops own) timed
          (owner-Done r2 own))
        (warn-Done r r1 (Makes (one_symlink y)))

  pub make_symlinks-Done :
      (r : Run) (syms : List SymMeta)
      → Done r (make_symlinks s dest r syms) (Makes (symlink_ops syms))
  unfolding make_symlinks
  make_symlinks-Done r [] = self-Done r
  make_symlinks-Done r (y ∷ syms) =
      let r' = make_symlink s dest r y in
      seq-Done r r' (make_symlinks s dest r' syms) (one_symlink y) (symlink_ops syms)
        (make_symlink-Done r y) (make_symlinks-Done r' syms)
