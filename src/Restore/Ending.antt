-- ===== src/Restore/Ending.antt =====
-- What the part of `tp_restore` from the hard links on has called when it ends without a warning.
use tarpack.Prelude.{subst, List, [], ◌∷◌, ◌++◌, All, Member, All-map, Bytes}
use tarpack.Restore.Links.{LinkGroup}
use tarpack.Restore.Plan.{DirMeta, Op, Run, SymMeta, System}
use tarpack.Restore.Extract.{
  deepest_first, dirs_meta, files_meta, finish, link_groups, make_symlinks, set_meta,
}
use tarpack.Restore.Order.{Permᴰ-symm, All-Permᴰ, IsSystem, All-reverse}
use tarpack.Restore.Clean.{
  Done, Makes, file_metas, files_meta-Done, group_links, link_groups-Done, make_symlinks-Done,
  meta_ops, seq-Done, set_meta-Done, symlink_ops,
}
use mathlib.Core.List.{reverse-reverse, reverse}

module _ (s : System) (dest : Bytes) where
  -- The mode, the owner, if the user is root, and the times of a directory are set.
  abbrev pub HasMeta : List Op → DirMeta → Type 0
  HasMeta ops d = Makes (meta_ops s dest d.path d.meta) ops

  dirs_meta-Done :
      (r : Run) (dirs : List DirMeta)
      → Done r (dirs_meta s dest r dirs) (λ ops. All (HasMeta ops) dirs)
  unfolding dirs_meta
  dirs_meta-Done r [] = λ c. (c, λ o h. h, tt)
  dirs_meta-Done r (d ∷ dirs) = λ c.
      let r1 = set_meta s dest r d.path d.meta in
      let r2 = dirs_meta s dest r1 dirs in
      let (c1, sub2, hs) = dirs_meta-Done r1 dirs c in
      let (c0, sub1, h) = set_meta-Done s dest r d.path d.meta c1 in
      (
        c0,
        λ o k. sub2 o (sub1 o k),
        (
          All-map (λ o. Member o r1.ops) (λ o. Member o r2.ops) (meta_ops s dest d.path d.meta)
              (λ o k. sub2 o k) h,
          hs,
        ),
      )

  -- The links and the metadata of files.
  abbrev pub late_ops : List LinkGroup → List SymMeta → List Op
  late_ops groups syms =
      (group_links s dest groups ++ symlink_ops s dest syms) ++ file_metas s dest groups

  pub finish-Done :
      (r : Run) (groups : List LinkGroup) (dirs : List DirMeta) (syms : List SymMeta)
      → Done r
          (finish s dest groups dirs syms r)
          (λ ops. Makes (late_ops groups syms) ops × All (HasMeta ops) (deepest_first s dest dirs))
  unfolding finish
  finish-Done r groups dirs syms = λ c.
      let r1 = link_groups s dest r groups in
      let r2 = make_symlinks s dest r1 syms in
      let r3 = files_meta s dest r2 groups in
      let r4 = dirs_meta s dest r3 (deepest_first s dest dirs) in
      let links = group_links s dest groups in
      let symlinks = symlink_ops s dest syms in
      let early =
        seq-Done r r2 r3 (links ++ symlinks) (file_metas s dest groups)
          (seq-Done r r1 r2 links symlinks (link_groups-Done s dest r groups)
            (make_symlinks-Done s dest r1 syms))
          (files_meta-Done s dest r2 groups) in
      let (c3, sub4, metas) = dirs_meta-Done r3 (deepest_first s dest dirs) c in
      let (c0, sub3, late) = early c3 in
      (
        c0,
        λ o h. sub4 o (sub3 o h),
        (
          All-map (λ o. Member o r3.ops) (λ o. Member o r4.ops) (late_ops groups syms)
              (λ o k. sub4 o k) late,
          metas,
        ),
      )

  pub deepest_first-All :
      (P : DirMeta → Type 0) (dirs : List DirMeta)
      → IsSystem s
      → All P (deepest_first s dest dirs)
      → All P dirs
  unfolding deepest_first
  deepest_first-All P dirs sys h =
      let sorted = s.sort_dirs dirs in
      All-Permᴰ P (Permᴰ-symm (sys.dirs_sort.permutes dirs))
        (subst (All P) (reverse-reverse sorted) (All-reverse P (reverse sorted) h))
