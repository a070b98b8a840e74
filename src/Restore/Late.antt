-- ===== src/Restore/Late.antt =====
-- The phases of `tp_restore` behind the hard links: where they make their calls.
use tarpack.Manifest.{Meta}
use tarpack.Restore.Links.{LinkGroup}
use tarpack.Restore.PathSafe.{path_safe}
use tarpack.Restore.Plan.{DirMeta, SymMeta, Op, System, Run, succeeded, call, warn, try, dest_path}
use tarpack.Restore.Contained.{
  Extends, Extends-self, Extends-trans, call-Extends, try-Extends, if-Extends, IsWithin, IsLate,
}
use tarpack.Restore.Extract.{
  own_and_time, make_symlink, make_symlinks, set_meta, files_meta, dirs_meta,
}
use tarpack.Prelude.{◌≡◌, refl, true, List, [], ◌∷◌, All, Bytes, if◌then◌else◌}

module _ (s : System) (dest : Bytes) where
  abbrev pub Sets : Run → Run → Type 0
  Sets = Extends (IsLate dest)

  own_and_time-Sets :
      (r : Run) (full : Bytes) (meta : Meta) (own : Op)
      → IsWithin dest full
      → IsLate dest own
      → Sets r (own_and_time s dest r full meta own)
  unfolding own_and_time
  own_and_time-Sets r full meta own w h =
      let P = IsLate dest in
      let owned = if s.is_root then try s r own else r in
      Extends-trans P r owned (try s owned (Op.set_times full meta))
        (if-Extends P r s.is_root (try s r own) r (try-Extends P s r own h)
          (Extends-self P r r refl))
        (try-Extends P s owned (Op.set_times full meta) w)

  make_symlink-Sets :
      (r : Run) (y : SymMeta) → path_safe y.path ≡ true → Sets r (make_symlink s dest r y)
  unfolding make_symlink
  make_symlink-Sets r y safe =
      let P = IsLate dest in
      let full = dest_path dest y.path in
      let w : IsWithin dest full = (y.path, safe, refl) in
      let r1 = call r (Op.symlink y.target full) in
      let h1 : Sets r r1 = call-Extends P r (Op.symlink y.target full) w in
      let r2 = try s r1 (Op.set_times full y.meta) in
      let h2 : Sets r r2 =
        Extends-trans P r r1 r2 h1 (try-Extends P s r1 (Op.set_times full y.meta) w) in
      let own = Op.lchown full y.meta.uid y.meta.gid in
      let r3 = try s r2 own in
      if-Extends P r (succeeded (s.rc r.ops (Op.symlink y.target full)))
        (if s.is_root then r3 else r2) (warn r1)
        (if-Extends P r s.is_root r3 r2 (Extends-trans P r r2 r3 h2 (try-Extends P s r2 own w)) h2)
        h1

  pub make_symlinks-Sets :
      (r : Run) (syms : List SymMeta)
      → All (λ y. path_safe y.path ≡ true) syms
      → Sets r (make_symlinks s dest r syms)
  unfolding make_symlinks
  make_symlinks-Sets r [] h = Extends-self (IsLate dest) r r refl
  make_symlinks-Sets r (y ∷ syms) (hy, h) =
      let r' = make_symlink s dest r y in
      Extends-trans (IsLate dest) r r' (make_symlinks s dest r' syms) (make_symlink-Sets r y hy)
        (make_symlinks-Sets r' syms h)

  set_meta-Sets :
      (r : Run) (path : Bytes) (meta : Meta)
      → path_safe path ≡ true
      → Sets r (set_meta s dest r path meta)
  unfolding set_meta
  set_meta-Sets r path meta safe =
      let P = IsLate dest in
      let full = dest_path dest path in
      let w : IsWithin dest full = (path, safe, refl) in
      let r1 = try s r (Op.chmod full meta.mode_perm) in
      let own = Op.chown full meta.uid meta.gid in
      Extends-trans P r r1 (own_and_time s dest r1 full meta own)
        (try-Extends P s r (Op.chmod full meta.mode_perm) w)
        (own_and_time-Sets r1 full meta own w w)

  pub files_meta-Sets :
      (r : Run) (groups : List LinkGroup)
      → All (λ g. path_safe g.first ≡ true) groups
      → Sets r (files_meta s dest r groups)
  unfolding files_meta
  files_meta-Sets r [] h = Extends-self (IsLate dest) r r refl
  files_meta-Sets r (g ∷ groups) (hg, h) =
      let r' = set_meta s dest r g.first g.meta in
      Extends-trans (IsLate dest) r r' (files_meta s dest r' groups)
        (set_meta-Sets r g.first g.meta hg) (files_meta-Sets r' groups h)

  pub dirs_meta-Sets :
      (r : Run) (dirs : List DirMeta)
      → All (λ d. path_safe d.path ≡ true) dirs
      → Sets r (dirs_meta s dest r dirs)
  unfolding dirs_meta
  dirs_meta-Sets r [] h = Extends-self (IsLate dest) r r refl
  dirs_meta-Sets r (d ∷ dirs) (hd, h) =
      let r' = set_meta s dest r d.path d.meta in
      Extends-trans (IsLate dest) r r' (dirs_meta s dest r' dirs) (set_meta-Sets r d.path d.meta hd)
        (dirs_meta-Sets r' dirs h)
