-- ===== src/Scanner/Walk.antt =====
-- What every step of a scan keeps: the lines of files have the ids of their objects.
use tarpack.Scanner.Hits.{IsName}
use tarpack.Scanner.Found.{Inv, fault-Inv, write_line-Inv, object_for-HasFound}
use tarpack.Scanner.Lines.{IsPick}
use tarpack.Prelude.{
  ℕ, zero, suc, ◌≡◌, refl, inl, inr, Bool, true, false, Option, none, some, List, [], ◌∷◌, leb,
  if◌then◌else◌, Bool-cases, length, Bytes,
}
use tarpack.Scanner.{
  Ctx, FileType, Line, ScanSystem, Stat, fault, handle_dir, handle_entry, handle_file, handle_link,
  handle_path, handle_type, is_repo, join_rel_path, object_find, object_for, scan_dir, scan_listed,
  scan_names, write_line, drop_dots,
}
use tarpack.Checksum.{path_max}
use tarpack.Index.Load.{ObjectIndex}

module _ (s : ScanSystem) (idx : ObjectIndex) (hash_mode : Bool) (repo : Option (ℕ × ℕ))
    (picks : IsPick s.pick) where
  handle_file-Inv :
      (ctx : Ctx) (st : Stat) (rel : Bytes)
      → Inv s idx hash_mode repo picks ctx
      → IsName s hash_mode st rel
      → Inv s idx hash_mode repo picks (handle_file s idx hash_mode repo ctx st rel)
  unfolding handle_file
  handle_file-Inv ctx st rel h name =
      let found = object_find ctx.table.objects st.dev st.ino in
      let r = object_for s idx hash_mode repo ctx st rel found in
      let (h', e) = object_for-HasFound s idx hash_mode repo picks ctx st rel found h name refl in
      write_line-Inv s idx hash_mode repo picks r.0 (Line.file rel r.1.id st r.1.sha256_hex) h'
        (r.1, e, refl)

  handle_link-Inv :
      (ctx : Ctx) (st : Stat) (rel : Bytes) (target : Option Bytes)
      → Inv s idx hash_mode repo picks ctx
      → Inv s idx hash_mode repo picks (handle_link s idx hash_mode repo ctx st rel target)
  handle_link-Inv ctx st rel none h = fault-Inv s idx hash_mode repo picks ctx h
  handle_link-Inv ctx st rel (some target) h = elim (Bool-cases (leb path_max (length target))) [
    | inl e ↦ simp e (fault-Inv s idx hash_mode repo picks ctx h)
    | inr e ↦
        simp e (write_line-Inv s idx hash_mode repo picks ctx (Line.symlink rel target st) h tt)
  ]

  abbrev Keeps : (Ctx → Bytes → Ctx) → Type 0
  Keeps d =
      (ctx : Ctx) (rel : Bytes)
      → Inv s idx hash_mode repo picks ctx
      → Inv s idx hash_mode repo picks (d ctx rel)

  if-Inv :
      (b : Bool) (x y : Ctx)
      → Inv s idx hash_mode repo picks x
      → Inv s idx hash_mode repo picks y
      → Inv s idx hash_mode repo picks (if b then x else y)
  if-Inv true x y hx hy = hx
  if-Inv false x y hx hy = hy

  handle_dir-Inv :
      (d : Ctx → Bytes → Ctx) (ctx : Ctx) (st : Stat) (rel : Bytes)
      → Keeps d
      → Inv s idx hash_mode repo picks ctx
      → Inv s idx hash_mode repo picks (handle_dir s idx hash_mode repo d ctx st rel)
  unfolding handle_dir
  handle_dir-Inv d ctx st rel keeps h =
      let l = Line.dir rel st in
      let down = d (write_line s idx hash_mode repo ctx l) rel in
      let inner = if s.writes ctx.lines l then down else fault ctx in
      if-Inv (is_repo s idx hash_mode repo repo st) ctx (if s.opens rel then inner else fault ctx) h
        (if-Inv (s.opens rel) inner (fault ctx)
          (if-Inv (s.writes ctx.lines l) down (fault ctx)
            (keeps (write_line s idx hash_mode repo ctx l) rel
              (write_line-Inv s idx hash_mode repo picks ctx l h tt))
            (fault-Inv s idx hash_mode repo picks ctx h))
          (fault-Inv s idx hash_mode repo picks ctx h))

  handle_type-Inv :
      (d : Ctx → Bytes → Ctx) (ctx : Ctx) (st : Stat) (rel : Bytes) (type : FileType)
      → Keeps d
      → Inv s idx hash_mode repo picks ctx
      → IsName s hash_mode st rel
      → Inv s idx hash_mode repo picks (handle_type s idx hash_mode repo d ctx st rel type)
  handle_type-Inv d ctx st rel FileType.dir keeps h name = handle_dir-Inv d ctx st rel keeps h
  handle_type-Inv d ctx st rel FileType.symlink keeps h name =
      handle_link-Inv ctx st rel (s.read_link rel) h
  handle_type-Inv d ctx st rel FileType.regular keeps h name = handle_file-Inv ctx st rel h name
  handle_type-Inv d ctx st rel FileType.other keeps h name = h

  handle_path-Inv :
      (d : Ctx → Bytes → Ctx) (ctx : Ctx) (st : Option Stat) (rel : Option Bytes)
      → Keeps d
      → Inv s idx hash_mode repo picks ctx
      → ((st' : Stat) (rel' : Bytes)
          → st ≡ some st'
          → rel ≡ some rel'
          → IsName s hash_mode st' rel')
      → Inv s idx hash_mode repo picks (handle_path s idx hash_mode repo d ctx st rel)
  handle_path-Inv d ctx none rel keeps h name = fault-Inv s idx hash_mode repo picks ctx h
  handle_path-Inv d ctx (some st) none keeps h name = fault-Inv s idx hash_mode repo picks ctx h
  handle_path-Inv d ctx (some st) (some rel) keeps h name =
      handle_type-Inv d ctx st rel st.type keeps h (name st rel refl refl)

  scan_names-Inv :
      (d : Ctx → Bytes → Ctx) (ctx : Ctx) (rel : Bytes) (ns : List Bytes)
      → Keeps d
      → Inv s idx hash_mode repo picks ctx
      → Inv s idx hash_mode repo picks (scan_names s idx hash_mode repo d ctx rel ns)
  unfolding scan_names handle_entry
  scan_names-Inv d ctx rel [] keeps h = h
  scan_names-Inv d ctx rel (n ∷ ns) keeps h =
      scan_names-Inv d (handle_entry s idx hash_mode repo d ctx rel n) rel ns keeps (
        handle_path-Inv d ctx (s.stat_at rel n) (join_rel_path rel n) keeps h
          (λ st rel' e f. (rel, n, e, f)))

  scan_listed-Inv :
      (d : Ctx → Bytes → Ctx) (ctx : Ctx) (rel : Bytes) (o : Option (List Bytes))
      → Keeps d
      → Inv s idx hash_mode repo picks ctx
      → Inv s idx hash_mode repo picks (scan_listed s idx hash_mode repo d ctx rel o)
  scan_listed-Inv d ctx rel none keeps h = fault-Inv s idx hash_mode repo picks ctx h
  scan_listed-Inv d ctx rel (some ns) keeps h =
      scan_names-Inv d ctx rel (s.sort (drop_dots ns)) keeps h

  pub scan_dir-Inv : (f : ℕ) → Keeps (scan_dir s idx hash_mode repo f)
  unfolding scan_dir
  scan_dir-Inv zero ctx rel h = h
  scan_dir-Inv (suc f) ctx rel h =
      scan_listed-Inv (scan_dir s idx hash_mode repo f) ctx rel (s.names rel) (scan_dir-Inv f) h
