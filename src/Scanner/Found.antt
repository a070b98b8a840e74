-- ===== src/Scanner/Found.antt =====
-- What the lookups and the object table of a scan keep: each inode has its object, found or made.
use tarpack.Scanner.Hits.{IsHit, Matches, IsName, same_path_key-HasStat}
use tarpack.Scanner.Lines.{HasObject, HasObject-insert, IsPick, nodes_with-IsNode}
use tarpack.Prelude.{
  ℕ, ◌+◌, ◌%◌, ◌≡◌, refl, ap, ◌∙◌, inl, inr, Bool, true, false, Option, none, some, List, [], ◌∷◌,
  arith, ◌==◌, if◌then◌else◌, ==_refl, Bool-cases, length, take, All, All-map, All-snoc, Bytes,
  str_eq, Member, str_eq_iff,
}
use tarpack.Scanner.{
  Ctx, Line, Object, ScanSystem, Stat, by_hash, fault, hashed, insert_common, insert_object,
  new_object, object_find, object_for, table_insert, table_insert_with_id, write_line,
}
use tarpack.Scanner.Table.{Objects}
use tarpack.Index.{IndexEntry}
use tarpack.Index.Load.{
  ObjectIndex, find_by_path, find_by_sha256, nodes_with, same_path_key, object_id_of,
}
use tarpack.Packer.Names.{ulong_mod}

module _ (s : ScanSystem) (idx : ObjectIndex) (hash_mode : Bool) (repo : Option (ℕ × ℕ))
    (picks : IsPick s.pick) where
  pub record Inv (ctx : Ctx) : Type 0 where
    pub next : ctx.table.next_id ≡ (idx.next_id + ctx.new_objects) % ulong_mod
    pub objects :
        Objects
          (IsHit s hash_mode idx.entries)
          idx.next_id
          (idx.next_id + ctx.new_objects)
          ctx.table.objects
    pub lines : All (HasObject ctx.table.objects) ctx.lines

  -- What a lookup finds is an entry of the index with `P`.
  abbrev IsKnown : (IndexEntry → Type 0) → Option IndexEntry → Type 0
  IsKnown P none = Unit
  IsKnown P (some e) = Member e idx.entries × P e

  pick-IsKnown :
      (P : IndexEntry → Type 0) (same : IndexEntry → Bool) (o : Option IndexEntry)
      → s.pick (nodes_with same idx.entries) ≡ o
      → ((e : IndexEntry) → same e ≡ true → P e)
      → IsKnown P o
  pick-IsKnown P same none e f = tt
  pick-IsKnown P same (some hit) e f =
      let (m, k) =
        nodes_with-IsNode same idx.entries hit (picks.finds (nodes_with same idx.entries) hit e) in
      (m, f hit k)

  find_by_sha256-IsKnown :
      (P : IndexEntry → Type 0) (sha : Bytes)
      → ((e : IndexEntry) → e.sha256_hex ≡ take 64 sha → P e)
      → IsKnown P (find_by_sha256 s.pick idx sha)
  unfolding find_by_sha256
  find_by_sha256-IsKnown P sha f = elim (Bool-cases (length sha == 0)) [
    | inl e ↦ simp e tt
    | inr e ↦
        let same : IndexEntry → Bool = λ x. str_eq x.sha256_hex (take 64 sha) in
        simp e (
          pick-IsKnown P same (s.pick (nodes_with same idx.entries)) refl
            (λ x k. f x ((str_eq_iff x.sha256_hex (take 64 sha)).0 k)))
  ]

  pub fault-Inv : (ctx : Ctx) → Inv ctx → Inv (fault ctx)
  fault-Inv ctx h = record { next = h.next; objects = h.objects; lines = h.lines }

  pub write_line-Inv :
      (ctx : Ctx) (l : Line)
      → Inv ctx
      → HasObject ctx.table.objects l
      → Inv (write_line s idx hash_mode repo ctx l)
  unfolding write_line
  write_line-Inv ctx l h hl = elim (Bool-cases (s.writes ctx.lines l)) [
    | inl e ↦ simp e (record {
      next = h.next;
      objects = h.objects;
      lines = All-snoc (HasObject ctx.table.objects) ctx.lines l h.lines hl;
    })
    | inr e ↦ simp e (fault-Inv ctx h)
  ]

  -- What the lookups leave: the same table, and a hit in the index.
  abbrev LookedUp : Stat → Bytes → Ctx → Ctx × Bytes × Option IndexEntry → Type 0
  LookedUp st rel ctx (ctx', sha, hit) =
      Inv ctx' × (ctx'.table ≡ ctx.table) × IsKnown (λ e. Matches s hash_mode e rel st) hit

  hashed-LookedUp :
      (st : Stat) (rel : Bytes) (ctx : Ctx) (content : Option Bytes)
      → hash_mode ≡ true
      → s.read_file rel ≡ content
      → Inv ctx
      → LookedUp st rel ctx (hashed s idx hash_mode repo ctx content)
  hashed-LookedUp st rel ctx none on read h = (fault-Inv ctx h, refl, tt)
  hashed-LookedUp st rel ctx (some bytes) on read h = (
    h,
    refl,
    find_by_sha256-IsKnown (λ e. Matches s hash_mode e rel st) (s.sha256_hex bytes)
        (λ e same. inr (on, (bytes, read, same))),
  )

  if-LookedUp :
      (b : Bool) (st : Stat) (rel : Bytes) (ctx : Ctx) (x y : Ctx × Bytes × Option IndexEntry)
      → (b ≡ true → LookedUp st rel ctx x)
      → LookedUp st rel ctx y
      → LookedUp st rel ctx (if b then x else y)
  if-LookedUp true st rel ctx x y hx hy = hx refl
  if-LookedUp false st rel ctx x y hx hy = hy

  by_hash-LookedUp :
      (st : Stat) (rel : Bytes) (ctx : Ctx) (hit : Option IndexEntry)
      → Inv ctx
      → IsKnown (λ e. Matches s hash_mode e rel st) hit
      → LookedUp st rel ctx (by_hash s idx hash_mode repo ctx rel hit)
  by_hash-LookedUp st rel ctx (some e) h known = (h, refl, known)
  by_hash-LookedUp st rel ctx none h known =
      if-LookedUp hash_mode st rel ctx (hashed s idx hash_mode repo ctx (s.read_file rel))
        (ctx, [], none) (λ on. hashed-LookedUp st rel ctx (s.read_file rel) on refl h) (h, refl, tt)

  -- The object of an inode is in the table.
  abbrev HasFound : Stat → Ctx × Object → Type 0
  HasFound st (ctx, o) = Inv ctx × (object_find ctx.table.objects st.dev st.ino ≡ some o)

  object_find-head :
      (o : Object) (objects : List Object) → object_find (o ∷ objects) o.dev o.ino ≡ some o
  unfolding object_find
  object_find-head o objects = rw (==_refl o.dev, ==_refl o.ino) refl

  insert_object-HasFound :
      (ctx : Ctx) (st : Stat) (rel sha : Bytes) (hit : Option IndexEntry)
      → Inv ctx
      → IsName s hash_mode st rel
      → IsKnown (λ e. Matches s hash_mode e rel st) hit
      → object_find ctx.table.objects st.dev st.ino ≡ none
      → HasFound st (insert_object s idx hash_mode repo ctx st sha hit)
  unfolding insert_common table_insert table_insert_with_id
  insert_object-HasFound ctx st rel sha (some hit) h name known new =
      let o : Object = record {
        id = take 31 hit.object_id;
        dev = st.dev;
        ino = st.ino;
        sha256_hex = sha;
      } in
      (
        record {
          next = h.next;
          objects = inl (
            record {
              entry = hit;
              listed = known.0;
              same_id = refl;
              rel = rel;
              st = st;
              named = name;
              same_inode = (refl, refl);
              matches = known.1;
            },
            h.objects,
          );
          lines =
              All-map (HasObject ctx.table.objects) (HasObject (o ∷ ctx.table.objects)) ctx.lines
                (λ l hl. HasObject-insert o ctx.table.objects l new hl) h.lines;
        },
        object_find-head o ctx.table.objects,
      )
  insert_object-HasFound ctx st rel sha none h name known new =
      let n = idx.next_id + ctx.new_objects in
      let o : Object = record {
        id = object_id_of ctx.table.next_id;
        dev = st.dev;
        ino = st.ino;
        sha256_hex = sha;
      } in
      (
        record {
          next = ap (λ k. (k + 1) % ulong_mod) h.next ∙ omega arith;
          objects = inr (n, ap object_id_of h.next, omega arith, omega arith, h.objects);
          lines =
              All-map (HasObject ctx.table.objects) (HasObject (o ∷ ctx.table.objects)) ctx.lines
                (λ l hl. HasObject-insert o ctx.table.objects l new hl) h.lines;
        },
        object_find-head o ctx.table.objects,
      )

  new_object-HasFound :
      (ctx : Ctx) (st : Stat) (rel : Bytes)
      → Inv ctx
      → IsName s hash_mode st rel
      → object_find ctx.table.objects st.dev st.ino ≡ none
      → HasFound st (new_object s idx hash_mode repo ctx st rel)
  unfolding new_object find_by_path
  new_object-HasFound ctx st rel h name new =
      let same = same_path_key rel st.size st.mtime_sec st.mtime_nsec in
      let hit = s.pick (nodes_with same idx.entries) in
      let r = by_hash s idx hash_mode repo ctx rel hit in
      let looked : LookedUp st rel ctx r = by_hash-LookedUp st rel ctx hit h (
        pick-IsKnown (λ e. Matches s hash_mode e rel st) same hit refl
          (λ e k. inl (same_path_key-HasStat e rel st k))) in
      insert_object-HasFound r.0 st rel r.1 r.2 looked.0 name looked.2
        (ap (λ t. object_find t.objects st.dev st.ino) looked.1 ∙ new)

  pub object_for-HasFound :
      (ctx : Ctx) (st : Stat) (rel : Bytes) (o : Option Object)
      → Inv ctx
      → IsName s hash_mode st rel
      → object_find ctx.table.objects st.dev st.ino ≡ o
      → HasFound st (object_for s idx hash_mode repo ctx st rel o)
  object_for-HasFound ctx st rel (some o) h name e = (h, e)
  object_for-HasFound ctx st rel none h name e = new_object-HasFound ctx st rel h name e
