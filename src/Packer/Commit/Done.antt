-- ===== src/Packer/Commit/Done.antt =====
-- A commit that returns success has happened.
use tarpack.Checksum.Lines.{NoNewline, IsLine, joined_lines}
use tarpack.Index.{IndexEntry}
use tarpack.Packer.Commit.{
  Repo, Effect, apply, run, content, and_then, Calls, CommitObject, archive_step, write_file_atomic,
  sum_step, index_append, index_text, index_entries, put_all, pack_objects,
  write_one_pack_and_commit,
}
use tarpack.Packer.Commit.Crash.{IsConsistent, content-run, content-put}
use tarpack.Packer.Commit.Durable.{rows_prefix, same_line}
use tarpack.Packer.Commit.Effects.{IsQuiet, run-append}
use tarpack.Packer.Commit.Lines.{Names}
use tarpack.Packer.Commit.Pack.{
  PrintsPack, archive_step-IsQuiet, write_file_atomic-IsQuiet, sum_step-IsQuiet, archive_nonempty,
  manifest_nonempty, write_one_pack_and_commit-IsCommit,
}
use tarpack.Packer.Commit.Recovery.{indexed_packs, indexed_packs-rows, All-collected}
use tarpack.Packer.Names.{pack_name}
use tarpack.Packer.Recovery.Sweep.{has, collect_lines, pack_of_line}
use tarpack.Packer.Recovery.Sweep.Survivors.{archive, manifest}
use tarpack.Prelude.{
  ◌≡◌, ◌≢◌, refl, sym, ap, ◌∙◌, Bool, true, false, Option, none, some, List, [], ◌∷◌, ◌++◌, All,
  Bytes, subst, append_nil, append_assoc, ℕ, codes, none-ne, drop, drop-length, length,
  All-of_append, map,
}

-- If the code goes on behind the effects, they have appended `text` to the index.
abbrev Appends : Bytes → Repo → List Effect × Option Bool → Type 0
Appends text r (es, rc) =
    (warned : Bool) → rc ≡ some warned → content (run r es).index ≡ content r.index ++ text

and_then-Appends :
    (text : Bytes) (r : Repo) (step : List Effect × Bool) (next : List Effect × Option Bool)
    → All IsQuiet step.0
    → Appends text (run r step.0) next
    → Appends text r (and_then step next)
unfolding and_then
and_then-Appends text r (es, true) (fs, rc) q h warned e =
    ap (λ s. content s.index) (run-append r es fs)
    ∙ h warned e
    ∙ ap (λ u. u ++ text) (content-run r es q)
and_then-Appends text r (es, false) (fs, rc) q h warned e = absurd (none-ne e)

put_all-Appends :
    (text : Bytes) (r : Repo) (stop : Option ℕ) (rc : Option Bool)
    → Appends text r (
        and_then
          (
            Effect.touch_index ∷ (put_all stop Effect.put_index text).0,
            (put_all stop Effect.put_index text).1,
          )
          ([], rc))
unfolding and_then run apply
put_all-Appends text r none rc warned e =
    ap (λ fs. content (run r fs).index)
      (append_nil (Effect.touch_index ∷ map Effect.put_index text))
    ∙ content-put (apply r Effect.touch_index) text
put_all-Appends text r (some k) rc warned e = absurd (none-ne e)

module _ (print : IndexEntry → Bytes) where
  write_one_pack_and_commit-Appends :
      (r : Repo) (c : Calls) (n : ℕ) (objects : List CommitObject)
      → Appends
          (index_text print (index_entries (pack_name n) objects))
          r
          (write_one_pack_and_commit print c n objects)
  unfolding write_one_pack_and_commit index_append
  write_one_pack_and_commit-Appends r c n objects =
      let name = pack_name n in
      let text = index_text print (index_entries name objects) in
      let s1 = archive_step c.archive (archive name) in
      let s2 = write_file_atomic c.manifest (manifest name) in
      let s3 = sum_step c.archive_hash c.archive_sum (codes "packs/" ++ archive name) in
      let s4 = sum_step c.manifest_hash c.manifest_sum (codes "packs/" ++ manifest name) in
      let r1 = run r s1.0 in
      let r2 = run r1 s2.0 in
      let r3 = run r2 s3.0 in
      let r4 = run r3 s4.0 in
      and_then-Appends text r s1 _
        (archive_step-IsQuiet c.archive (archive name) (archive_nonempty name))
        (and_then-Appends text r1 s2 _
          (write_file_atomic-IsQuiet c.manifest (manifest name) (manifest_nonempty name))
          (and_then-Appends text r2 s3 _
            (sum_step-IsQuiet c.archive_hash c.archive_sum (codes "packs/" ++ archive name))
            (and_then-Appends text r3 s4 _
              (sum_step-IsQuiet c.manifest_hash c.manifest_sum (codes "packs/" ++ manifest name))
              (put_all-Appends text r4 c.index (pack_objects c.archive.results)))))

joined_lines-append :
    (ls ks : List Bytes) → joined_lines (ls ++ ks) ≡ joined_lines ls ++ joined_lines ks
unfolding joined_lines
joined_lines-append [] ks = refl
joined_lines-append (l ∷ ls) ks =
    ap (λ u. l ++ u) (joined_lines-append ls ks)
    ∙ sym (append_assoc l (joined_lines ls) (joined_lines ks))

nonempty_line : (t rest : Bytes) → t ++ 10 ∷ rest ≢ []
nonempty_line [] rest e = cc
nonempty_line (c ∷ t) rest e = cc

-- The first of the lines that were added.
first_line :
    (more : List Bytes) (t rest : Bytes)
    → All IsLine more
    → NoNewline t
    → t ++ 10 ∷ rest ≡ joined_lines more
    → (ks : List Bytes) × (more ≡ (t ++ 10 ∷ []) ∷ ks)
unfolding joined_lines
first_line [] t rest h ht e = absurd (nonempty_line t rest e)
first_line (l ∷ more) t rest (hl, h) ht e = (
  more,
  ap (λ k. k ∷ more)
      (sym
        (same_line (t ++ 10 ∷ []) l rest (joined_lines more) (t, refl, ht) hl
          (append_assoc t (10 ∷ []) rest ∙ e)).0),
)

All-right : {A : Type 0} → (P : A → Type 0) (xs ys : List A) → All P (xs ++ ys) → All P ys
All-right P xs ys h = (All-of_append P xs ys h).1

-- A pack whose line was added to the index is indexed.
added-indexed :
    (r r' : Repo) (t rest name : Bytes) (h : IsConsistent r []) (h' : IsConsistent r' [])
    → NoNewline t
    → pack_of_line (t ++ 10 ∷ []) ≡ some name
    → content r'.index ≡ content r.index ++ (t ++ 10 ∷ rest)
    → has (indexed_packs r') name ≡ true
added-indexed r r' t rest name h h' ht named grown =
    let s = t ++ 10 ∷ rest in
    let whole : joined_lines h.rows ++ s ≡ joined_lines h'.rows ++ [] =
      ap (λ u. u ++ s) (sym (append_nil (joined_lines h.rows)) ∙ sym h.split)
      ∙ sym grown
      ∙ h'.split in
    let (more, eq) = rows_prefix h.rows h'.rows s [] h.complete h'.complete tt whole in
    let rest_lines : s ≡ joined_lines more =
      sym (drop-length (joined_lines h.rows) s)
      ∙ ap (drop (length (joined_lines h.rows))) (
          whole
          ∙ append_nil (joined_lines h'.rows)
          ∙ ap joined_lines eq
          ∙ joined_lines-append h.rows more)
      ∙ drop-length (joined_lines h.rows) (joined_lines more) in
    let (ks, eq') =
      first_line more t rest (All-right IsLine h.rows more (subst (All IsLine) eq h'.complete)) ht
        rest_lines in
    let P : Bytes → Type 0 =
      λ l. Names (λ b. has (collect_lines [] h'.rows) b ≡ true) (pack_of_line l) in
    let all : All P (h.rows ++ (t ++ 10 ∷ []) ∷ ks) =
      subst (All P) (eq ∙ ap (λ m. h.rows ++ m) eq') (All-collected [] h'.rows) in
    ap (λ ns. has ns name) (indexed_packs-rows r' [] h')
    ∙ subst (Names (λ b. has (collect_lines [] h'.rows) b ≡ true)) named
        (All-right P h.rows ((t ++ 10 ∷ []) ∷ ks) all).0

-- If the commit of a pack with at least one object returns success, the pack is indexed.
pub write_one_pack_and_commit-indexed :
    (print : IndexEntry → Bytes) (r : Repo) (c : Calls) (n : ℕ) (o : CommitObject)
    (objects : List CommitObject) (warned : Bool)
    → PrintsPack print
    → IsConsistent r []
    → (write_one_pack_and_commit print c n (o ∷ objects)).1 ≡ some warned
    → has
        (indexed_packs (run r (write_one_pack_and_commit print c n (o ∷ objects)).0))
        (pack_name n)
      ≡ true
unfolding index_text index_entries
write_one_pack_and_commit-indexed print r c n o objects warned prints h e =
    let one = write_one_pack_and_commit print c n (o ∷ objects) in
    let (safe, clean) = write_one_pack_and_commit-IsCommit print prints r c n (o ∷ objects) h in
    let grown = write_one_pack_and_commit-Appends print r c n (o ∷ objects) warned e in
    let entry : IndexEntry = record {
      object_id = o.object_id;
      pack = pack_name n;
      offset = o.offset;
      size = o.size;
      sha256_hex = o.sha256_hex;
      path = o.path;
      mtime_sec = o.mtime_sec;
      mtime_nsec = o.mtime_nsec;
    } in
    let (line, named) = prints entry n refl in
    added-indexed r (run r one.0) (print entry)
      (index_text print (index_entries (pack_name n) objects)) (pack_name n) h (clean warned e) line
      named grown
