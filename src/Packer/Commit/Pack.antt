-- ===== src/Packer/Commit/Pack.antt =====
-- The steps of `write_one_pack_and_commit`, and the loop over the packs.
use tarpack.Checksum.{checksums_append}
use tarpack.Checksum.Lines.{NoNewline}
use tarpack.Index.{IndexEntry}
use tarpack.Packer.Commit.{
  Repo, Effect, apply, run, Write, write_file_atomic, ArchiveCalls, archive_step, sum_step, part_of,
  pack_objects, Calls, CommitObject, index_entries, put_all, put_sum, write_one_pack_and_commit,
  write_packs, followed_by,
}
use tarpack.Packer.Commit.Effects.{IsQuiet, run-has}
use tarpack.Packer.Commit.Crash.{HasFiles, IsConsistent, run-IsConsistent, run-HasFiles}
use tarpack.Packer.Commit.Lines.{Names}
use tarpack.Packer.Commit.Phases.{
  IsSafe, IsCommit, and_then-IsCommit, IsSafe-append, IsSafe-IsQuiet,
}
use tarpack.Packer.Commit.Append.{IsPrinted, index_append-IsCommit}
use tarpack.Packer.Names.{pack_name, ulong_mod}
use tarpack.Packer.Recovery.Sweep.{pack_of_line, is_part, has_suffix, has, add, unlink_all}
use tarpack.Packer.Recovery.Sweep.Doomed.{has-add}
use tarpack.Packer.Recovery.Sweep.Survivors.{archive, manifest, archive-no_part}
use tarpack.Prelude.{
  ◌≡◌, ◌<◌, ◌+◌, ◌-◌, ◌%◌, take, refl, sym, ap, ◌∙◌, inl, inr, Bool, true, ◌&&◌, Option, none, some,
  List, [], ◌∷◌, ◌++◌, arith, All, Bytes, ℕ, map, subst, Bool-cases, Option-cases, codes, length,
  length-append, str_eq_refl, drop, drop-length, str_eq, lt→ltb,
}

-- A scratch file's name, for a path of at least one byte.
part_of-is_part : (x : Bytes) → 0 < length x → is_part (part_of x) ≡ true
unfolding is_part has_suffix
part_of-is_part x h =
    let l = length-append x (codes ".part") in
    rw
      (
        lt→ltb 5 (length (x ++ codes ".part")) (omega (arith, l)),
        ap (λ n. str_eq (drop n (x ++ codes ".part")) (codes ".part"))
            {x = length (x ++ codes ".part") - 5} {y = length x} (omega (arith, l)),
        ap (λ s. str_eq s (codes ".part")) (drop-length x (codes ".part")),
      )
      (unfold str_eq in refl)

pub archive_step-IsQuiet :
    (c : ArchiveCalls) (x : Bytes) → 0 < length x → All IsQuiet (archive_step c x).0
unfolding archive_step
archive_step-IsQuiet c x h =
    let p = part_of-is_part x h in
    elim (Bool-cases c.opened) [
      | inr e ↦ rw e tt
      | inl e ↦ elim (Option-cases (pack_objects c.results)) [
        | inl f ↦ rw (e, f) (tt, (p, tt))
        | inr (w, f) ↦ elim (Bool-cases (c.closed && (c.synced && c.renamed))) [
          | inl g ↦ rw (e, f, g) (tt, (p, tt))
          | inr g ↦ rw (e, f, g) (tt, (p, tt))
        ]
      ]
    ]

moved-has :
    (r : Repo) (x : Bytes)
    → has (run r (Effect.create (part_of x) ∷ Effect.move (part_of x) x ∷ [])).packs x ≡ true
unfolding run apply
moved-has r x =
    has-add (unlink_all (part_of x ∷ []) (add r.packs (part_of x))) x x
    ∙ ground (arith, str_eq_refl x)

archive_step-has :
    (r : Repo) (c : ArchiveCalls) (x : Bytes)
    → (archive_step c x).1 ≡ true
    → has (run r (archive_step c x).0).packs x ≡ true
unfolding archive_step
archive_step-has r c x = elim (Bool-cases c.opened) [
  | inr e ↦ rw e (λ h. absurd (ground (arith, h)))
  | inl e ↦ elim (Option-cases (pack_objects c.results)) [
    | inl f ↦ rw (e, f) (λ h. absurd (ground (arith, h)))
    | inr (w, f) ↦ elim (Bool-cases (c.closed && (c.synced && c.renamed))) [
      | inl g ↦ rw (e, f, g) (λ h. moved-has r x)
      | inr g ↦ rw (e, f, g) (λ h. absurd (ground (arith, h)))
    ]
  ]
]

pub write_file_atomic-IsQuiet :
    (w : Write) (x : Bytes) → 0 < length x → All IsQuiet (write_file_atomic w x).0
unfolding write_file_atomic
write_file_atomic-IsQuiet Write.unopened x h = tt
write_file_atomic-IsQuiet Write.unwritten x h = (tt, (part_of-is_part x h, tt))
write_file_atomic-IsQuiet Write.written x h = (tt, (part_of-is_part x h, tt))

write_file_atomic-has :
    (r : Repo) (w : Write) (x : Bytes)
    → (write_file_atomic w x).1 ≡ true
    → has (run r (write_file_atomic w x).0).packs x ≡ true
unfolding write_file_atomic
write_file_atomic-has r Write.unopened x h = absurd (ground (arith, h))
write_file_atomic-has r Write.unwritten x h = absurd (ground (arith, h))
write_file_atomic-has r Write.written x h = moved-has r x

put_sums-IsQuiet : (s : Bytes) → All IsQuiet (map Effect.put_sums s)
put_sums-IsQuiet [] = tt
put_sums-IsQuiet (b ∷ s) = (tt, put_sums-IsQuiet s)

put_all-IsQuiet : (stop : Option ℕ) (s : Bytes) → All IsQuiet (put_all stop Effect.put_sums s).0
put_all-IsQuiet none s = put_sums-IsQuiet s
put_all-IsQuiet (some k) s = put_sums-IsQuiet (take k s)

put_sum-IsQuiet : (stop : Option ℕ) (o : Option Bytes) → All IsQuiet (put_sum stop o).0
unfolding put_sum
put_sum-IsQuiet stop none = (tt, tt)
put_sum-IsQuiet stop (some line) = (tt, put_all-IsQuiet stop line)

pub sum_step-IsQuiet :
    (hash : Option Bytes) (stop : Option ℕ) (x : Bytes) → All IsQuiet (sum_step hash stop x).0
unfolding sum_step
sum_step-IsQuiet none stop x = tt
sum_step-IsQuiet (some hex) stop x =
    put_sum-IsQuiet stop (checksums_append none (record { sha256_hex = hex; relpath = x }))

pub archive_nonempty : (n : Bytes) → 0 < length (archive n)
archive_nonempty n = omega (arith, length-append n (codes ".tar.zst"))

pub manifest_nonempty : (n : Bytes) → 0 < length (manifest n)
manifest_nonempty n = omega (arith, length-append n (codes ".json"))

-- The printer writes an entry of a pack on one line, from which `collect_indexed_packs` reads the
-- pack's name.
abbrev pub PrintsPack : (IndexEntry → Bytes) → Type 0
PrintsPack print =
    (e : IndexEntry) (n : ℕ)
    → e.pack ≡ pack_name n
    → NoNewline (print e) × (pack_of_line (print e ++ 10 ∷ []) ≡ some (pack_name n))

followed_by-IsSafe :
    (r : Repo) (one more : List Effect × Option Bool)
    → IsCommit r one
    → (IsConsistent (run r one.0) [] → IsSafe (run r one.0) more.0)
    → IsSafe r (followed_by one more).0
followed_by-IsSafe r (es, none) more (safe, clean) next = safe
followed_by-IsSafe r (es, some warned) (fs, rc) (safe, clean) next =
    IsSafe-append r es fs safe (next (clean warned refl))

module _ (print : IndexEntry → Bytes) (prints : PrintsPack print) where
  index_entries-IsPrinted :
      (packs : List Bytes) (n : ℕ) (objects : List CommitObject)
      → HasFiles packs (pack_name n)
      → All (IsPrinted print packs) (index_entries (pack_name n) objects)
  unfolding index_entries
  index_entries-IsPrinted packs n [] h = tt
  index_entries-IsPrinted packs n (o ∷ os) h =
      let (clean, name) =
        prints
          (record {
            object_id = o.object_id;
            pack = pack_name n;
            offset = o.offset;
            size = o.size;
            sha256_hex = o.sha256_hex;
            path = o.path;
            mtime_sec = o.mtime_sec;
            mtime_nsec = o.mtime_nsec;
          })
          n refl in
      ((clean, subst (Names (HasFiles packs)) (sym name) h), index_entries-IsPrinted packs n os h)

  pub write_one_pack_and_commit-IsCommit :
      (r : Repo) (c : Calls) (n : ℕ) (objects : List CommitObject)
      → IsConsistent r []
      → IsCommit r (write_one_pack_and_commit print c n objects)
  unfolding write_one_pack_and_commit
  write_one_pack_and_commit-IsCommit r c n objects h =
      let name = pack_name n in
      let s1 = archive_step c.archive (archive name) in
      let s2 = write_file_atomic c.manifest (manifest name) in
      let s3 = sum_step c.archive_hash c.archive_sum (codes "packs/" ++ archive name) in
      let s4 = sum_step c.manifest_hash c.manifest_sum (codes "packs/" ++ manifest name) in
      let q1 = archive_step-IsQuiet c.archive (archive name) (archive_nonempty name) in
      let q2 = write_file_atomic-IsQuiet c.manifest (manifest name) (manifest_nonempty name) in
      let q3 = sum_step-IsQuiet c.archive_hash c.archive_sum (codes "packs/" ++ archive name) in
      let q4 = sum_step-IsQuiet c.manifest_hash c.manifest_sum (codes "packs/" ++ manifest name) in
      let r1 = run r s1.0 in
      let r2 = run r1 s2.0 in
      let r3 = run r2 s3.0 in
      let r4 = run r3 s4.0 in
      let h1 = run-IsConsistent r s1.0 [] q1 h in
      let h2 = run-IsConsistent r1 s2.0 [] q2 h1 in
      let h3 = run-IsConsistent r2 s3.0 [] q3 h2 in
      let h4 = run-IsConsistent r3 s4.0 [] q4 h3 in
      and_then-IsCommit r s1 _ q1 h (λ ok1. and_then-IsCommit r1 s2 _ q2 h1 (λ ok2.
        and_then-IsCommit r2 s3 _ q3 h2 (λ ok3. and_then-IsCommit r3 s4 _ q4 h3 (λ ok4.
          let files2 : HasFiles r2.packs name = (
            run-has r1 s2.0 (archive name) q2 (archive-no_part name)
                (archive_step-has r c.archive (archive name) ok1),
            write_file_atomic-has r1 c.manifest (manifest name) ok2,
          ) in
          index_append-IsCommit print r4 c.index (index_entries name objects)
            (pack_objects c.archive.results)
            (index_entries-IsPrinted r4.packs n objects
              (run-HasFiles r3 s4.0 name q4 (run-HasFiles r2 s3.0 name q3 files2)))
            h4))))

  pub write_packs-IsSafe :
      (r : Repo) (n : ℕ) (bins : List (Calls × List CommitObject))
      → IsConsistent r []
      → IsSafe r (write_packs print n bins).0
  unfolding write_packs
  write_packs-IsSafe r n [] h = IsSafe-IsQuiet r [] tt h
  write_packs-IsSafe r n ((c, objects) ∷ bins) h =
      let one = write_one_pack_and_commit print c n objects in
      let more = write_packs print ((n + 1) % ulong_mod) bins in
      followed_by-IsSafe r one more (write_one_pack_and_commit-IsCommit r c n objects h)
        (λ h'. write_packs-IsSafe (run r one.0) ((n + 1) % ulong_mod) bins h')
