-- ===== src/Verify/Sound.antt =====
-- What a successful `tp_verify` shows of the packs that the object index names.
use tarpack.Verify.Listing.{
  IsListing, IsNameByte, archive-Member, names_unlisted-Member, str_in_array-relpaths,
  lines_fail-Member, packs_missing-Member,
}
use tarpack.Prelude.{
  ◌+◌, ◌≡◌, refl, sym, ap, ◌∙◌, subst, Bool, true, false, ◌&&◌, ◌||◌, not, Option, none, some, List,
  All, ◌++◌, leb, ||-elim, not-elim, length, Member, Bytes, codes, str_eq, str_eq_iff, lines,
}
use tarpack.Checksum.{LineEntry, checksums_read, path_max}
use tarpack.Packer.Recovery.Sweep.{pack_of_line}
use tarpack.Verify.{
  Repo, archive_path, checksums_fail, hash_differs, index_vs_packs, line_fails, list_dir_names,
  listed_relpaths, names_unlisted, pack_missing, packs_vs_checksums, relpaths, sha256_file, verify,
  verify_all_packs_objects,
}

-- The file at a path has the SHA-256 that a line of SHA256SUMS gives it.
abbrev pub HasSum : Repo → List LineEntry → Bytes → Type 0
HasSum r es path =
    (e : LineEntry) × Member e es
    × (e.relpath ≡ path)
    × ((bytes : Bytes) × (r.content path ≡ some bytes) × (r.sha256_hex bytes ≡ e.sha256_hex))

line_fails-sum :
    (r : Repo) (e : LineEntry)
    → line_fails r e ≡ false
    → (bytes : Bytes) × (r.content e.relpath ≡ some bytes) × (r.sha256_hex bytes ≡ e.sha256_hex)
unfolding line_fails
line_fails-sum r e h =
    let long = leb path_max (r.path_length + 1 + length e.relpath) in
    let differs = hash_differs r (sha256_file r (r.content e.relpath)) e.sha256_hex in
    let (h1, h2) = ||-elim long (not (r.exists e.relpath) || differs) h in
    let (h3, h4) = ||-elim (not (r.exists e.relpath)) differs h2 in
    same (r.content e.relpath) refl h4
  where
    same :
        (o : Option Bytes)
        → r.content e.relpath ≡ o
        → hash_differs r (sha256_file r o) e.sha256_hex ≡ false
        → (bytes : Bytes) × (r.content e.relpath ≡ some bytes) × (r.sha256_hex bytes ≡ e.sha256_hex)
    same none c d = cc
    same (some bytes) c d = (
      bytes,
      c,
      (str_eq_iff (r.sha256_hex bytes) e.sha256_hex).0
          (not-elim (str_eq (r.sha256_hex bytes) e.sha256_hex) d),
    )

-- The tests of `tp_verify`, taken apart.
pub verify-parts :
    (r : Repo) (deep : Bool)
    → verify r deep ≡ false
    → let sums = checksums_read (r.content (codes "checksums/SHA256SUMS")) in
      (r.sums_readable ≡ true)
      × (checksums_fail r sums ≡ false)
      × (packs_vs_checksums r (listed_relpaths r sums) ≡ false)
      × (index_vs_packs r (r.content (codes "objects/objects.jsonl")) ≡ false)
      × ((deep && verify_all_packs_objects r) ≡ false)
unfolding verify
verify-parts r deep h =
    let sums = checksums_read (r.content (codes "checksums/SHA256SUMS")) in
    let a = checksums_fail r sums in
    let b = packs_vs_checksums r (listed_relpaths r sums) in
    let c = index_vs_packs r (r.content (codes "objects/objects.jsonl")) in
    let d = deep && verify_all_packs_objects r in
    let u = not r.sums_readable in
    let (h0, h8) = ||-elim (not r.is_dir) (u || (a || (b || (c || d)))) h in
    let (h9, h1) = ||-elim u (a || (b || (c || d))) h8 in
    let (h2, h3) = ||-elim a (b || (c || d)) h1 in
    let (h4, h5) = ||-elim b (c || d) h3 in
    let (h6, h7) = ||-elim c d h5 in (not-elim r.sums_readable h9, h2, h4, h6, h7)

-- The archive of a pack that a line of the index names.
pub indexed-exists :
    (r : Repo) (file l pack : Bytes)
    → index_vs_packs r (some file) ≡ false
    → Member l (lines file)
    → pack_of_line l ≡ some pack
    → r.exists (archive_path r pack) ≡ true
indexed-exists r file l pack h here names =
    not-elim (r.exists (archive_path r pack))
      (ap (pack_missing r) (sym names) ∙ packs_missing-Member r (lines file) l h here)

-- If `tp_verify` returns 0, the archive of every pack that a line of the object index names is a file
-- whose SHA-256 is the one that SHA256SUMS has for it. (A file name that
-- exists in packs/ is listed there, and the pack's name has no slash and no zero byte.)
pub verify-indexed :
    (r : Repo) (deep : Bool) (file l pack : Bytes)
    → IsListing r
    → verify r deep ≡ false
    → r.content (codes "objects/objects.jsonl") ≡ some file
    → Member l (lines file)
    → pack_of_line l ≡ some pack
    → All IsNameByte pack
    → (es : List LineEntry) × (checksums_read (r.content (codes "checksums/SHA256SUMS")) ≡ some es)
      × HasSum r es (archive_path r pack)
unfolding packs_vs_checksums
verify-indexed r deep file l pack listing h opened here names plain =
    let (readable, sums, packs, index, objects) = verify-parts r deep h in
    let exists =
      indexed-exists r file l pack (ap (index_vs_packs r) (sym opened) ∙ index) here names in
    listed (checksums_read (r.content (codes "checksums/SHA256SUMS"))) refl sums packs
      (archive-Member r pack listing plain exists)
  where
    listed :
        (o : Option (List LineEntry))
        → checksums_read (r.content (codes "checksums/SHA256SUMS")) ≡ o
        → checksums_fail r o ≡ false
        → packs_vs_checksums r (listed_relpaths r o) ≡ false
        → Member (pack ++ codes ".tar.zst") (list_dir_names (codes ".tar.zst") r.names)
        → (es : List LineEntry) × (checksums_read (r.content (codes "checksums/SHA256SUMS"))
            ≡ some es)
          × HasSum r es (archive_path r pack)
    listed none e s p m = cc
    listed (some es) e s p m =
        let archives = list_dir_names (codes ".tar.zst") r.names in
        let manifests = list_dir_names (codes ".json") r.names in
        let (p0, p1) =
          ||-elim (names_unlisted r (relpaths es) archives)
            (names_unlisted r (relpaths es) manifests) p in
        let (line, in_sums, path) =
          str_in_array-relpaths (archive_path r pack) es
            (names_unlisted-Member r (relpaths es) archives (pack ++ codes ".tar.zst") p0 m) in
        let good = line_fails-sum r line (lines_fail-Member r es line s in_sums) in
        (
          es,
          e,
          (
            line,
            in_sums,
            path,
            subst
                (λ q.
                  (bytes : Bytes) × (r.content q ≡ some bytes)
                  × (r.sha256_hex bytes ≡ line.sha256_hex))
                path good,
          ),
        )
