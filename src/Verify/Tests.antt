-- ===== src/Verify/Tests.antt =====
-- A repository with one pack that verifies, and the applications of the theorems about `tp_verify`.
use tarpack.Prelude.{
  ◌≡◌, refl, inl, inr, true, false, some, List, [], ◌∷◌, ◌++◌, arith, if◌then◌else◌, Bool-cases,
  replicate, Member, Bytes, codes, str_eq, str_eq_iff, c_string, lines, ℕ, subst, ◌==◌, All,
}
use tarpack.Verify.{
  DeepArchive, Repo, archive_path, ends_in, entries_fail, entry_fails, find_manifest_entry,
  line_fails, lines_fail, list_names, names_unlisted, packs_fail, packs_missing, packs_vs_checksums,
  relpaths, seen_paths, some_unseen, str_in_array, verify, verify_all_packs_objects,
  verify_one_pack_objects,
}
use tarpack.Verify.Listing.{IsListing, IsNameByte}
use tarpack.Verify.Sound.{HasSum, verify-indexed}
use tarpack.Checksum.{LineEntry, checksums_read, parse_line, read_lines, strip_ends, trim_line}
use tarpack.Index.Load.{Fields}
use tarpack.Packer.PackManifest.{manifest_entries, manifest_entry, pack_manifest_read}
use tarpack.Packer.Recovery.Sweep.{find_after, pack_key, pack_of_line, until_quote}
use tarpack.Packer.Names.{after_prefix}

-- Every file has the same hash.
abbrev any_hash : Bytes
any_hash = replicate 64 97

abbrev index_line : Bytes
index_line = pack_key ++ (codes "p1" ++ 34 ∷ 10 ∷ [])

abbrev sums_file : Bytes
sums_file = any_hash ++ (codes "  packs/p1.tar.zst\n" ++ (any_hash ++ codes "  packs/p1.json\n"))

abbrev content_small : Bytes → Bytes
content_small path =
    if str_eq path (codes "checksums/SHA256SUMS")
    then sums_file
    else if str_eq path (codes "objects/objects.jsonl")
    then index_line
    else codes "x"

abbrev one_object : Fields
one_object = record {
  string = λ key. some (
      if str_eq key (codes "sha256")
      then any_hash
      else if str_eq key (codes "path")
      then codes "d"
      else codes "O1");
  number = λ key. some (if str_eq key (codes "size") then 1 else 512);
}

abbrev one_archive : DeepArchive
one_archive = record {
  entries =
      record { pathname = some (codes "d"); header_size = 1; data_of = some (codes "x") } ∷ [];
  at_end = true;
}

-- What `stat` finds below the repository: the two packs files, also by other paths, and packs/ itself.
abbrev found_paths : List Bytes
found_paths =
    codes "packs/p1.tar.zst"
    ∷ codes "packs/p1.json"
    ∷ codes "packs/"
    ∷ codes "packs/./p1.tar.zst"
    ∷ codes "packs/../packs/p1.json"
    ∷ []

abbrev small_repo : Repo
small_repo = record {
  is_dir = true;
  path_length = 4;
  exists = λ path. str_in_array path found_paths;
  content = λ path. some (content_small path);
  sums_readable = true;
  names = some (codes "." ∷ codes ".." ∷ codes "p1.json" ∷ codes "p1.tar.zst" ∷ []);
  sha256_hex = λ bytes. any_hash;
  manifest_of = λ pack. some (one_object ∷ []);
  archive_of = λ pack. some one_archive;
}

no_slash : {A : Type 0} (c : ℕ) → (c == 47) ≡ true → IsNameByte c → A
no_slash c e h = absurd (h.1 (ground (arith, e)))

small_repo-IsListing : IsListing small_repo
unfolding str_eq str_in_array
small_repo-IsListing n (bytes, full, dot, dots) e =
    elim (Bool-cases (str_eq n (codes "p1.tar.zst"))) [
      | inl t ↦ (
        codes "." ∷ codes ".." ∷ codes "p1.json" ∷ codes "p1.tar.zst" ∷ [],
        refl,
        inr (inr (inr (inl ((str_eq_iff n (codes "p1.tar.zst")).0 t)))),
      )
      | inr t ↦ elim (Bool-cases (str_eq n (codes "p1.json"))) [
        | inl u ↦ (
          codes "." ∷ codes ".." ∷ codes "p1.json" ∷ codes "p1.tar.zst" ∷ [],
          refl,
          inr (inr (inl ((str_eq_iff n (codes "p1.json")).0 u))),
        )
        | inr u ↦ elim (Bool-cases (str_eq n [])) [
          | inl v ↦ absurd (full ((str_eq_iff n []).0 v))
          | inr v ↦ elim (Bool-cases (str_eq n (codes "./p1.tar.zst"))) [
            | inl w ↦
                no_slash 47 refl
                  (subst (All IsNameByte) ((str_eq_iff n (codes "./p1.tar.zst")).0 w) bytes).1.0
            | inr w ↦ elim (Bool-cases (str_eq n (codes "../packs/p1.json"))) [
              | inl x ↦
                  no_slash 47 refl
                    (subst (All IsNameByte) ((str_eq_iff n (codes "../packs/p1.json")).0 x)
                      bytes).1.1.0
              | inr x ↦ cc
            ]
          ]
        ]
      ]
    ]

small_repo-verified : verify small_repo true ≡ false
unfolding verify checksums_read read_lines parse_line trim_line strip_ends c_string lines str_eq
    lines_fail line_fails packs_vs_checksums names_unlisted list_names ends_in str_in_array relpaths
    packs_missing pack_of_line find_after until_quote after_prefix verify_all_packs_objects
    packs_fail verify_one_pack_objects pack_manifest_read manifest_entries manifest_entry
    entries_fail entry_fails find_manifest_entry seen_paths some_unseen
small_repo-verified = refl

index_line-pack : pack_of_line index_line ≡ some (codes "p1")
unfolding pack_of_line find_after until_quote after_prefix c_string
index_line-pack = refl

index_line-Member : Member index_line (lines index_line)
unfolding lines
index_line-Member = inl refl

plain_name : All IsNameByte (codes "p1")
plain_name = (
  (λ e. absurd (omega (arith, e)), λ e. absurd (omega (arith, e))),
  ((λ e. absurd (omega (arith, e)), λ e. absurd (omega (arith, e))), tt),
)

verify-indexed_example :
    (es : List LineEntry) × (checksums_read (small_repo.content (codes "checksums/SHA256SUMS"))
      ≡ some es)
    × HasSum small_repo es (archive_path small_repo (codes "p1"))
verify-indexed_example =
    verify-indexed small_repo true index_line index_line (codes "p1") small_repo-IsListing
      small_repo-verified (unfold str_eq in refl) index_line-Member index_line-pack plain_name
