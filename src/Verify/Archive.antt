-- ===== src/Verify/Archive.antt =====
-- The entries of one archive against its manifest, in the deep mode of `tp_verify`.
use tarpack.Prelude.{
  ℕ, zero, suc, ◌≡◌, refl, sym, ap, ◌∙◌, inl, inr, true, false, ◌&&◌, not, Option, none, some, List,
  [], ◌∷◌, arith, ◌==◌, ◌>>=◌, ==_iff, Bool-cases, Option-cases, &&-elim, ||-elim, not-elim,
  none-ne, length, All, Member, Bytes, str_eq, str_eq_iff,
}
use tarpack.Packer.PackManifest.{PackManifestEntry}
use tarpack.Verify.{
  DeepEntry, Repo, data_fails, entries_fail, entry_fails, find_manifest_entry, found_fails, matched,
  seen_paths, seen_step, some_unseen, str_in_array, named_fails,
}

-- An archive entry with the path, the size and the hash of the manifest entry `me`.
abbrev pub Holds : Repo → PackManifestEntry → DeepEntry → Bytes → Type 0
Holds r me a path =
    (a.pathname ≡ some path)
    × ((bytes : Bytes) × (a.data_of ≡ some bytes)
        × (length bytes ≡ me.size)
        × (a.header_size ≡ me.size)
        × (r.sha256_hex bytes ≡ me.sha256_hex))

-- The entry `a` has the content that the first entry of its path in the manifest describes.
abbrev pub IsDescribed : Repo → List PackManifestEntry → DeepEntry → Type 0
IsDescribed r es a =
    (path : Bytes) × (me : PackManifestEntry) × (find_manifest_entry r es path ≡ some me)
    × Holds r me a path

-- An entry of the archive has the path of `m`.
abbrev pub IsStored : List DeepEntry → PackManifestEntry → Type 0
IsStored found m = (a : DeepEntry) × Member a found × (a.pathname ≡ some m.path)

data_fails-Holds :
    (r : Repo) (me : PackManifestEntry) (size : ℕ) (o : Option Bytes)
    → data_fails r me size o ≡ false
    → (bytes : Bytes) × (o ≡ some bytes)
      × (length bytes ≡ me.size)
      × (size ≡ me.size)
      × (r.sha256_hex bytes ≡ me.sha256_hex)
data_fails-Holds r me size none h = cc
data_fails-Holds r me size (some bytes) h =
    let sizes = length bytes == me.size && size == me.size in
    let same = str_eq (r.sha256_hex bytes) me.sha256_hex in
    let (h1, h2) = ||-elim (not sizes) (not same) h in
    let (h3, h4) = &&-elim (length bytes == me.size) (size == me.size) (not-elim sizes h1) in
    (
      bytes,
      refl,
      (==_iff (length bytes) me.size).0 h3,
      (==_iff size me.size).0 h4,
      (str_eq_iff (r.sha256_hex bytes) me.sha256_hex).0 (not-elim same h2),
    )

entry_fails-IsDescribed :
    (r : Repo) (es : List PackManifestEntry) (a : DeepEntry)
    → entry_fails r es a ≡ false
    → IsDescribed r es a
unfolding entry_fails
entry_fails-IsDescribed r es a h = named a.pathname refl h
  where
    matching :
        (path : Bytes) (o : Option PackManifestEntry)
        → a.pathname ≡ some path
        → find_manifest_entry r es path ≡ o
        → found_fails r o a ≡ false
        → IsDescribed r es a
    matching path none p f k = cc
    matching path (some me) p f k =
        (path, me, f, (p, data_fails-Holds r me a.header_size a.data_of k))

    named : (o : Option Bytes) → a.pathname ≡ o → named_fails r es a o ≡ false → IsDescribed r es a
    named none p k = cc
    named (some path) p k = matching path (find_manifest_entry r es path) p refl k

pub entries_fail-All :
    (r : Repo) (es : List PackManifestEntry) (found : List DeepEntry)
    → entries_fail r es found ≡ false
    → All (IsDescribed r es) found
unfolding entries_fail
entries_fail-All r es [] h = tt
entries_fail-All r es (a ∷ found) h =
    let (h1, h2) = ||-elim (entry_fails r es a) (entries_fail r es found) h in
    (entry_fails-IsDescribed r es a h1, entries_fail-All r es found h2)

matched-same :
    (r : Repo) (es : List PackManifestEntry) (o : Option Bytes) (path : Bytes)
    → matched r es o ≡ some path
    → o ≡ some path
matched-same r es none path h = absurd (none-ne h)
matched-same r es (some p) path h = elim (Option-cases (find_manifest_entry r es p)) [
  | inl e ↦ absurd (none-ne (ap (λ o. o >>= λ me. some p) (sym e) ∙ h))
  | inr (me, e) ↦ ap (λ o. o >>= λ me'. some p) (sym e) ∙ h
]

-- What is seen is in the archive.
seen_paths-Member :
    (r : Repo) (es : List PackManifestEntry) (room : ℕ) (found : List DeepEntry) (path : Bytes)
    → str_in_array path (seen_paths r es room found) ≡ true
    → (a : DeepEntry) × Member a found × (a.pathname ≡ some path)
unfolding seen_paths str_in_array
seen_paths-Member r es room [] path h = cc
seen_paths-Member r es zero (a ∷ found) path h = cc
seen_paths-Member r es (suc room) (a ∷ found) path h =
    stepped (matched r es a.pathname) refl (seen_paths-Member r es (suc room) found path)
      (seen_paths-Member r es room found path) h
  where
    Result : List DeepEntry → Type 0
    Result l = (b : DeepEntry) × Member b l × (b.pathname ≡ some path)

    stepped :
        (o : Option Bytes)
        → matched r es a.pathname ≡ o
        → (str_in_array path (seen_paths r es (suc room) found) ≡ true → Result found)
        → (str_in_array path (seen_paths r es room found) ≡ true → Result found)
        → str_in_array path
            (seen_step r o (seen_paths r es (suc room) found) (seen_paths r es room found))
          ≡ true
        → Result (a ∷ found)
    stepped none e same later k = let (b, here, p) = same k in (b, inr here, p)
    stepped (some q) e same later k = elim (Bool-cases (str_eq path q)) [
      | inl t ↦ (
        a,
        inl refl,
        matched-same r es a.pathname path (e ∙ ap some (sym ((str_eq_iff path q).0 t))),
      )
      | inr t ↦ let (b, here, p) = later (ground (arith, k, t)) in (b, inr here, p)
    ]

pub some_unseen-All :
    (r : Repo) (all es : List PackManifestEntry) (room : ℕ) (found : List DeepEntry)
    → some_unseen r es (seen_paths r all room found) ≡ false
    → All (IsStored found) es
unfolding some_unseen
some_unseen-All r all [] room found h = tt
some_unseen-All r all (m ∷ es) room found h =
    let seen = seen_paths r all room found in
    let (h1, h2) = ||-elim (not (str_in_array m.path seen)) (some_unseen r es seen) h in
    (
      seen_paths-Member r all room found m.path (not-elim (str_in_array m.path seen) h1),
      some_unseen-All r all es room found h2,
    )
