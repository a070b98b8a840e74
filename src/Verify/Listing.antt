-- ===== src/Verify/Listing.antt =====
-- The listings and the loops of `tp_verify`: what holds of each of their elements.
use tarpack.Prelude.{
  ◌-◌, ◌<◌, ◌≡◌, refl, sym, ap, ◌∙◌, subst, inl, inr, Bool, true, false, ◌||◌, not, some, List, [],
  ◌∷◌, ◌++◌, arith, ltb, if◌then◌else◌, Bool-cases, ||-elim, not-elim, length, drop, Member,
  length-append, drop-length, Bytes, codes, str_eq, str_eq_iff, str_eq_refl, ℕ, ◌+◌, ◌≢◌, ◌==◌, All,
}
use tarpack.Restore.Clean.{All-join}
use tarpack.Checksum.{LineEntry}
use tarpack.Packer.Recovery.Sweep.{pack_of_line}
use tarpack.Verify.{
  Repo, archive_path, ends_in, line_fails, lines_fail, list_dir_names, list_names, names_unlisted,
  pack_missing, packs_missing, relpaths, str_in_array,
}

-- A byte that can stand in the name of a file: neither 0 nor a slash.
abbrev pub IsNameByte : ℕ → Type 0
IsNameByte c = (c ≢ 0) × (c ≢ 47)

-- The name of a file in a directory: not empty, no dot entry, no path.
abbrev pub IsFileName : Bytes → Type 0
IsFileName n = All IsNameByte n × (n ≢ []) × (n ≢ codes ".") × (n ≢ codes "..")

-- A file name that exists in packs/ is one that the directory lists.
abbrev pub IsListing : Repo → Type 0
IsListing r =
    (n : Bytes)
    → IsFileName n
    → r.exists (codes "packs/" ++ n) ≡ true
    → (ns : List Bytes) × (r.names ≡ some ns) × Member n ns

pub ends_in-append : (pack : Bytes) → ends_in (codes ".tar.zst") (pack ++ codes ".tar.zst") ≡ true
unfolding ends_in
ends_in-append pack =
    let n = pack ++ codes ".tar.zst" in
    let long : ltb (length n) 8 ≡ false = ground (arith, length-append pack (codes ".tar.zst")) in
    let cut : length n - 8 ≡ length pack = omega (arith, length-append pack (codes ".tar.zst")) in
    rw long (
      ap (λ k. str_eq (drop k n) (codes ".tar.zst")) cut
      ∙ ap (λ s. str_eq s (codes ".tar.zst")) (drop-length pack (codes ".tar.zst"))
      ∙ str_eq_refl (codes ".tar.zst"))

longer-ne : (s t : Bytes) → length t < length s → str_eq s t ≡ false
longer-ne s t h = elim (Bool-cases (str_eq s t)) [
  | inl e ↦ let same = ap length ((str_eq_iff s t).0 e) in absurd (omega arith)
  | inr e ↦ e
]

list_names-Member :
    (suffix n : Bytes) (ns : List Bytes)
    → ends_in suffix n ≡ true
    → 2 < length n
    → Member n ns
    → Member n (list_names suffix ns)
unfolding list_names
list_names-Member suffix n [] e long h = elim h [ ]
list_names-Member suffix n (x ∷ ns) e long (inl same) =
    subst (λ y. Member n (list_names suffix (y ∷ ns))) same
      (rw (longer-ne n (codes ".") (omega arith), longer-ne n (codes "..") (omega arith), e)
        (inl refl))
list_names-Member suffix n (x ∷ ns) e long (inr h) =
    skip (str_eq x (codes ".") || str_eq x (codes "..")) (ends_in suffix x)
      (list_names-Member suffix n ns e long h)
  where
    skip :
        (b c : Bool)
        → Member n (list_names suffix ns)
        → Member n (
            if b
            then list_names suffix ns
            else if c
            then x ∷ list_names suffix ns
            else list_names suffix ns)
    skip true c k = k
    skip false true k = inr k
    skip false false k = k

archive-IsFileName : (pack : Bytes) → All IsNameByte pack → IsFileName (pack ++ codes ".tar.zst")
archive-IsFileName pack h =
    let n = pack ++ codes ".tar.zst" in
    let len : length n ≡ length pack + 8 = length-append pack (codes ".tar.zst") in
    (
      All-join IsNameByte pack (codes ".tar.zst") h (suffix_bytes),
      λ e. absurd (omega (arith, len, ap length e)),
      λ e. absurd (omega (arith, len, ap length e)),
      λ e. absurd (omega (arith, len, ap length e)),
    )
  where
    byte : (c : ℕ) → (c == 0) ≡ false → (c == 47) ≡ false → IsNameByte c
    byte c h k = (λ e. absurd (ground (arith, h, e)), λ e. absurd (ground (arith, k, e)))

    suffix_bytes : All IsNameByte (codes ".tar.zst")
    suffix_bytes = (
      byte 46 refl refl,
      (
        byte 116 refl refl,
        (
          byte 97 refl refl,
          (
            byte 114 refl refl,
            (
              byte 46 refl refl,
              (byte 122 refl refl, (byte 115 refl refl, (byte 116 refl refl, tt))),
            ),
          ),
        ),
      ),
    )

-- An archive that exists is among the names that the checks look at.
pub archive-Member :
    (r : Repo) (pack : Bytes)
    → IsListing r
    → All IsNameByte pack
    → r.exists (archive_path r pack) ≡ true
    → Member (pack ++ codes ".tar.zst") (list_dir_names (codes ".tar.zst") r.names)
archive-Member r pack listing plain e =
    let n = pack ++ codes ".tar.zst" in
    let (ns, names, here) = listing n (archive-IsFileName pack plain) e in
    subst (λ o. Member n (list_dir_names (codes ".tar.zst") o)) (sym names)
      (list_names-Member (codes ".tar.zst") n ns (ends_in-append pack)
        (omega (arith, length-append pack (codes ".tar.zst"))) here)

pub names_unlisted-Member :
    (r : Repo) (listed ns : List Bytes) (n : Bytes)
    → names_unlisted r listed ns ≡ false
    → Member n ns
    → str_in_array (codes "packs/" ++ n) listed ≡ true
unfolding names_unlisted
names_unlisted-Member r listed [] n e h = elim h [ ]
names_unlisted-Member r listed (x ∷ ns) n e (inl same) =
    subst (λ y. str_in_array (codes "packs/" ++ y) listed ≡ true) (sym same)
      (not-elim (str_in_array (codes "packs/" ++ x) listed)
        (||-elim (not (str_in_array (codes "packs/" ++ x) listed)) (names_unlisted r listed ns)
          e).0)
names_unlisted-Member r listed (x ∷ ns) n e (inr h) =
    names_unlisted-Member r listed ns n
      (||-elim (not (str_in_array (codes "packs/" ++ x) listed)) (names_unlisted r listed ns) e).1 h

pub str_in_array-relpaths :
    (s : Bytes) (es : List LineEntry)
    → str_in_array s (relpaths es) ≡ true
    → (e : LineEntry) × Member e es × (e.relpath ≡ s)
unfolding str_in_array relpaths
str_in_array-relpaths s [] h = cc
str_in_array-relpaths s (x ∷ es) h = elim (Bool-cases (str_eq s x.relpath)) [
  | inl t ↦ (x, inl refl, sym ((str_eq_iff s x.relpath).0 t))
  | inr t ↦
      let (e, here, same) = str_in_array-relpaths s es (ground (arith, h, t)) in (e, inr here, same)
]

pub lines_fail-Member :
    (r : Repo) (es : List LineEntry) (e : LineEntry)
    → lines_fail r es ≡ false
    → Member e es
    → line_fails r e ≡ false
unfolding lines_fail
lines_fail-Member r [] e h here = elim here [ ]
lines_fail-Member r (x ∷ es) e h (inl same) =
    subst (λ y. line_fails r y ≡ false) (sym same) (||-elim (line_fails r x) (lines_fail r es) h).0
lines_fail-Member r (x ∷ es) e h (inr here) =
    lines_fail-Member r es e (||-elim (line_fails r x) (lines_fail r es) h).1 here

pub packs_missing-Member :
    (r : Repo) (ls : List Bytes) (l : Bytes)
    → packs_missing r ls ≡ false
    → Member l ls
    → pack_missing r (pack_of_line l) ≡ false
unfolding packs_missing
packs_missing-Member r [] l h here = elim here [ ]
packs_missing-Member r (x ∷ ls) l h (inl same) =
    subst (λ y. pack_missing r (pack_of_line y) ≡ false) (sym same)
      (||-elim (pack_missing r (pack_of_line x)) (packs_missing r ls) h).0
packs_missing-Member r (x ∷ ls) l h (inr here) =
    packs_missing-Member r ls l (||-elim (pack_missing r (pack_of_line x)) (packs_missing r ls) h).1
      here
