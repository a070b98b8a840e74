-- ===== src/Packer/Commit/Tests.antt =====
-- A run that commits one pack, and the applications of the theorems about commits. The printer here
-- writes the field "pack" alone.
use tarpack.Checksum.Lines.{NoNewline, joined_lines}
use tarpack.Index.{IndexEntry}
use tarpack.Packer.Commit.{
  Repo, Write, Calls, CommitObject, apply, run, and_then, write_file_atomic, archive_step,
  pack_objects, put_sum, sum_step, index_entries, index_text, index_append,
  write_one_pack_and_commit, write_packs, empty_repo, recover, session, Reach,
}
use tarpack.Packer.Commit.Crash.{HasFiles, IsConsistent, NoNewline-append}
use tarpack.Packer.Commit.Durable.{session-indexed}
use tarpack.Packer.Commit.Pack.{PrintsPack}
use tarpack.Packer.Commit.Recovery.{indexed_packs}
use tarpack.Packer.Commit.Sessions.{Reach-HasFiles, recover-IsCommitted}
use tarpack.Packer.Commit.Success.{IsSmooth, write_one_pack_and_commit-success}
use tarpack.Checksum.{
  checksums_append, line_of, rewrite_checksums_filtered, checksums_read, kept, rewrite_kept,
}
use tarpack.Packer.Recovery.{repair_index_tail, scan_back, good_of, find_good}
use tarpack.Packer.Names.{best_number, next_pack_number, after_prefix, decimal, padded, pack_name}
use tarpack.Packer.Recovery.Sweep.{
  has, find_after, until_quote, pack_key, pack_of_line, add, add_pack, collect_lines,
  collect_indexed_packs, has_suffix, is_part, pack_base, mark, mark_pack, to_delete, unlink_all,
  sweep,
}
use tarpack.Packer.Recovery.Sweep.Kept.{IsCommitted}
use tarpack.Prelude.{
  ◌≡◌, ◌≤◌, ◌<◌, ◌+◌, ◌/◌, ◌%◌, ◌==◌, refl, sym, ap, ◌∙◌, inl, inr, Bool, true, false, none, some,
  List, [], ◌∷◌, ◌++◌, arith, All, Bytes, ℕ, zero, suc, codes, length, length-append, replicate,
  Bool-cases, subst, str_eq, lines, lines_from, c_string, lt→ltb, append_assoc,
}

abbrev print_pack : IndexEntry → Bytes
print_pack e = codes "{" ++ (pack_key ++ (e.pack ++ (34 ∷ codes "}")))

-- Neither a quotation mark nor a newline nor a zero byte.
abbrev IsPlain : Bytes → Type 0
IsPlain s = All (λ c. 35 ≤ c) s

IsPlain-append : (s t : Bytes) → IsPlain s → IsPlain t → IsPlain (s ++ t)
IsPlain-append [] t hs ht = ht
IsPlain-append (c ∷ s) t (hc, hs) ht = (hc, IsPlain-append s t hs ht)

decimal-IsPlain : (f n : ℕ) → IsPlain (decimal f n) × (length (decimal f n) ≤ f)
unfolding decimal
decimal-IsPlain zero n = (tt, omega arith)
decimal-IsPlain (suc f) n =
    let (p, l) = decimal-IsPlain f (n / 10) in
    elim (Bool-cases (n == 0)) [
      | inl e ↦ rw e (tt, omega arith)
      | inr e ↦ rw e (
        IsPlain-append (decimal f (n / 10)) ((48 + n % 10) ∷ []) p (omega arith, tt),
        omega (arith, l, length-append (decimal f (n / 10)) ((48 + n % 10) ∷ [])),
      )
    ]

padded-IsPlain : (w n : ℕ) → IsPlain (padded w n) × (length (padded w n) ≤ w + 20)
unfolding padded
padded-IsPlain zero n = decimal-IsPlain 20 n
padded-IsPlain (suc w) n =
    let (p, l) = padded-IsPlain w (n / 10) in
    (
      IsPlain-append (padded w (n / 10)) ((48 + n % 10) ∷ []) p (omega arith, tt),
      omega (arith, l, length-append (padded w (n / 10)) ((48 + n % 10) ∷ [])),
    )

pack_name-IsPlain : (n : ℕ) → IsPlain (pack_name n) × (length (pack_name n) < 64)
unfolding pack_name
pack_name-IsPlain n =
    let (p, l) = padded-IsPlain 6 n in
    (
      IsPlain-append (codes "pack-") (padded 6 n) (omega arith) p,
      omega (arith, l, length-append (codes "pack-") (padded 6 n)),
    )

until_quote-IsPlain : (s rest : Bytes) → IsPlain s → until_quote (s ++ 34 ∷ rest) ≡ some s
unfolding until_quote
until_quote-IsPlain [] rest h = refl
until_quote-IsPlain (c ∷ s) rest (hc, h) =
    let plain : (c == 34) ≡ false = ground arith in rw (plain, until_quote-IsPlain s rest h) refl

c_string-IsPlain : (s rest : Bytes) → IsPlain s → c_string (s ++ rest) ≡ s ++ c_string rest
unfolding c_string
c_string-IsPlain [] rest h = refl
c_string-IsPlain (c ∷ s) rest (hc, h) = ground (arith, c_string-IsPlain s rest h)

NoNewline-IsPlain : (s rest : Bytes) → IsPlain s → NoNewline rest → NoNewline (s ++ rest)
NoNewline-IsPlain [] rest h k = k
NoNewline-IsPlain (c ∷ s) rest (hc, h) k = (omega arith, NoNewline-IsPlain s rest h k)

pack_of_line-print :
    (s : Bytes)
    → IsPlain s
    → length s < 64
    → pack_of_line ((codes "{" ++ (pack_key ++ (s ++ (34 ∷ codes "}")))) ++ 10 ∷ []) ≡ some s
unfolding pack_of_line find_after after_prefix c_string
pack_of_line-print s h l =
    let behind : Bytes = 34 ∷ (codes "}" ++ 10 ∷ []) in
    ap (λ t. pack_of_line (codes "{" ++ (pack_key ++ t)))
      (append_assoc s (34 ∷ codes "}") (10 ∷ []))
    ∙ rw
        (
          c_string-IsPlain s behind h,
          until_quote-IsPlain s (codes "}" ++ 10 ∷ []) h,
          lt→ltb (length s) 64 l,
        )
        refl

print_pack-PrintsPack : PrintsPack print_pack
print_pack-PrintsPack e n named =
    let (plain, short) = pack_name-IsPlain n in
    (
      NoNewline-append (codes "{" ++ pack_key) (e.pack ++ (34 ∷ codes "}")) (omega arith) (
          NoNewline-IsPlain e.pack (34 ∷ codes "}") (subst IsPlain (sym named) plain)
            (omega arith)),
      ap (λ s. pack_of_line ((codes "{" ++ (pack_key ++ (s ++ (34 ∷ codes "}")))) ++ 10 ∷ [])) named
          ∙ pack_of_line-print (pack_name n) plain short,
    )

abbrev hash : Bytes
hash = replicate 64 b'a'

abbrev all_well : Calls
all_well = record {
  archive = record {
    opened = true;
    results = some false ∷ [];
    closed = true;
    synced = true;
    renamed = true;
  };
  manifest = Write.written;
  archive_hash = some hash;
  archive_sum = none;
  manifest_hash = some hash;
  manifest_sum = none;
  index = none;
}

abbrev object : CommitObject
object = record {
  object_id = codes "O1";
  offset = 512;
  size = 3;
  sha256_hex = hash;
  path = codes "a";
  mtime_sec = 0;
  mtime_nsec = 0;
}

all_well-IsSmooth : IsSmooth all_well false
all_well-IsSmooth = record {
  opened = refl;
  results = unfold pack_objects in refl;
  closed = refl;
  synced = refl;
  renamed = refl;
  manifest_written = refl;
  archive_hash = (hash, refl, refl);
  archive_sum = refl;
  manifest_hash = (hash, refl, refl);
  manifest_sum = refl;
  index_put = refl;
}

empty_repo-IsConsistent : IsConsistent empty_repo []
empty_repo-IsConsistent = record {
  rows = [];
  complete = tt;
  torn = tt;
  split = unfold joined_lines in refl;
  named = tt;
}

write_one_pack_and_commit-success_example :
    ((write_one_pack_and_commit print_pack all_well 1 (object ∷ [])).1 ≡ some false)
    × (has
          (indexed_packs
            (run empty_repo (write_one_pack_and_commit print_pack all_well 1 (object ∷ [])).0))
          (pack_name 1)
        ≡ true)
write_one_pack_and_commit-success_example =
    write_one_pack_and_commit-success print_pack empty_repo all_well false 1 object []
      print_pack-PrintsPack empty_repo-IsConsistent all_well-IsSmooth (omega arith)

-- packs/ itself exists.
abbrev only_folder : List Bytes → Bytes → Bool
only_folder packs path = str_eq path (codes "packs/")

abbrev one_pack : List (Calls × List CommitObject)
one_pack = (all_well, object ∷ []) ∷ []

abbrev packed_once : Repo
packed_once = session print_pack only_folder empty_repo one_pack 1000

packed_once-indexed : has (indexed_packs packed_once) (codes "pack-000001") ≡ true
unfolding session recover write_packs write_one_pack_and_commit archive_step write_file_atomic
    pack_objects and_then sum_step put_sum index_entries index_text index_append run apply has add
    pack_of_line find_after until_quote after_prefix c_string add_pack collect_lines
    collect_indexed_packs str_eq has_suffix is_part pack_base mark mark_pack to_delete unlink_all
    sweep lines lines_from repair_index_tail scan_back good_of find_good best_number
    next_pack_number pack_name padded decimal checksums_append line_of rewrite_checksums_filtered
    checksums_read kept rewrite_kept
packed_once-indexed = refl

packed_once-Reach : Reach print_pack only_folder packed_once
packed_once-Reach = Reach.packed empty_repo one_pack 1000 Reach.created

Reach-HasFiles_example : HasFiles packed_once.packs (codes "pack-000001")
Reach-HasFiles_example =
    Reach-HasFiles print_pack only_folder packed_once (codes "pack-000001") print_pack-PrintsPack
      packed_once-Reach packed_once-indexed

recover-IsCommitted_example :
    (indexed_packs (recover only_folder packed_once).0 ≡ indexed_packs packed_once)
    × All (IsCommitted (indexed_packs packed_once)) (recover only_folder packed_once).0.packs
    × ((base : Bytes)
        → has (indexed_packs packed_once) base ≡ true
        → HasFiles (recover only_folder packed_once).0.packs base)
recover-IsCommitted_example =
    recover-IsCommitted print_pack only_folder packed_once print_pack-PrintsPack packed_once-Reach

session-indexed_example :
    has
      (indexed_packs (session print_pack only_folder packed_once one_pack 3))
      (codes "pack-000001")
    ≡ true
session-indexed_example =
    session-indexed print_pack only_folder packed_once one_pack 3 (codes "pack-000001")
      print_pack-PrintsPack packed_once-Reach packed_once-indexed
