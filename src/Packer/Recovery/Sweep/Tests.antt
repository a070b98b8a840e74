-- ===== src/Packer/Recovery/Sweep/Tests.antt =====
-- Runs of the sweep, and the applications of its theorems.
use tarpack.Packer.Names.{
  after_prefix, is_space, skip_spaces, is_decimal, scan_digits, scan_number, scan_signed,
  scan_ulong,
}
use tarpack.Packer.Recovery.Sweep.{
  has, add, has_suffix, is_part, is_numbered, pack_base, mark_pack, mark, to_delete, unlink_all,
  sweep,
}
use tarpack.Packer.Recovery.Sweep.Survivors.{archive, manifest, sweep-indexed}
use tarpack.Prelude.{◌≡◌, refl, List, [], ◌∷◌, str_eq, Bytes, codes}

-- The directory after a crash behind the rename of the second pack.
abbrev crashed : List Bytes
crashed =
    codes "pack-000001.tar.zst"
    ∷ codes "pack-000001.json"
    ∷ codes "pack-000002.tar.zst"
    ∷ codes "pack-000002.json.part"
    ∷ []

abbrev committed_packs : List Bytes
committed_packs = codes "pack-000001" ∷ []

swept : sweep committed_packs crashed ≡ codes "pack-000001.tar.zst" ∷ codes "pack-000001.json" ∷ []
unfolding sweep unlink_all to_delete mark mark_pack pack_base is_numbered is_part has_suffix add has
    str_eq after_prefix scan_ulong skip_spaces is_space scan_signed scan_number scan_digits
    is_decimal
swept = refl

sweep-indexed_example :
    (has (sweep committed_packs crashed) (archive (codes "pack-000001"))
      ≡ has crashed (archive (codes "pack-000001")))
    × (has (sweep committed_packs crashed) (manifest (codes "pack-000001"))
        ≡ has crashed (manifest (codes "pack-000001")))
sweep-indexed_example =
    sweep-indexed committed_packs crashed (codes "pack-000001") (unfold has str_eq in refl)
