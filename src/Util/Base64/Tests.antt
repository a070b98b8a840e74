-- ===== src/Util/Base64/Tests.antt =====
-- Runs and instances for base64; the runs are those of tests/unit/test_util.c and RFC 4648.
use tarpack.Util.Base64.Agreement.{decode_path_b64-of_base64_decode}
use tarpack.Util.Base64.RoundTrip.{base64_round_trip}
use tarpack.Prelude.{◌≡◌, refl, none, some, [], ◌∷◌, codes, arith}
use tarpack.Util.Base64.{
  digit, base64_encode, b64_decode, base64_decode, decode_path_b64, b64_val, b64_val_pad,
  packer_chunk, unpadded, manifest_chunk, index_chunk, decode_chunks, pad,
}

rfc_vectors :
    (base64_encode (codes "") ≡ codes "")
    × (base64_encode (codes "f") ≡ codes "Zg==")
    × (base64_encode (codes "fo") ≡ codes "Zm8=")
    × (base64_encode (codes "foobar") ≡ codes "Zm9vYmFy")
unfolding base64_encode digit
rfc_vectors = (refl, refl, refl, refl)

decoded :
    (b64_decode (codes "Zm8=") ≡ some (codes "fo"))
    × (base64_decode (codes "Zg==") ≡ some (codes "f"))
    × (decode_path_b64 (codes "Zm9vYmFy") ≡ some (codes "foobar"))
    × (base64_decode (codes "Zg=") ≡ none)
unfolding b64_decode base64_decode decode_path_b64 b64_val b64_val_pad packer_chunk unpadded
    manifest_chunk index_chunk decode_chunks pad
decoded = (refl, refl, refl, refl)

-- The decoders differ on text that the encoder never writes.
differ :
    (base64_decode (codes "====") ≡ none)
    × (decode_path_b64 (codes "====") ≡ some (0 ∷ []))
    × (b64_decode (codes "AA=A") ≡ some (0 ∷ 0 ∷ []))
unfolding b64_decode base64_decode decode_path_b64 b64_val b64_val_pad packer_chunk unpadded
    manifest_chunk index_chunk decode_chunks pad
differ = (refl, refl, refl)

base64_round_trip_example :
    (b64_decode (base64_encode (255 ∷ 0 ∷ [])) ≡ some (255 ∷ 0 ∷ []))
    × (base64_decode (base64_encode (255 ∷ 0 ∷ [])) ≡ some (255 ∷ 0 ∷ []))
    × (decode_path_b64 (base64_encode (255 ∷ 0 ∷ [])) ≡ some (255 ∷ 0 ∷ []))
base64_round_trip_example = base64_round_trip (255 ∷ 0 ∷ []) (omega arith)

read_fo : base64_decode (codes "Zm8=") ≡ some (codes "fo")
unfolding base64_decode b64_val b64_val_pad unpadded manifest_chunk decode_chunks
read_fo = refl

decode_path_b64-of_base64_decode_example : decode_path_b64 (codes "Zm8=") ≡ some (codes "fo")
decode_path_b64-of_base64_decode_example =
    decode_path_b64-of_base64_decode (codes "Zm8=") (codes "fo") read_fo
