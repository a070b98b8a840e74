-- ===== src/Util/Base64/Agreement.antt =====
-- How the decoders differ on other text.
use tarpack.Prelude.{ℕ, ◌≡◌, inl, inr, some, [], ◌∷◌, arith, Option-cases, Bytes}
use tarpack.Util.Base64.{
  b64_val, b64_val_pad, manifest_chunk, index_chunk, decode_chunks, base64_decode, decode_path_b64,
}

val_pad_of_val : (c v : ℕ) → b64_val c ≡ some v → b64_val_pad c ≡ some v
unfolding b64_val_pad b64_val
val_pad_of_val c v h = ground arith

-- Where the round of src/manifest.c accepts four characters, that of src/index.c writes the same.
chunk_agrees :
    (c0 c1 c2 c3 : ℕ) (out : Bytes)
    → manifest_chunk c0 c1 c2 c3 ≡ some out
    → index_chunk c0 c1 c2 c3 ≡ some out
unfolding manifest_chunk index_chunk
chunk_agrees c0 c1 c2 c3 out h = elim (Option-cases (b64_val c0)) [
  | inl e ↦ absurd (ground arith)
  | inr (v0, e) ↦ elim (Option-cases (b64_val c1)) [
    | inl e' ↦ absurd (ground arith)
    | inr (v1, e') ↦ ground (arith, val_pad_of_val c0 v0 e, val_pad_of_val c1 v1 e')
  ]
]

chunks_agree :
    (s out : Bytes)
    → decode_chunks manifest_chunk s ≡ some out
    → decode_chunks index_chunk s ≡ some out
unfolding decode_chunks
chunks_agree [] out h = h
chunks_agree (c0 ∷ []) out h = absurd (cc)
chunks_agree (c0 ∷ c1 ∷ []) out h = absurd (cc)
chunks_agree (c0 ∷ c1 ∷ c2 ∷ []) out h = absurd (cc)
chunks_agree (c0 ∷ c1 ∷ c2 ∷ c3 ∷ rest) out h = elim (Option-cases (manifest_chunk c0 c1 c2 c3)) [
  | inl e ↦ absurd (ground arith)
  | inr (x, e) ↦ elim (Option-cases (decode_chunks manifest_chunk rest)) [
    | inl e' ↦ absurd (ground arith)
    | inr (y, e') ↦ ground (arith, chunk_agrees c0 c1 c2 c3 x e, chunks_agree rest y)
  ]
]

-- Every text that the snapshot manifest's decoder accepts, the index's decoder accepts with the
-- same bytes.
pub decode_path_b64-of_base64_decode :
    (s out : Bytes) → base64_decode s ≡ some out → decode_path_b64 s ≡ some out
unfolding base64_decode decode_path_b64
decode_path_b64-of_base64_decode [] out h = unfold decode_chunks in ground arith
decode_path_b64-of_base64_decode (c ∷ s) out h = ground (arith, chunks_agree (c ∷ s) out)
