-- ===== src/Util/Base64/RoundTrip.antt =====
-- Each decoder reads back what the encoder wrote.
use tarpack.Util.Base64.Chunks.{
  packer_full, packer_two, packer_one, manifest_full, manifest_two, manifest_one, index_full,
  index_two, index_one,
}
use tarpack.Util.Base64.Digits.{digit_pad}
use mathlib.Core.List.{append-nil}
use tarpack.Prelude.{
  ℕ, ◌≡◌, refl, some, ◌+◌, ◌*◌, ◌/◌, ◌^◌, ap, [], ◌∷◌, IsByte, sym, Option, ◌++◌, All, Bytes, suc,
  ◌-◌, ◌%◌, ◌≤◌, true, arith, ◌==◌, ==_iff, length, replicate, length-append, length-replicate, ◌∙◌,
  inl, inr, Bool-cases, take, take-length,
}
use tarpack.Util.Base64.{
  digit, base64_encode, decode_chunks, pad, b64_decode, base64_decode, decode_path_b64,
  packer_chunk, manifest_chunk, index_chunk,
}

-- The padding characters of the encoded text.
padding : Bytes → ℕ
padding (a ∷ b ∷ c ∷ rest) = padding rest
padding (a ∷ b ∷ []) = 1
padding (a ∷ []) = 2
padding [] = 0

encode_full :
    (a b c : ℕ) (rest : Bytes)
    → base64_encode (a ∷ b ∷ c ∷ rest)
      ≡ digit ((a * 2 ^ 16 + b * 2 ^ 8 + c) / 2 ^ 18)
        ∷ digit ((a * 2 ^ 16 + b * 2 ^ 8 + c) / 2 ^ 12)
        ∷ digit ((a * 2 ^ 16 + b * 2 ^ 8 + c) / 2 ^ 6)
        ∷ digit (a * 2 ^ 16 + b * 2 ^ 8 + c)
        ∷ base64_encode rest
unfolding base64_encode
encode_full a b c rest = refl

encode_two :
    (a b : ℕ)
    → base64_encode (a ∷ b ∷ [])
      ≡ digit ((a * 2 ^ 16 + b * 2 ^ 8) / 2 ^ 18)
        ∷ digit ((a * 2 ^ 16 + b * 2 ^ 8) / 2 ^ 12)
        ∷ digit ((a * 2 ^ 16 + b * 2 ^ 8) / 2 ^ 6)
        ∷ b'='
        ∷ []
unfolding base64_encode
encode_two a b = refl

encode_one :
    (a : ℕ)
    → base64_encode (a ∷ [])
      ≡ digit ((a * 2 ^ 16) / 2 ^ 18) ∷ digit ((a * 2 ^ 16) / 2 ^ 12) ∷ b'=' ∷ b'=' ∷ []
unfolding base64_encode
encode_one a = refl

-- The decoding loop over an encoded text, for a round `chunk` that writes `fill k` behind the bytes
-- of a group with k padding characters.
module _ (chunk : ℕ → ℕ → ℕ → ℕ → Option Bytes) (fill : ℕ → Bytes)
    (full : (a b c : ℕ)
      → IsByte a
      → IsByte b
      → IsByte c
      → chunk
          (digit ((a * 2 ^ 16 + b * 2 ^ 8 + c) / 2 ^ 18))
          (digit ((a * 2 ^ 16 + b * 2 ^ 8 + c) / 2 ^ 12))
          (digit ((a * 2 ^ 16 + b * 2 ^ 8 + c) / 2 ^ 6))
          (digit (a * 2 ^ 16 + b * 2 ^ 8 + c))
        ≡ some (a ∷ b ∷ c ∷ []))
    (two : (a b : ℕ)
      → IsByte a
      → IsByte b
      → chunk
          (digit ((a * 2 ^ 16 + b * 2 ^ 8) / 2 ^ 18))
          (digit ((a * 2 ^ 16 + b * 2 ^ 8) / 2 ^ 12))
          (digit ((a * 2 ^ 16 + b * 2 ^ 8) / 2 ^ 6))
          b'='
        ≡ some (a ∷ b ∷ fill 1))
    (one : (a : ℕ)
      → IsByte a
      → chunk (digit ((a * 2 ^ 16) / 2 ^ 18)) (digit ((a * 2 ^ 16) / 2 ^ 12)) b'=' b'='
        ≡ some (a ∷ fill 2))
    (none_left : fill 0 ≡ []) where
  decode_chunks-encode :
      (raw : Bytes)
      → All IsByte raw
      → decode_chunks chunk (base64_encode raw) ≡ some (raw ++ fill (padding raw))
  unfolding decode_chunks padding
  decode_chunks-encode [] h = unfold base64_encode in ap some (sym none_left)
  decode_chunks-encode (a ∷ []) h =
      rw (encode_one a) (unfold decode_chunks in rw (one a h.0, append-nil (fill 2)))
  decode_chunks-encode (a ∷ b ∷ []) h =
      rw (encode_two a b) (rw (two a b h.0 h.1.0, append-nil (fill 1)))
  decode_chunks-encode (a ∷ b ∷ c ∷ rest) h =
      rw (encode_full a b c rest)
        (rw (full a b c h.0 h.1.0 h.1.1.0) (rw (decode_chunks-encode rest h.1.1.1)))

abbrev no_fill : ℕ → Bytes
no_fill k = []

-- Four characters for each group of three bytes, the last group filled up: the size of the buffer
-- that the encoder allocates.
pub length-base64_encode : (raw : Bytes) → length (base64_encode raw) ≡ (length raw + 2) / 3 * 4
unfolding base64_encode
length-base64_encode [] = refl
length-base64_encode (a ∷ []) = refl
length-base64_encode (a ∷ b ∷ []) = refl
length-base64_encode (a ∷ b ∷ c ∷ rest) = omega (arith, length-base64_encode rest)

whole_groups : (raw : Bytes) → (length (base64_encode raw) % 4 == 0) ≡ true
whole_groups raw = (==_iff _ 0).1 (omega (arith, length-base64_encode raw))

encode-eq_nil : (raw : Bytes) → length (base64_encode raw) ≡ 0 → raw ≡ []
encode-eq_nil [] h = refl
encode-eq_nil (a ∷ raw) h = absurd (omega (arith, length-base64_encode (a ∷ raw)))

pad-cons : (x : ℕ) (s : Bytes) → 2 ≤ length s → pad (x ∷ s) ≡ pad s
unfolding pad
pad-cons x s h =
    let e : suc (length s) - 1 ≡ suc (length s - 1) = omega arith in
    let e' : suc (length s) - 2 ≡ suc (length s - 2) = omega arith in rw (e, e') (ground arith)

pad_four : (w x y z : ℕ) (s : Bytes) → 2 ≤ length s → pad (w ∷ x ∷ y ∷ z ∷ s) ≡ pad s
pad_four w x y z s h =
    pad-cons w (x ∷ y ∷ z ∷ s) (omega arith)
    ∙ (pad-cons x (y ∷ z ∷ s) (omega arith) ∙ (pad-cons y (z ∷ s) (omega arith) ∙ pad-cons z s h))

pad-encode : (raw : Bytes) → pad (base64_encode raw) ≡ padding raw
unfolding padding
pad-encode [] = unfold pad base64_encode in refl
pad-encode (a ∷ []) = rw (encode_one a) (unfold pad in refl)
pad-encode (a ∷ b ∷ []) =
    rw (encode_two a b) (unfold pad in rw (digit_pad ((a * 2 ^ 16 + b * 2 ^ 8) / 2 ^ 6)))
pad-encode (a ∷ b ∷ c ∷ []) = rw (encode_full a b c []) (
    unfold pad base64_encode in
    rw (digit_pad (a * 2 ^ 16 + b * 2 ^ 8 + c), digit_pad ((a * 2 ^ 16 + b * 2 ^ 8 + c) / 2 ^ 6)))
pad-encode (a ∷ b ∷ c ∷ d ∷ rest) =
    let long : 2 ≤ length (base64_encode (d ∷ rest)) =
      omega (arith, length-base64_encode (d ∷ rest)) in
    rw (encode_full a b c (d ∷ rest)) (pad_four _ _ _ _ _ long ∙ pad-encode (d ∷ rest))

length-fill :
    (raw : Bytes) (n : ℕ) → n ≡ padding raw → length (raw ++ replicate n 0) - n ≡ length raw
length-fill raw n e = omega (arith, length-append raw (replicate n 0), length-replicate {A = ℕ} n 0)

take_raw :
    (raw : Bytes)
    → take
        (length (raw ++ replicate (padding raw) 0) - pad (base64_encode raw))
        (raw ++ replicate (padding raw) 0)
      ≡ raw
take_raw raw =
    rw (pad-encode raw)
      (rw (length-fill raw (padding raw) refl) (take-length raw (replicate (padding raw) 0)))

-- An empty text is tested first.
manifest_lem :
    (raw : Bytes)
    → decode_chunks manifest_chunk (base64_encode raw) ≡ some (raw ++ [])
    → base64_decode (base64_encode raw) ≡ some raw
unfolding base64_decode
manifest_lem raw read = elim (Bool-cases (length (base64_encode raw) == 0)) [
  | inl empty ↦ let e = encode-eq_nil raw ((==_iff _ 0).0 empty) in rw empty (ap some (sym e))
  | inr more ↦ rw more (rw (whole_groups raw) (rw read (ap some (append-nil raw))))
]

-- What the encoder writes for a path, each of the three readers of the program turns back into the
-- same bytes: the pack manifest's, the snapshot manifest's and the object index's.
pub base64_round_trip :
    (raw : Bytes)
    → All IsByte raw
    → (b64_decode (base64_encode raw) ≡ some raw)
      × (base64_decode (base64_encode raw) ≡ some raw)
      × (decode_path_b64 (base64_encode raw) ≡ some raw)
base64_round_trip raw h =
    let whole = whole_groups raw in
    let packed =
      decode_chunks-encode packer_chunk (λ k. replicate k 0) packer_full packer_two packer_one refl
        raw h in
    let read =
      decode_chunks-encode manifest_chunk no_fill manifest_full manifest_two manifest_one refl raw
        h in
    let indexed =
      decode_chunks-encode index_chunk no_fill index_full index_two index_one refl raw h in
    (
      unfold b64_decode in rw whole (rw packed (ap some (take_raw raw))),
      manifest_lem raw read,
      unfold decode_path_b64 in rw whole (rw indexed (ap some (append-nil raw))),
    )
