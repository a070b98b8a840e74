-- ===== src/Util/Base64/Chunks.antt =====
-- One round of each decoder on four characters of the encoder.
use tarpack.Prelude.{ℕ, ◌%◌, ◌≡◌, refl, some, arith, ◌+◌, ◌*◌, ◌/◌, ◌^◌, ap, [], ◌∷◌, IsByte}
use tarpack.Util.Base64.{digit, b64_val_pad, packer_chunk, unpadded, manifest_chunk, index_chunk}
use tarpack.Util.Base64.Digits.{
  digit_val, digit_pad, digit_val_pad, join_digits, join_two, join_one,
}

module _ (a b c : ℕ) (ha : IsByte a) (hb : IsByte b) (hc : IsByte c) where
  abbrev word : ℕ
  word = a * 2 ^ 16 + b * 2 ^ 8 + c

  bytes_of_word : (word / 2 ^ 16 % 256 ≡ a) × (word / 2 ^ 8 % 256 ≡ b) × (word % 256 ≡ c)
  bytes_of_word = omega arith

  -- Four digits: what the two ways to write the bytes give.
  pub packer_full :
      packer_chunk
        (digit (word / 2 ^ 18))
        (digit (word / 2 ^ 12))
        (digit (word / 2 ^ 6))
        (digit word)
      ≡ some (a ∷ b ∷ c ∷ [])
  unfolding packer_chunk
  packer_full =
      let (x, y, z) = bytes_of_word in
      rw
        (
          digit_val (word / 2 ^ 18),
          digit_val (word / 2 ^ 12),
          digit_val_pad (word / 2 ^ 6),
          digit_val_pad word,
        )
        (rw (join_digits word (omega arith)) (rw (x, y, z)))

  unpadded_full : unpadded (digit (word / 2 ^ 6)) (digit word) word ≡ a ∷ b ∷ c ∷ []
  unfolding unpadded
  unpadded_full =
      let (x, y, z) = bytes_of_word in rw (digit_pad (word / 2 ^ 6), digit_pad word) (rw (x, y, z))

  pub manifest_full :
      manifest_chunk
        (digit (word / 2 ^ 18))
        (digit (word / 2 ^ 12))
        (digit (word / 2 ^ 6))
        (digit word)
      ≡ some (a ∷ b ∷ c ∷ [])
  unfolding manifest_chunk
  manifest_full =
      rw
        (
          digit_val (word / 2 ^ 18),
          digit_val (word / 2 ^ 12),
          digit_val_pad (word / 2 ^ 6),
          digit_val_pad word,
        )
        (rw (join_digits word (omega arith)) (ap some unpadded_full))

  pub index_full :
      index_chunk
        (digit (word / 2 ^ 18))
        (digit (word / 2 ^ 12))
        (digit (word / 2 ^ 6))
        (digit word)
      ≡ some (a ∷ b ∷ c ∷ [])
  unfolding index_chunk
  index_full =
      rw
        (
          digit_val_pad (word / 2 ^ 18),
          digit_val_pad (word / 2 ^ 12),
          digit_val_pad (word / 2 ^ 6),
          digit_val_pad word,
        )
        (rw (join_digits word (omega arith)) (ap some unpadded_full))

pad_val : b64_val_pad b'=' ≡ some 0
unfolding b64_val_pad
pad_val = refl

-- Three digits and one padding character, two digits and two.
module _ (a b : ℕ) (ha : IsByte a) (hb : IsByte b) where
  abbrev word_two : ℕ
  word_two = a * 2 ^ 16 + b * 2 ^ 8

  bytes_of_two : (word_two / 2 ^ 16 % 256 ≡ a) × (word_two / 2 ^ 8 % 256 ≡ b) × (word_two % 256 ≡ 0)
  bytes_of_two = omega arith

  pub packer_two :
      packer_chunk
        (digit (word_two / 2 ^ 18))
        (digit (word_two / 2 ^ 12))
        (digit (word_two / 2 ^ 6))
        b'='
      ≡ some (a ∷ b ∷ 0 ∷ [])
  unfolding packer_chunk
  packer_two =
      let (x, y, z) = bytes_of_two in
      rw
        (
          digit_val (word_two / 2 ^ 18),
          digit_val (word_two / 2 ^ 12),
          digit_val_pad (word_two / 2 ^ 6),
          pad_val,
        )
        (rw (join_two word_two (omega arith) (omega arith)) (rw (x, y, z)))

  unpadded_two : unpadded (digit (word_two / 2 ^ 6)) b'=' word_two ≡ a ∷ b ∷ []
  unfolding unpadded
  unpadded_two = let (x, y, z) = bytes_of_two in rw (digit_pad (word_two / 2 ^ 6)) (rw (x, y))

  pub manifest_two :
      manifest_chunk
        (digit (word_two / 2 ^ 18))
        (digit (word_two / 2 ^ 12))
        (digit (word_two / 2 ^ 6))
        b'='
      ≡ some (a ∷ b ∷ [])
  unfolding manifest_chunk
  manifest_two =
      rw
        (
          digit_val (word_two / 2 ^ 18),
          digit_val (word_two / 2 ^ 12),
          digit_val_pad (word_two / 2 ^ 6),
          pad_val,
        )
        (rw (join_two word_two (omega arith) (omega arith)) (ap some unpadded_two))

  pub index_two :
      index_chunk
        (digit (word_two / 2 ^ 18))
        (digit (word_two / 2 ^ 12))
        (digit (word_two / 2 ^ 6))
        b'='
      ≡ some (a ∷ b ∷ [])
  unfolding index_chunk
  index_two =
      rw
        (
          digit_val_pad (word_two / 2 ^ 18),
          digit_val_pad (word_two / 2 ^ 12),
          digit_val_pad (word_two / 2 ^ 6),
          pad_val,
        )
        (rw (join_two word_two (omega arith) (omega arith)) (ap some unpadded_two))

module _ (a : ℕ) (ha : IsByte a) where
  abbrev word_one : ℕ
  word_one = a * 2 ^ 16

  bytes_of_one : (word_one / 2 ^ 16 % 256 ≡ a) × (word_one / 2 ^ 8 % 256 ≡ 0) × (word_one % 256 ≡ 0)
  bytes_of_one = omega arith

  pub packer_one :
      packer_chunk (digit (word_one / 2 ^ 18)) (digit (word_one / 2 ^ 12)) b'=' b'='
      ≡ some (a ∷ 0 ∷ 0 ∷ [])
  unfolding packer_chunk
  packer_one =
      let (x, y, z) = bytes_of_one in
      rw (digit_val (word_one / 2 ^ 18), digit_val (word_one / 2 ^ 12), pad_val)
        (rw (join_one word_one (omega arith) (omega arith)) (rw (x, y, z)))

  unpadded_one : unpadded b'=' b'=' word_one ≡ a ∷ []
  unfolding unpadded
  unpadded_one = let (x, y, z) = bytes_of_one in rw x

  pub manifest_one :
      manifest_chunk (digit (word_one / 2 ^ 18)) (digit (word_one / 2 ^ 12)) b'=' b'='
      ≡ some (a ∷ [])
  unfolding manifest_chunk
  manifest_one =
      rw (digit_val (word_one / 2 ^ 18), digit_val (word_one / 2 ^ 12), pad_val)
        (rw (join_one word_one (omega arith) (omega arith)) (ap some unpadded_one))

  pub index_one :
      index_chunk (digit (word_one / 2 ^ 18)) (digit (word_one / 2 ^ 12)) b'=' b'=' ≡ some (a ∷ [])
  unfolding index_chunk
  index_one =
      rw (digit_val_pad (word_one / 2 ^ 18), digit_val_pad (word_one / 2 ^ 12), pad_val)
        (rw (join_one word_one (omega arith) (omega arith)) (ap some unpadded_one))
