-- ===== src/Iface/Ifac/Acceptance.antt =====
-- Which frames `decode_frame` of src/iface/ifac.rs accepts, and as which packet bytes.
use Prim.Native.Nat.{bit_and, bit_xor}
use mathlib.Core.Logic.{if_pos, if_neg}
use reticulum_sdk.Base.{
  ℕ, ◌≤◌, ◌≡◌, ◌≢◌, ◌↔◌, refl, sym, ap, ◌∙◌, inl, inr, List, ◌∷◌, ◌++◌, length, length-append,
  take_front, drop, drop_front, true, false, arith, Bool-cases, bytes_discrete,
}
use reticulum_sdk.Base.Bytes.{xor_bytes}
use reticulum_sdk.Error.{ok, err, packet_error, incorrect_signature}
use reticulum_sdk.Iface.Ifac.{
  Primitives, IfacConfig, decode_frame, truncated_signature, hkdf_stream, too_short, ifac_of,
  is_flagged, unmask_loop, unmask_byte, clean_of,
}
use reticulum_sdk.Iface.Ifac.Mask.{unmask_field}

-- The packet bytes of a frame of two bytes, the IFAC field and the rest, under a mask whose first
-- bytes are `m₀` and `m₁`: the rest is taken with the mask bytes at its own places.
pub opened : ℕ → ℕ → List ℕ → ℕ → ℕ → List ℕ → List ℕ → List ℕ
opened m₀ m₁ mask b₀ b₁ code xs =
    bit_and (bit_xor b₀ m₀) 0x7f ∷ bit_xor b₁ m₁ ∷ xor_bytes xs (drop (length code) mask)

module _ (crypto : Primitives) (config : IfacConfig) (b₀ b₁ : ℕ) (code xs : List ℕ)
    (field : length code ≡ config.ifac_len) (positive : 1 ≤ config.ifac_len)
    (payload : 1 ≤ length xs) (m₀ m₁ : ℕ) (mask : List ℕ)
    (stream : hkdf_stream crypto config.ifac_key code (length (b₀ ∷ b₁ ∷ (code ++ xs)))
      ≡ m₀ ∷ m₁ ∷ mask)
    (long : length code ≤ length mask) where
  abbrev frame : List ℕ
  frame = b₀ ∷ b₁ ∷ (code ++ xs)

  abbrev plain : List ℕ
  plain = opened m₀ m₁ mask b₀ b₁ code xs

  long_enough : too_short config.ifac_len frame ≡ false
  long_enough = ground (arith, length-append code xs)

  frame-ifac_of : ifac_of config.ifac_len frame ≡ code
  frame-ifac_of = take_front config.ifac_len code xs field

  clean_of-opened :
      clean_of (length code) (unmask_loop (length code) 0 frame (m₀ ∷ m₁ ∷ mask)) ≡ plain
  unfolding unmask_loop unmask_byte clean_of opened
  clean_of-opened =
      ap (λ r. clean_of (length code) (bit_xor b₀ m₀ ∷ bit_xor b₁ m₁ ∷ r))
        (unmask_field (length code) 2 code xs mask (omega arith) (omega arith) long)
      ∙ ap (λ r. bit_and (bit_xor b₀ m₀) 0x7f ∷ bit_xor b₁ m₁ ∷ r)
          (drop_front (length code) code (xor_bytes xs (drop (length code) mask)) refl)

  cleaned : clean_of config.ifac_len (unmask_loop config.ifac_len 0 frame (m₀ ∷ m₁ ∷ mask)) ≡ plain
  cleaned =
      ap (λ n. clean_of n (unmask_loop n 0 frame (m₀ ∷ m₁ ∷ mask))) (sym field) ∙ clean_of-opened

  unflagged : is_flagged frame ≡ false → decode_frame crypto config frame ≡ err packet_error
  unfolding decode_frame
  unflagged clear = rw (long_enough, clear, decode_frame)

  signed :
      is_flagged frame ≡ true
      → truncated_signature crypto config config.ifac_len plain ≡ code
      → decode_frame crypto config frame ≡ ok plain
  unfolding decode_frame
  signed flag good =
      rw (long_enough, flag, frame-ifac_of, stream, cleaned)
        (if_pos (bytes_discrete _ code) good _ _)

  forged :
      is_flagged frame ≡ true
      → truncated_signature crypto config config.ifac_len plain ≢ code
      → decode_frame crypto config frame ≡ err incorrect_signature
  unfolding decode_frame
  forged flag bad =
      rw (long_enough, flag, frame-ifac_of, stream, cleaned)
        (if_neg (bytes_discrete _ code) bad _ _)

  -- A frame of two bytes, the IFAC field and at least one byte more is read as the packet bytes
  -- under its mask, with the IFAC flag cleared and the IFAC field taken out, if and only if it has
  -- the IFAC flag and its IFAC field is the truncated signature of these bytes. Without the flag
  -- the error is `PacketError`, with the flag and another IFAC field `IncorrectSignature`. The
  -- mask of the frame is longer than its IFAC field by two bytes or more.
  pub decode_frame_iff :
      ((decode_frame crypto config frame ≡ ok plain)
        ↔ (is_flagged frame ≡ true)
          × (truncated_signature crypto config config.ifac_len plain ≡ code))
      × (is_flagged frame ≡ false → decode_frame crypto config frame ≡ err packet_error)
      × (is_flagged frame ≡ true
          → truncated_signature crypto config config.ifac_len plain ≢ code
          → decode_frame crypto config frame ≡ err incorrect_signature)
  decode_frame_iff = (
    (
      λ accepted. elim (Bool-cases (is_flagged frame)) [
        | inr clear ↦ cc (accepted, unflagged clear)
        | inl flag ↦
            elim (bytes_discrete (truncated_signature crypto config config.ifac_len plain) code) [
              | yes good ↦ (flag, good)
              | no bad ↦ cc (accepted, forged flag bad)
            ]
      ],
      λ both. signed both.0 both.1,
    ),
    unflagged,
    forged,
  )
