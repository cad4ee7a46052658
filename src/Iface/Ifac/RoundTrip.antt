-- ===== src/Iface/Ifac/RoundTrip.antt =====
-- The receiver of a masked frame gets the clean packet bytes (src/iface/ifac.rs), where the IFAC
-- field is the signature of these bytes.
use Prim.Native.Nat.{bit_and}
use mathlib.Core.Logic.{if_pos}
use reticulum_sdk.Base.{
  ℕ, suc, ◌+◌, ◌≤◌, ◌≡◌, refl, sym, ap, ◌∙◌, inl, inr, List, [], ◌∷◌, ◌++◌, length, length-append,
  take_front, replicate, length-replicate, true, false, ◌||◌, leb, ◌==◌, All, arith, Option-cases,
  bytes_discrete,
}
use reticulum_sdk.Base.Bytes.{IsByte}
use reticulum_sdk.Error.{ok}
use reticulum_sdk.Iface.Ifac.{
  Primitives, IfacConfig, mask_frame, decode_frame, truncated_signature, hkdf_stream, too_short,
  ifac_of, is_flagged, unmask_loop, clean_of,
}
use reticulum_sdk.Iface.Ifac.Codes.{IsSound}
use reticulum_sdk.Iface.Ifac.Mask.{
  masked, mask_loop-masked, length-masked, ifac_of-masked, is_flagged-masked, clean_of-masked,
}

-- A mask of two bytes or more, taken apart.
two_heads : (xs : List ℕ) → 2 ≤ length xs → (a b : ℕ) × (rest : List ℕ) × (xs ≡ a ∷ b ∷ rest)
two_heads [] long = absurd (omega arith)
two_heads (a ∷ []) long = absurd (omega arith)
two_heads (a ∷ b ∷ rest) long = (a, b, rest, refl)

replicate_zero-IsByte : (n : ℕ) → All IsByte (replicate n 0)
replicate_zero-IsByte ℕ.zero = tt
replicate_zero-IsByte (suc n) = (omega arith, replicate_zero-IsByte n)

module _ (crypto : Primitives) (sound : IsSound crypto) (salt ikm : List ℕ) (n : ℕ) where
  stream : (length (hkdf_stream crypto salt ikm n) ≡ n) × All IsByte (hkdf_stream crypto salt ikm n)
  unfolding hkdf_stream
  stream = elim (Option-cases (crypto.expand salt ikm n)) [
    | inl over ↦ rw over (length-replicate n 0, replicate_zero-IsByte n)
    | inr (out, given) ↦
        rw given
          (sound.length-expand salt ikm n out given, sound.expand-IsByte salt ikm n out given)
  ]

module _ (crypto : Primitives) (sound : IsSound crypto) (config : IfacConfig) (b₀ b₁ : ℕ)
    (code xs : List ℕ) (field : length code ≡ config.ifac_len) (positive : 1 ≤ config.ifac_len)
    (payload : 1 ≤ length xs) (byte₀ : IsByte b₀) (byte₁ : IsByte b₁) (bytes : All IsByte xs)
    (signed : truncated_signature crypto config config.ifac_len (bit_and b₀ 0x7f ∷ b₁ ∷ xs)
      ≡ code) where
  abbrev frame : List ℕ
  frame = b₀ ∷ b₁ ∷ (code ++ xs)

  long_enough : too_short config.ifac_len frame ≡ false
  long_enough = ground (arith, length-append code xs)

  frame-ifac_of : ifac_of config.ifac_len frame ≡ code
  frame-ifac_of = take_front config.ifac_len code xs field

  module _ (m₀ m₁ : ℕ) (mask : List ℕ)
      (heads : hkdf_stream crypto config.ifac_key code (length frame) ≡ m₀ ∷ m₁ ∷ mask)
      (masks : All IsByte (m₀ ∷ m₁ ∷ mask)) (long : length code ≤ length mask) where
    abbrev out : List ℕ
    out = masked m₀ m₁ mask code xs b₀ b₁

    mask_frame_lem : mask_frame crypto config frame ≡ (ok tt, out)
    unfolding mask_frame
    mask_frame_lem =
        rw (long_enough, frame-ifac_of, heads, ← field)
          (ap (λ o. (ok tt, o)) (mask_loop-masked m₀ m₁ mask code xs long b₀ b₁))

    out-length : length out ≡ length frame
    out-length = length-masked m₀ m₁ mask code xs long b₀ b₁

    out-ifac_of : ifac_of config.ifac_len out ≡ code
    out-ifac_of = ap (λ n. ifac_of n out) (sym field) ∙ ifac_of-masked m₀ m₁ mask code xs long b₀ b₁

    out-clean :
        clean_of config.ifac_len (unmask_loop config.ifac_len 0 out (m₀ ∷ m₁ ∷ mask))
        ≡ bit_and b₀ 0x7f ∷ b₁ ∷ xs
    out-clean =
        ap (λ n. clean_of n (unmask_loop n 0 out (m₀ ∷ m₁ ∷ mask))) (sym field)
        ∙ clean_of-masked m₀ m₁ mask code xs long b₀ b₁ byte₀ byte₁ bytes masks

    out-flagged : is_flagged out ≡ true
    out-flagged = is_flagged-masked m₀ m₁ mask code xs long b₀ b₁ byte₀ byte₁ bytes masks

    out-long : too_short config.ifac_len out ≡ false
    out-long =
        ap (λ n. (config.ifac_len == 0) || leb n (2 + config.ifac_len)) out-length ∙ long_enough

    decode_frame_lem : decode_frame crypto config out ≡ ok (bit_and b₀ 0x7f ∷ b₁ ∷ xs)
    unfolding decode_frame
    decode_frame_lem =
        rw (out-long, out-flagged, out-ifac_of, out-length, heads, out-clean)
          (if_pos (bytes_discrete _ code) signed _ _)

  pub mask_frame-decode_frame :
      (out : List ℕ) × (mask_frame crypto config frame ≡ (ok tt, out))
      × (length out ≡ length frame)
      × (decode_frame crypto config out ≡ ok (bit_and b₀ 0x7f ∷ b₁ ∷ xs))
  mask_frame-decode_frame =
      let (size, masks) = stream crypto sound config.ifac_key code (length frame) in
      let (m₀, m₁, mask, heads) =
        two_heads (hkdf_stream crypto config.ifac_key code (length frame)) (omega (arith, size)) in
      let long : length code ≤ length mask =
        omega (arith, size, ap length heads, length-append code xs) in
      (
        masked m₀ m₁ mask code xs b₀ b₁,
        mask_frame_lem m₀ m₁ mask heads (rw heads at masks) long,
        out-length m₀ m₁ mask heads (rw heads at masks) long,
        decode_frame_lem m₀ m₁ mask heads (rw heads at masks) long,
      )
