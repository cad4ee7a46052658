-- ===== src/Iface/Ifac/Mask.antt =====
-- The masking of frames in src/iface/ifac.rs: which bytes it changes, and that the receiver undoes
-- it.
use Prim.Native.Nat.{bit_and, bit_or, bit_xor}
use reticulum_sdk.Base.{
  ℕ, suc, ◌+◌, ◌≤◌, ◌<◌, ◌≡◌, refl, ap, ap₂, ◌∙◌, List, [], ◌∷◌, ◌++◌, length, drop, length-append,
  take_front, drop_front, true, All, arith,
}
use reticulum_sdk.Base.Bytes.{
  IsByte, xor_bytes, bit_xor_twice, bit_xor-IsByte, flag_masked, flag_set,
}
use reticulum_sdk.Iface.Ifac.{
  mask_byte, unmask_byte, mask_loop, unmask_loop, clean_of, ifac_of, is_flagged,
}

pub length-xor_bytes : (xs mask : List ℕ) → length (xor_bytes xs mask) ≡ length xs
unfolding xor_bytes
length-xor_bytes [] mask = refl
length-xor_bytes (x ∷ xs) [] = refl
length-xor_bytes (x ∷ xs) (m ∷ mask) = ap suc (length-xor_bytes xs mask)

xor_bytes_twice :
    (xs mask : List ℕ) → All IsByte xs → All IsByte mask → xor_bytes (xor_bytes xs mask) mask ≡ xs
unfolding xor_bytes
xor_bytes_twice [] mask bytes masks = refl
xor_bytes_twice (x ∷ xs) [] bytes masks = refl
xor_bytes_twice (x ∷ xs) (m ∷ mask) bytes masks =
    ap₂ ◌∷◌ (bit_xor_twice m x masks.0 bytes.0) (xor_bytes_twice xs mask bytes.1 masks.1)

module _ (n : ℕ) where
  mask_tail : (i : ℕ) (xs mask : List ℕ) → n + 1 < i → mask_loop n i xs mask ≡ xor_bytes xs mask
  unfolding mask_loop xor_bytes mask_byte
  mask_tail i [] mask late = refl
  mask_tail i (x ∷ xs) [] late = refl
  mask_tail i (x ∷ xs) (m ∷ mask) late =
      let here : mask_byte n i x m ≡ bit_xor x m = ground arith in
      ap₂ ◌∷◌ here (mask_tail (suc i) xs mask (omega arith))

  unmask_tail : (i : ℕ) (xs mask : List ℕ) → n + 1 < i → unmask_loop n i xs mask ≡ xor_bytes xs mask
  unfolding unmask_loop xor_bytes unmask_byte
  unmask_tail i [] mask late = refl
  unmask_tail i (x ∷ xs) [] late = refl
  unmask_tail i (x ∷ xs) (m ∷ mask) late =
      let here : unmask_byte n i x m ≡ bit_xor x m = ground arith in
      ap₂ ◌∷◌ here (unmask_tail (suc i) xs mask (omega arith))

  -- The IFAC field, from place `i` on, is left as it is.
  mask_field :
      (i : ℕ) (code xs mask : List ℕ)
      → 2 ≤ i
      → i + length code ≡ n + 2
      → length code ≤ length mask
      → mask_loop n i (code ++ xs) mask ≡ code ++ xor_bytes xs (drop (length code) mask)
  unfolding mask_loop mask_byte
  mask_field i [] xs mask low place long = mask_tail i xs mask (omega arith)
  mask_field i (c ∷ code) xs [] low place long = absurd (omega arith)
  mask_field i (c ∷ code) xs (m ∷ mask) low place long =
      let here : mask_byte n i c m ≡ c = ground arith in
      ap₂ ◌∷◌ here (mask_field (suc i) code xs mask (omega arith) (omega arith) (omega arith))

  pub unmask_field :
      (i : ℕ) (code xs mask : List ℕ)
      → 2 ≤ i
      → i + length code ≡ n + 2
      → length code ≤ length mask
      → unmask_loop n i (code ++ xs) mask ≡ code ++ xor_bytes xs (drop (length code) mask)
  unfolding unmask_loop unmask_byte
  unmask_field i [] xs mask low place long = unmask_tail i xs mask (omega arith)
  unmask_field i (c ∷ code) xs [] low place long = absurd (omega arith)
  unmask_field i (c ∷ code) xs (m ∷ mask) low place long =
      let here : unmask_byte n i c m ≡ c = ground arith in
      ap₂ ◌∷◌ here (unmask_field (suc i) code xs mask (omega arith) (omega arith) (omega arith))

All-drop : (k : ℕ) (xs : List ℕ) → All IsByte xs → All IsByte (drop k xs)
All-drop ℕ.zero xs h = h
All-drop (suc k) [] h = h
All-drop (suc k) (x ∷ xs) h = All-drop k xs h.1

-- A frame with its first two bytes, its IFAC field and the rest, under a mask.
pub masked : ℕ → ℕ → List ℕ → List ℕ → List ℕ → ℕ → ℕ → List ℕ
masked m₀ m₁ mask code xs b₀ b₁ =
    bit_or (bit_xor b₀ m₀) 0x80 ∷ bit_xor b₁ m₁ ∷ (code ++ xor_bytes xs (drop (length code) mask))

module _ (m₀ m₁ : ℕ) (mask : List ℕ) (code xs : List ℕ) (long : length code ≤ length mask) where
  pub mask_loop-masked :
      (b₀ b₁ : ℕ)
      → mask_loop (length code) 0 (b₀ ∷ b₁ ∷ (code ++ xs)) (m₀ ∷ m₁ ∷ mask)
        ≡ masked m₀ m₁ mask code xs b₀ b₁
  unfolding mask_loop mask_byte masked
  mask_loop-masked b₀ b₁ =
      ap (λ r. bit_or (bit_xor b₀ m₀) 0x80 ∷ bit_xor b₁ m₁ ∷ r)
        (mask_field (length code) 2 code xs mask (omega arith) (omega arith) long)

  pub length-masked :
      (b₀ b₁ : ℕ) → length (masked m₀ m₁ mask code xs b₀ b₁) ≡ length (b₀ ∷ b₁ ∷ (code ++ xs))
  unfolding masked
  length-masked b₀ b₁ = omega (
    arith,
    length-append code xs,
    length-append code (xor_bytes xs (drop (length code) mask)),
    length-xor_bytes xs (drop (length code) mask),
  )

  pub ifac_of-masked : (b₀ b₁ : ℕ) → ifac_of (length code) (masked m₀ m₁ mask code xs b₀ b₁) ≡ code
  unfolding masked
  ifac_of-masked b₀ b₁ = take_front (length code) code (xor_bytes xs (drop (length code) mask)) refl

  module _ (b₀ b₁ : ℕ) (byte₀ : IsByte b₀) (byte₁ : IsByte b₁) (bytes : All IsByte xs)
      (masks : All IsByte (m₀ ∷ m₁ ∷ mask)) where
    pub is_flagged-masked : is_flagged (masked m₀ m₁ mask code xs b₀ b₁) ≡ true
    unfolding masked
    is_flagged-masked = flag_set (bit_xor b₀ m₀) (bit_xor-IsByte m₀ b₀ masks.0 byte₀)

    pub clean_of-masked :
        clean_of
          (length code)
          (unmask_loop (length code) 0 (masked m₀ m₁ mask code xs b₀ b₁) (m₀ ∷ m₁ ∷ mask))
        ≡ bit_and b₀ 0x7f ∷ b₁ ∷ xs
    unfolding masked unmask_loop unmask_byte clean_of
    clean_of-masked =
        let tail = drop (length code) mask in
        ap
          (λ r.
            clean_of (length code)
              (bit_xor (bit_or (bit_xor b₀ m₀) 0x80) m₀ ∷ bit_xor (bit_xor b₁ m₁) m₁ ∷ r))
          (unmask_field (length code) 2 code (xor_bytes xs tail) mask (omega arith) (omega arith)
            long)
        ∙ ap
            (λ r.
              bit_and (bit_xor (bit_or (bit_xor b₀ m₀) 0x80) m₀) 0x7f
              ∷ bit_xor (bit_xor b₁ m₁) m₁
              ∷ r)
            (drop_front (length code) code (xor_bytes (xor_bytes xs tail) tail) refl
              ∙ xor_bytes_twice xs tail bytes (All-drop (length code) mask masks.1.1))
        ∙ ap (λ b. b ∷ bit_xor (bit_xor b₁ m₁) m₁ ∷ xs) (flag_masked m₀ b₀ masks.0 byte₀)
        ∙ ap (λ b. bit_and b₀ 0x7f ∷ b ∷ xs) (bit_xor_twice m₁ b₁ masks.1.0 byte₁)
