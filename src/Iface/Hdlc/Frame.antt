-- ===== src/Iface/Hdlc/Frame.antt =====
-- The HDLC frame of src/iface/hdlc.rs as a function on lists, independent of buffers: the bytes
-- between two flags, with flag and escape bytes stuffed.
use reticulum_sdk.Base.{
  ℕ, ◌+◌, ◌≡◌, ◌≢◌, List, [], ◌∷◌, ◌++◌, length, ◌==◌, All, if◌then◌else◌, arith, length-append,
}

-- The two bytes that never appear inside a frame are sent as 0x7d and the byte with bit 5 flipped.
unfoldable pub stuff : ℕ → List ℕ
stuff byte =
    if byte == 0x7e
    then 0x7d ∷ 0x5e ∷ []
    else (if byte == 0x7d then 0x7d ∷ 0x5d ∷ [] else byte ∷ [])

unfoldable pub stuffed : List ℕ → List ℕ
stuffed [] = []
stuffed (byte ∷ rest) = stuff byte ++ stuffed rest

unfoldable pub frame : List ℕ → List ℕ
frame bytes = (0x7e ∷ stuffed bytes) ++ (0x7e ∷ [])

abbrev pub IsPlain : ℕ → Type 0
IsPlain byte = byte ≢ 0x7e

pub stuffed-IsPlain : (bytes : List ℕ) → All IsPlain (stuffed bytes)
unfolding stuffed stuff
stuffed-IsPlain [] = tt
stuffed-IsPlain (byte ∷ rest) = ground (arith, stuffed-IsPlain rest)

pub length-frame : (bytes : List ℕ) → length (frame bytes) ≡ length (stuffed bytes) + 2
unfolding frame
length-frame bytes = omega (arith, length-append (stuffed bytes) (0x7e ∷ []))
