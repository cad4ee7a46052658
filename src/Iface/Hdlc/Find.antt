-- ===== src/Iface/Hdlc/Find.antt =====
-- `Hdlc::find` of src/iface/hdlc.rs locates a frame in a stream.
use mathlib.Core.List.{append_assoc}
use mathlib.Core.Path.{ap₂}
use native.Mathlib.Nat.{add-zero}
use reticulum_sdk.Base.{
  ◌-◌, ◌∙◌, suc, ℕ, ◌+◌, ◌≡◌, List, [], ◌∷◌, ◌++◌, length, arith, Bool, true, false, All, some,
}
use reticulum_sdk.Iface.Hdlc.{find_loop, find}
use reticulum_sdk.Iface.Hdlc.Frame.{stuffed, frame, IsPlain, stuffed-IsPlain, length-frame}

find_loop_skip :
    (i : ℕ) (start : Bool) (index : ℕ) (xs ys : List ℕ)
    → All IsPlain xs
    → find_loop i start index (xs ++ ys) ≡ find_loop (i + length xs) start index ys
unfolding find_loop
find_loop_skip i start index [] ys h = rw add-zero
find_loop_skip i start index (x ∷ xs) ys h =
    let moved : i + 1 + length xs ≡ i + suc (length xs) = omega arith in
    ground (arith, h.0, find_loop_skip (i + 1) start index xs ys h.1, moved)

find_loop-frame :
    (i : ℕ) (bytes rest : List ℕ)
    → find_loop i false 0 (frame bytes ++ rest) ≡ some (i, i + 1 + length (stuffed bytes))
unfolding frame find_loop
find_loop-frame i bytes rest =
    rw append_assoc
      (find_loop_skip (i + 1) true i (stuffed bytes) (0x7e ∷ rest) (stuffed-IsPlain bytes))

-- In a stream of bytes that are no flags, then a frame, then anything, `Hdlc::find` returns the
-- positions of the first and the last byte of the frame.
find-frame :
    (noise bytes rest : List ℕ)
    → All IsPlain noise
    → find (noise ++ (frame bytes ++ rest))
      ≡ some (length noise, length noise + length (frame bytes) - 1)
unfolding find
find-frame noise bytes rest h =
    find_loop_skip 0 false 0 noise (frame bytes ++ rest) h
    ∙ find_loop-frame (0 + length noise) bytes rest
    ∙ ap₂ (λ start last. some (start, last)) (omega arith) (omega (arith, length-frame bytes))
