-- ===== src/Iface/Hdlc/Encode.antt =====
-- `Hdlc::encode` of src/iface/hdlc.rs writes a frame, or fails for lack of room.
use mathlib.Core.Path.{fun_ext}
use native.Mathlib.Decide.{dec_le}
use reticulum_sdk.Base.{
  ℕ, ◌+◌, ◌≤◌, ◌≡◌, ap, List, [], ◌∷◌, ◌++◌, length, if◌then◌else◌, arith, le→leb, lt→leb,
}
use reticulum_sdk.Error.{ok, err, out_of_memory}
use reticulum_sdk.Buffer.Output.{OutputBuffer, InBounds, write, write_byte, as_slice}
use reticulum_sdk.Buffer.Append.{fits_in, as_slice-advance, capacity-advance, offset-advance}
use reticulum_sdk.Buffer.Writers.{Appends, write-Appends, return-Appends, then-Appends}
use reticulum_sdk.Iface.Hdlc.{encode_byte, encode_loop, encode}
use reticulum_sdk.Iface.Hdlc.Frame.{stuff, stuffed, frame}

encode_byte_lem : (byte : ℕ) (b : OutputBuffer) → encode_byte byte b ≡ write (stuff byte) b
unfolding encode_byte stuff write_byte
encode_byte_lem byte b = ground arith

encode_byte-Appends :
    (byte : ℕ) → Appends (encode_byte byte) (stuff byte) (λ _. length (stuff byte))
encode_byte-Appends byte = rw (fun_ext (encode_byte_lem byte)) (write-Appends (stuff byte))

encode_loop-Appends : (bytes : List ℕ) → Appends (encode_loop bytes) (stuffed bytes) (λ _. tt)
unfolding encode_loop stuffed
encode_loop-Appends [] = return-Appends (λ _. tt)
encode_loop-Appends (byte ∷ rest) =
    then-Appends (encode_byte byte) (encode_loop rest) (stuff byte) (stuffed rest)
      (encode_byte-Appends byte) (encode_loop-Appends rest)

flag-Appends : Appends (write_byte 0x7e) (0x7e ∷ []) (λ _. 1)
unfolding write_byte
flag-Appends = write-Appends (0x7e ∷ [])

pub encode-Appends : (bytes : List ℕ) → Appends (encode bytes) (frame bytes) (λ b. b.offset)
unfolding encode frame
encode-Appends bytes = then-Appends _ _ (0x7e ∷ []) _ flag-Appends (
    then-Appends _ _ (stuffed bytes) _ (encode_loop-Appends bytes)
      (then-Appends _ _ (0x7e ∷ []) [] flag-Appends (return-Appends (λ b. b.offset))))

-- `Hdlc::encode` into a buffer with room for the frame of the bytes appends exactly that frame:
-- the result is the new offset, the slice grows by the frame, and the storage keeps its size.
pub encode_frames :
    (bytes : List ℕ) (b : OutputBuffer)
    → b.offset + length (frame bytes) ≤ length b.buffer
    → ((encode bytes b).0 ≡ ok (b.offset + length (frame bytes)))
      × (as_slice (encode bytes b).1 ≡ as_slice b ++ frame bytes)
      × (length (encode bytes b).1.buffer ≡ length b.buffer)
encode_frames bytes b room = rw ((encode-Appends bytes).fits b room) (
  ap ok (offset-advance b (frame bytes) room),
  as_slice-advance b (frame bytes) room,
  capacity-advance b (frame bytes) room,
)

-- `Hdlc::encode` into a buffer whose cursor is within its storage fails exactly when the frame
-- does not fit, and then with `OutOfMemory`.
encode_result :
    (bytes : List ℕ) (b : OutputBuffer)
    → InBounds b
    → (encode bytes b).0 ≡ (
        if fits_in b (frame bytes) then ok (b.offset + length (frame bytes)) else err out_of_memory)
encode_result bytes b inside = elim (dec_le (b.offset + length (frame bytes)) (length b.buffer)) [
  | yes room ↦
      rw (le→leb (b.offset + length (frame bytes)) (length b.buffer) room)
        (encode_frames bytes b room).0
  | no short ↦
      rw (lt→leb (b.offset + length (frame bytes)) (length b.buffer) (omega arith))
        ((encode-Appends bytes).over b inside (omega arith))
]
