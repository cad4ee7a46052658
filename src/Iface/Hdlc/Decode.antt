-- ===== src/Iface/Hdlc/Decode.antt =====
-- `Hdlc::decode` of src/iface/hdlc.rs on a whole frame and on one that is cut short.
use mathlib.Core.List.{append_assoc}
use reticulum_sdk.Base.{
  ℕ, ◌+◌, ◌≤◌, ◌≡◌, refl, ap, ◌∙◌, sym, List, [], ◌∷◌, ◌++◌, length, arith, Bool, true, false, inl,
  inr, All, ◌⊎◌,
}
use reticulum_sdk.Error.{Result, ok, err, then_do, then_do_ok, out_of_memory}
use reticulum_sdk.Buffer.Output.{OutputBuffer, advance, write, write_byte, as_slice}
use reticulum_sdk.Buffer.Append.{
  write_fits, advance-advance, advance-nil, capacity-advance, offset-advance, as_slice-advance,
}
use reticulum_sdk.Iface.Hdlc.{decode_loop, decode, finish}
use reticulum_sdk.Iface.Hdlc.Frame.{stuff, stuffed, frame, IsPlain}

-- One stuffed byte comes out as the byte that was stuffed.
write_byte_fits :
    (b : OutputBuffer) (x : ℕ)
    → b.offset + 1 ≤ length b.buffer
    → write_byte x b ≡ (ok 1, advance b (x ∷ []))
unfolding write_byte
write_byte_fits b x h = write_fits b (x ∷ []) h

decode_stuff :
    (byte : ℕ) (rest : List ℕ) (b : OutputBuffer)
    → decode_loop true false (stuff byte ++ rest) b
      ≡ then_do (write_byte byte b) (λ _. decode_loop true false rest)
unfolding decode_loop stuff
decode_stuff byte rest b = ground arith

decode_stuffed :
    (bytes rest : List ℕ) (b : OutputBuffer)
    → b.offset + length bytes ≤ length b.buffer
    → decode_loop true false (stuffed bytes ++ rest) b
      ≡ decode_loop true false rest (advance b bytes)
unfolding stuffed
decode_stuffed [] rest b h = ap (decode_loop true false rest) (sym (advance-nil b (omega arith)))
decode_stuffed (x ∷ xs) rest b h = rw append_assoc (
    decode_stuff x (stuffed xs ++ rest) b
    ∙ then_do_ok _ _ (write_byte_fits b x one)
    ∙ decode_stuffed xs rest (advance b (x ∷ []))
        (omega (arith, capacity-advance b (x ∷ []) one, offset-advance b (x ∷ []) one))
    ∙ ap (decode_loop true false rest) (advance-advance b (x ∷ []) xs (omega arith)))
  where
    one : b.offset + 1 ≤ length b.buffer
    one = omega arith

decode_loop-frame :
    (bytes rest : List ℕ) (b : OutputBuffer)
    → b.offset + length bytes ≤ length b.buffer
    → decode_loop false false (frame bytes ++ rest) b ≡ (ok true, advance b bytes)
unfolding frame decode_loop
decode_loop-frame bytes rest b h = rw append_assoc (decode_stuffed bytes (0x7e ∷ rest) b h)

-- `Hdlc::decode` of a frame, whatever follows it, into a buffer with room for the framed bytes
-- appends exactly those bytes and returns the new offset.
pub decode-frame :
    (bytes rest : List ℕ) (b : OutputBuffer)
    → b.offset + length bytes ≤ length b.buffer
    → ((decode (frame bytes ++ rest) b).0 ≡ ok (b.offset + length bytes))
      × (as_slice (decode (frame bytes ++ rest) b).1 ≡ as_slice b ++ bytes)
unfolding decode finish
decode-frame bytes rest b h =
    rw (decode_loop-frame bytes rest b h)
      (ap ok (offset-advance b bytes h), as_slice-advance b bytes h)

write_byte_cases :
    (x : ℕ) (b : OutputBuffer)
    → (write_byte x b ≡ (ok 1, advance b (x ∷ []))) ⊎ (write_byte x b ≡ (err out_of_memory, b))
unfolding write_byte write
write_byte_cases x b = ground arith

abbrev Unfinished : Result Bool → Type 0
Unfinished r = (r ≡ ok false) ⊎ (r ≡ err out_of_memory)

-- A byte is written before the loop goes on, or the loop ends with the error of the write.
write_byte-Unfinished :
    (x : ℕ) (b : OutputBuffer) (k : OutputBuffer → Result Bool × OutputBuffer)
    → Unfinished (k (advance b (x ∷ []))).0
    → Unfinished (then_do (write_byte x b) (λ _. k)).0
write_byte-Unfinished x b k h = elim (write_byte_cases x b) [
  | inl e ↦ rw e h
  | inr e ↦ rw e (inr refl)
]

decode_loop-Unfinished :
    (started escape : Bool) (xs : List ℕ) (b : OutputBuffer)
    → All IsPlain xs
    → Unfinished (decode_loop started escape xs b).0
unfolding decode_loop
decode_loop-Unfinished started escape [] b h = inl refl
decode_loop-Unfinished started true (x ∷ xs) b h =
    write_byte-Unfinished _ b _ (decode_loop-Unfinished started false xs _ h.1)
decode_loop-Unfinished started false (x ∷ xs) b h =
    let escaped = decode_loop-Unfinished started true xs b h.1 in
    let plain =
      write_byte-Unfinished x b (decode_loop started false xs)
        (decode_loop-Unfinished started false xs _ h.1) in
    ground (arith, h.0, escaped, plain)

-- Input in which no flag follows the first byte is refused, wherever it was cut (also inside an
-- escape sequence) and whatever the room in the buffer: the result is `OutOfMemory`.
decode_truncated :
    (xs : List ℕ) (b : OutputBuffer) → All IsPlain xs → (decode (0x7e ∷ xs) b).0 ≡ err out_of_memory
unfolding decode decode_loop finish
decode_truncated xs b h = elim (decode_loop-Unfinished true false xs b h) [
  | inl e ↦ ground arith
  | inr e ↦ ground arith
]
