-- ===== src/Buffer/Output.antt =====
-- src/buffer.rs, `OutputBuffer`: a cursor over a borrowed slice of fixed size.
use reticulum_sdk.Base.{
  ℕ, ◌+◌, ◌≤◌, List, [], ◌∷◌, ◌++◌, length, take, drop, ltb, if◌then◌else◌, Bool, ◌==◌,
}
use reticulum_sdk.Error.{ok, err, Fallible, out_of_memory}

pub record OutputBuffer : Type 0 where
  pub buffer : List ℕ
  pub offset : ℕ

unfoldable pub output_new : List ℕ → OutputBuffer
output_new buffer = record { buffer = buffer; offset = 0 }

-- `buffer[at..at + data.len()].copy_from_slice(data)`
unfoldable pub splice : List ℕ → ℕ → List ℕ → List ℕ
splice buffer at data' = take at buffer ++ (data' ++ drop (at + length data') buffer)

-- The state after a write that fits.
unfoldable pub advance : OutputBuffer → List ℕ → OutputBuffer
advance b bytes = record {
  buffer = splice b.buffer b.offset bytes;
  offset = b.offset + length bytes;
}

unfoldable pub write : List ℕ → Fallible OutputBuffer ℕ
write bytes b =
    if length bytes == 0
    then (ok 0, b)
    else (if ltb (length b.buffer) (b.offset + length bytes)
        then (err out_of_memory, b)
        else (ok (length bytes), advance b bytes))

unfoldable pub write_byte : ℕ → Fallible OutputBuffer ℕ
write_byte byte = write (byte ∷ [])

unfoldable pub output_reset : OutputBuffer → OutputBuffer
output_reset b = record b { offset = 0 }

unfoldable pub is_full : OutputBuffer → Bool
is_full b = b.offset == length b.buffer

unfoldable pub as_slice : OutputBuffer → List ℕ
as_slice b = take b.offset b.buffer

-- The cursor stays within the slice.
abbrev pub InBounds : OutputBuffer → Type 0
InBounds b = b.offset ≤ length b.buffer
