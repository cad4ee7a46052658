-- ===== src/Buffer/Input.antt =====
-- src/buffer.rs, `InputBuffer`: a cursor that reads a borrowed slice.
use reticulum_sdk.Base.{ℕ, ◌+◌, ◌-◌, List, [], ◌∷◌, length, take, drop, ltb, if◌then◌else◌}
use reticulum_sdk.Error.{ok, err, Fallible, then_do, out_of_memory}

pub record InputBuffer : Type 0 where
  pub buffer : List ℕ
  pub offset : ℕ

unfoldable pub input_new : List ℕ → InputBuffer
input_new buffer = record { buffer = buffer; offset = 0 }

-- `read` into a slice of `size` bytes: the bytes, or `OutOfMemory` with the cursor where it was.
unfoldable pub read : ℕ → Fallible InputBuffer (List ℕ)
read size b =
    if ltb (length b.buffer) (b.offset + size)
    then (err out_of_memory, b)
    else (ok (take size (drop b.offset b.buffer)), record b { offset = b.offset + size })

unfoldable pub read_slice : ℕ → Fallible InputBuffer (List ℕ)
read_slice size b =
    if ltb (length b.buffer) (b.offset + size)
    then (err out_of_memory, b)
    else (let slice = take size (drop b.offset b.buffer) in
        (ok slice, record b { offset = b.offset + size }))

-- `read_size` into a slice of `room` bytes.
unfoldable pub read_size : ℕ → ℕ → Fallible InputBuffer (List ℕ)
read_size room size b =
    if ltb (length b.buffer) (b.offset + size)
    then (err out_of_memory, b)
    else (if ltb room size
        then (err out_of_memory, b)
        else (ok (take size (drop b.offset b.buffer)), record b { offset = b.offset + size }))

abbrev first_byte : List ℕ → ℕ
first_byte [] = 0
first_byte (x ∷ xs) = x

unfoldable pub read_byte : Fallible InputBuffer ℕ
read_byte b = then_do (read 1 b) (λ bytes s. (ok (first_byte bytes), s))

unfoldable pub bytes_left : InputBuffer → ℕ
bytes_left b = length b.buffer - b.offset

-- What is still to be read.
unfoldable pub rest : InputBuffer → List ℕ
rest b = drop b.offset b.buffer
