-- ===== src/Buffer/Reading.antt =====
-- src/buffer.rs, `InputBuffer` against its abstract view: the list of the bytes still to be read.
use native.Mathlib.Decide.{dec_le}
use reticulum_sdk.Base.{
  ℕ, ◌+◌, ◌-◌, ◌≤◌, ◌<◌, ◌≡◌, refl, sym, ap, ◌∙◌, List, [], ◌∷◌, ◌++◌, length, take, drop, leb,
  arith, if◌then◌else◌, length-drop, length-append, take_front, drop_front, drop-drop, le→leb,
  lt→leb,
}
use reticulum_sdk.Error.{ok, err, out_of_memory}
use reticulum_sdk.Buffer.Input.{InputBuffer, input_new, read, read_byte, rest, bytes_left}

abbrev pub Readable : InputBuffer → Type 0
Readable b = b.offset ≤ length b.buffer

-- The cursor, moved on.
abbrev pub skip : ℕ → InputBuffer → InputBuffer
skip n b = record b { offset = b.offset + n }

pub length-rest : (b : InputBuffer) → length (rest b) ≡ length b.buffer - b.offset
unfolding rest
length-rest b = length-drop b.offset b.buffer

pub bytes_left_lem : (b : InputBuffer) → bytes_left b ≡ length (rest b)
unfolding bytes_left
bytes_left_lem b = sym (length-rest b)

pub rest-skip : (n : ℕ) (b : InputBuffer) → rest (skip n b) ≡ drop n (rest b)
unfolding rest
rest-skip n b = sym (drop-drop b.offset n b.buffer)

pub rest-new : (bytes : List ℕ) → rest (input_new bytes) ≡ bytes
unfolding rest input_new
rest-new bytes = refl

pub read_enough :
    (n : ℕ) (b : InputBuffer)
    → Readable b
    → n ≤ length (rest b)
    → read n b ≡ (ok (take n (rest b)), skip n b)
unfolding read rest
read_enough n b inside enough = ground (arith, length-drop b.offset b.buffer)

pub read_short :
    (n : ℕ) (b : InputBuffer) → Readable b → length (rest b) < n → read n b ≡ (err out_of_memory, b)
unfolding read rest
read_short n b inside short = ground (arith, length-drop b.offset b.buffer)

-- On a buffer whose cursor is within its bytes, `read` of `n` bytes returns the next `n` bytes and
-- moves past them, or, when fewer are left, returns `OutOfMemory` and moves nothing. The cursor
-- stays within the bytes.
read_takes :
    (n : ℕ) (b : InputBuffer)
    → Readable b
    → ((read n b).0 ≡ (if leb n (length (rest b)) then ok (take n (rest b)) else err out_of_memory))
      × (rest (read n b).1 ≡ (if leb n (length (rest b)) then drop n (rest b) else rest b))
      × Readable (read n b).1
read_takes n b inside = elim (dec_le n (length (rest b))) [
  | yes enough ↦
      rw (read_enough n b inside enough, le→leb n (length (rest b)) enough)
        (refl, rest-skip n b, omega (arith, length-rest b))
  | no short ↦
      rw (read_short n b inside (omega arith), lt→leb n (length (rest b)) (omega arith))
        (refl, refl, inside)
]

-- A read of exactly the bytes in front.
module _ (b : InputBuffer) (xs ys : List ℕ) (inside : Readable b) (front : rest b ≡ xs ++ ys) where
  pub skip-Readable : Readable (skip (length xs) b)
  skip-Readable = omega (arith, length-rest b, ap (length {A = ℕ}) front, length-append xs ys)

  pub rest-skip_front : rest (skip (length xs) b) ≡ ys
  rest-skip_front =
      rest-skip (length xs) b ∙ ap (drop (length xs)) front ∙ drop_front (length xs) xs ys refl

  pub read_front : read (length xs) b ≡ (ok xs, skip (length xs) b)
  read_front =
      read_enough (length xs) b inside
        (omega (arith, ap (length {A = ℕ}) front, length-append xs ys))
      ∙ ap (λ got. (ok got, skip (length xs) b))
          (ap (take (length xs)) front ∙ take_front (length xs) xs ys refl)

pub read_byte_front :
    (b : InputBuffer) (x : ℕ) (ys : List ℕ)
    → Readable b
    → rest b ≡ x ∷ ys
    → read_byte b ≡ (ok x, skip 1 b)
unfolding read_byte
read_byte_front b x ys inside front = rw (read_front b (x ∷ []) ys inside front)
