-- ===== src/Buffer/Append.antt =====
-- src/buffer.rs, `OutputBuffer::write` against its abstract view: a bounded sequence of bytes that
-- grows at its end.
use mathlib.Core.List.{append_assoc}
use mathlib.Core.Path.{ap₂, ◌≡⟨◌⟩◌, ◌∎}
use native.Mathlib.Nat.{add-zero}
use native.Mathlib.Decide.{dec_le}
use reticulum_sdk.Base.{
  ℕ, ◌+◌, ◌≤◌, ◌<◌, ◌≡◌, refl, sym, ap, ◌∙◌, List, [], ◌∷◌, ◌++◌, length, take, drop, leb, arith,
  le→leb, lt→leb, Bool, if◌then◌else◌, length-append, length-take, length-drop, take-append-drop,
  take_front, drop_past, drop-drop,
}
use reticulum_sdk.Error.{ok, err, out_of_memory}
use reticulum_sdk.Buffer.Output.{OutputBuffer, splice, advance, write, as_slice, InBounds}

module _ (buffer : List ℕ) (at : ℕ) (bytes : List ℕ)
    (fits : at + length bytes ≤ length buffer) where
  pub length-splice : length (splice buffer at bytes) ≡ length buffer
  unfolding splice
  length-splice = omega (
    arith,
    length-append (take at buffer) (bytes ++ drop (at + length bytes) buffer),
    length-append bytes (drop (at + length bytes) buffer),
    length-take at buffer,
    length-drop (at + length bytes) buffer,
  )

  length-front : length (take at buffer ++ bytes) ≡ at + length bytes
  length-front = omega (arith, length-append (take at buffer) bytes, length-take at buffer)

  splice_split :
      splice buffer at bytes ≡ (take at buffer ++ bytes) ++ drop (at + length bytes) buffer
  unfolding splice
  splice_split = sym (append_assoc (take at buffer) bytes (drop (at + length bytes) buffer))

  pub take-splice : take (at + length bytes) (splice buffer at bytes) ≡ take at buffer ++ bytes
  take-splice = rw splice_split (take_front _ _ _ length-front)

  drop-splice :
      (k : ℕ)
      → drop (at + length bytes + k) (splice buffer at bytes) ≡ drop (at + length bytes + k) buffer
  drop-splice k =
      rw splice_split (drop_past _ k _ _ length-front ∙ drop-drop (at + length bytes) k buffer)

splice_parts :
    (buffer : List ℕ) (at : ℕ) (bytes : List ℕ)
    → splice buffer at bytes ≡ take at buffer ++ (bytes ++ drop (at + length bytes) buffer)
unfolding splice
splice_parts buffer at bytes = refl

-- Two writes in a row are one write.
splice-splice :
    (buffer : List ℕ) (at : ℕ) (xs ys : List ℕ)
    → at + (length xs + length ys) ≤ length buffer
    → splice (splice buffer at xs) (at + length xs) ys ≡ splice buffer at (xs ++ ys)
splice-splice buffer at xs ys fits =
    let front : at + length xs ≤ length buffer = omega arith in
    splice (splice buffer at xs) (at + length xs) ys
    ≡⟨ splice_parts (splice buffer at xs) (at + length xs) ys ⟩
      take (at + length xs) (splice buffer at xs)
      ++ (ys ++ drop (at + length xs + length ys) (splice buffer at xs))
    ≡⟨ ap₂ (λ front' back. front' ++ (ys ++ back)) (take-splice buffer at xs front)
        (drop-splice buffer at xs front (length ys)) ⟩
      (take at buffer ++ xs) ++ (ys ++ drop (at + length xs + length ys) buffer)
    ≡⟨ append_assoc (take at buffer) xs _ ⟩
      take at buffer ++ (xs ++ (ys ++ drop (at + length xs + length ys) buffer))
    ≡⟨ ap (λ tail. take at buffer ++ tail)
        (sym (append_assoc xs ys _) ∙ ap (λ n. (xs ++ ys) ++ drop n buffer) total) ⟩
      take at buffer ++ ((xs ++ ys) ++ drop (at + length (xs ++ ys)) buffer)
    ≡⟨ sym (splice_parts buffer at (xs ++ ys)) ⟩ splice buffer at (xs ++ ys) ∎
  where
    total : at + length xs + length ys ≡ at + length (xs ++ ys)
    total = omega (arith, length-append xs ys)

pub advance-nil : (b : OutputBuffer) → InBounds b → advance b [] ≡ b
unfolding advance splice
advance-nil b h = λ i. record { buffer = whole i; offset = add-zero b.offset i }
  where
    whole : take b.offset b.buffer ++ drop (b.offset + 0) b.buffer ≡ b.buffer
    whole = rw add-zero (take-append-drop b.offset b.buffer)

module _ (b : OutputBuffer) (bytes : List ℕ)
    (fits : b.offset + length bytes ≤ length b.buffer) where
  pub capacity-advance : length (advance b bytes).buffer ≡ length b.buffer
  unfolding advance
  capacity-advance = length-splice b.buffer b.offset bytes fits

  pub offset-advance : (advance b bytes).offset ≡ b.offset + length bytes
  unfolding advance
  offset-advance = refl

  pub as_slice-advance : as_slice (advance b bytes) ≡ as_slice b ++ bytes
  unfolding advance as_slice
  as_slice-advance = take-splice b.buffer b.offset bytes fits

pub write_fits :
    (b : OutputBuffer) (bytes : List ℕ)
    → b.offset + length bytes ≤ length b.buffer
    → write bytes b ≡ (ok (length bytes), advance b bytes)
unfolding write
write_fits b [] fits = ap (λ s. (ok 0, s)) (sym (advance-nil b (omega arith)))
write_fits b (x ∷ xs) fits = ground arith

pub write_overflow :
    (b : OutputBuffer) (bytes : List ℕ)
    → InBounds b
    → length b.buffer < b.offset + length bytes
    → write bytes b ≡ (err out_of_memory, b)
unfolding write
write_overflow b bytes inside over = ground arith

pub advance-advance :
    (b : OutputBuffer) (xs ys : List ℕ)
    → b.offset + (length xs + length ys) ≤ length b.buffer
    → advance (advance b xs) ys ≡ advance b (xs ++ ys)
unfolding advance
advance-advance b xs ys fits =
    λ i. record { buffer = splice-splice b.buffer b.offset xs ys fits i; offset = total i }
  where
    total : b.offset + length xs + length ys ≡ b.offset + length (xs ++ ys)
    total = omega (arith, length-append xs ys)

-- Whether the bytes fit behind the cursor.
abbrev pub fits_in : OutputBuffer → List ℕ → Bool
fits_in b bytes = leb (b.offset + length bytes) (length b.buffer)

-- On a buffer whose cursor is within its storage, a write either appends all of the bytes and
-- returns how many they are, or, when they do not fit, returns `OutOfMemory` and appends nothing.
-- In both cases the storage keeps its size and the cursor stays within it.
write_appends :
    (b : OutputBuffer) (bytes : List ℕ)
    → InBounds b
    → ((write bytes b).0 ≡ (if fits_in b bytes then ok (length bytes) else err out_of_memory))
      × (as_slice (write bytes b).1 ≡ (if fits_in b bytes then as_slice b ++ bytes else as_slice b))
      × (length (write bytes b).1.buffer ≡ length b.buffer)
      × InBounds (write bytes b).1
write_appends b bytes inside = elim (dec_le (b.offset + length bytes) (length b.buffer)) [
  | yes fits ↦
      rw (write_fits b bytes fits, le→leb (b.offset + length bytes) (length b.buffer) fits)
        (
          refl,
          as_slice-advance b bytes fits,
          capacity-advance b bytes fits,
          omega (arith, capacity-advance b bytes fits, offset-advance b bytes fits),
        )
  | no over ↦
      rw
        (
          write_overflow b bytes inside (omega arith),
          lt→leb (b.offset + length bytes) (length b.buffer) (omega arith),
        )
        (refl, refl, refl, inside)
]
