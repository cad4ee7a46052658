-- ===== src/Buffer/Bounded.antt =====
-- src/buffer.rs, `StaticBuffer<N>`: the writes that fail and the writes that truncate.
use mathlib.Core.List.{append-nil}
use native.Mathlib.Decide.{dec_le}
use reticulum_sdk.Base.{
  ℕ, ◌+◌, ◌-◌, ◌≤◌, ◌≡◌, refl, sym, ap, ◌∙◌, List, [], ◌∷◌, ◌++◌, length, take, arith, length-take,
  length-replicate, take_all, min, replicate, suc,
}
use reticulum_sdk.Error.{ok}
use reticulum_sdk.Buffer.Append.{length-splice, take-splice}
use reticulum_sdk.Buffer.Output.{splice}
use reticulum_sdk.Buffer.Static.{
  StaticBuffer, static_new, static_write, safe_write, static_slice, static_from_slice,
}

abbrev pub InUse : StaticBuffer → Type 0
InUse b = b.len ≤ length b.buffer

-- The part of `bytes` that the buffer has room for.
abbrev pub room_for : List ℕ → StaticBuffer → List ℕ
room_for bytes b = take (length b.buffer - b.len) bytes

static_write_room :
    (b : StaticBuffer) (x : ℕ) (xs : List ℕ)
    → b.len + suc (length xs) ≤ length b.buffer
    → static_write (x ∷ xs) b ≡ (
      ok (suc (length xs)),
      record { buffer = splice b.buffer b.len (x ∷ xs); len = b.len + suc (length xs) },
    )
unfolding static_write
static_write_room b x xs fits = ground arith

-- `write` of bytes that fit appends them.
pub static_write_fits :
    (b : StaticBuffer) (bytes : List ℕ)
    → b.len + length bytes ≤ length b.buffer
    → ((static_write bytes b).0 ≡ ok (length bytes))
      × (static_slice (static_write bytes b).1 ≡ static_slice b ++ bytes)
      × (length (static_write bytes b).1.buffer ≡ length b.buffer)
      × InUse (static_write bytes b).1
unfolding static_write static_slice
static_write_fits b [] fits = (refl, sym (append-nil _), refl, omega arith)
static_write_fits b (x ∷ xs) fits = rw (static_write_room b x xs fits) (
  refl,
  take-splice b.buffer b.len (x ∷ xs) fits,
  length-splice b.buffer b.len (x ∷ xs) fits,
  omega (arith, length-splice b.buffer b.len (x ∷ xs) fits),
)

take-min : (n : ℕ) (xs : List ℕ) → take (min (length xs) n) xs ≡ take n xs
take-min n xs = elim (dec_le (length xs) n) [
  | yes h ↦
      let e : min (length xs) n ≡ length xs = omega arith in
      rw e (take_all (length xs) xs (omega arith) ∙ sym (take_all n xs h))
  | no h ↦ let e : min (length xs) n ≡ n = omega arith in rw e
]

-- `safe_write` never fails on a buffer whose length is within its storage: it appends the longest
-- prefix of the bytes that fits, and returns how many bytes that is.
safe_write_appends :
    (b : StaticBuffer) (bytes : List ℕ)
    → InUse b
    → ((safe_write bytes b).0 ≡ length (room_for bytes b))
      × (static_slice (safe_write bytes b).1 ≡ static_slice b ++ room_for bytes b)
      × (length (safe_write bytes b).1.buffer ≡ length b.buffer)
      × InUse (safe_write bytes b).1
unfolding safe_write
safe_write_appends b bytes inside =
    let wrote = static_write_fits b (room_for bytes b) (omega (arith, length-take room bytes)) in
    rw (take-min room bytes, wrote.0) (refl, wrote.1, wrote.2, wrote.3)
  where
    room : ℕ
    room = length b.buffer - b.len

-- A new buffer of `n` bytes filled from a slice holds the slice's first `n` bytes.
pub static_from_slice-take :
    (n : ℕ) (bytes : List ℕ) → static_slice (static_from_slice n bytes) ≡ take n bytes
unfolding static_from_slice static_new static_slice
static_from_slice-take n bytes =
    let wrote = safe_write_appends (static_new n) bytes (omega arith) in
    wrote.1 ∙ ap (λ k. take k bytes) room
  where
    room : length {A = ℕ} (replicate n 0) - 0 ≡ n
    room = omega (arith, length-replicate {0} {A = ℕ} n 0)
