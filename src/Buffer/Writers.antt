-- ===== src/Buffer/Writers.antt =====
-- Methods that append a fixed sequence of bytes to an `OutputBuffer` (src/buffer.rs), and how they
-- compose: the contract that `Hdlc::encode` and `Serialize` are proved against.
use native.Mathlib.Decide.{dec_le}
use reticulum_sdk.Base.{
  ℕ, ◌+◌, ◌≤◌, ◌<◌, ◌≡◌, sym, ap, ◌∙◌, List, [], ◌++◌, length, arith, length-append,
}
use reticulum_sdk.Error.{ok, err, out_of_memory, Fallible, ◌>>◌, then_do_ok, then_do_err}
use reticulum_sdk.Buffer.Output.{OutputBuffer, InBounds, advance, write}
use reticulum_sdk.Buffer.Append.{
  write_fits, write_overflow, advance-advance, advance-nil, capacity-advance, offset-advance,
}

-- `m` appends `bytes`, all of them or with an `OutOfMemory`; `value` is its result as a function of
-- the final state.
pub record Appends {A : Type 0} (m : Fallible OutputBuffer A) (bytes : List ℕ)
    (value : OutputBuffer → A) : Type 0 where
  pub fits :
      (b : OutputBuffer)
      → b.offset + length bytes ≤ length b.buffer
      → m b ≡ (ok (value (advance b bytes)), advance b bytes)
  pub over :
      (b : OutputBuffer)
      → InBounds b
      → length b.buffer < b.offset + length bytes
      → (m b).0 ≡ err out_of_memory

pub write-Appends : (bytes : List ℕ) → Appends (write bytes) bytes (λ _. length bytes)
write-Appends bytes = record {
  fits = λ b h. write_fits b bytes h;
  over = λ b inside h. ap (λ p. p.0) (write_overflow b bytes inside h);
}

pub return-Appends :
    {A : Type 0} (value : OutputBuffer → A) → Appends (λ b. (ok (value b), b)) [] value
return-Appends value = record {
  fits = λ b h. ap (λ s. (ok (value s), s)) (sym (advance-nil b (omega arith)));
  over = λ b inside h. absurd (omega arith);
}

module _ {A B : Type 0} (m : Fallible OutputBuffer A) (k : Fallible OutputBuffer B) (xs ys : List ℕ)
    {u : OutputBuffer → A} {v : OutputBuffer → B} (first : Appends m xs u)
    (second : Appends k ys v) where
  then_fits :
      (b : OutputBuffer)
      → b.offset + length (xs ++ ys) ≤ length b.buffer
      → (m >> k) b ≡ (ok (v (advance b (xs ++ ys))), advance b (xs ++ ys))
  then_fits b h =
      let room : b.offset + (length xs + length ys) ≤ length b.buffer =
        omega (arith, length-append xs ys) in
      let front : b.offset + length xs ≤ length b.buffer = omega arith in
      then_do_ok (m b) (λ _. k) (first.fits b front)
      ∙ second.fits (advance b xs)
          (omega (arith, capacity-advance b xs front, offset-advance b xs front))
      ∙ ap (λ s. (ok (v s), s)) (advance-advance b xs ys room)

  then_over :
      (b : OutputBuffer)
      → InBounds b
      → length b.buffer < b.offset + length (xs ++ ys)
      → ((m >> k) b).0 ≡ err out_of_memory
  then_over b inside h = elim (dec_le (b.offset + length xs) (length b.buffer)) [
    | yes front ↦
        ap (λ p. p.0) (then_do_ok (m b) (λ _. k) (first.fits b front))
        ∙ second.over (advance b xs)
            (omega (arith, capacity-advance b xs front, offset-advance b xs front))
            (omega
              (arith, capacity-advance b xs front, offset-advance b xs front, length-append xs ys))
    | no short ↦ then_do_err (m b) (λ _. k) (first.over b inside (omega arith))
  ]

  pub then-Appends : Appends (m >> k) (xs ++ ys) v
  then-Appends = record { fits = then_fits; over = then_over }
