-- ===== src/Buffer/Readers.antt =====
-- Methods that take a fixed sequence of bytes from an `InputBuffer` (src/buffer.rs), and how they
-- compose: the contract that `deserialize` is proved against.
use mathlib.Core.List.{append_assoc}
use reticulum_sdk.Base.{
  ℕ, ◌+◌, ◌≡◌, sym, ap, ◌∙◌, List, [], ◌∷◌, ◌++◌, length, arith, length-append,
}
use reticulum_sdk.Error.{ok, Fallible, ◌>>=◌, then_do_ok, return}
use reticulum_sdk.Buffer.Input.{InputBuffer, read, read_byte, rest}
use reticulum_sdk.Buffer.Reading.{
  Readable, skip, skip-Readable, rest-skip_front, read_front, read_byte_front,
}

-- With `xs` and then `tail` still to be read, `m` takes `xs` and returns `value`.
pub record Reads {A : Type 0} (m : Fallible InputBuffer A) (xs : List ℕ) (value : A) (tail : List ℕ)
    : Type 0 where
  pub reads :
      (b : InputBuffer) → Readable b → rest b ≡ xs ++ tail → m b ≡ (ok value, skip (length xs) b)

skip-skip :
    (b : InputBuffer) (xs ys : List ℕ)
    → skip (length ys) (skip (length xs) b) ≡ skip (length (xs ++ ys)) b
skip-skip b xs ys = λ i. record b { offset = total i }
  where
    total : b.offset + length xs + length ys ≡ b.offset + length (xs ++ ys)
    total = omega (arith, length-append xs ys)

skip-zero : (b : InputBuffer) → skip 0 b ≡ b
skip-zero b = λ i. record b { offset = total i }
  where
    total : b.offset + 0 ≡ b.offset
    total = omega arith

pub return-Reads : {A : Type 0} (value : A) (tail : List ℕ) → Reads (return value) [] value tail
return-Reads value tail = record {
  reads = λ b inside front. ap (λ s. (ok value, s)) (sym (skip-zero b));
}

pub read-Reads : (n : ℕ) (xs tail : List ℕ) → length xs ≡ n → Reads (read n) xs xs tail
read-Reads n xs tail e = record {
  reads = λ b inside front. rw (← e) (read_front b xs tail inside front);
}

pub read_byte-Reads : (x : ℕ) (tail : List ℕ) → Reads read_byte (x ∷ []) x tail
read_byte-Reads x tail = record { reads = λ b inside front. read_byte_front b x tail inside front }

module _ {A B : Type 0} (m : Fallible InputBuffer A) (f : A → Fallible InputBuffer B)
    (xs ys tail : List ℕ) {a : A} {c : B} (first : Reads m xs a (ys ++ tail))
    (second : Reads (f a) ys c tail) where
  pub bind-Reads : Reads (m >>= f) (xs ++ ys) c tail
  bind-Reads = record {
    reads = λ b inside front.
        let split = front ∙ append_assoc xs ys tail in
        then_do_ok (m b) f (first.reads b inside split)
        ∙ second.reads (skip (length xs) b) (skip-Readable b xs (ys ++ tail) inside split)
            (rest-skip_front b xs (ys ++ tail) inside split)
        ∙ ap (λ s. (ok c, s)) (skip-skip b xs ys);
  }
