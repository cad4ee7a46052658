-- ===== src/Error.antt =====
-- src/error.rs: `RnsError` and Rust's `Result` over it. A method on `&mut self` that can fail is a
-- state transformer that keeps the state also when it fails: what was written before the error
-- stays written.
use reticulum_sdk.Base.{Option, none, some, ◌≡◌, ap}

pub data RnsError : Type 0 where
  out_of_memory invalid_argument incorrect_signature incorrect_hash crypto_error packet_error :
      RnsError
  connection_error link_closed channel_error channel_link_not_ready channel_message_too_big :
      RnsError
  channel_unknown_message_type : RnsError

pub data Result (A : Type 0) : Type 0 where
  ok : A → Result A
  err : RnsError → Result A

-- `Result<A, RnsError>` of a method on `&mut S`.
abbrev pub Fallible : Type 0 → Type 0 → Type 0
Fallible S A = S → Result A × S

abbrev pub then_do : {S A B : Type 0} → Result A × S → (A → Fallible S B) → Result B × S
then_do (ok a, s) f = f a s
then_do (err e, s) f = (err e, s)

-- The `?` operator: the first error ends the method.
infixl 5 ◌>>=◌ ◌>>◌
abbrev pub ◌>>=◌ : {S A B : Type 0} → Fallible S A → (A → Fallible S B) → Fallible S B
◌>>=◌ m f s = then_do (m s) f

abbrev pub ◌>>◌ : {S A B : Type 0} → Fallible S A → Fallible S B → Fallible S B
◌>>◌ m k s = then_do (m s) (λ _. k)

abbrev pub return : {S A : Type 0} → A → Fallible S A
return a s = (ok a, s)

abbrev pub fail : {S A : Type 0} → RnsError → Fallible S A
fail e s = (err e, s)

-- `Option::ok_or(e)?`
abbrev pub ok_or : {S A : Type 0} → Option A → RnsError → Fallible S A
ok_or none e s = (err e, s)
ok_or (some a) e s = (ok a, s)

module _ {S A B : Type 0} where
  pub then_do_ok :
      (p : Result A × S) (f : A → Fallible S B) {a : A} {s : S}
      → p ≡ (ok a, s)
      → then_do p f ≡ f a s
  then_do_ok p f e = ap (λ q. then_do q f) e

  pub then_do_err :
      (p : Result A × S) (f : A → Fallible S B) {e : RnsError}
      → p.0 ≡ err e
      → (then_do p f).0 ≡ err e
  then_do_err (ok a, s) f h = cc
  then_do_err (err e, s) f h = cc
