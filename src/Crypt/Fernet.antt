-- ===== src/Crypt/Fernet.antt =====
-- src/crypt/fernet.rs: tokens, which are a random IV, the AES-CBC ciphertext and an HMAC tag. The
-- ciphers are parameters. A call that panics has the outcome `none`.
pub mod Tokens
mod Tests
use mathlib.Core.Logic.{ite}
use reticulum_sdk.Base.{
  ℕ, ◌+◌, ◌-◌, List, [], ◌∷◌, ◌++◌, length, take, drop, replicate, Option, none, some, Bool, ltb,
  leb, if◌then◌else◌, bytes_discrete,
}
use reticulum_sdk.Error.{Result, ok, err, invalid_argument, incorrect_signature, crypto_error}

abbrev pub hmac_out_size : ℕ
hmac_out_size = 32

-- AES-256, which is used unless the feature `fernet-aes128` is set.
abbrev pub aes_key_size : ℕ
aes_key_size = 32

abbrev pub iv_key_size : ℕ
iv_key_size = 16

abbrev pub fernet_overhead_size : ℕ
fernet_overhead_size = iv_key_size + hmac_out_size

pub record PlainText : Type 0 where
  pub text : List ℕ

pub record VerifiedToken : Type 0 where
  pub verified : List ℕ

pub record Token : Type 0 where
  pub bytes : List ℕ

-- The keys; the random numbers are arguments of `encrypt`.
pub record Fernet : Type 0 where
  pub sign_key : List ℕ
  pub enc_key : List ℕ

-- What the code calls in other crates. `encrypt_padded key iv text room` and
-- `decrypt_padded key iv ciphertext room` write into a buffer of `room` bytes.
pub record Ciphers : Type 0 where
  pub encrypt_padded : List ℕ → List ℕ → List ℕ → ℕ → Option (List ℕ)
  pub decrypt_padded : List ℕ → List ℕ → List ℕ → ℕ → Option (List ℕ)
  pub hmac : List ℕ → List ℕ → Option (List ℕ)

-- A zeroed key with the slice copied to its front. The copy panics on a slice that is longer.
unfoldable pub key_from_slice : List ℕ → Option (List ℕ)
key_from_slice slice =
    if ltb aes_key_size (length slice)
    then none
    else some (slice ++ replicate (aes_key_size - length slice) 0)

-- `Fernet::new_from_slices`
unfoldable pub new_from_slices : List ℕ → List ℕ → Option Fernet
new_from_slices sign_key enc_key = elim (key_from_slice sign_key) [
  | none ↦ none
  | some sign_key_bytes ↦ elim (key_from_slice enc_key) [
    | none ↦ none
    | some enc_key_bytes ↦ some (record { sign_key = sign_key_bytes; enc_key = enc_key_bytes })
  ]
]

module _ (ciphers : Ciphers) (f : Fernet) where
  -- The tag is written after `out` into a buffer of `room` bytes, of which the token is the front.
  unfoldable pub append_tag : List ℕ → ℕ → Option (Result Token)
  append_tag out room = elim (ciphers.hmac f.sign_key out) [
    | none ↦ some (err invalid_argument)
    | some tag ↦
        if ltb room (length out + length tag)
        then none
        else some (ok (record { bytes = out ++ tag }))
  ]

  -- `Fernet::encrypt`, with the IV that the generator gives and the size of `out_buf`.
  unfoldable pub encrypt : List ℕ → PlainText → ℕ → Option (Result Token)
  unfolding append_tag
  encrypt iv plain room =
      if leb room fernet_overhead_size
      then some (err invalid_argument)
      else (elim (ciphers.encrypt_padded f.enc_key iv plain.text (room - length iv)) [
        | none ↦ none
        | some ciphertext ↦ append_tag (iv ++ ciphertext) room
      ])

  -- `Fernet::verify`
  unfoldable pub verify : Token → Result VerifiedToken
  verify token =
      let token_data = token.bytes in
      let at = length token_data - hmac_out_size in
      if leb (length token_data) fernet_overhead_size
      then err invalid_argument
      else (elim (ciphers.hmac f.sign_key (take at token_data)) [
        | none ↦ err invalid_argument
        | some actual_tag ↦
            ite (bytes_discrete (drop at token_data) actual_tag)
              (ok (record { verified = token_data })) (err incorrect_signature)
      ])

  -- `Fernet::decrypt`, with the size of `out_buf`.
  unfoldable pub decrypt : VerifiedToken → ℕ → Result PlainText
  decrypt token room =
      let token_data = token.verified in
      let tag_start_index = length token_data - hmac_out_size in
      let iv_bytes = take iv_key_size token_data in
      let ciphertext = drop iv_key_size (take tag_start_index token_data) in
      if leb (length token_data) fernet_overhead_size
      then err invalid_argument
      else (elim (ciphers.decrypt_padded f.enc_key iv_bytes ciphertext room) [
        | none ↦ err crypto_error
        | some msg ↦ ok (record { text = msg })
      ])
