-- ===== src/Identity/Hex.antt =====
-- The hex strings of src/hash.rs and src/identity.rs, written and read back.
use reticulum_sdk.Base.{
  ℕ, ◌+◌, ◌*◌, ◌/◌, ◌%◌, ◌<◌, ◌≡◌, refl, ap, ap₂, sym, ◌∙◌, List, [], ◌∷◌, ◌++◌, length, All, some,
  arith, take_front, drop_front, length-append, le→ltb,
}
use reticulum_sdk.Base.Bytes.{IsByte}
use mathlib.Core.List.{append-nil}
use reticulum_sdk.Error.{Result, ok}
use reticulum_sdk.Identity.{
  hex_char, hex_encode, hex_digit, decode_byte, hex_loop, hex_decode, from_keys, read_keys, Curves,
  IsSound, identity_new, identity_new_from_slices, with_verifying_key, identity_new_from_hex_string,
  identity_to_hex_string, private_identity_new, private_new_from_hex_string, private_to_hex_string,
}

digit_back : (n : ℕ) → n < 16 → hex_digit (hex_char n) ≡ some n
unfolding hex_digit hex_char
digit_back n h = ground arith

pub length-hex_encode : (bytes : List ℕ) → length (hex_encode bytes) ≡ length bytes * 2
unfolding hex_encode
length-hex_encode [] = omega arith
length-hex_encode (byte ∷ bytes) = omega (arith, length-hex_encode bytes)

joined : (byte : ℕ) → byte / 16 * 16 + byte % 16 ≡ byte
joined byte = omega arith

loop_back :
    (bytes rest : List ℕ)
    → All IsByte bytes
    → hex_loop (length bytes) (hex_encode bytes ++ rest) ≡ ok bytes
unfolding hex_loop hex_encode
loop_back [] rest all = refl
loop_back (byte ∷ bytes) rest (first, all) = rw (
  digit_back (byte / 16) (omega arith),
  digit_back (byte % 16) (omega arith),
  loop_back bytes rest all,
  decode_byte,
  joined byte,
)

-- Bytes are read back from their hex string, whatever follows it.
pub hex_decode-hex_encode :
    (bytes rest : List ℕ)
    → All IsByte bytes
    → hex_decode (length bytes) (hex_encode bytes ++ rest) ≡ ok bytes
unfolding hex_decode
hex_decode-hex_encode bytes rest all =
    let len : length (hex_encode bytes ++ rest) ≡ length bytes * 2 + length rest =
      length-append (hex_encode bytes) rest ∙ ap (λ k. k + length rest) (length-hex_encode bytes) in
    rw (
      le→ltb (length (hex_encode bytes ++ rest)) (length bytes * 2) (omega arith),
      loop_back bytes rest all,
    )

module _ (first second : List ℕ) (firsts : length first ≡ 32) (seconds : length second ≡ 32)
    (bytes : All IsByte first) (bytes' : All IsByte second) where
  decode_first : hex_decode 32 (hex_encode first) ≡ ok first
  decode_first =
      ap₂ hex_decode (sym firsts) (sym (append-nil (hex_encode first)))
      ∙ hex_decode-hex_encode first [] bytes

  decode_second : hex_decode 32 (hex_encode second) ≡ ok second
  decode_second =
      ap₂ hex_decode (sym seconds) (sym (append-nil (hex_encode second)))
      ∙ hex_decode-hex_encode second [] bytes'

  hex_len : length (hex_encode first) ≡ 64
  hex_len = omega (arith, length-hex_encode first)

  both_len : length (hex_encode first ++ hex_encode second) ≡ 128
  both_len = omega (
    arith,
    length-append (hex_encode first) (hex_encode second),
    length-hex_encode first,
    length-hex_encode second,
  )

  read_back :
      {A : Type 0} (make : List ℕ → List ℕ → Result A)
      → read_keys make (hex_encode first ++ hex_encode second) ≡ make first second
  unfolding read_keys
  read_back make = rw (
    both_len,
    take_front 64 (hex_encode first) (hex_encode second) hex_len,
    drop_front 64 (hex_encode first) (hex_encode second) hex_len,
    decode_first,
    decode_second,
    from_keys,
  )

module _ {PublicKey VerifyingKey StaticSecret SigningKey : Type 0}
    (curves : Curves PublicKey VerifyingKey StaticSecret SigningKey) (sound : IsSound curves) where
  slices_back :
      (public_key : PublicKey) (verifying_key : VerifyingKey)
      → identity_new_from_slices curves
          (curves.public_bytes public_key)
          (curves.verifying_bytes verifying_key)
        ≡ ok (identity_new curves public_key verifying_key)
  unfolding identity_new_from_slices with_verifying_key
  slices_back public_key verifying_key =
      ap₂ (with_verifying_key curves) (sound.public_back public_key)
        (sound.verifying_back verifying_key)

  -- A public identity is read back from its hex string as the same identity, with its address
  -- hash. The curves read back a key from its 32 bytes.
  pub identity_new_from_hex_string-identity_to_hex_string :
      (public_key : PublicKey) (verifying_key : VerifyingKey)
      → identity_new_from_hex_string curves
          (identity_to_hex_string curves (identity_new curves public_key verifying_key))
        ≡ ok (identity_new curves public_key verifying_key)
  unfolding identity_new_from_hex_string identity_to_hex_string identity_new
  identity_new_from_hex_string-identity_to_hex_string public_key verifying_key =
      read_back (curves.public_bytes public_key) (curves.verifying_bytes verifying_key)
        (sound.public_len public_key) (sound.verifying_len verifying_key)
        (sound.public_all public_key) (sound.verifying_all verifying_key)
        (identity_new_from_slices curves)
      ∙ slices_back public_key verifying_key

  -- A private identity is read back from its hex string as the same identity. The curves read back
  -- a key from its 32 bytes.
  pub private_new_from_hex_string-private_to_hex_string :
      (private_key : StaticSecret) (sign_key : SigningKey)
      → private_new_from_hex_string curves
          (private_to_hex_string curves (private_identity_new curves private_key sign_key))
        ≡ ok (private_identity_new curves private_key sign_key)
  unfolding private_new_from_hex_string private_to_hex_string private_identity_new
  private_new_from_hex_string-private_to_hex_string private_key sign_key = rw (
    read_back (curves.secret_bytes private_key) (curves.signing_bytes sign_key)
        (sound.secret_len private_key) (sound.signing_len sign_key) (sound.secret_all private_key)
        (sound.signing_all sign_key)
        (λ first second.
          ok (private_identity_new curves (curves.secret_from first) (curves.signing_from second))),
    sound.secret_back private_key,
    sound.signing_back sign_key,
  )
