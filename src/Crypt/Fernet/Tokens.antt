-- ===== src/Crypt/Fernet/Tokens.antt =====
-- What src/crypt/fernet.rs promises of its tokens.
use mathlib.Core.Logic.{if_pos, if_neg}
use mathlib.Core.List.{append_assoc}
use native.Mathlib.Decide.{dec_le}
use reticulum_sdk.Base.{
  ℕ, ◌+◌, ◌-◌, ◌*◌, ◌/◌, ◌≤◌, ◌<◌, ◌≡◌, ◌≢◌, ◌↔◌, refl, sym, ap, ◌∙◌, List, ◌++◌, length,
  length-append, take, drop, take_front, drop_front, none, some, le→leb, lt→leb, le→ltb, lt→ltb,
  arith, bytes_discrete,
}
use reticulum_sdk.Error.{ok, err, invalid_argument, incorrect_signature}
use reticulum_sdk.Crypt.Fernet.{
  Fernet, Ciphers, VerifiedToken, Token, encrypt, verify, decrypt, append_tag,
}

-- The size of a text that is padded to whole AES blocks, at least one byte of padding included.
abbrev pub padded : ℕ → ℕ
padded n = (n / 16 + 1) * 16

-- What the code relies on: the sizes of ciphertexts and tags, and that decryption undoes
-- encryption in a buffer with room for the ciphertext.
pub record IsSound (ciphers : Ciphers) : Type 0 where
  pub encrypt_fits :
      (key iv text : List ℕ) (room : ℕ)
      → padded (length text) ≤ room
      → (ciphertext : List ℕ) × (ciphers.encrypt_padded key iv text room ≡ some ciphertext)
        × (length ciphertext ≡ padded (length text))
  pub encrypt_over :
      (key iv text : List ℕ) (room : ℕ)
      → room < padded (length text)
      → ciphers.encrypt_padded key iv text room ≡ none
  pub decrypt_encrypted :
      (key iv text ciphertext : List ℕ) (room room' : ℕ)
      → ciphers.encrypt_padded key iv text room ≡ some ciphertext
      → length ciphertext ≤ room'
      → ciphers.decrypt_padded key iv ciphertext room' ≡ some text
  pub hmac_tag :
      (key bytes : List ℕ)
      → (tag : List ℕ) × (ciphers.hmac key bytes ≡ some tag) × (length tag ≡ 32)

-- A token with its tag, taken apart.
module _ (out tag : List ℕ) (size : length tag ≡ 32) where
  whole-length : length (out ++ tag) ≡ length out + 32
  whole-length = omega (arith, length-append out tag)

  body_at : length out ≡ length (out ++ tag) - 32
  body_at = omega (arith, whole-length)

  take-body : take (length (out ++ tag) - 32) (out ++ tag) ≡ out
  take-body = take_front (length (out ++ tag) - 32) out tag body_at

  drop-body : drop (length (out ++ tag) - 32) (out ++ tag) ≡ tag
  drop-body = drop_front (length (out ++ tag) - 32) out tag body_at

module _ (ciphers : Ciphers) (f : Fernet) where
  verify_tagged :
      (out tag : List ℕ)
      → length tag ≡ 32
      → 16 < length out
      → ciphers.hmac f.sign_key out ≡ some tag
      → verify ciphers f (record { bytes = out ++ tag }) ≡ ok (record { verified = out ++ tag })
  unfolding verify
  verify_tagged out tag size long tagged =
      let enough = lt→leb (length (out ++ tag)) 48 (omega (arith, whole-length out tag size)) in
      rw (enough, take-body out tag size, tagged, drop-body out tag size)
        (if_pos (bytes_discrete tag tag) refl _ _)

  verify_forged :
      (out tag forged : List ℕ)
      → length forged ≡ 32
      → 16 < length out
      → ciphers.hmac f.sign_key out ≡ some tag
      → forged ≢ tag
      → verify ciphers f (record { bytes = out ++ forged }) ≡ err incorrect_signature
  unfolding verify
  verify_forged out tag forged size long tagged other =
      let enough =
        lt→leb (length (out ++ forged)) 48 (omega (arith, whole-length out forged size)) in
      rw (enough, take-body out forged size, tagged, drop-body out forged size)
        (if_neg (bytes_discrete forged tag) other _ _)

  decrypt_tagged :
      (iv ciphertext tag text : List ℕ) (room : ℕ)
      → length tag ≡ 32
      → length iv ≡ 16
      → 1 ≤ length ciphertext
      → ciphers.decrypt_padded f.enc_key iv ciphertext room ≡ some text
      → decrypt ciphers f (record { verified = (iv ++ ciphertext) ++ tag }) room
        ≡ ok (record { text = text })
  unfolding decrypt
  decrypt_tagged iv ciphertext tag text room size iv_size some_bytes plain =
      let out = iv ++ ciphertext in
      let enough =
        lt→leb (length (out ++ tag)) 48
          (omega (arith, whole-length out tag size, length-append iv ciphertext)) in
      let front : take 16 (out ++ tag) ≡ iv =
        ap (take 16) (append_assoc iv ciphertext tag)
        ∙ take_front 16 iv (ciphertext ++ tag) iv_size in
      rw (enough, front, take-body out tag size, drop_front 16 iv ciphertext iv_size, plain) refl

  append_tag_fits :
      (out tag : List ℕ) (room : ℕ)
      → ciphers.hmac f.sign_key out ≡ some tag
      → length out + length tag ≤ room
      → append_tag ciphers f out room ≡ some (ok (record { bytes = out ++ tag }))
  unfolding append_tag
  append_tag_fits out tag room tagged fits =
      rw (tagged, le→ltb room (length out + length tag) fits, append_tag) refl

  append_tag_over :
      (out tag : List ℕ) (room : ℕ)
      → ciphers.hmac f.sign_key out ≡ some tag
      → room < length out + length tag
      → append_tag ciphers f out room ≡ none
  unfolding append_tag
  append_tag_over out tag room tagged over =
      rw (tagged, lt→ltb room (length out + length tag) over, append_tag) refl

  encrypt_encrypted :
      (iv text ciphertext : List ℕ) (room : ℕ)
      → 48 < room
      → ciphers.encrypt_padded f.enc_key iv text (room - length iv) ≡ some ciphertext
      → encrypt ciphers f iv (record { text = text }) room
        ≡ append_tag ciphers f (iv ++ ciphertext) room
  unfolding encrypt
  encrypt_encrypted iv text ciphertext room large encrypted =
      rw (lt→leb room 48 large, encrypted, encrypt) refl

  encrypt_panics :
      (iv text : List ℕ) (room : ℕ)
      → 48 < room
      → ciphers.encrypt_padded f.enc_key iv text (room - length iv) ≡ none
      → encrypt ciphers f iv (record { text = text }) room ≡ none
  unfolding encrypt
  encrypt_panics iv text room large over = rw (lt→leb room 48 large, over, encrypt) refl

  encrypt_small :
      (iv text : List ℕ) (room : ℕ)
      → room ≤ 48
      → encrypt ciphers f iv (record { text = text }) room ≡ some (err invalid_argument)
  unfolding encrypt
  encrypt_small iv text room small = rw (le→leb room 48 small, encrypt) refl

  module _ (sound : IsSound ciphers) where
    encrypt_ok :
        (iv text : List ℕ) (room : ℕ)
        → length iv ≡ 16
        → padded (length text) + 48 ≤ room
        → (ciphertext tag : List ℕ) × (encrypt ciphers f iv (record { text = text }) room
            ≡ some (ok (record { bytes = (iv ++ ciphertext) ++ tag })))
          × (ciphers.encrypt_padded f.enc_key iv text (room - length iv) ≡ some ciphertext)
          × (length ciphertext ≡ padded (length text))
          × (ciphers.hmac f.sign_key (iv ++ ciphertext) ≡ some tag)
          × (length tag ≡ 32)
    encrypt_ok iv text room iv_size fits =
        let (ciphertext, encrypted, size) =
          sound.encrypt_fits f.enc_key iv text (room - length iv) (omega arith) in
        let (tag, tagged, tag_size) = sound.hmac_tag f.sign_key (iv ++ ciphertext) in
        (
          ciphertext,
          tag,
          encrypt_encrypted iv text ciphertext room (omega arith) encrypted
              ∙ append_tag_fits (iv ++ ciphertext) tag room tagged
                  (omega (arith, length-append iv ciphertext)),
          encrypted,
          size,
          tagged,
          tag_size,
        )

    -- With room for the padded text and 48 bytes more, `encrypt` makes a token of exactly that
    -- size, `verify` accepts it, and `decrypt` gives the text back. The IV has 16 bytes; the
    -- cipher pads to whole blocks and is undone by its decryption, and tags have 32 bytes.
    pub decrypt-verify :
        (iv text : List ℕ) (room room' : ℕ)
        → length iv ≡ 16
        → padded (length text) + 48 ≤ room
        → padded (length text) ≤ room'
        → (token : Token) × (verified : VerifiedToken) × (encrypt ciphers f iv
              (record { text = text })
              room
            ≡ some (ok token))
          × (length token.bytes ≡ padded (length text) + 48)
          × (verify ciphers f token ≡ ok verified)
          × (decrypt ciphers f verified room' ≡ ok (record { text = text }))
    decrypt-verify iv text room room' iv_size fits fits' =
        let (ciphertext, tag, made, encrypted, size, tagged, tag_size) =
          encrypt_ok iv text room iv_size fits in
        let out = iv ++ ciphertext in
        let out_size : length out ≡ 16 + padded (length text) =
          omega (arith, length-append iv ciphertext) in
        (
          record { bytes = out ++ tag },
          record { verified = out ++ tag },
          made,
          omega (arith, length-append out tag),
          verify_tagged out tag tag_size (omega arith) tagged,
          decrypt_tagged iv ciphertext tag text room' tag_size iv_size (omega arith) (
              sound.decrypt_encrypted f.enc_key iv text ciphertext (room - length iv) room'
                encrypted (omega arith)),
        )

    -- With a buffer of at most 48 bytes `encrypt` returns `InvalidArgument`; with a larger one
    -- that has no room for the padded text and 48 bytes more it panics. The IV has 16 bytes.
    pub encrypt_outcome :
        (iv text : List ℕ) (room : ℕ)
        → length iv ≡ 16
        → (room ≤ 48
            → encrypt ciphers f iv (record { text = text }) room ≡ some (err invalid_argument))
          × (48 < room
              → room < padded (length text) + 48
              → encrypt ciphers f iv (record { text = text }) room ≡ none)
    encrypt_outcome iv text room iv_size = (
      encrypt_small iv text room,
      λ large short. elim (dec_le (padded (length text)) (room - length iv)) [
        | no over ↦
            encrypt_panics iv text room large
              (sound.encrypt_over f.enc_key iv text (room - length iv) (omega arith))
        | yes fits ↦
            let (ciphertext, encrypted, size) =
              sound.encrypt_fits f.enc_key iv text (room - length iv) fits in
            let (tag, tagged, tag_size) = sound.hmac_tag f.sign_key (iv ++ ciphertext) in
            encrypt_encrypted iv text ciphertext room large encrypted
            ∙ append_tag_over (iv ++ ciphertext) tag room tagged
                (omega (arith, length-append iv ciphertext))
      ],
    )

    -- A token of a body of more than 16 bytes and 32 bytes more is accepted by `verify` if and
    -- only if these are the HMAC of the body; otherwise the result is `IncorrectSignature`.
    pub verify_iff :
        (out tag : List ℕ)
        → length tag ≡ 32
        → 16 < length out
        → ((verify ciphers f (record { bytes = out ++ tag })
              ≡ ok (record { verified = out ++ tag }))
            ↔ (ciphers.hmac f.sign_key out ≡ some tag))
          × ((ciphers.hmac f.sign_key out ≢ some tag)
              → verify ciphers f (record { bytes = out ++ tag }) ≡ err incorrect_signature)
    verify_iff out tag size long =
        let (actual, tagged, actual_size) = sound.hmac_tag f.sign_key out in
        let forged : ciphers.hmac f.sign_key out ≢ some tag
            → verify ciphers f (record { bytes = out ++ tag }) ≡ err incorrect_signature =
          λ other.
            verify_forged out actual tag size long tagged
              (λ same. other (tagged ∙ ap some (sym same))) in
        (
          (
            λ accepted. elim (bytes_discrete tag actual) [
              | yes same ↦ tagged ∙ ap some (sym same)
              | no other ↦ cc (accepted, verify_forged out actual tag size long tagged other)
            ],
            verify_tagged out tag size long,
          ),
          forged,
        )
