-- ===== src/Crypt/Fernet/Tests.antt =====
-- The theorems on src/crypt/fernet.rs with stand-ins for the ciphers.
use reticulum_sdk.Base.{
  ℕ, ◌+◌, ◌-◌, ◌≤◌, ◌<◌, ◌≡◌, ◌≢◌, ◌↔◌, refl, sym, ap, ◌∙◌, inl, inr, List, [], ◌∷◌, ◌++◌, length,
  length-append, length-replicate, replicate, take, take_front, Option, none, some, leb, lt→leb,
  le→leb, Bool-cases, if◌then◌else◌, arith,
}
use reticulum_sdk.Error.{ok, err, invalid_argument, incorrect_signature}
use reticulum_sdk.Crypt.Fernet.{Fernet, Ciphers, VerifiedToken, Token, encrypt, verify, decrypt}
use reticulum_sdk.Crypt.Fernet.Tokens.{padded, IsSound, decrypt-verify, encrypt_outcome, verify_iff}

-- The count of padding bytes, the text, and the other padding bytes.
abbrev toy_cipher : List ℕ → List ℕ
toy_cipher text =
    (padded (length text) - length text)
    ∷ (text ++ replicate (padded (length text) - length text - 1) 0)

abbrev toy_plain : List ℕ → Option (List ℕ)
toy_plain [] = none
toy_plain (pad ∷ rest) = some (take (length rest + 1 - pad) rest)

abbrev toy : Ciphers
toy = record {
  encrypt_padded =
      λ key iv text room. if leb (padded (length text)) room then some (toy_cipher text) else none;
  decrypt_padded =
      λ key iv ciphertext room. if leb (length ciphertext) room then toy_plain ciphertext else none;
  hmac = λ key bytes. some (replicate 32 (length bytes));
}

padded_more : (n : ℕ) → n + 1 ≤ padded n
padded_more n = omega arith

length-toy_cipher : (text : List ℕ) → length (toy_cipher text) ≡ padded (length text)
length-toy_cipher text = omega (
  arith,
  padded_more (length text),
  length-append text (replicate (padded (length text) - length text - 1) 0),
  length-replicate (padded (length text) - length text - 1) (ℕ.zero),
)

toy_plain-toy_cipher : (text : List ℕ) → toy_plain (toy_cipher text) ≡ some text
toy_plain-toy_cipher text =
    let pad = padded (length text) - length text in
    let filler = replicate (pad - 1) 0 in
    ap some (
      take_front (length (text ++ filler) + 1 - pad) text filler (
        omega (
          arith,
          padded_more (length text),
          length-append text filler,
          length-replicate (pad - 1) (ℕ.zero),
        )))

toy_decrypts :
    (text ciphertext : List ℕ) (room room' : ℕ)
    → (if leb (padded (length text)) room then some (toy_cipher text) else none) ≡ some ciphertext
    → length ciphertext ≤ room'
    → (if leb (length ciphertext) room' then toy_plain ciphertext else none) ≡ some text
toy_decrypts text ciphertext room room' encrypted fits =
    elim (Bool-cases (leb (padded (length text)) room)) [
      | inl enough ↦
          let same : toy_cipher text ≡ ciphertext = cc (rw enough at encrypted) in
          rw (le→leb (length ciphertext) room' fits)
            (ap toy_plain (sym same) ∙ toy_plain-toy_cipher text)
      | inr over ↦ cc (rw over at encrypted)
    ]

toy-IsSound : IsSound toy
toy-IsSound = record {
  encrypt_fits = λ key iv text room fits.
      (toy_cipher text, rw (le→leb (padded (length text)) room fits) refl, length-toy_cipher text);
  encrypt_over = λ key iv text room over. rw (lt→leb (padded (length text)) room over) refl;
  decrypt_encrypted = λ key iv text ciphertext room room' encrypted fits.
      toy_decrypts text ciphertext room room' encrypted fits;
  hmac_tag = λ key bytes. (replicate 32 (length bytes), refl, refl);
}

abbrev keys : Fernet
keys = record { sign_key = 1 ∷ []; enc_key = 2 ∷ [] }

abbrev iv : List ℕ
iv = replicate 16 9

decrypt-verify_example :
    (token : Token) × (verified : VerifiedToken) × (encrypt toy keys iv
        (record { text = 7 ∷ 8 ∷ [] })
        64
      ≡ some (ok token))
    × (length token.bytes ≡ 64)
    × (verify toy keys token ≡ ok verified)
    × (decrypt toy keys verified 16 ≡ ok (record { text = 7 ∷ 8 ∷ [] }))
decrypt-verify_example =
    decrypt-verify toy keys toy-IsSound iv (7 ∷ 8 ∷ []) 64 16 refl (omega arith) (omega arith)

encrypt_outcome_example :
    (50 ≤ 48 → encrypt toy keys iv (record { text = 7 ∷ [] }) 50 ≡ some (err invalid_argument))
    × (48 < 50 → 50 < 64 → encrypt toy keys iv (record { text = 7 ∷ [] }) 50 ≡ none)
encrypt_outcome_example = encrypt_outcome toy keys toy-IsSound iv (7 ∷ []) 50 refl

abbrev body : List ℕ
body = replicate 17 5

abbrev tag : List ℕ
tag = replicate 32 17

verify_iff_example :
    ((verify toy keys (record { bytes = body ++ tag }) ≡ ok (record { verified = body ++ tag }))
      ↔ (toy.hmac keys.sign_key body ≡ some tag))
    × ((toy.hmac keys.sign_key body ≢ some tag)
        → verify toy keys (record { bytes = body ++ tag }) ≡ err incorrect_signature)
verify_iff_example = verify_iff toy keys toy-IsSound body tag refl (omega arith)
