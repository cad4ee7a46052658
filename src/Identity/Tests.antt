-- ===== src/Identity/Tests.antt =====
-- Identities over toy keys of 32 equal bytes, written as hex strings and read back.
use reticulum_sdk.Base.{
  ℕ, zero, suc, All, length, ap, ◌≡◌, refl, List, [], ◌∷◌, replicate, some, Bool, true, false,
  arith, ◌==◌,
}
use reticulum_sdk.Base.Bytes.{IsByte}
use reticulum_sdk.Error.{ok, err, incorrect_hash}
use reticulum_sdk.Identity.{
  Curves, IsSound, identity_new, identity_new_from_hex_string, identity_to_hex_string,
  private_identity_new, private_new_from_hex_string, private_to_hex_string, hex_decode,
}
use reticulum_sdk.Identity.Hex.{
  identity_new_from_hex_string-identity_to_hex_string,
  private_new_from_hex_string-private_to_hex_string,
}

abbrev key_bytes : Bool → List ℕ
key_bytes true = replicate 32 255
key_bytes false = replicate 32 10

abbrev key_from : List ℕ → Bool
key_from [] = false
key_from (x ∷ xs) = x == 255

abbrev toy : Curves Bool Bool Bool Bool
toy = record {
  public_from = key_from;
  public_bytes = key_bytes;
  verifying_from = λ bytes. some (key_from bytes);
  verifying_bytes = key_bytes;
  secret_from = key_from;
  secret_bytes = key_bytes;
  public_of = λ k. k;
  signing_from = key_from;
  signing_bytes = key_bytes;
  verifying_of = λ k. k;
  sha256 = λ bytes. replicate 32 7;
}

key_len : (k : Bool) → length (key_bytes k) ≡ 32
key_len true = refl
key_len false = refl

key_back : (k : Bool) → key_from (key_bytes k) ≡ k
key_back true = refl
key_back false = refl

replicate-IsByte : (n x : ℕ) → IsByte x → All IsByte (replicate n x)
replicate-IsByte zero x h = tt
replicate-IsByte (suc n) x h = (h, replicate-IsByte n x h)

key_bytes-IsByte : (k : Bool) → All IsByte (key_bytes k)
key_bytes-IsByte true = replicate-IsByte 32 255 (omega arith)
key_bytes-IsByte false = replicate-IsByte 32 10 (omega arith)

toy-IsSound : IsSound toy
toy-IsSound = record {
  public_len = key_len;
  public_all = key_bytes-IsByte;
  public_back = key_back;
  verifying_len = key_len;
  verifying_all = key_bytes-IsByte;
  verifying_back = λ k. ap some (key_back k);
  secret_len = key_len;
  secret_all = key_bytes-IsByte;
  secret_back = key_back;
  signing_len = key_len;
  signing_all = key_bytes-IsByte;
  signing_back = key_back;
}

identity_new_from_hex_string-identity_to_hex_string_example :
    identity_new_from_hex_string toy (identity_to_hex_string toy (identity_new toy true false))
    ≡ ok (identity_new toy true false)
identity_new_from_hex_string-identity_to_hex_string_example =
    identity_new_from_hex_string-identity_to_hex_string toy toy-IsSound true false

private_new_from_hex_string-private_to_hex_string_example :
    private_new_from_hex_string toy
      (private_to_hex_string toy (private_identity_new toy false true))
    ≡ ok (private_identity_new toy false true)
private_new_from_hex_string-private_to_hex_string_example =
    private_new_from_hex_string-private_to_hex_string toy toy-IsSound false true

-- "aF" is read in either case, "zz" and "a" are refused.
mixed_case_decoded : hex_decode 1 (97 ∷ 70 ∷ []) ≡ ok (175 ∷ [])
unfolding hex_decode
mixed_case_decoded = refl

other_letters_refused : hex_decode 1 (122 ∷ 122 ∷ []) ≡ err incorrect_hash
unfolding hex_decode
other_letters_refused = refl

short_string_refused : hex_decode 1 (97 ∷ []) ≡ err incorrect_hash
unfolding hex_decode
short_string_refused = refl
