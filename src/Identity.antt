-- ===== src/Identity.antt =====
-- src/hash.rs and src/identity.rs: hex strings and the identities that are read from them. A string
-- is the list of its ASCII codes. The curves and SHA-256 are parameters.
pub mod Hex
mod Tests
use reticulum_sdk.Base.{
  ℕ, zero, suc, All, ◌+◌, ◌-◌, ◌*◌, ◌/◌, ◌%◌, ◌≡◌, List, [], ◌∷◌, ◌++◌, length, take, drop, Option,
  none, some, ltb, leb, ◌&&◌, if◌then◌else◌,
}
use reticulum_sdk.Base.Bytes.{IsByte}
use reticulum_sdk.Error.{Result, ok, err, incorrect_hash, crypto_error}
use reticulum_sdk.Packet.Types.{AddressHash, address_hash_new_from_hash}
use reticulum_sdk.Transport.LinkTable.{public_key_length}

-- The character of a digit in the table `HEX`.
unfoldable pub hex_char : ℕ → ℕ
hex_char n = if ltb n 10 then 48 + n else 87 + n

unfoldable pub hex_encode : List ℕ → List ℕ
hex_encode [] = []
hex_encode (byte ∷ bytes) = hex_char (byte / 16) ∷ hex_char (byte % 16) ∷ hex_encode bytes

unfoldable pub hex_digit : ℕ → Option ℕ
hex_digit byte =
    if leb 48 byte && leb byte 57
    then some (byte - 48)
    else if leb 97 byte && leb byte 102
    then some (byte - 97 + 10)
    else if leb 65 byte && leb byte 70
    then some (byte - 65 + 10)
    else none

unfoldable pub decode_byte : Option ℕ → Option ℕ → Result (List ℕ) → Result (List ℕ)
decode_byte none lo rest = err incorrect_hash
decode_byte (some hi) none rest = err incorrect_hash
decode_byte (some hi) (some lo) (err e) = err e
decode_byte (some hi) (some lo) (ok bytes) = ok ((hi * 16 + lo) ∷ bytes)

-- The loop of `hex_decode` over `n` bytes, on enough characters.
unfoldable pub hex_loop : ℕ → List ℕ → Result (List ℕ)
unfolding hex_digit decode_byte
hex_loop zero hex = ok []
hex_loop (suc n) [] = err incorrect_hash
hex_loop (suc n) (hi ∷ []) = err incorrect_hash
hex_loop (suc n) (hi ∷ lo ∷ hex) = decode_byte (hex_digit hi) (hex_digit lo) (hex_loop n hex)

unfoldable pub hex_decode : ℕ → List ℕ → Result (List ℕ)
unfolding hex_loop
hex_decode n hex = if ltb (length hex) (n * 2) then err incorrect_hash else hex_loop n hex

-- The two keys of a hex string, or the first error.
unfoldable pub from_keys :
    {A : Type 0} → Result (List ℕ) → Result (List ℕ) → (List ℕ → List ℕ → Result A) → Result A
from_keys (err e) second make = err e
from_keys (ok first) (err e) make = err e
from_keys (ok first) (ok second) make = make first second

unfoldable pub read_keys : {A : Type 0} → (List ℕ → List ℕ → Result A) → List ℕ → Result A
unfolding from_keys hex_decode
read_keys make hex =
    if ltb (length hex) (public_key_length * 2 * 2)
    then err incorrect_hash
    else from_keys (hex_decode public_key_length (take (public_key_length * 2) hex))
        (hex_decode public_key_length (drop (public_key_length * 2) hex)) make

-- What the code calls of x25519, ed25519 and SHA-256, on the key types of these crates.
pub record Curves (PublicKey VerifyingKey StaticSecret SigningKey : Type 0) : Type 0 where
  pub public_from : List ℕ → PublicKey
  pub public_bytes : PublicKey → List ℕ
  pub verifying_from : List ℕ → Option VerifyingKey
  pub verifying_bytes : VerifyingKey → List ℕ
  pub secret_from : List ℕ → StaticSecret
  pub secret_bytes : StaticSecret → List ℕ
  pub public_of : StaticSecret → PublicKey
  pub signing_from : List ℕ → SigningKey
  pub signing_bytes : SigningKey → List ℕ
  pub verifying_of : SigningKey → VerifyingKey
  pub sha256 : List ℕ → List ℕ

pub record Identity (PublicKey VerifyingKey : Type 0) : Type 0 where
  pub public_key : PublicKey
  pub verifying_key : VerifyingKey
  pub address_hash : AddressHash

pub record PrivateIdentity (PublicKey VerifyingKey StaticSecret SigningKey : Type 0) : Type 0 where
  pub identity : Identity PublicKey VerifyingKey
  pub private_key : StaticSecret
  pub sign_key : SigningKey

-- A key has 32 bytes, and reading back the bytes of a key gives the key.
pub record IsSound {PublicKey VerifyingKey StaticSecret SigningKey : Type 0}
    (curves : Curves PublicKey VerifyingKey StaticSecret SigningKey) : Type 0 where
  pub public_len : (k : PublicKey) → length (curves.public_bytes k) ≡ 32
  pub public_all : (k : PublicKey) → All IsByte (curves.public_bytes k)
  pub public_back : (k : PublicKey) → curves.public_from (curves.public_bytes k) ≡ k
  pub verifying_len : (k : VerifyingKey) → length (curves.verifying_bytes k) ≡ 32
  pub verifying_all : (k : VerifyingKey) → All IsByte (curves.verifying_bytes k)
  pub verifying_back :
      (k : VerifyingKey) → curves.verifying_from (curves.verifying_bytes k) ≡ some k
  pub secret_len : (k : StaticSecret) → length (curves.secret_bytes k) ≡ 32
  pub secret_all : (k : StaticSecret) → All IsByte (curves.secret_bytes k)
  pub secret_back : (k : StaticSecret) → curves.secret_from (curves.secret_bytes k) ≡ k
  pub signing_len : (k : SigningKey) → length (curves.signing_bytes k) ≡ 32
  pub signing_all : (k : SigningKey) → All IsByte (curves.signing_bytes k)
  pub signing_back : (k : SigningKey) → curves.signing_from (curves.signing_bytes k) ≡ k

module _ {PublicKey VerifyingKey StaticSecret SigningKey : Type 0}
    (curves : Curves PublicKey VerifyingKey StaticSecret SigningKey) where
  unfoldable pub identity_new : PublicKey → VerifyingKey → Identity PublicKey VerifyingKey
  unfolding address_hash_new_from_hash
  identity_new public_key verifying_key = record {
    public_key = public_key;
    verifying_key = verifying_key;
    address_hash =
        address_hash_new_from_hash
          (curves.sha256 (curves.public_bytes public_key ++ curves.verifying_bytes verifying_key));
  }

  -- `new_from_slices` after the public key is read.
  unfoldable pub with_verifying_key :
      PublicKey → Option VerifyingKey → Result (Identity PublicKey VerifyingKey)
  unfolding identity_new
  with_verifying_key public_key none = err crypto_error
  with_verifying_key public_key (some key) = ok (identity_new public_key key)

  -- On slices of 32 bytes: `copy_from_slice` panics on others.
  unfoldable pub identity_new_from_slices :
      List ℕ → List ℕ → Result (Identity PublicKey VerifyingKey)
  unfolding with_verifying_key
  identity_new_from_slices public_key verifying_key =
      with_verifying_key (curves.public_from public_key) (curves.verifying_from verifying_key)

  unfoldable pub identity_new_from_hex_string : List ℕ → Result (Identity PublicKey VerifyingKey)
  unfolding read_keys identity_new_from_slices
  identity_new_from_hex_string hex = read_keys identity_new_from_slices hex

  unfoldable pub identity_to_hex_string : Identity PublicKey VerifyingKey → List ℕ
  unfolding hex_encode
  identity_to_hex_string identity =
      hex_encode (curves.public_bytes identity.public_key)
      ++ hex_encode (curves.verifying_bytes identity.verifying_key)

  unfoldable pub private_identity_new :
      StaticSecret → SigningKey → PrivateIdentity PublicKey VerifyingKey StaticSecret SigningKey
  unfolding identity_new
  private_identity_new private_key sign_key = record {
    identity = identity_new (curves.public_of private_key) (curves.verifying_of sign_key);
    private_key = private_key;
    sign_key = sign_key;
  }

  unfoldable pub private_new_from_hex_string :
      List ℕ → Result (PrivateIdentity PublicKey VerifyingKey StaticSecret SigningKey)
  unfolding read_keys private_identity_new
  private_new_from_hex_string hex =
      read_keys
        (λ first second.
          ok (private_identity_new (curves.secret_from first) (curves.signing_from second)))
        hex

  unfoldable pub private_to_hex_string :
      PrivateIdentity PublicKey VerifyingKey StaticSecret SigningKey → List ℕ
  unfolding hex_encode
  private_to_hex_string identity =
      hex_encode (curves.secret_bytes identity.private_key)
      ++ hex_encode (curves.signing_bytes identity.sign_key)
