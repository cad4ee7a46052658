-- ===== src/Channel/Envelope.antt =====
-- src/channel.rs, the envelope of a message: its type, its sequence number and its length in
-- big-endian byte pairs, then the payload.
use reticulum_sdk.Base.{ℕ, ◌+◌, ◌*◌, ◌/◌, ◌%◌, ◌<◌, ◌≡◌, refl, List, [], ◌∷◌, ◌++◌, length, arith}
use reticulum_sdk.Error.{Result, ok, err, packet_error}

abbrev pub channel_header_size : ℕ
channel_header_size = 6

-- `u16::to_be_bytes` and `u16::from_be_bytes`; `as u16` cuts to 16 bits.
abbrev pub to_be_bytes : ℕ → List ℕ
to_be_bytes n = (n / 256 % 256) ∷ (n % 256) ∷ []

abbrev pub from_be_bytes : ℕ → ℕ → ℕ
from_be_bytes high low = high * 256 + low

unfoldable pub pack_envelope : ℕ → ℕ → List ℕ → List ℕ
pack_envelope msg_type sequence payload =
    to_be_bytes msg_type
    ++ (to_be_bytes sequence ++ (to_be_bytes (length payload % 65536) ++ payload))

-- The arguments of `from_be_bytes`, and what follows the header.
unfoldable pub unpack_envelope : List ℕ → Result (ℕ × ℕ × List ℕ)
unpack_envelope (t₁ ∷ t₀ ∷ s₁ ∷ s₀ ∷ l₁ ∷ l₀ ∷ payload) =
    ok (from_be_bytes t₁ t₀, from_be_bytes s₁ s₀, payload)
unpack_envelope _ = err packet_error

from_be_bytes-to_be_bytes : (n : ℕ) → n < 65536 → from_be_bytes (n / 256 % 256) (n % 256) ≡ n
from_be_bytes-to_be_bytes n small = omega arith

-- E
pub unpack_envelope-pack_envelope :
    (msg_type sequence : ℕ) (payload : List ℕ)
    → msg_type < 65536
    → sequence < 65536
    → unpack_envelope (pack_envelope msg_type sequence payload) ≡ ok (msg_type, sequence, payload)
unfolding unpack_envelope pack_envelope
unpack_envelope-pack_envelope msg_type sequence payload small small' =
    rw (from_be_bytes-to_be_bytes msg_type small, from_be_bytes-to_be_bytes sequence small') refl
