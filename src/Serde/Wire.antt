-- ===== src/Serde/Wire.antt =====
-- The wire format of a packet that src/serde.rs reads and writes, as a function on lists: two
-- header bytes, the IFAC field of an authenticated packet, the transport address of a Type2 packet,
-- the destination, the context byte and the payload.
use reticulum_sdk.Base.{
  ℕ, ◌≡◌, ◌≤◌, List, [], ◌∷◌, ◌++◌, length, Option, none, some, if◌then◌else◌, Bool, true, false,
  not, ◌||◌,
}
use reticulum_sdk.Packet.Header.{to_meta, is_authenticated, is_type2}
use reticulum_sdk.Packet.Context.{context_u8}
use reticulum_sdk.Packet.Types.{
  AddressHash, PacketIfac, Packet, ifac_as_slice, ifac_new_from_slice, packet_ifac_max_length,
  address_hash_size,
}

abbrev pub is_some {ℓ} : {A : Type ℓ} → Option A → Bool
is_some none = false
is_some (some a) = true

abbrev pub ifac_field : Option PacketIfac → List ℕ
ifac_field none = []
ifac_field (some ifac) = ifac_as_slice ifac

abbrev pub transport_field : Option AddressHash → List ℕ
transport_field none = []
transport_field (some address) = address

abbrev pub ifac_bytes : Packet → List ℕ
ifac_bytes p = if is_authenticated p.header.ifac_flag then ifac_field p.ifac else []

abbrev pub transport_bytes : Packet → List ℕ
transport_bytes p = if is_type2 p.header.header_type then transport_field p.transport else []

unfoldable pub wire : Packet → List ℕ
wire p =
    (to_meta p.header ∷ p.header.hops ∷ [])
    ++ (ifac_bytes p
        ++ (transport_bytes p
            ++ (p.destination ++ ((context_u8 p.context ∷ []) ++ p.data'.buffer))))

-- The fields that the header announces are there.
abbrev pub has_ifac : Packet → Bool
has_ifac p = not (is_authenticated p.header.ifac_flag) || is_some p.ifac

abbrev pub has_transport : Packet → Bool
has_transport p = not (is_type2 p.header.header_type) || is_some p.transport

-- The packets that a receiver configured for IFAC fields of `ifac_len` bytes can read: addresses of
-- 16 bytes, the header's flags in accord with the optional fields, and an access code of
-- `ifac_len` bytes (no IFAC field for `ifac_len = 0`).
abbrev pub IfacMatches : ℕ → Option PacketIfac → Type 0
IfacMatches ifac_len none = ifac_len ≡ 0
IfacMatches ifac_len (some ifac) =
    (code : List ℕ) × (ifac ≡ ifac_new_from_slice code)
    × (length code ≡ ifac_len)
    × (1 ≤ ifac_len)
    × (ifac_len ≤ packet_ifac_max_length)

abbrev pub AddressMatches : Option AddressHash → Type 0
AddressMatches none = Unit {0}
AddressMatches (some address) = length address ≡ address_hash_size

pub record IsReadable (ifac_len : ℕ) (p : Packet) : Type 0 where
  pub ifac : IfacMatches ifac_len p.ifac
  pub ifac_flag : is_authenticated p.header.ifac_flag ≡ is_some p.ifac
  pub transport : AddressMatches p.transport
  pub header_type : is_type2 p.header.header_type ≡ is_some p.transport
  pub destination : length p.destination ≡ address_hash_size
