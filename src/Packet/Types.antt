-- ===== src/Packet/Types.antt =====
-- src/packet.rs: `PacketDataBuffer`, `PacketIfac`, `Packet`, its hash and its signed bytes, and the
-- two digests of src/hash.rs that a packet uses. SHA-256 is a parameter: a function from bytes to
-- bytes. An `Arc<Vec<u8>>` that is copied before it is changed behaves as a value.
use Prim.Native.Nat.{bit_and}
use reticulum_sdk.Base.{
  ℕ, ◌-◌, List, [], ◌∷◌, ◌++◌, length, take, replicate, Option, none, some, if◌then◌else◌,
}
use reticulum_sdk.Error.{Result, ok, err, packet_error}
use reticulum_sdk.Buffer.Output.{splice}
use reticulum_sdk.Packet.Header.{Header, header_default, to_meta, is_type2}
use reticulum_sdk.Packet.Context.{PacketContext, none', context_u8}

abbrev pub packet_ifac_max_length : ℕ
packet_ifac_max_length = 64

abbrev pub address_hash_size : ℕ
address_hash_size = 16

-- `AddressHash` and `Hash` are arrays of 16 and 32 bytes.
abbrev pub AddressHash : Type 0
AddressHash = List ℕ

abbrev pub Hash : Type 0
Hash = List ℕ

abbrev pub address_hash_new_empty : AddressHash
address_hash_new_empty = replicate 16 0

unfoldable pub address_hash_new_from_hash : Hash → AddressHash
address_hash_new_from_hash hash = take address_hash_size hash

pub record PacketDataBuffer : Type 0 where
  pub buffer : List ℕ

unfoldable pub data_new : PacketDataBuffer
data_new = record { buffer = [] }

unfoldable pub data_new_from_slice : List ℕ → PacketDataBuffer
data_new_from_slice bytes = record { buffer = bytes }

unfoldable pub data_reset : PacketDataBuffer → PacketDataBuffer
data_reset d = record d { buffer = [] }

-- `Vec::resize(len, 0)`
unfoldable pub data_resize : PacketDataBuffer → ℕ → PacketDataBuffer
data_resize d len = record d { buffer = take len d.buffer ++ replicate (len - length d.buffer) 0 }

unfoldable pub data_write : PacketDataBuffer → List ℕ → PacketDataBuffer × ℕ
data_write d bytes = (record d { buffer = d.buffer ++ bytes }, length bytes)

unfoldable pub chain_write : PacketDataBuffer → List ℕ → PacketDataBuffer
chain_write d bytes = (data_write d bytes).0

pub record PacketIfac : Type 0 where
  pub access_code : List ℕ
  pub length' : ℕ

-- The source panics on a slice of more than 64 bytes; its caller has excluded that.
unfoldable pub ifac_new_from_slice : List ℕ → PacketIfac
ifac_new_from_slice slice = record {
  access_code = splice (replicate packet_ifac_max_length 0) 0 slice;
  length' = length slice;
}

unfoldable pub ifac_as_slice : PacketIfac → List ℕ
ifac_as_slice i = take i.length' i.access_code

pub record Packet : Type 0 where
  pub header : Header
  pub ifac : Option PacketIfac
  pub destination : AddressHash
  pub transport : Option AddressHash
  pub context : PacketContext
  pub data' : PacketDataBuffer

abbrev pub packet_default : Packet
packet_default = record {
  header = header_default;
  ifac = none;
  destination = address_hash_new_empty;
  transport = none;
  context = none';
  data' = record { buffer = [] };
}

-- `Packet::hash`. The digest is fed the pieces one after the other.
unfoldable pub packet_hash : (List ℕ → Hash) → Packet → Hash
packet_hash sha256 p = sha256 (
    (bit_and (to_meta p.header) 0b0000_1111 ∷ p.destination)
    ++ (context_u8 p.context ∷ p.data'.buffer))

-- The bytes from the destination on, which `signed_data` adds last.
unfoldable pub signed_tail : Packet → List ℕ
signed_tail p = p.destination ++ (context_u8 p.context ∷ p.data'.buffer)

-- `Packet::signed_data`
unfoldable pub signed_data : Packet → Result (List ℕ)
unfolding signed_tail
signed_data p =
    let meta = bit_and (to_meta p.header) 0b0111_1111 in
    let front = meta ∷ p.header.hops ∷ [] in
    if is_type2 p.header.header_type
    then (elim p.transport [
      | none ↦ err packet_error
      | some transport ↦ ok (front ++ (transport ++ signed_tail p))
    ])
    else ok (front ++ signed_tail p)
