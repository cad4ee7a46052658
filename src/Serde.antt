-- ===== src/Serde.antt =====
-- src/serde.rs: `Serialize` and `deserialize` of headers, addresses, contexts and packets.
pub mod Wire
pub mod Serialize
pub mod RoundTrip
mod Tests
use reticulum_sdk.Base.{ℕ, List, [], ◌∷◌, Option, none, some, if◌then◌else◌, ltb, ◌==◌}
use reticulum_sdk.Error.{ok, Fallible, ◌>>=◌, ◌>>◌, then_do, return, fail, ok_or, packet_error}
use reticulum_sdk.Buffer.Output.{OutputBuffer, write}
use reticulum_sdk.Buffer.Input.{InputBuffer, read, read_byte, bytes_left}
use reticulum_sdk.Packet.Header.{
  Header, to_meta, from_meta, is_authenticated, is_type2, open', authenticated,
}
use reticulum_sdk.Packet.Context.{PacketContext, context_u8, context_from}
use reticulum_sdk.Packet.Types.{
  AddressHash, PacketIfac, Packet, ifac_as_slice, ifac_new_from_slice, packet_ifac_max_length,
  address_hash_size,
}

-- The `Serialize` instances.
pub address_serialize : AddressHash → Fallible OutputBuffer ℕ
address_serialize address = write address

pub header_serialize : Header → Fallible OutputBuffer ℕ
header_serialize h = write (to_meta h ∷ h.hops ∷ [])

pub context_serialize : PacketContext → Fallible OutputBuffer ℕ
context_serialize c = write (context_u8 c ∷ [])

-- The two conditional parts of `Packet::serialize`.
pub serialize_ifac : Packet → Fallible OutputBuffer (Unit {0})
serialize_ifac p =
    if is_authenticated p.header.ifac_flag
    then (elim p.ifac [
      | none ↦ fail packet_error
      | some ifac ↦ do write (ifac_as_slice ifac); return tt
    ])
    else return tt

pub serialize_transport : Packet → Fallible OutputBuffer (Unit {0})
serialize_transport p =
    if is_type2 p.header.header_type
    then (do transport ← ok_or p.transport packet_error; address_serialize transport; return tt)
    else return tt

unfoldable pub serialize : Packet → Fallible OutputBuffer ℕ
unfolding address_serialize header_serialize context_serialize serialize_ifac serialize_transport
serialize p = do
  header_serialize p.header
  serialize_ifac p
  serialize_transport p
  address_serialize p.destination
  context_serialize p.context
  write p.data'.buffer

pub header_deserialize : Fallible InputBuffer Header
header_deserialize = do
  meta ← read_byte
  hops ← read_byte
  return (record (from_meta meta) { hops = hops })

pub address_deserialize : Fallible InputBuffer AddressHash
address_deserialize = read address_hash_size

pub context_deserialize : Fallible InputBuffer PacketContext
context_deserialize = do byte ← read_byte; return (context_from byte)

pub deserialize_ifac : ℕ → Fallible InputBuffer (Option PacketIfac)
deserialize_ifac ifac_len =
    if ltb 0 ifac_len
    then (if ltb packet_ifac_max_length ifac_len
        then fail packet_error
        else (do ifac_data ← read ifac_len; return (some (ifac_new_from_slice ifac_data))))
    else return none

pub deserialize_transport : Header → Fallible InputBuffer (Option AddressHash)
deserialize_transport h =
    if is_type2 h.header_type
    then (do address ← address_deserialize; return (some address))
    else return none

-- `header.ifac_flag = if ifac.is_some() { Authenticated } else { Open }`
pub set_ifac_flag : Header → Option PacketIfac → Header
set_ifac_flag h none = record h { ifac_flag = open' }
set_ifac_flag h (some ifac) = record h { ifac_flag = authenticated }

-- `buffer.bytes_left()`, then a read of that many bytes.
pub read_left : Fallible InputBuffer (List ℕ)
read_left b = read (bytes_left b) b

unfoldable pub deserialize_with_ifac_len : ℕ → Fallible InputBuffer Packet
unfolding header_deserialize deserialize_ifac set_ifac_flag deserialize_transport
    address_deserialize context_deserialize read_left
deserialize_with_ifac_len ifac_len = do
  parsed ← header_deserialize
  ifac ← deserialize_ifac ifac_len
  transport ← deserialize_transport (set_ifac_flag parsed ifac)
  destination ← address_deserialize
  context ← context_deserialize
  bytes ← read_left
  return (record {
    header = set_ifac_flag parsed ifac;
    ifac = ifac;
    destination = destination;
    transport = transport;
    context = context;
    data' = record { buffer = bytes };
  })

unfoldable pub deserialize : Fallible InputBuffer Packet
deserialize = deserialize_with_ifac_len 0
