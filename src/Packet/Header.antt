-- ===== src/Packet/Header.antt =====
-- src/packet.rs, the enums of the header byte and `Header`. A Rust enum `as u8` is a function
-- `…_u8`; `From<u8>` is a function `…_from`. `<<` on `u8` wraps at 256.
use Prim.Native.Nat.{bit_and, bit_or}
use reticulum_sdk.Base.{ℕ, ◌*◌, ◌/◌, ◌%◌, ◌^◌, ◌==◌, not, if◌then◌else◌, Bool, true, false}

pub data IfacFlag : Type 0 where
  open' authenticated : IfacFlag

pub data HeaderType : Type 0 where
  type1 type2 : HeaderType

pub data ContextFlag : Type 0 where
  unset set : ContextFlag

pub data PropagationType : Type 0 where
  broadcast transport : PropagationType

pub data DestinationType : Type 0 where
  single group plain link : DestinationType

pub data PacketType : Type 0 where
  data' announce link_request proof : PacketType

abbrev pub header_type_u8 : HeaderType → ℕ
header_type_u8 type1 = 0
header_type_u8 type2 = 1

abbrev pub context_flag_u8 : ContextFlag → ℕ
context_flag_u8 unset = 0
context_flag_u8 set = 1

abbrev pub propagation_type_u8 : PropagationType → ℕ
propagation_type_u8 broadcast = 0
propagation_type_u8 transport = 1

abbrev pub destination_type_u8 : DestinationType → ℕ
destination_type_u8 single = 0
destination_type_u8 group = 1
destination_type_u8 plain = 2
destination_type_u8 link = 3

abbrev pub packet_type_u8 : PacketType → ℕ
packet_type_u8 data' = 0
packet_type_u8 announce = 1
packet_type_u8 link_request = 2
packet_type_u8 proof = 3

unfoldable pub header_type_from : ℕ → HeaderType
header_type_from value =
    let bit = bit_and value 1 in if bit == 0 then type1 else (if bit == 1 then type2 else type1)

unfoldable pub context_flag_from : ℕ → ContextFlag
context_flag_from value =
    let bit = bit_and value 1 in if bit == 0 then unset else (if bit == 1 then set else unset)

unfoldable pub propagation_type_from : ℕ → PropagationType
propagation_type_from value =
    let bit = bit_and value 1 in
    if bit == 0 then broadcast else (if bit == 1 then transport else broadcast)

unfoldable pub destination_type_from : ℕ → DestinationType
destination_type_from value =
    let bits = bit_and value 3 in
    if bits == 0
    then single
    else (if bits == 1
        then group
        else (if bits == 2 then plain else (if bits == 3 then link else single)))

unfoldable pub packet_type_from : ℕ → PacketType
packet_type_from value =
    let bits = bit_and value 3 in
    if bits == 0
    then data'
    else (if bits == 1
        then announce
        else (if bits == 2 then link_request else (if bits == 3 then proof else data')))

pub record Header : Type 0 where
  pub ifac_flag : IfacFlag
  pub header_type : HeaderType
  pub context_flag : ContextFlag
  pub propagation_type : PropagationType
  pub destination_type : DestinationType
  pub packet_type : PacketType
  pub hops : ℕ

abbrev pub header_default : Header
header_default = record {
  ifac_flag = open';
  header_type = type1;
  context_flag = unset;
  propagation_type = broadcast;
  destination_type = single;
  packet_type = data';
  hops = 0;
}

-- `x << k` and `x >> k` on `u8`.
abbrev shl : ℕ → ℕ → ℕ
shl x k = x * 2 ^ k % 256

abbrev shr : ℕ → ℕ → ℕ
shr x k = x / 2 ^ k

abbrev pub is_authenticated : IfacFlag → Bool
is_authenticated open' = false
is_authenticated authenticated = true

abbrev pub is_type2 : HeaderType → Bool
is_type2 type1 = false
is_type2 type2 = true

unfoldable pub to_meta : Header → ℕ
to_meta h =
    let meta =
      bit_or
        (bit_or
          (bit_or
            (bit_or (shl (header_type_u8 h.header_type) 6) (shl (context_flag_u8 h.context_flag) 5))
            (shl (propagation_type_u8 h.propagation_type) 4))
          (shl (destination_type_u8 h.destination_type) 2))
        (shl (packet_type_u8 h.packet_type) 0) in
    if is_authenticated h.ifac_flag then bit_or meta 0b1000_0000 else meta

unfoldable pub from_meta : ℕ → Header
from_meta meta = record {
  ifac_flag = if not (bit_and meta 0b1000_0000 == 0) then authenticated else open';
  header_type = header_type_from (shr meta 6);
  context_flag = context_flag_from (shr meta 5);
  propagation_type = propagation_type_from (shr meta 4);
  destination_type = destination_type_from (shr meta 2);
  packet_type = packet_type_from (shr meta 0);
  hops = 0;
}
