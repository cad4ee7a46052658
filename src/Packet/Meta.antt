-- ===== src/Packet/Meta.antt =====
-- The header byte of src/packet.rs, `Header::to_meta` and `Header::from_meta`.
use Prim.Native.Nat.{bit_and}
use reticulum_sdk.Base.{
  true, ℕ, ◌+◌, ◌*◌, ◌<◌, ◌≡◌, refl, ◌==◌, ==_iff, passes, passes_at, ◌||◌, leb, if◌then◌else◌,
  arith,
}
use reticulum_sdk.Packet.Header.{
  Header, IfacFlag, HeaderType, ContextFlag, PropagationType, DestinationType, PacketType, to_meta,
  from_meta, header_type_from, context_flag_from, propagation_type_from, destination_type_from,
  packet_type_from, destination_type_u8, packet_type_u8,
}
use reticulum_sdk.Packet.Context.{context_u8, context_from}

module _ (i : IfacFlag) (h : HeaderType) (c : ContextFlag) (p : PropagationType)
    (d : DestinationType) (t : PacketType) (n : ℕ) where
  abbrev header : Header
  header = record {
    ifac_flag = i;
    header_type = h;
    context_flag = c;
    propagation_type = p;
    destination_type = d;
    packet_type = t;
    hops = n;
  }

  ifac_flag_read : (from_meta (to_meta header)).ifac_flag ≡ i
  unfolding from_meta to_meta
  ifac_flag_read = ground arith

  header_type_read : (from_meta (to_meta header)).header_type ≡ h
  unfolding from_meta to_meta header_type_from
  header_type_read = ground arith

  context_flag_read : (from_meta (to_meta header)).context_flag ≡ c
  unfolding from_meta to_meta context_flag_from
  context_flag_read = ground arith

  propagation_type_read : (from_meta (to_meta header)).propagation_type ≡ p
  unfolding from_meta to_meta propagation_type_from
  propagation_type_read = ground arith

  destination_type_read : (from_meta (to_meta header)).destination_type ≡ d
  unfolding from_meta to_meta destination_type_from
  destination_type_read = ground arith

  packet_type_read : (from_meta (to_meta header)).packet_type ≡ t
  unfolding from_meta to_meta packet_type_from
  packet_type_read = ground arith

  low_bits : bit_and (to_meta header) 15 ≡ destination_type_u8 d * 4 + packet_type_u8 t
  unfolding to_meta
  low_bits = ground arith

hops_read : (h : Header) → (from_meta (to_meta h)).hops ≡ 0
unfolding from_meta
hops_read h = refl

-- `from_meta` reads back every field that `to_meta` packs into the header byte; the hop count,
-- which has a byte of its own, is 0.
pub from_meta-to_meta : (h : Header) → from_meta (to_meta h) ≡ record h { hops = 0 }
from_meta-to_meta h = λ k. record {
  ifac_flag =
      ifac_flag_read h.ifac_flag h.header_type h.context_flag h.propagation_type h.destination_type
        h.packet_type h.hops k;
  header_type =
      header_type_read h.ifac_flag h.header_type h.context_flag h.propagation_type
        h.destination_type h.packet_type h.hops k;
  context_flag =
      context_flag_read h.ifac_flag h.header_type h.context_flag h.propagation_type
        h.destination_type h.packet_type h.hops k;
  propagation_type =
      propagation_type_read h.ifac_flag h.header_type h.context_flag h.propagation_type
        h.destination_type h.packet_type h.hops k;
  destination_type =
      destination_type_read h.ifac_flag h.header_type h.context_flag h.propagation_type
        h.destination_type h.packet_type h.hops k;
  packet_type =
      packet_type_read h.ifac_flag h.header_type h.context_flag h.propagation_type
        h.destination_type h.packet_type h.hops k;
  hops = hops_read h k;
}

to_meta_table : passes (λ b. to_meta (from_meta b) == b) 256 ≡ true
unfolding passes from_meta to_meta header_type_from context_flag_from propagation_type_from
    destination_type_from packet_type_from
to_meta_table = refl

-- No header byte is lost: packing what `from_meta` reads from a byte gives the byte back.
to_meta-from_meta : (b : ℕ) → b < 256 → to_meta (from_meta b) ≡ b
to_meta-from_meta b h = (==_iff _ b).0 (passes_at _ 256 to_meta_table b h)

-- The four bits that go into a packet's hash are its destination type and its packet type.
pub meta_low_bits :
    (h : Header)
    → bit_and (to_meta h) 15
      ≡ destination_type_u8 h.destination_type * 4 + packet_type_u8 h.packet_type
meta_low_bits h =
    low_bits h.ifac_flag h.header_type h.context_flag h.propagation_type h.destination_type
      h.packet_type h.hops

context_table :
    passes (λ b. context_u8 (context_from b) == (if leb b 0x0E || leb 0xFA b then b else 0)) 256
    ≡ true
unfolding passes context_from context_u8
context_table = refl

-- A context byte that names no context (0x0F to 0xF9) is replaced by 0 when a packet is read and
-- written again; every other byte is kept.
context_u8-context_from :
    (b : ℕ) → b < 256 → context_u8 (context_from b) ≡ (if leb b 0x0E || leb 0xFA b then b else 0)
context_u8-context_from b h = (==_iff _ _).0 (passes_at _ 256 context_table b h)
