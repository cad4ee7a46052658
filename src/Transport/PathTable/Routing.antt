-- ===== src/Transport/PathTable/Routing.antt =====
-- src/transport/path_table.rs, `handle_inbound_packet` and `handle_packet`: how a packet is
-- rewritten for its next hop.
use reticulum_sdk.Base.{Option, none, some, Bool, true, false, ltb, if◌then◌else◌}
use reticulum_sdk.Packet.Header.{
  HeaderType, PropagationType, DestinationType, PacketType, type1, type2, broadcast, transport,
  plain, group, announce, open', is_type2,
}
use reticulum_sdk.Packet.Types.{AddressHash, Packet}
use reticulum_sdk.Transport.PathTable.Entry.{PathEntry}
use reticulum_sdk.Transport.PathTable.Table.{PathTable, path_get}

abbrev pub lookup_or : Option AddressHash → AddressHash → AddressHash
lookup_or none destination = destination
lookup_or (some lookup) destination = lookup

abbrev pub is_announce : PacketType → Bool
is_announce announce = true
is_announce _ = false

abbrev pub is_plain_or_group : DestinationType → Bool
is_plain_or_group plain = true
is_plain_or_group group = true
is_plain_or_group _ = false

module _ {F : Type 0} where
  -- The header type, propagation type and transport address for a path.
  unfoldable pub route_fields : PathEntry F → HeaderType × PropagationType × Option AddressHash
  route_fields entry =
      if ltb 1 entry.hops
      then (type2, transport, some entry.received_from)
      else (type1, broadcast, none)

  unfoldable pub forwarded : Packet → PathEntry F → Packet
  unfolding route_fields
  forwarded p entry =
      let (header_type, propagation_type, transport_id) = route_fields entry in
      record p {
        header = record (p.header) {
          ifac_flag = open';
          header_type = header_type;
          propagation_type = propagation_type;
        };
        ifac = none;
        transport = transport_id;
      }

  unfoldable pub handle_inbound_packet :
      Packet → Option AddressHash → PathTable F → Packet × Option AddressHash
  unfolding forwarded
  handle_inbound_packet p lookup t = elim (path_get (lookup_or lookup p.destination) t) [
    | none ↦ (p, none)
    | some entry ↦ (forwarded p entry, some entry.iface)
  ]

  unfoldable pub outbound_fields :
      Packet → PathEntry F → HeaderType × PropagationType × Option AddressHash
  unfolding route_fields
  outbound_fields p entry =
      if is_type2 p.header.header_type
      then (p.header.header_type, p.header.propagation_type, p.transport)
      else route_fields entry

  unfoldable pub addressed : Packet → PathEntry F → Packet
  unfolding outbound_fields
  addressed p entry =
      let (header_type, propagation_type, transport_id) = outbound_fields p entry in
      record p {
        header = record (p.header) {
          header_type = header_type;
          propagation_type = propagation_type;
        };
        transport = transport_id;
      }

  unfoldable pub handle_packet : Packet → PathTable F → Packet × Option AddressHash
  unfolding addressed
  handle_packet p t =
      if is_announce p.header.packet_type
      then (p, none)
      else (if is_plain_or_group p.header.destination_type
          then (p, none)
          else (elim (path_get p.destination t) [
            | none ↦ (p, none)
            | some entry ↦ (addressed p entry, some entry.iface)
          ]))
