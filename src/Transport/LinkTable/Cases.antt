-- ===== src/Transport/LinkTable/Cases.antt =====
-- The outcomes of the operations of src/transport/link_table.rs, by what the table holds.
use mathlib.Core.Logic.{if_pos}
use reticulum_sdk.Base.{
  Bool-cases, inl, inr, ℕ, ◌≡◌, refl, ◌∙◌, none, some, true, false, bytes_discrete,
}
use reticulum_sdk.Base.Map.{get, update, mapped, get-update}
use reticulum_sdk.Packet.Types.{AddressHash, Packet}
use reticulum_sdk.Transport.LinkTable.{
  LinkEntry, LinkTable, is_lrproof, proof_outbound, packet_outbound, proven, rebalance_of,
  count_forward, propagate, link_handle_proof, link_handle_packet,
}

pub get-update_self :
    (k : AddressHash) (f : LinkEntry → LinkEntry) (t : LinkTable)
    → get bytes_discrete k (update bytes_discrete k f t)
      ≡ mapped bytes_discrete f (get bytes_discrete k t)
get-update_self k f t = get-update bytes_discrete k k f t ∙ if_pos (bytes_discrete k k) refl _ _

module _ (now : ℕ) (packet : Packet) (received_on : AddressHash) (t : LinkTable) where
  pub link_handle_packet_unknown :
      get bytes_discrete packet.destination t ≡ none
      → link_handle_packet now packet received_on t ≡ (t, none)
  unfolding link_handle_packet
  link_handle_packet_unknown unknown = rw (unknown, link_handle_packet)

  pub link_handle_proof_unknown :
      get bytes_discrete packet.destination t ≡ none
      → link_handle_proof now packet received_on t ≡ (t, none)
  unfolding link_handle_proof
  link_handle_proof_unknown unknown = rw (unknown, link_handle_proof)

  module _ (e : LinkEntry) (found : get bytes_discrete packet.destination t ≡ some e) where
    pub link_handle_packet_unproven :
        e.validated ≡ false → link_handle_packet now packet received_on t ≡ (t, none)
    unfolding link_handle_packet
    link_handle_packet_unproven unproven = rw (found, link_handle_packet, unproven)

    pub link_handle_packet_dropped :
        packet_outbound received_on packet.header.hops e ≡ none
        → link_handle_packet now packet received_on t ≡ (t, none)
    unfolding link_handle_packet
    link_handle_packet_dropped drop = elim (Bool-cases e.validated) [
      | inl valid ↦ rw (found, link_handle_packet, drop, valid)
      | inr unproven ↦ rw (found, link_handle_packet, unproven)
    ]

    pub link_handle_packet_forwarded :
        (iface : AddressHash)
        → e.validated ≡ true
        → packet_outbound received_on packet.header.hops e ≡ some iface
        → link_handle_packet now packet received_on t ≡ (
          update bytes_discrete packet.destination (count_forward now) t,
          some (propagate packet iface),
        )
    unfolding link_handle_packet
    link_handle_packet_forwarded iface valid out = rw (found, link_handle_packet, out, valid)

    pub link_handle_proof_dropped :
        proof_outbound (is_lrproof packet.context) received_on packet.header.hops e ≡ none
        → link_handle_proof now packet received_on t ≡ (t, none)
    unfolding link_handle_proof
    link_handle_proof_dropped drop = rw (found, link_handle_proof, drop)

    pub link_handle_proof_forwarded :
        (iface : AddressHash)
        → proof_outbound (is_lrproof packet.context) received_on packet.header.hops e ≡ some iface
        → link_handle_proof now packet received_on t ≡ (
          update bytes_discrete packet.destination
              (proven now (is_lrproof packet.context) packet.header.hops)
              t,
          some (record {
            propagation = propagate packet iface;
            rebalance = rebalance_of (is_lrproof packet.context) packet.header.hops e;
          }),
        )
    unfolding link_handle_proof
    link_handle_proof_forwarded iface out = rw (found, link_handle_proof, out)
