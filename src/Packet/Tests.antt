-- ===== src/Packet/Tests.antt =====
-- Runs of src/packet.rs, and its theorems at concrete headers and sizes.
use reticulum_sdk.Base.{◌≡◌, refl}
use reticulum_sdk.Packet.Header.{Header, open', type2, set, transport, single, data', to_meta}
use reticulum_sdk.Packet.Mdu.{encrypted_payload_mdu, link_packet_mdu, encrypted_packet_mdu}

-- The header of the test `header_meta_preserves_context_and_propagation_bits`.
abbrev routed : Header
routed = record {
  ifac_flag = open';
  header_type = type2;
  context_flag = set;
  propagation_type = transport;
  destination_type = single;
  packet_type = data';
  hops = 4;
}

to_meta_runs : to_meta routed ≡ 0b0111_0000
unfolding to_meta
to_meta_runs = refl

-- The two constants of the source.
mdu_constants : (link_packet_mdu ≡ 431) × (encrypted_packet_mdu ≡ 383)
unfolding encrypted_payload_mdu
mdu_constants = (refl, refl)
