-- ===== src/Transport/LinkTable/Tests.antt =====
-- The theorems on src/transport/link_table.rs at a concrete link, with a stand-in for SHA-256.
use native.Mathlib.Decide.{ℕ_discrete}
use reticulum_sdk.Base.{
  ℕ, ◌+◌, ◌*◌, ◌≤◌, ◌≡◌, ◌≢◌, ◌↔◌, refl, max, List, [], ◌∷◌, none, some, false, ltb, if◌then◌else◌,
  bytes_discrete,
}
use reticulum_sdk.Base.Map.{get}
use reticulum_sdk.Packet.Context.{link_request_proof}
use reticulum_sdk.Packet.Types.{AddressHash, Hash, Packet, packet_default}
use reticulum_sdk.Transport.LinkTable.{
  LinkEntry, LinkTable, LinkId, new, loop, retransmission, link_id_from, link_add,
  link_handle_packet, link_handle_proof, link_remove_stale, propagate, link_table_new,
  original_destination, default_per_hop_timeout,
}
use reticulum_sdk.Transport.LinkTable.Direction.{lrproof-link_handle_packet}
use reticulum_sdk.Transport.LinkTable.Validation.{
  start, next, add_request, Reach-link_handle_packet,
}
use reticulum_sdk.Transport.LinkTable.Requests.{link_add-link_add, link_remove_stale-link_add}

abbrev plain_digest : List ℕ → Hash
plain_digest bytes = bytes

abbrev request : Packet
request = record packet_default { header = record (packet_default.header) { hops = 2 } }

abbrev link_id : LinkId
link_id = link_id_from plain_digest request

abbrev waiting : LinkEntry
waiting = record {
  timestamp = 5;
  proof_timeout = 18_000_000_005;
  next_hop_iface = 8 ∷ [];
  received_from = 7 ∷ [];
  original_destination = 1 ∷ [];
  taken_hops = 2;
  remaining_hops = 3;
  validated = false;
  rebalanced = false;
  forward_count = 0;
}

abbrev table : LinkTable
table = ((4 ∷ []), waiting) ∷ []

abbrev proof : Packet
proof = record packet_default {
  header = record (packet_default.header) { hops = 4 };
  destination = 4 ∷ [];
  context = link_request_proof;
}

abbrev message : Packet
message = record packet_default {
  header = record (packet_default.header) { hops = 4 };
  destination = 4 ∷ [];
}

table-get : get bytes_discrete (4 ∷ []) table ≡ some waiting
unfolding get bytes_discrete ℕ_discrete
table-get = refl

apart : ◌≢◌ {A = List ℕ} (8 ∷ []) (7 ∷ [])
apart e = cc

abbrev proven_table : LinkTable
proven_table = (link_handle_proof 20 proof (8 ∷ []) table).0

lrproof-link_handle_packet_example :
    (4 ≡ proof.header.hops
      → (link_handle_packet 30 message (8 ∷ []) proven_table).1 ≡ some (propagate message (7 ∷ [])))
    × (4 ≡ waiting.taken_hops
        → (link_handle_packet 30 message (7 ∷ []) proven_table).1
          ≡ some (propagate message (8 ∷ [])))
    × ((other : AddressHash)
        → other ≢ (7 ∷ [])
        → other ≢ (8 ∷ [])
        → link_handle_packet 30 message other proven_table ≡ (proven_table, none))
lrproof-link_handle_packet_example =
    lrproof-link_handle_packet (7 ∷ []) (8 ∷ []) waiting (refl, refl, apart) table proof table-get
      refl 20 30 message refl

abbrev asked : LinkTable
asked = (link_add plain_digest 5 request (1 ∷ []) (7 ∷ []) (8 ∷ []) 3 link_table_new).0

Reach-link_handle_packet_example :
    (link_handle_packet 30 message (8 ∷ []) asked ≡ (asked, none))
    × (original_destination (4 ∷ []) asked ≡ none)
Reach-link_handle_packet_example =
    Reach-link_handle_packet plain_digest (4 ∷ [])
      (next start (add_request 5 request (1 ∷ []) (7 ∷ []) (8 ∷ []) 3 refl)) 30 message (8 ∷ [])
      refl

link_add-link_add_example :
    ((link_add plain_digest 5 request (1 ∷ []) (7 ∷ []) (8 ∷ []) 3 link_table_new).1 ≡ new)
    × ((again : Packet) (later remaining_hops' : ℕ)
          (destination' received_from' iface' : AddressHash)
        → link_id_from plain_digest again ≡ link_id
        → link_add plain_digest later again destination' received_from' iface' remaining_hops' asked
          ≡ (asked, if ltb 2 again.header.hops then loop else retransmission))
unfolding get
link_add-link_add_example =
    link_add-link_add plain_digest 5 request (1 ∷ []) (7 ∷ []) (8 ∷ []) 3 link_table_new refl

link_remove_stale-link_add_example :
    (get bytes_discrete link_id (link_remove_stale 1000 7 asked) ≡ none)
    ↔ (5 + default_per_hop_timeout * max 3 1 ≤ 1000)
unfolding get
link_remove_stale-link_add_example =
    link_remove_stale-link_add plain_digest 5 request (1 ∷ []) (7 ∷ []) (8 ∷ []) 3 link_table_new
      refl 1000 7 tt
