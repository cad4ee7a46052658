-- ===== src/Transport/ReverseTable/Tests.antt =====
-- The theorems on src/transport/reverse_table.rs at a concrete packet and its proof.
use mathlib.Core.Logic.{ite}
use reticulum_sdk.Base.{ℕ, ◌≡◌, refl, List, [], ◌∷◌, none, some, bytes_discrete}
use reticulum_sdk.Packet.Header.{open'}
use reticulum_sdk.Packet.Types.{
  Hash, Packet, packet_default, packet_hash, address_hash_new_from_hash,
}
use reticulum_sdk.Transport.ReverseTable.{handle_proof, add}
use reticulum_sdk.Transport.ReverseTable.Proofs.{handle_proof-add}

abbrev plain_digest : List ℕ → Hash
plain_digest bytes = bytes

abbrev sent : Packet
sent = packet_default

abbrev answer : Packet
answer = record packet_default {
  destination = address_hash_new_from_hash (packet_hash plain_digest sent);
}

handle_proof-add_example :
    (handle_proof answer (6 ∷ []) (add plain_digest 50 sent (5 ∷ []) (6 ∷ []) [])).1
    ≡ ite
        (bytes_discrete (6 ∷ []) (6 ∷ []))
        (some (
          record answer { header = record (answer.header) { ifac_flag = open' }; ifac = none },
          5 ∷ [],
        ))
        none
handle_proof-add_example =
    handle_proof-add plain_digest 50 sent answer (5 ∷ []) (6 ∷ []) (6 ∷ []) [] refl
