-- ===== src/Transport/ReverseTable/Proofs.antt =====
-- What a proof that comes back does to the reverse table (src/transport/reverse_table.rs).
use mathlib.Core.Logic.{ite}
use reticulum_sdk.Base.{ℕ, ◌≡◌, ap, ◌∙◌, List, Option, none, some, bytes_discrete}
use reticulum_sdk.Base.Map.{get, remove, get-insert_self, get-remove_self}
use reticulum_sdk.Packet.Header.{open'}
use reticulum_sdk.Packet.Types.{AddressHash, Hash, Packet, packet_hash, address_hash_new_from_hash}
use reticulum_sdk.Transport.ReverseTable.{
  ReverseEntry, ReverseTable, send_backwards, handle_proof, add,
}

-- What `handle_proof` makes of the entry that it took out.
abbrev outcome : Packet → AddressHash → Option ReverseEntry → Option (Packet × AddressHash)
outcome proof received_on none = none
outcome proof received_on (some entry) =
    ite (bytes_discrete received_on entry.outbound_interface) (some (send_backwards proof entry))
      none

module _ (sha256 : List ℕ → Hash) (now : ℕ) (packet proof : Packet)
    (received_from outbound received_on : AddressHash) (t : ReverseTable)
    (answers : proof.destination ≡ address_hash_new_from_hash (packet_hash sha256 packet)) where
  abbrev added : ReverseTable
  added = add sha256 now packet received_from outbound t

  -- A proof of a packet that was just recorded is sent back with an open IFAC flag to the
  -- interface that the packet came from, if it arrives on the interface that the packet left by,
  -- and is dropped otherwise.
  pub handle_proof-add :
      (handle_proof proof received_on added).1
      ≡ ite
          (bytes_discrete received_on outbound)
          (some (
            record proof { header = record (proof.header) { ifac_flag = open' }; ifac = none },
            received_from,
          ))
          none
  unfolding handle_proof add send_backwards
  handle_proof-add = ap (outcome proof received_on) (
      ap (λ k. get bytes_discrete k added) answers
      ∙ get-insert_self bytes_discrete (address_hash_new_from_hash (packet_hash sha256 packet))
          entry t)
    where
      entry : ReverseEntry
      entry = record {
        timestamp = now;
        received_from = received_from;
        outbound_interface = outbound;
      }

-- A proof for the same destination as the one handled just before is dropped, whatever interface
-- it arrives on.
handle_proof_once :
    (first second : Packet) (on on' : AddressHash) (t : ReverseTable)
    → second.destination ≡ first.destination
    → (handle_proof second on' (handle_proof first on t).0).1 ≡ none
unfolding handle_proof
handle_proof_once first second on on' t same = ap (outcome second on') (
    ap (λ k. get bytes_discrete k (remove bytes_discrete first.destination t)) same
    ∙ get-remove_self bytes_discrete first.destination t)
