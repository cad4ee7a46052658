-- ===== src/Transport/ReverseTable.antt =====
-- src/transport/reverse_table.rs: where the proof of a forwarded packet is sent back to.
pub mod Proofs
mod Tests
use reticulum_sdk.Base.{
  ℕ, ◌-◌, List, [], ◌∷◌, length, Option, none, some, Bool, leb, if◌then◌else◌, bytes_discrete,
}
use mathlib.Core.Logic.{ite}
use reticulum_sdk.Base.Map.{get, remove, insert, retain}
use reticulum_sdk.Packet.Header.{open'}
use reticulum_sdk.Packet.Types.{AddressHash, Hash, Packet, packet_hash, address_hash_new_from_hash}

pub record ReverseEntry : Type 0 where
  pub timestamp : ℕ
  pub received_from : AddressHash
  pub outbound_interface : AddressHash

abbrev pub ReverseTable : Type 0
ReverseTable = List (AddressHash × ReverseEntry)

abbrev pub reverse_new : ReverseTable
reverse_new = []

unfoldable pub send_backwards : Packet → ReverseEntry → Packet × AddressHash
send_backwards packet entry = (
  record packet { header = record (packet.header) { ifac_flag = open' }; ifac = none },
  entry.received_from,
)

unfoldable pub handle_proof :
    Packet → AddressHash → ReverseTable → ReverseTable × Option (Packet × AddressHash)
handle_proof proof received_on t = (
  remove bytes_discrete proof.destination t,
  elim (get bytes_discrete proof.destination t) [
    | none ↦ none
    | some entry ↦
        ite (bytes_discrete received_on entry.outbound_interface)
          (some (send_backwards proof entry)) none
  ],
)

abbrev pub not_stale : ℕ → ℕ → AddressHash → ReverseEntry → Bool
not_stale now max_age destination entry = leb (now - entry.timestamp) max_age

unfoldable pub remove_stale : ℕ → ℕ → ReverseTable → ReverseTable
remove_stale now max_age = retain (not_stale now max_age)

module _ (sha256 : List ℕ → Hash) where
  unfoldable pub add : ℕ → Packet → AddressHash → AddressHash → ReverseTable → ReverseTable
  add now packet received_from outbound_interface t =
      let entry : ReverseEntry = record {
        timestamp = now;
        received_from = received_from;
        outbound_interface = outbound_interface;
      } in
      insert bytes_discrete (address_hash_new_from_hash (packet_hash sha256 packet)) entry t
