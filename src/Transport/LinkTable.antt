-- ===== src/Transport/LinkTable.antt =====
-- src/transport/link_table.rs: the links that this node relays. An entry is made by a link request,
-- validated by a link-request proof, and then carries packets both ways.
pub mod Cases
pub mod Direction
pub mod Requests
pub mod Validation
mod Tests
use Prim.Native.Nat.{bit_and}
use mathlib.Core.Logic.{ite}
use reticulum_sdk.Base.{
  ℕ, suc, ◌+◌, ◌-◌, ◌*◌, max, List, [], ◌∷◌, ◌++◌, length, take, Option, none, some, Bool, true,
  false, not, ◌&&◌, ◌||◌, ltb, leb, ◌==◌, if◌then◌else◌, bytes_discrete,
}
use reticulum_sdk.Base.Map.{get, insert, update, retain}
use reticulum_sdk.Packet.Header.{open', to_meta}
use reticulum_sdk.Packet.Context.{PacketContext, context_u8, link_request_proof}
use reticulum_sdk.Packet.Types.{AddressHash, Hash, Packet, address_hash_new_from_hash}

abbrev pub LinkId : Type 0
LinkId = AddressHash

abbrev pub public_key_length : ℕ
public_key_length = 32

-- `LinkId::from(&packet)`: what follows the two public keys of a request is not hashed.
unfoldable pub link_id_from : (List ℕ → Hash) → Packet → LinkId
link_id_from sha256 packet =
    let bytes = packet.data'.buffer in
    let data_diff =
      if ltb (public_key_length * 2) (length bytes)
      then length bytes - public_key_length * 2
      else 0 in
    let hashable_data = take (length bytes - data_diff) bytes in
    address_hash_new_from_hash (
      sha256 (
        (bit_and (to_meta packet.header) 0b0000_1111 ∷ packet.destination)
        ++ (context_u8 packet.context ∷ hashable_data)))

-- In nanoseconds; the source counts seconds.
abbrev pub default_per_hop_timeout : ℕ
default_per_hop_timeout = 6 * 1_000_000_000

pub record LinkEntry : Type 0 where
  pub timestamp : ℕ
  pub proof_timeout : ℕ
  pub next_hop_iface : AddressHash
  pub received_from : AddressHash
  pub original_destination : AddressHash
  pub taken_hops : ℕ
  pub remaining_hops : ℕ
  pub validated : Bool
  pub rebalanced : Bool
  pub forward_count : ℕ

abbrev pub LinkTable : Type 0
LinkTable = List (LinkId × LinkEntry)

pub record RebalanceInfo : Type 0 where
  pub destination : AddressHash
  pub hops : ℕ

pub record HandleProofOutcome : Type 0 where
  pub propagation : Packet × AddressHash
  pub rebalance : Option RebalanceInfo

pub data AddLinkRequest : Type 0 where
  new retransmission loop : AddLinkRequest

abbrev pub link_table_new : LinkTable
link_table_new = []

unfoldable pub propagate : Packet → AddressHash → Packet × AddressHash
propagate packet iface =
    (record packet { header = record (packet.header) { ifac_flag = open' }; ifac = none }, iface)

-- The entry of a new request.
unfoldable pub link_entry_new : ℕ → Packet → AddressHash → AddressHash → AddressHash → ℕ → LinkEntry
link_entry_new now link_request destination received_from iface remaining_hops = record {
  timestamp = now;
  proof_timeout = now + default_per_hop_timeout * max remaining_hops 1;
  next_hop_iface = iface;
  received_from = received_from;
  original_destination = destination;
  taken_hops = link_request.header.hops;
  remaining_hops = remaining_hops;
  validated = false;
  rebalanced = false;
  forward_count = 0;
}

-- `LinkTable::add`
unfoldable pub link_add :
    (List ℕ → Hash)
    → ℕ
    → Packet
    → AddressHash
    → AddressHash
    → AddressHash
    → ℕ
    → LinkTable
    → LinkTable × AddLinkRequest
link_add sha256 now link_request destination received_from iface remaining_hops t =
    let link_id = link_id_from sha256 link_request in
    elim (get bytes_discrete link_id t) [
      | some existing ↦
          (t, if ltb existing.taken_hops link_request.header.hops then loop else retransmission)
      | none ↦ (
        insert bytes_discrete link_id
            (link_entry_new now link_request destination received_from iface remaining_hops) t,
        new,
      )
    ]

original_of : Option LinkEntry → Option AddressHash
original_of none = none
original_of (some e) = if e.validated then some e.original_destination else none

unfoldable pub original_destination : LinkId → LinkTable → Option AddressHash
unfolding original_of
original_destination link_id t = original_of (get bytes_discrete link_id t)

unfoldable pub handle_keepalive : ℕ → Packet → LinkTable → LinkTable × Option (Packet × AddressHash)
unfolding propagate
handle_keepalive now packet t = elim (get bytes_discrete packet.destination t) [
  | none ↦ (t, none)
  | some entry ↦ (
    update bytes_discrete packet.destination (λ e. record e { timestamp = now }) t,
    some (propagate packet entry.received_from),
  )
]

-- The interface that a packet of the link leaves by, `outbound_iface` of `handle_packet`.
unfoldable pub packet_outbound : AddressHash → ℕ → LinkEntry → Option AddressHash
packet_outbound received_on hops entry =
    ite (bytes_discrete entry.next_hop_iface entry.received_from)
      (if hops == entry.remaining_hops || hops == entry.taken_hops
        then some entry.next_hop_iface
        else none)
      (ite (bytes_discrete received_on entry.next_hop_iface)
        (if hops == entry.remaining_hops then some entry.received_from else none)
        (ite (bytes_discrete received_on entry.received_from)
          (if hops == entry.taken_hops then some entry.next_hop_iface else none) none))

abbrev pub count_forward : ℕ → LinkEntry → LinkEntry
count_forward now e = record e { timestamp = now; forward_count = e.forward_count + 1 }

-- `LinkTable::handle_packet`
unfoldable pub link_handle_packet :
    ℕ → Packet → AddressHash → LinkTable → LinkTable × Option (Packet × AddressHash)
link_handle_packet now packet received_on t = elim (get bytes_discrete packet.destination t) [
  | none ↦ (t, none)
  | some entry ↦
      if not entry.validated
      then (t, none)
      else (elim (packet_outbound received_on packet.header.hops entry) [
        | none ↦ (t, none)
        | some iface ↦ (
          update bytes_discrete packet.destination (count_forward now) t,
          some (propagate packet iface),
        )
      ])
]

abbrev pub is_lrproof : PacketContext → Bool
is_lrproof link_request_proof = true
is_lrproof _ = false

-- `outbound_iface` of `handle_proof`.
unfoldable pub proof_outbound : Bool → AddressHash → ℕ → LinkEntry → Option AddressHash
proof_outbound lrproof received_on hops entry =
    ite (bytes_discrete entry.next_hop_iface entry.received_from)
      (if hops == entry.remaining_hops || hops == entry.taken_hops || lrproof
        then some entry.next_hop_iface
        else none)
      (ite (bytes_discrete received_on entry.next_hop_iface)
        (if lrproof || hops == entry.remaining_hops then some entry.received_from else none)
        (ite (bytes_discrete received_on entry.received_from)
          (if hops == entry.taken_hops then some entry.next_hop_iface else none) none))

unfoldable pub rebalance_of : Bool → ℕ → LinkEntry → Option RebalanceInfo
rebalance_of lrproof hops entry =
    if lrproof && not entry.rebalanced
    then some (record { destination = entry.original_destination; hops = hops })
    else none

-- What a forwarded proof changes of the entry.
unfoldable pub proven : ℕ → Bool → ℕ → LinkEntry → LinkEntry
proven now lrproof hops e = record e {
  rebalanced = if lrproof && not e.rebalanced then true else e.rebalanced;
  remaining_hops = if lrproof then hops else e.remaining_hops;
  validated = if lrproof then true else e.validated;
  timestamp = now;
  forward_count = e.forward_count + 1;
}

-- `LinkTable::handle_proof`
unfoldable pub link_handle_proof :
    ℕ → Packet → AddressHash → LinkTable → LinkTable × Option HandleProofOutcome
link_handle_proof now proof received_on t =
    let lrproof = is_lrproof proof.context in
    let hops = proof.header.hops in
    elim (get bytes_discrete proof.destination t) [
      | none ↦ (t, none)
      | some entry ↦ elim (proof_outbound lrproof received_on hops entry) [
        | none ↦ (t, none)
        | some iface ↦ (
          update bytes_discrete proof.destination (proven now lrproof hops) t,
          some (record {
            propagation = propagate proof iface;
            rebalance = rebalance_of lrproof hops entry;
          }),
        )
      ]
    ]

-- The maximal and the total count, over the validated entries.
unfoldable pub stats_loop : ℕ → ℕ → LinkTable → ℕ × ℕ
stats_loop max_fwd total_fwd [] = (max_fwd, total_fwd)
stats_loop max_fwd total_fwd (e ∷ t) =
    stats_loop (if e.1.validated then max max_fwd e.1.forward_count else max_fwd)
      (if e.1.validated then total_fwd + e.1.forward_count else total_fwd) t

abbrev pub forward_stats : LinkTable → ℕ × ℕ
forward_stats = stats_loop 0 0

-- Whether an entry stays when the stale ones are removed.
unfoldable pub link_alive : ℕ → ℕ → LinkId → LinkEntry → Bool
link_alive now max_age link_id entry =
    if entry.validated then ltb now (entry.timestamp + max_age) else ltb now entry.proof_timeout

-- `LinkTable::remove_stale`. The stale keys are collected, then removed one by one; keys are unique,
-- so this is one pass.
unfoldable pub link_remove_stale : ℕ → ℕ → LinkTable → LinkTable
unfolding link_alive
link_remove_stale now max_age = retain (link_alive now max_age)
