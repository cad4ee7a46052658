-- ===== src/Transport/PathTable/Table.antt =====
-- src/transport/path_table.rs, `PathTable`: lookups, announces and maintenance.
use mathlib.Core.Logic.{ite}
use reticulum_sdk.Base.{
  ℕ, ◌+◌, ◌-◌, List, [], ◌∷◌, length, Option, none, some, Bool, true, false, not, ◌||◌, ltb, leb,
  ◌==◌, if◌then◌else◌, bytes_discrete,
}
use reticulum_sdk.Base.Int.{ℤ}
use reticulum_sdk.Base.Map.{get, remove, insert, update, retain}
use reticulum_sdk.Packet.Types.{AddressHash, Hash, Packet, packet_hash}
use reticulum_sdk.Transport.PathTable.Entry.{
  PathEntry, unknown, unresponsive, RandomBlob, announce_random_blob, should_accept,
  updated_random_blobs, is_unresponsive_state,
}

pub record PathTable (F : Type 0) : Type 0 where
  pub map : List (AddressHash × PathEntry F)
  pub reroute_eager : Bool

module _ {F : Type 0} where
  unfoldable pub path_table_new : Bool → PathTable F
  path_table_new reroute_eager = record { map = []; reroute_eager = reroute_eager }

  abbrev pub path_get : AddressHash → PathTable F → Option (PathEntry F)
  path_get destination t = get bytes_discrete destination t.map

  abbrev pub alive : ℕ → (AddressHash → Bool) → AddressHash → PathEntry F → Bool
  alive now is_active_iface destination entry =
      if leb entry.expires now
      then false
      else (if not (is_active_iface entry.iface) then false else true)

  -- The new table, and the number of paths removed.
  unfoldable pub remove_stale : ℕ → (AddressHash → Bool) → PathTable F → PathTable F × ℕ
  remove_stale now is_active_iface t =
      let kept = retain (alive now is_active_iface) t.map in
      (record t { map = kept }, length t.map - length kept)

  route_of : Option (PathEntry F) → Option (AddressHash × AddressHash × ℕ)
  route_of none = none
  route_of (some entry) = some (entry.received_from, entry.iface, entry.hops)

  unfoldable pub next_hop_route : AddressHash → PathTable F → Option (AddressHash × AddressHash × ℕ)
  unfolding route_of
  next_hop_route destination t = route_of (path_get destination t)

  announce_of : Option (PathEntry F) → Option Packet
  announce_of none = none
  announce_of (some entry) = entry.announce

  unfoldable pub path_announce : AddressHash → PathTable F → Option Packet
  unfolding announce_of
  path_announce destination t = announce_of (path_get destination t)

  iface_of : Option (PathEntry F) → Option AddressHash
  iface_of none = none
  iface_of (some entry) = some entry.iface

  unfoldable pub next_hop_iface : AddressHash → PathTable F → Option AddressHash
  unfolding iface_of
  next_hop_iface destination t = iface_of (path_get destination t)

  abbrev pub hop_of : Option (PathEntry F) → Option AddressHash
  hop_of none = none
  hop_of (some entry) = some entry.received_from

  unfoldable pub next_hop : AddressHash → PathTable F → Option AddressHash
  next_hop destination t = hop_of (path_get destination t)

  unresponsive_of : Option (PathEntry F) → Bool
  unresponsive_of none = false
  unresponsive_of (some entry) = is_unresponsive_state entry.state

  unfoldable pub is_unresponsive : AddressHash → PathTable F → Bool
  unfolding unresponsive_of
  is_unresponsive destination t = unresponsive_of (path_get destination t)

  -- `get_mut`, and the change of the entry that it finds.
  abbrev pub change : AddressHash → (PathEntry F → PathEntry F) → PathTable F → PathTable F
  change destination f t = record t { map = update bytes_discrete destination f t.map }

  unfoldable pub mark_unresponsive : AddressHash → PathTable F → PathTable F
  mark_unresponsive destination = change destination (λ e. record e { state = unresponsive })

  unfoldable pub mark_state_unknown : AddressHash → PathTable F → PathTable F
  mark_state_unknown destination = change destination (λ e. record e { state = unknown })

  unfoldable pub refresh : ℕ → AddressHash → PathTable F → PathTable F
  refresh now destination =
      change destination (λ e. record e { timestamp = now; expires = now + e.path_expiry })

  -- The new table, and the old and new hop count if it changed.
  unfoldable pub rebalance_hops : AddressHash → ℕ → PathTable F → PathTable F × Option (ℕ × ℕ)
  rebalance_hops destination new_hops t = elim (path_get destination t) [
    | none ↦ (t, none)
    | some entry ↦
        if new_hops == entry.hops
        then (t, none)
        else (if ltb entry.hops new_hops then (t, none) else (
          change destination (λ e. record e { hops = new_hops }) t,
          some (entry.hops, new_hops),
        ))
  ]

  is_some_entry : Option (PathEntry F) → Bool
  is_some_entry none = false
  is_some_entry (some entry) = true

  unfoldable pub remove_path : AddressHash → PathTable F → PathTable F × Bool
  unfolding is_some_entry
  remove_path destination t = (
    record t { map = remove bytes_discrete destination t.map },
    is_some_entry (path_get destination t),
  )

  abbrev pub not_via : AddressHash → AddressHash → PathEntry F → Bool
  not_via via destination entry = ite (bytes_discrete entry.received_from via) false true

  unfoldable pub drop_all_via : AddressHash → PathTable F → PathTable F × ℕ
  drop_all_via via t =
      let kept = retain (not_via via) t.map in (record t { map = kept }, length t.map - length kept)

-- `transport_id.unwrap_or(announce.destination)`
pub received_from_of : Option AddressHash → AddressHash → AddressHash
received_from_of none destination = destination
received_from_of (some transport) destination = transport

module _ {F : Type 0} (gt : F → F → Bool) where
  -- The `match` on what the table holds and on the announce's random blob.
  decide_update : ℕ → ℕ → ℤ → Option F → Bool → Option (PathEntry F) → Option RandomBlob → Bool
  decide_update now hops gravity bitrate eager none blob = true
  decide_update now hops gravity bitrate eager (some entry) (some blob) =
      should_accept gt now hops blob gravity bitrate entry
  decide_update now hops gravity bitrate eager (some entry) none =
      if ltb entry.hops hops then false else (eager || ltb hops entry.hops)

  unfoldable pub would_update_path : ℕ → Packet → ℤ → Option F → PathTable F → Bool
  unfolding decide_update
  would_update_path now announce gravity bitrate t =
      decide_update now announce.header.hops gravity bitrate t.reroute_eager
        (path_get announce.destination t) (announce_random_blob announce)

  blobs_of : Option (PathEntry F) → Option RandomBlob → List RandomBlob
  blobs_of none none = []
  blobs_of none (some blob) = blob ∷ []
  blobs_of (some entry) blob = updated_random_blobs entry blob

  -- The entry that an accepted announce installs; `now` is the clock at its creation.
  unfoldable pub installed :
      (List ℕ → Hash)
      → ℕ
      → Packet
      → Option AddressHash
      → AddressHash
      → ℕ
      → ℤ
      → Option F
      → PathTable F
      → PathEntry F
  unfolding blobs_of received_from_of
  installed sha256 now announce transport_id iface path_expiry gravity bitrate t = record {
    timestamp = now;
    received_from = received_from_of transport_id announce.destination;
    hops = announce.header.hops;
    iface = iface;
    packet_hash = packet_hash sha256 announce;
    expires = now + path_expiry;
    path_expiry = path_expiry;
    random_blobs = blobs_of (path_get announce.destination t) (announce_random_blob announce);
    state = unknown;
    iface_gravity = gravity;
    iface_bitrate = bitrate;
    announce = some announce;
  }

  unfoldable pub path_handle_announce :
      (List ℕ → Hash)
      → ℕ
      → Packet
      → Option AddressHash
      → AddressHash
      → ℕ
      → ℤ
      → Option F
      → PathTable F
      → PathTable F × Bool
  path_handle_announce sha256 now announce transport_id iface path_expiry gravity bitrate t =
      if not (would_update_path now announce gravity bitrate t) then (t, false) else (
        record t {
          map =
              insert bytes_discrete announce.destination
                (installed sha256 now announce transport_id iface path_expiry gravity bitrate t)
                t.map;
        },
        true,
      )
