-- ===== src/Transport/PathTable/Tests.antt =====
-- The theorems on src/transport/path_table.rs at a concrete table, with natural numbers for bit
-- rates and a stand-in for SHA-256.
use native.Mathlib.Decide.{ℕ_discrete}
use reticulum_sdk.Base.{
  ℕ, zero, suc, ◌≡◌, ◌≢◌, refl, arith, List, [], ◌∷◌, none, some, Bool, true, false, ltb,
  bytes_discrete, inl, ◌++◌,
}
use reticulum_sdk.Base.Int.{pos}
use reticulum_sdk.Base.Map.{get, Unique}
use reticulum_sdk.Packet.Types.{AddressHash, Hash, Packet, packet_default}
use reticulum_sdk.Packet.Header.{announce}
use reticulum_sdk.Transport.PathTable.Entry.{
  PathEntry, unknown, announce_random_blob, contains, timebase_from_random_blob, RandomBlob,
}
use reticulum_sdk.Transport.PathTable.Table.{
  PathTable, path_get, path_handle_announce, would_update_path, next_hop_route, received_from_of,
  remove_stale, refresh, next_hop_iface, installed,
}
use reticulum_sdk.Transport.PathTable.Updates.{path_handle_announce_accepted, after, entry_after}
use reticulum_sdk.Transport.PathTable.Replay.{path_handle_announce_replayed, BlobsBounded}
use reticulum_sdk.Transport.PathTable.Stale.{path_handle_announce_stale}
use reticulum_sdk.Transport.PathTable.Maintenance.{refresh_extends}

abbrev plain_digest : List ℕ → Hash
plain_digest bytes = bytes

abbrev zeros : ℕ → List ℕ
zeros zero = []
zeros (suc n) = 0 ∷ zeros n

abbrev heard : Packet
heard = record packet_default {
  header = record (packet_default.header) { packet_type = announce; hops = 2 };
  destination = 1 ∷ [];
  data' = record { buffer = zeros 84 };
}

abbrev far : PathEntry ℕ
far = record {
  timestamp = 10;
  received_from = 5 ∷ [];
  hops = 3;
  iface = 6 ∷ [];
  packet_hash = [];
  expires = 110;
  path_expiry = 100;
  random_blobs = [];
  state = unknown;
  iface_gravity = pos 0;
  iface_bitrate = some 9600;
  announce = none;
}

abbrev known : PathTable ℕ
known = record { map = ((1 ∷ []), far) ∷ []; reroute_eager = false }

abbrev empty : PathTable ℕ
empty = record { map = []; reroute_eager = false }

abbrev faster : ℕ → ℕ → Bool
faster a b = ltb b a

faster_irreflexive : (a : ℕ) → faster a a ≡ false
faster_irreflexive a = ground arith

known-Unique : Unique bytes_discrete known.map
unfolding get
known-Unique = (refl, tt)

abbrev late_blob : RandomBlob
late_blob = 0 ∷ 0 ∷ 0 ∷ 0 ∷ 0 ∷ 0 ∷ 0 ∷ 0 ∷ 0 ∷ 9 ∷ []

path_handle_announce_accepted_example :
    (next_hop_route
        (1 ∷ [])
        (after faster plain_digest 20 heard none (7 ∷ []) 100 (pos 0) none empty).0
      ≡ some (received_from_of none (1 ∷ []), 7 ∷ [], 2))
    × ((other : AddressHash)
        → 1 ∷ [] ≢ other
        → path_get other (after faster plain_digest 20 heard none (7 ∷ []) 100 (pos 0) none empty).0
          ≡ path_get other empty)
unfolding path_handle_announce would_update_path get
path_handle_announce_accepted_example =
    path_handle_announce_accepted faster plain_digest 20 heard none (7 ∷ []) 100 (pos 0) none empty
      refl

empty-BlobsBounded : BlobsBounded empty
unfolding get
empty-BlobsBounded d e found = cc

path_handle_announce_replayed_example :
    path_handle_announce faster plain_digest 30 heard
      (some (8 ∷ []))
      (9 ∷ [])
      100
      (pos 0)
      none
      (after faster plain_digest 20 heard none (7 ∷ []) 100 (pos 0) none empty).0
    ≡ ((after faster plain_digest 20 heard none (7 ∷ []) 100 (pos 0) none empty).0, false)
unfolding path_handle_announce would_update_path get announce_random_blob
path_handle_announce_replayed_example =
    path_handle_announce_replayed faster plain_digest 20 heard none (7 ∷ []) 100 (pos 0) none empty
      (zeros 10) faster_irreflexive empty-BlobsBounded refl refl 30 (some (8 ∷ [])) (9 ∷ []) 100

-- An announce with a later emission than `heard`.
abbrev fresh : Packet
fresh = record heard { data' = record { buffer = zeros 74 ++ late_blob } }

abbrev fresh_table : PathTable ℕ
fresh_table = (after faster plain_digest 20 fresh none (7 ∷ []) 100 (pos 0) none empty).0

path_handle_announce_stale_example :
    path_handle_announce faster plain_digest 30 heard
      (some (8 ∷ []))
      (9 ∷ [])
      100
      (pos 5)
      none
      fresh_table
    ≡ (fresh_table, false)
unfolding path_handle_announce would_update_path get announce_random_blob installed contains
    timebase_from_random_blob bytes_discrete ℕ_discrete
path_handle_announce_stale_example =
    path_handle_announce_stale faster plain_digest 20 fresh none (7 ∷ []) 100 (pos 0) none empty
      late_blob empty-BlobsBounded refl refl
      (entry_after faster plain_digest 20 fresh none (7 ∷ []) 100 (pos 0) none empty) heard
      (zeros 10) refl refl refl refl (omega arith) 30 (inl (omega arith)) (some (8 ∷ [])) (9 ∷ [])
      100 (pos 5) none

refresh_extends_example :
    next_hop_iface (1 ∷ []) (remove_stale 149 (λ iface. true) (refresh 50 (1 ∷ []) known)).0
    ≡ some (6 ∷ [])
unfolding get bytes_discrete ℕ_discrete
refresh_extends_example =
    refresh_extends 50 (λ iface. true) (1 ∷ []) known far refl refl known-Unique 149 (omega arith)
