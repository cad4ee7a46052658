-- ===== src/Transport/PacketCache/Tests.antt =====
-- Runs of src/transport/packet_cache.rs with a stand-in for SHA-256, and its theorems at concrete
-- caches.
use native.Mathlib.Decide.{ℕ_discrete}
use reticulum_sdk.Base.{ℕ, ◌≤◌, refl, arith, List, [], ◌∷◌, length, bytes_discrete}
use reticulum_sdk.Base.Map.{get, remove, Unique}
use reticulum_sdk.Packet.Types.{Hash, Packet, packet_default, packet_hash}
use reticulum_sdk.Packet.Header.{to_meta}
use reticulum_sdk.Packet.Context.{context_u8}
use reticulum_sdk.Transport.PacketCache.{PacketCache, update_cache}
use reticulum_sdk.Transport.PacketCache.Eviction.{
  AllSince, update_cache_bounded, update_cache_victim,
}

-- Not a digest: the bytes themselves. Nothing here depends on collisions.
abbrev plain_digest : List ℕ → Hash
plain_digest bytes = bytes

abbrev probe : Packet
probe = record packet_default { data' = record { buffer = 7 ∷ [] } }

abbrev full : PacketCache
full = record {
  map =
      ((1 ∷ []), record { time = 40; min_hops = 2 })
      ∷ ((2 ∷ []), record { time = 30; min_hops = 1 })
      ∷ [];
  max_entries = 2;
}

full-Unique : Unique bytes_discrete full.map
unfolding get bytes_discrete ℕ_discrete
full-Unique = (refl, (refl, tt))

update_cache_bounded_example : length (update_cache plain_digest 50 51 probe full).0.map ≤ 2
update_cache_bounded_example =
    update_cache_bounded plain_digest 50 51 probe full (omega arith) (omega arith) (omega arith)

update_cache_victim_example : (2 ≤ 2) × AllSince 30 full.map
unfolding get bytes_discrete ℕ_discrete update_cache packet_hash remove to_meta context_u8
update_cache_victim_example =
    update_cache_victim plain_digest 50 51 probe full (2 ∷ []) (record { time = 30; min_hops = 1 })
      full-Unique refl refl
