-- ===== src/Transport/PacketCache.antt =====
-- src/transport/packet_cache.rs: the bounded filter of duplicate packets.
pub mod Eviction
pub mod Filter
mod Tests
use reticulum_sdk.Base.{
  ℕ, ◌-◌, List, [], ◌∷◌, length, min, Option, none, some, Bool, true, false, ltb, leb,
  if◌then◌else◌, bytes_discrete,
}
use reticulum_sdk.Base.Map.{get, remove, insert, update, retain}
use reticulum_sdk.Packet.Types.{Hash, Packet, packet_hash}

pub record PacketTrack : Type 0 where
  pub time : ℕ
  pub min_hops : ℕ

pub record PacketCache : Type 0 where
  pub map : List (Hash × PacketTrack)
  pub max_entries : ℕ

-- `embedded` is the cargo feature.
unfoldable pub cache_new : Bool → PacketCache
cache_new embedded = record { map = []; max_entries = if embedded then 8192 else 250_000 }

-- `track.time.elapsed() <= duration`, at the instant `now`.
abbrev pub fresh : ℕ → ℕ → Hash → PacketTrack → Bool
fresh now duration hash track = leb (now - track.time) duration

unfoldable pub release : ℕ → ℕ → PacketCache → PacketCache
release now duration c = record c { map = retain (fresh now duration) c.map }

-- The loop of the eviction: the key of the entry with the least time below `oldest_time`.
pub oldest_loop : Option Hash → ℕ → List (Hash × PacketTrack) → Option Hash
oldest_loop oldest oldest_time [] = oldest
oldest_loop oldest oldest_time ((key, track) ∷ rest) =
    let older = ltb track.time oldest_time in
    oldest_loop (if older then some key else oldest) (if older then track.time else oldest_time)
      rest

pub evict : ℕ → PacketCache → List (Hash × PacketTrack)
evict now c =
    if leb c.max_entries (length c.map)
    then (elim (oldest_loop none now c.map) [
      | none ↦ c.map
      | some key ↦ remove bytes_discrete key c.map
    ])
    else c.map

abbrev pub touch : ℕ → ℕ → PacketTrack → PacketTrack
touch now hops track = record { time = now; min_hops = min hops track.min_hops }

-- SHA-256 is a parameter of all that hashes a packet.
module _ (sha256 : List ℕ → Hash) where
  unfoldable pub release_packet : Packet → PacketCache → PacketCache
  release_packet packet c = record c {
    map = remove bytes_discrete (packet_hash sha256 packet) c.map;
  }

  -- `now` is the clock before the eviction, `now'` the clock at the insertion.
  unfoldable pub update_cache : ℕ → ℕ → Packet → PacketCache → PacketCache × Bool
  unfolding evict oldest_loop
  update_cache now now' packet c =
      let hash = packet_hash sha256 packet in
      elim (get bytes_discrete hash c.map) [
        | some track ↦ (
          record c { map = update bytes_discrete hash (touch now packet.header.hops) c.map },
          false,
        )
        | none ↦ (
          record c {
            map =
                insert bytes_discrete hash (record { time = now'; min_hops = packet.header.hops })
                  (evict now c);
          },
          true,
        )
      ]
