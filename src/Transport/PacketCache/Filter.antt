-- ===== src/Transport/PacketCache/Filter.antt =====
-- The packet cache (src/transport/packet_cache.rs) as a filter of duplicates.
use mathlib.Core.Logic.{if_pos}
use reticulum_sdk.Base.{
  ◌↔◌, ℕ, ◌≡◌, refl, ap, ◌∙◌, inl, inr, List, length, none, some, true, false, Option-cases,
  Bool-cases, bytes_discrete, leb,
}
use reticulum_sdk.Base.Map.{
  get, update, Unique, mapped, get-insert_self, get-update, get-remove_self, insert-Unique,
  update-Unique, remove-Unique,
}
use reticulum_sdk.Packet.Types.{Hash, Packet, packet_hash}
use reticulum_sdk.Transport.PacketCache.{
  PacketTrack, PacketCache, evict, update_cache, release_packet, touch, oldest_loop,
}

module _ (sha256 : List ℕ → Hash) (now now' : ℕ) (packet : Packet) (c : PacketCache) where
  abbrev hash : Hash
  hash = packet_hash sha256 packet

  -- A packet is new if and only if its hash is not in the cache.
  update_cache_new :
      ((update_cache sha256 now now' packet c).1 ≡ true) ↔ (get bytes_discrete hash c.map ≡ none)
  unfolding update_cache
  update_cache_new = elim (Option-cases (get bytes_discrete hash c.map)) [
    | inl new ↦ rw (new, update_cache) (λ _. refl, λ _. refl)
    | inr (track, seen) ↦ rw (seen, update_cache) (λ e. cc, λ e. cc)
  ]

  found :
      (track : PacketTrack)
      → get bytes_discrete hash c.map ≡ some track
      → get bytes_discrete hash (update bytes_discrete hash (touch now packet.header.hops) c.map)
        ≡ some (touch now packet.header.hops track)
  found track seen =
      get-update bytes_discrete hash hash (touch now packet.header.hops) c.map
      ∙ if_pos (bytes_discrete hash hash) refl _ _
      ∙ ap (mapped bytes_discrete (touch now packet.header.hops)) seen

  update_cache_known :
      (track : PacketTrack) × (get bytes_discrete hash (update_cache sha256 now now' packet c).0.map
        ≡ some track)
  unfolding update_cache
  update_cache_known = elim (Option-cases (get bytes_discrete hash c.map)) [
    | inl new ↦
        rw (new, update_cache)
          (
            _,
            get-insert_self bytes_discrete hash
                (record { time = now'; min_hops = packet.header.hops }) (evict now c),
          )
    | inr (track, seen) ↦
        rw (seen, update_cache) (touch now packet.header.hops track, found track seen)
  ]

  duplicate :
      (later later' : ℕ) (other : Packet) (d : PacketCache) (track : PacketTrack)
      → get bytes_discrete (packet_hash sha256 other) d.map ≡ some track
      → (update_cache sha256 later later' other d).1 ≡ false
  unfolding update_cache
  duplicate later later' other d track seen = rw (seen, update_cache)

  -- Once the packet cache has seen a packet, a packet with the same hash that comes next is
  -- reported as a duplicate.
  update_cache_duplicate :
      (later later' : ℕ) (other : Packet)
      → packet_hash sha256 other ≡ packet_hash sha256 packet
      → (update_cache sha256 later later' other (update_cache sha256 now now' packet c).0).1 ≡ false
  update_cache_duplicate later later' other same =
      let (track, known) = update_cache_known in
      let seen =
        ap (λ k. get bytes_discrete k (update_cache sha256 now now' packet c).0.map) same ∙ known in
      duplicate later later' other (update_cache sha256 now now' packet c).0 track seen

  -- After `release_packet` the same packet is reported as new again.
  update_cache_released :
      (update_cache sha256 now now' packet (release_packet sha256 packet c)).1 ≡ true
  unfolding update_cache release_packet
  update_cache_released = rw (get-remove_self bytes_discrete hash c.map, update_cache)

  evict-Unique : Unique bytes_discrete c.map → Unique bytes_discrete (evict now c)
  unfolding evict
  evict-Unique u = elim (Bool-cases (leb c.max_entries (length c.map))) [
    | inr room ↦ rw room u
    | inl full ↦ elim (Option-cases (oldest_loop none now c.map)) [
      | inl e ↦ rw (full, e, evict) u
      | inr (key, e) ↦ rw (full, e, evict) (remove-Unique bytes_discrete key c.map u)
    ]
  ]

  -- No duplicate keys arise.
  update_cache-Unique :
      Unique bytes_discrete c.map
      → Unique bytes_discrete (update_cache sha256 now now' packet c).0.map
  unfolding update_cache
  update_cache-Unique u = elim (Option-cases (get bytes_discrete hash c.map)) [
    | inl new ↦
        rw (new, update_cache)
          (insert-Unique bytes_discrete hash (record { time = now'; min_hops = packet.header.hops })
            (evict now c) (evict-Unique u))
    | inr (track, seen) ↦
        rw (seen, update_cache)
          (update-Unique bytes_discrete hash (touch now packet.header.hops) c.map u)
  ]
