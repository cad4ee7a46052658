-- ===== src/Transport/PacketCache/Eviction.antt =====
-- The bound of the packet cache (src/transport/packet_cache.rs), and which entry is evicted.
use mathlib.Core.Path.{subst}
use mathlib.Core.Logic.{if_pos, if_neg}
use native.Mathlib.Decide.{dec_le}
use reticulum_sdk.Base.{
  ℕ, ◌≤◌, ◌<◌, ◌≡◌, refl, sym, ap, ◌∙◌, ◌⊎◌, inl, inr, List, [], ◌∷◌, length, All, Option, none,
  some, ltb, arith, Bool-cases, Option-cases, bytes_discrete, le→leb, lt→leb,
}
use reticulum_sdk.Base.Map.{
  get, insert, Unique, length-update, length-remove-le, length-remove_present, get-remove_ne,
  get-insert_ne, get-update,
}
use reticulum_sdk.Packet.Types.{Hash, Packet, packet_hash}
use reticulum_sdk.Transport.PacketCache.{
  PacketTrack, PacketCache, oldest_loop, evict, update_cache, touch,
}

abbrev pub Tracks : Type 0
Tracks = List (Hash × PacketTrack)

-- Every entry was last seen at `time` or later; every entry was last seen before `time`.
abbrev pub AllSince : ℕ → Tracks → Type 0
AllSince time = All (λ e. time ≤ e.1.time)

abbrev pub AllBefore : ℕ → Tracks → Type 0
AllBefore time = All (λ e. e.1.time < time)

AllSince-weaken : (a b : ℕ) (m : Tracks) → a ≤ b → AllSince b m → AllSince a m
AllSince-weaken a b [] h all = tt
AllSince-weaken a b (e ∷ m) h all = (omega arith, AllSince-weaken a b m h all.1)

abbrev Has : Hash → PacketTrack → Tracks → Type 0
Has key track [] = ⊥
Has key track (e ∷ m) = ((e.0 ≡ key) × (e.1 ≡ track)) ⊎ Has key track m

some_eq {ℓ} : {A : Type ℓ} (a b : A) → some a ≡ some b → a ≡ b
some_eq a b e = cc

none-ne-some {ℓ} : {A : Type ℓ} (a : A) → ¬ (none ≡ some a)
none-ne-some a e = cc

Has-get :
    (key : Hash) (track : PacketTrack) (m : Tracks)
    → Has key track m
    → (t : PacketTrack) × (get bytes_discrete key m ≡ some t)
unfolding get
Has-get key track [] h = absurd h
Has-get key track (e ∷ m) (inl same) = (e.1, if_pos (bytes_discrete e.0 key) same.0 _ _)
Has-get key track (e ∷ m) (inr later) = elim (bytes_discrete e.0 key) [
  | yes p ↦ (e.1, if_pos (bytes_discrete e.0 key) p _ _)
  | no n ↦
      let (t, found) = Has-get key track m later in
      (t, if_neg (bytes_discrete e.0 key) n _ _ ∙ found)
]

Has-get-Unique :
    (key : Hash) (track : PacketTrack) (m : Tracks)
    → Unique bytes_discrete m
    → Has key track m
    → get bytes_discrete key m ≡ some track
unfolding get
Has-get-Unique key track [] u h = absurd h
Has-get-Unique key track (e ∷ m) u (inl same) =
    if_pos (bytes_discrete e.0 key) same.0 _ _ ∙ ap some same.1
Has-get-Unique key track (e ∷ m) u (inr later) = elim (bytes_discrete e.0 key) [
  | yes p ↦
      let (t, found) = Has-get key track m later in
      absurd (none-ne-some t (sym u.0 ∙ ap (λ k. get bytes_discrete k m) p ∙ found))
  | no n ↦ if_neg (bytes_discrete e.0 key) n _ _ ∙ Has-get-Unique key track m u.1 later
]

-- What the loop over the entries finds.
abbrev Chosen : Option Hash → ℕ → Tracks → Option Hash → Type 0
Chosen oldest time m r =
    ((r ≡ oldest) × AllSince time m)
    ⊎ ((key : Hash) × (track : PacketTrack) × (r ≡ some key)
        × Has key track m
        × (track.time < time)
        × AllSince track.time m)

oldest_loop-Chosen :
    (oldest : Option Hash) (time : ℕ) (m : Tracks)
    → Chosen oldest time m (oldest_loop oldest time m)
unfolding oldest_loop
oldest_loop-Chosen oldest time [] = inl (refl, tt)
oldest_loop-Chosen oldest time ((k, t) ∷ m) = elim (Bool-cases (ltb t.time time)) [
  | inl older ↦ rw older (elim (oldest_loop-Chosen (some k) t.time m) [
    | inl (e, all) ↦ inr (k, t, e, inl (refl, refl), ground arith, (omega arith, all))
    | inr (key, track, e, has, before, all) ↦
        inr (key, track, e, inr has, ground arith, (omega arith, all))
  ])
  | inr newer ↦ rw newer (elim (oldest_loop-Chosen oldest time m) [
    | inl (e, all) ↦ inl (e, (ground arith, all))
    | inr (key, track, e, has, before, all) ↦
        inr (key, track, e, inr has, before, (ground arith, all))
  ])
]

none_both : (now : ℕ) (m : Tracks) → AllBefore now m → AllSince now m → length m ≡ 0
none_both now [] b s = refl
none_both now (e ∷ m) b s = absurd (omega arith)

-- A full cache whose entries are all older than the clock loses an entry.
evict_shrinks :
    (now : ℕ) (c : PacketCache)
    → AllBefore now c.map
    → 0 < c.max_entries
    → length c.map ≤ c.max_entries
    → length (evict now c) < c.max_entries
unfolding evict
evict_shrinks now c before pos bound = elim (dec_le c.max_entries (length c.map)) [
  | yes full ↦
      rw (le→leb c.max_entries (length c.map) full) (elim (oldest_loop-Chosen none now c.map) [
        | inl (e, since) ↦ absurd (omega (arith, none_both now c.map before since))
        | inr (key, track, e, has, old, since) ↦
            let (t, found) = Has-get key track c.map has in
            rw e (omega (arith, length-remove_present bytes_discrete key c.map t found))
      ])
  | no room ↦ rw (lt→leb c.max_entries (length c.map) (omega arith)) (omega arith)
]

module _ (sha256 : List ℕ → Hash) where
  -- A packet cache of at most `max_entries` entries, `max_entries` at least 1, keeps that bound
  -- when a packet is seen, if every entry was made before the instant at which the eviction
  -- starts.
  pub update_cache_bounded :
      (now now' : ℕ) (packet : Packet) (c : PacketCache)
      → AllBefore now c.map
      → 0 < c.max_entries
      → length c.map ≤ c.max_entries
      → length (update_cache sha256 now now' packet c).0.map ≤ c.max_entries
  unfolding update_cache
  update_cache_bounded now now' packet c before pos bound =
      elim (Option-cases (get bytes_discrete (packet_hash sha256 packet) c.map)) [
        | inl new ↦
            rw (new, update_cache)
              (omega (
                arith,
                evict_shrinks now c before pos bound,
                length-remove-le bytes_discrete (packet_hash sha256 packet) (evict now c),
              ))
        | inr (track, seen) ↦
            rw (seen, update_cache)
              (omega (
                arith,
                length-update bytes_discrete (packet_hash sha256 packet)
                    (touch now packet.header.hops) c.map,
              ))
      ]

  get-evict :
      (now : ℕ) (c : PacketCache) (k : Hash) (track : PacketTrack)
      → get bytes_discrete k c.map ≡ some track
      → get bytes_discrete k (evict now c) ≡ none
      → Unique bytes_discrete c.map
      → (c.max_entries ≤ length c.map) × AllSince track.time c.map
  unfolding evict
  get-evict now c k track seen gone unique = elim (dec_le c.max_entries (length c.map)) [
    | no room ↦
        let stays = lt→leb c.max_entries (length c.map) (omega arith) in
        cc (seen, (rw stays at gone))
    | yes full ↦
        let turns = le→leb c.max_entries (length c.map) full in
        elim (oldest_loop-Chosen none now c.map) [
          | inl (e, since) ↦ cc (seen, (rw (turns, e) at gone))
          | inr (key, oldest, e, has, old, since) ↦ elim (bytes_discrete key k) [
            | no other ↦
                cc (seen, get-remove_ne bytes_discrete k key c.map other, (rw (turns, e) at gone))
            | yes same ↦
                let same_track : some oldest ≡ some track =
                  sym (Has-get-Unique key oldest c.map unique has)
                  ∙ ap (λ x. get bytes_discrete x c.map) same
                  ∙ seen in
                (full, subst (λ t. AllSince t.time c.map) (some_eq oldest track same_track) since)
          ]
        ]
  ]

  -- In a packet cache without duplicate keys, an entry that disappears when a packet is seen was
  -- an oldest one, and the cache was full.
  pub update_cache_victim :
      (now now' : ℕ) (packet : Packet) (c : PacketCache) (k : Hash) (track : PacketTrack)
      → Unique bytes_discrete c.map
      → get bytes_discrete k c.map ≡ some track
      → get bytes_discrete k (update_cache sha256 now now' packet c).0.map ≡ none
      → (c.max_entries ≤ length c.map) × AllSince track.time c.map
  unfolding update_cache
  update_cache_victim now now' packet c k track unique seen gone =
      elim (Option-cases (get bytes_discrete hash c.map)) [
        | inr (t, present) ↦
            let kept = get-update bytes_discrete k hash (touch now packet.header.hops) c.map in
            absurd (ground (arith, kept, present, seen, gone))
        | inl new ↦
            let left : get bytes_discrete k (insert bytes_discrete hash added (evict now c))
                ≡ none =
              rw (new, update_cache) at gone in
            elim (bytes_discrete hash k) [
              | yes same ↦
                  absurd (
                    none-ne-some track (sym new ∙ ap (λ x. get bytes_discrete x c.map) same ∙ seen))
              | no other ↦
                  get-evict now c k track seen
                    (sym (get-insert_ne bytes_discrete k hash added (evict now c) other) ∙ left)
                    unique
            ]
      ]
    where
      hash : Hash
      hash = packet_hash sha256 packet

      added : PacketTrack
      added = record { time = now'; min_hops = packet.header.hops }
