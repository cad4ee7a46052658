-- ===== src/Transport/AnnounceTable/Bounds.antt =====
-- How large the archive of src/transport/announce_table.rs grows: the operations as steps of the
-- table, and an invariant by induction on the steps.
use reticulum_sdk.Base.{
  ℕ, ◌-◌, ◌≤◌, ◌≡◌, refl, inl, inr, List, [], ◌∷◌, length, Bool, Option, none, some, ltb, leb,
  arith, Bool-cases, Option-cases, bytes_discrete,
}
use reticulum_sdk.Base.Map.{get, remove, length-remove-le, length-retain-le}
use reticulum_sdk.Packet.Types.{AddressHash, Packet}
use reticulum_sdk.Transport.AnnounceTable.Entry.{AnnounceEntry}
use reticulum_sdk.Transport.AnnounceTable.Cache.{
  EntryMap, AnnounceCache, rotated, cache_insert, cache_get, cache_prune, prune_older, recent,
  announce_cache_capacity, announce_cache_max_age, announce_cache_prune_interval,
}
use reticulum_sdk.Transport.AnnounceTable.Table.{
  AnnounceTable, announce_table_new, announce_add, add_response, announce_clear, echo_received,
  archive, to_retransmit, cache_len, older_length,
}

-- The representation invariant of the archive.
record Bounded (c : AnnounceCache) : Type 0 where
  newer_bound : length c.newer ≤ c.capacity
  older_bound : older_length c.older ≤ c.capacity
  capacity_fixed : c.capacity ≡ announce_cache_capacity

insert-Bounded :
    (d : AddressHash) (e : AnnounceEntry) (c : AnnounceCache)
    → Bounded c
    → Bounded (cache_insert d e c)
unfolding cache_insert rotated remove
insert-Bounded d e c h = elim (Bool-cases (leb c.capacity (length c.newer))) [
  | inr room ↦ rw (room) (record {
    newer_bound = ground (arith, length-remove-le bytes_discrete d c.newer);
    older_bound = h.older_bound;
    capacity_fixed = h.capacity_fixed;
  })
  | inl full ↦ rw (full) (record {
    newer_bound = omega (arith, h.capacity_fixed);
    older_bound = h.newer_bound;
    capacity_fixed = h.capacity_fixed;
  })
]

prune_older-length :
    (keep : AddressHash → AnnounceEntry → Bool) (o : Option EntryMap)
    → older_length (prune_older keep o) ≤ older_length o
prune_older-length keep none = omega arith
prune_older-length keep (some m) = length-retain-le keep m

prune-Bounded :
    (now max_age : ℕ) (c : AnnounceCache) → Bounded c → Bounded (cache_prune now max_age c)
unfolding cache_prune
prune-Bounded now max_age c h =
    elim (Bool-cases (ltb (now - c.last_prune) announce_cache_prune_interval)) [
      | inl soon ↦ rw (soon, cache_prune) h
      | inr due ↦
          rw (due, cache_prune)
            (record {
              newer_bound =
                  omega (arith, length-retain-le (recent now max_age) c.newer, h.newer_bound);
              older_bound =
                  omega (arith, prune_older-length (recent now max_age) c.older, h.older_bound);
              capacity_fixed = h.capacity_fixed;
            })
    ]

archive-Bounded :
    (ds : List AddressHash) (m : EntryMap) (c : AnnounceCache)
    → Bounded c
    → Bounded (archive ds m c).1
unfolding archive
archive-Bounded [] m c h = h
archive-Bounded (d ∷ ds) m c h = elim (Option-cases (get bytes_discrete d m)) [
  | inl gone ↦ rw (gone, archive) (archive-Bounded ds (remove bytes_discrete d m) c h)
  | inr (e, here) ↦
      rw (here, archive)
        (archive-Bounded ds (remove bytes_discrete d m) (cache_insert d e c)
          (insert-Bounded d e c h))
]

-- The changes of the table.
pub data Step (t u : AnnounceTable) : Type 0 where
  add_announce :
      (random now : ℕ) (packet : Packet) (d from : AddressHash)
      → u ≡ announce_add random now packet d from t
      → Step t u
  answer_request :
      (random now : ℕ) (d iface : AddressHash) (hops grace : ℕ)
      → u ≡ (add_response random now d iface hops grace t).0
      → Step t u
  hear_echo : (now : ℕ) (d : AddressHash) (hops : ℕ) → u ≡ (echo_received now d hops t).0 → Step t u
  cycle :
      (random random' : AddressHash → ℕ) (now : ℕ) (id : AddressHash)
      → u ≡ (to_retransmit random random' now id t).0
      → Step t u
  clear_all : u ≡ announce_clear t → Step t u

pub data Reach : AnnounceTable → Type 0 where
  start : (now : ℕ) → Reach (announce_table_new now)
  next : {t u : AnnounceTable} → Reach t → Step t u → Reach u

add_response-cache :
    (random now : ℕ) (d iface : AddressHash) (hops grace : ℕ) (t : AnnounceTable)
    → (add_response random now d iface hops grace t).0.cache ≡ t.cache
unfolding add_response
add_response-cache random now d iface hops grace t =
    elim (Option-cases (get bytes_discrete d t.map')) [
      | inr (e, known) ↦ rw (known, add_response) refl
      | inl unknown ↦ elim (Option-cases (cache_get d t.cache)) [
        | inr (e, archived) ↦ rw (unknown, archived, add_response) refl
        | inl absent ↦ rw (unknown, absent, add_response) refl
      ]
    ]

echo_received-cache :
    (now : ℕ) (d : AddressHash) (hops : ℕ) (t : AnnounceTable)
    → (echo_received now d hops t).0.cache ≡ t.cache
unfolding echo_received
echo_received-cache now d hops t = ground arith

Step-Bounded : {t u : AnnounceTable} → Step t u → Bounded t.cache → Bounded u.cache
unfolding to_retransmit announce_add
Step-Bounded {t} (add_announce r n p d f e) h = rw e h
Step-Bounded {t} (answer_request r n d i hops g e) h = rw (e, add_response-cache r n d i hops g t) h
Step-Bounded {t} (hear_echo n d hops e) h = rw (e, echo_received-cache n d hops t) h
Step-Bounded {t} (cycle r r' n id e) h =
    rw e (archive-Bounded _ _ _ (prune-Bounded n announce_cache_max_age t.cache h))
Step-Bounded {t} (clear_all e) h = rw e (record {
  newer_bound = omega arith;
  older_bound = omega arith;
  capacity_fixed = h.capacity_fixed;
})

Reach-Bounded : {t : AnnounceTable} → Reach t → Bounded t.cache
Reach-Bounded (start now) = record {
  newer_bound = omega arith;
  older_bound = omega arith;
  capacity_fixed = refl;
}
Reach-Bounded (next r step) = Step-Bounded step (Reach-Bounded r)

-- In every announce table that the operations reach from a new one, the archive holds at most
-- 20000 announces.
pub Reach-cache_len : {t : AnnounceTable} → Reach t → cache_len t.cache ≤ 20_000
unfolding cache_len
Reach-cache_len {t} r =
    let h = Reach-Bounded r in omega (arith, h.newer_bound, h.older_bound, h.capacity_fixed)
