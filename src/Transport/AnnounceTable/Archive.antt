-- ===== src/Transport/AnnounceTable/Archive.antt =====
-- How long the archive of src/transport/announce_table.rs keeps an announce.
use reticulum_sdk.Base.{
  ℕ, suc, ◌+◌, ◌≤◌, ◌≡◌, ◌≢◌, refl, ◌∙◌, inl, inr, List, [], ◌∷◌, length, none, some, false, leb,
  arith, All, lt→leb, Bool-cases, bytes_discrete,
}
use reticulum_sdk.Base.Map.{get, get-insert_self, get-insert_ne, length-remove-le}
use reticulum_sdk.Packet.Types.{AddressHash}
use reticulum_sdk.Transport.AnnounceTable.Entry.{AnnounceEntry}
use reticulum_sdk.Transport.AnnounceTable.Cache.{
  AnnounceCache, rotated, cache_insert, cache_get, in_older,
}

-- Later insertions, one after the other.
unfoldable pub cache_inserts : List (AddressHash × AnnounceEntry) → AnnounceCache → AnnounceCache
cache_inserts [] c = c
cache_inserts (p ∷ rest) c = cache_inserts rest (cache_insert p.0 p.1 c)

module _ (d : AddressHash) (e : AnnounceEntry) where
  abbrev pub Other : AddressHash × AnnounceEntry → Type 0
  Other p = p.0 ≢ d

  -- The entry lies in the older bucket, and the newer one has room for `n` more.
  record InOlder (n : ℕ) (c : AnnounceCache) : Type 0 where
    shadow : get bytes_discrete d c.newer ≡ none
    found : in_older d c.older ≡ some e
    room : length c.newer + n ≤ c.capacity

  insert-InOlder :
      (n : ℕ) (p : AddressHash × AnnounceEntry) (c : AnnounceCache)
      → Other p
      → InOlder (suc n) c
      → InOlder n (cache_insert p.0 p.1 c)
  unfolding cache_insert rotated
  insert-InOlder n p c other h =
      let full : leb c.capacity (length c.newer) ≡ false =
        lt→leb c.capacity (length c.newer) (omega (arith, h.room)) in
      rw (full) (record {
        shadow = get-insert_ne bytes_discrete d p.0 p.1 c.newer other ∙ h.shadow;
        found = h.found;
        room = omega (arith, h.room, length-remove-le bytes_discrete p.0 c.newer);
      })

  inserts-InOlder :
      (rest : List (AddressHash × AnnounceEntry)) (c : AnnounceCache)
      → All Other rest
      → InOlder (length rest) c
      → cache_get d (cache_inserts rest c) ≡ some e
  unfolding cache_inserts cache_get
  inserts-InOlder [] c others h = rw (h.shadow, cache_get) h.found
  inserts-InOlder (p ∷ rest) c others h =
      inserts-InOlder rest (cache_insert p.0 p.1 c) others.1
        (insert-InOlder (length rest) p c others.0 h)

  inserts-newer :
      (rest : List (AddressHash × AnnounceEntry)) (c : AnnounceCache)
      → All Other rest
      → get bytes_discrete d c.newer ≡ some e
      → length rest ≤ c.capacity
      → cache_get d (cache_inserts rest c) ≡ some e
  unfolding cache_inserts cache_get cache_insert rotated get
  inserts-newer [] c others here few = rw (here, cache_get) refl
  inserts-newer (p ∷ rest) c others here few = elim (Bool-cases (leb c.capacity (length c.newer))) [
    | inr room ↦
        inserts-newer rest (cache_insert p.0 p.1 c) others.1
          (rw room (get-insert_ne bytes_discrete d p.0 p.1 c.newer others.0 ∙ here))
          (rw room (omega arith))
    | inl full ↦ inserts-InOlder rest (cache_insert p.0 p.1 c) others.1 (
        rw full (record {
          shadow = get-insert_ne bytes_discrete d p.0 p.1 [] others.0;
          found = here;
          room = omega (arith, length-remove-le bytes_discrete p.0 []);
        }))
  ]

  -- An archived announce is found again after as many insertions of other destinations as the
  -- archive has capacity, or fewer.
  pub cache_insert-cache_get :
      (rest : List (AddressHash × AnnounceEntry)) (c : AnnounceCache)
      → All Other rest
      → length rest ≤ c.capacity
      → cache_get d (cache_inserts rest (cache_insert d e c)) ≡ some e
  unfolding cache_insert rotated
  cache_insert-cache_get rest c others few = elim (Bool-cases (leb c.capacity (length c.newer))) [
    | inr room ↦
        inserts-newer rest (cache_insert d e c) others
          (rw room (get-insert_self bytes_discrete d e c.newer)) (rw room few)
    | inl full ↦
        inserts-newer rest (cache_insert d e c) others
          (rw full (get-insert_self bytes_discrete d e [])) (rw full few)
  ]
