-- ===== src/Transport/PathTable/Updates.antt =====
-- Which announces change the path table of src/transport/path_table.rs, and how.
use reticulum_sdk.Base.{
  ℕ, ◌≡◌, ◌≢◌, refl, ap, ◌∙◌, inl, inr, List, Option, some, Bool, true, false, Bool-cases,
  bytes_discrete,
}
use reticulum_sdk.Base.Int.{ℤ}
use reticulum_sdk.Base.Map.{insert, get-insert_self, get-insert_ne}
use reticulum_sdk.Packet.Types.{AddressHash, Hash, Packet}
use reticulum_sdk.Transport.PathTable.Entry.{PathEntry}
use reticulum_sdk.Transport.PathTable.Table.{
  PathTable, path_get, would_update_path, installed, path_handle_announce, next_hop_route,
  received_from_of,
}

next_hop_route-get :
    {F : Type 0} (destination : AddressHash) (t : PathTable F) (e : PathEntry F)
    → path_get destination t ≡ some e
    → next_hop_route destination t ≡ some (e.received_from, e.iface, e.hops)
unfolding next_hop_route
next_hop_route-get destination t e found = rw (found, next_hop_route)

module _ {F : Type 0} (gt : F → F → Bool) (sha256 : List ℕ → Hash) (now : ℕ) (announce : Packet)
    (transport_id : Option AddressHash) (iface : AddressHash) (path_expiry : ℕ) (gravity : ℤ)
    (bitrate : Option F) (t : PathTable F) where
  abbrev pub entry_after : PathEntry F
  entry_after = installed gt sha256 now announce transport_id iface path_expiry gravity bitrate t

  abbrev pub after : PathTable F × Bool
  after =
      path_handle_announce gt sha256 now announce transport_id iface path_expiry gravity bitrate t

  after-update :
      would_update_path gt now announce gravity bitrate t ≡ true
      → after
        ≡ (record t { map = insert bytes_discrete announce.destination entry_after t.map }, true)
  unfolding path_handle_announce
  after-update update = rw (update, path_handle_announce)

  pub after-keep : would_update_path gt now announce gravity bitrate t ≡ false → after ≡ (t, false)
  unfolding path_handle_announce
  after-keep keep = rw (keep, path_handle_announce)

  pub after-get : after.1 ≡ true → path_get announce.destination after.0 ≡ some entry_after
  after-get accepted = elim (Bool-cases (would_update_path gt now announce gravity bitrate t)) [
    | inl update ↦
        rw (after-update update)
          (get-insert_self bytes_discrete announce.destination entry_after t.map)
    | inr keep ↦ cc (rw (after-keep keep) at accepted)
  ]

  pub after-get_ne :
      (other : AddressHash)
      → announce.destination ≢ other
      → path_get other after.0 ≡ path_get other t
  after-get_ne other ne = elim (Bool-cases (would_update_path gt now announce gravity bitrate t)) [
    | inl update ↦
        rw (after-update update)
          (get-insert_ne bytes_discrete other announce.destination entry_after t.map ne)
    | inr keep ↦ rw (after-keep keep) refl
  ]

  entry_after-route :
      ◌≡◌ {A = Option (AddressHash × AddressHash × ℕ)}
        (some (entry_after.received_from, entry_after.iface, entry_after.hops))
        (some (received_from_of transport_id announce.destination, iface, announce.header.hops))
  unfolding installed
  entry_after-route = refl

  -- After an accepted announce the route to its destination goes by the transport that relayed it
  -- (the destination itself if none did), the interface it came on and its hop count. No other
  -- path changes.
  pub path_handle_announce_accepted :
      after.1 ≡ true
      → (next_hop_route announce.destination after.0
          ≡ some (received_from_of transport_id announce.destination, iface, announce.header.hops))
        × ((other : AddressHash)
            → announce.destination ≢ other
            → path_get other after.0 ≡ path_get other t)
  path_handle_announce_accepted accepted = (
    next_hop_route-get announce.destination after.0 entry_after (after-get accepted)
        ∙ entry_after-route,
    after-get_ne,
  )

  -- When `handle_announce` answers `false` the table is unchanged, and `would_update_path` says
  -- `false` of the same announce.
  pub path_handle_announce_rejected :
      after.1 ≡ false
      → (after.0 ≡ t) × (would_update_path gt now announce gravity bitrate t ≡ false)
  path_handle_announce_rejected refused =
      elim (Bool-cases (would_update_path gt now announce gravity bitrate t)) [
        | inl update ↦ cc (rw (after-update update) at refused)
        | inr keep ↦ (ap (λ r. r.0) (after-keep keep), keep)
      ]
