-- ===== src/Transport/PathTable/Stale.antt =====
-- Announces that are older than an accepted one, in src/transport/path_table.rs.
use reticulum_sdk.Base.{
  ℕ, ◌+◌, ◌≤◌, ◌<◌, ◌≡◌, refl, ap, ◌∙◌, ◌⊎◌, List, [], ◌∷◌, Option, some, Bool, true, false, arith,
  bytes_discrete,
}
use reticulum_sdk.Base.Int.{ℤ}
use reticulum_sdk.Packet.Types.{AddressHash, Hash, Packet}
use reticulum_sdk.Transport.PathTable.Entry.{
  PathEntry, RandomBlob, announce_random_blob, contains, max_timebase, timebase,
  timebase_from_random_blob, should_accept,
}
use reticulum_sdk.Transport.PathTable.Table.{PathTable, path_get, path_handle_announce, installed}
use reticulum_sdk.Transport.PathTable.Updates.{after, entry_after, after-keep}
use reticulum_sdk.Transport.PathTable.Replay.{
  BlobsBounded, entry-contains, found_entry, would_update_path-entry,
}

-- A path is as new as every emission that it remembers.
max_timebase-contains :
    (blob : RandomBlob) (blobs : List RandomBlob)
    → contains blob blobs ≡ true
    → timebase_from_random_blob blob ≤ max_timebase blobs
unfolding contains max_timebase
max_timebase-contains blob [] h = cc
max_timebase-contains blob (b ∷ blobs) h = elim (bytes_discrete b blob) [
  | yes same ↦ let e = ap timebase_from_random_blob same in omega (arith, e)
  | no other ↦ ground (arith, max_timebase-contains blob blobs)
]

module _ {F : Type 0} (gt : F → F → Bool) where
  stale_refused :
      (later hops : ℕ) (blob : RandomBlob) (gravity : ℤ) (bitrate : Option F) (e : PathEntry F)
      → contains blob e.random_blobs ≡ false
      → timebase_from_random_blob blob < timebase e
      → (hops ≤ e.hops) ⊎ (later < e.expires)
      → should_accept gt later hops blob gravity bitrate e ≡ false
  unfolding should_accept
  stale_refused later hops blob gravity bitrate e unseen older live = ground arith

  module _ (sha256 : List ℕ → Hash) (now : ℕ) (announce : Packet)
      (transport_id : Option AddressHash) (iface : AddressHash) (path_expiry : ℕ) (gravity : ℤ)
      (bitrate : Option F) (t : PathTable F) where
    abbrev pub accepted_table : PathTable F
    accepted_table =
        (after gt sha256 now announce transport_id iface path_expiry gravity bitrate t).0

    abbrev entry : PathEntry F
    entry = entry_after gt sha256 now announce transport_id iface path_expiry gravity bitrate t

    entry-hops : entry.hops ≡ announce.header.hops
    unfolding installed
    entry-hops = refl

    entry-expires : entry.expires ≡ now + path_expiry
    unfolding installed
    entry-expires = refl

    entry-timebase :
        (blob : RandomBlob)
        → BlobsBounded t
        → announce_random_blob announce ≡ some blob
        → timebase_from_random_blob blob ≤ timebase entry
    unfolding timebase
    entry-timebase blob bounded emitted = max_timebase-contains blob entry.random_blobs (
        entry-contains gt sha256 now announce transport_id iface path_expiry gravity bitrate t blob
          bounded emitted)

    -- After an accepted announce with a random blob, an announce of the same destination with an
    -- earlier emission that the path does not remember is rejected, and the table kept, whatever
    -- its transport, interface, gravity and bit rate: at any later time if it has no more hops
    -- than the accepted one, and before the path expires otherwise. Every path of the table
    -- remembers at most 64 random blobs.
    pub path_handle_announce_stale :
        (blob : RandomBlob)
        → BlobsBounded t
        → announce_random_blob announce ≡ some blob
        → (after gt sha256 now announce transport_id iface path_expiry gravity bitrate t).1 ≡ true
        → (e : PathEntry F) (old : Packet) (old_blob : RandomBlob)
        → path_get announce.destination accepted_table ≡ some e
        → contains old_blob e.random_blobs ≡ false
        → old.destination ≡ announce.destination
        → announce_random_blob old ≡ some old_blob
        → timebase_from_random_blob old_blob < timebase_from_random_blob blob
        → (later : ℕ) → (old.header.hops ≤ announce.header.hops) ⊎ (later < now + path_expiry)
        → (transport_id' : Option AddressHash) (iface' : AddressHash) (path_expiry' : ℕ)
          (gravity' : ℤ) (bitrate' : Option F)
        → path_handle_announce gt sha256 later old transport_id' iface' path_expiry' gravity'
            bitrate' accepted_table
          ≡ (accepted_table, false)
    path_handle_announce_stale blob bounded emitted accepted e old old_blob found unseen same
          old_emitted older later live transport_id' iface' path_expiry' gravity' bitrate' =
        let is_entry : e ≡ entry =
          found_entry gt sha256 now announce transport_id iface path_expiry gravity bitrate t
            announce.destination e accepted refl found in
        let here : path_get old.destination accepted_table ≡ some entry =
          ap (λ d. path_get d accepted_table) same ∙ found ∙ ap some is_entry in
        let newer = entry-timebase blob bounded emitted in
        after-keep gt sha256 later old transport_id' iface' path_expiry' gravity' bitrate'
          accepted_table
          (would_update_path-entry gt later old old_blob gravity' bitrate' entry accepted_table
              old_emitted here
            ∙ stale_refused later old.header.hops old_blob gravity' bitrate' entry
                (rw is_entry at unseen) (omega (arith, older, newer))
                (rw (entry-hops, entry-expires) live))
