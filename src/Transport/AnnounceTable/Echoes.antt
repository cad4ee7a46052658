-- ===== src/Transport/AnnounceTable/Echoes.antt =====
-- What src/transport/announce_table.rs concludes from the echoes of its own announces.
use mathlib.Core.Logic.{if_pos}
use reticulum_sdk.Base.{
  ℕ, ◌+◌, ◌<◌, ◌≡◌, refl, ap, ◌∙◌, none, some, true, false, arith, bytes_discrete,
}
use reticulum_sdk.Base.Map.{get, remove, update, mapped, get-update, get-remove_self}
use reticulum_sdk.Packet.Types.{AddressHash}
use reticulum_sdk.Transport.AnnounceTable.Entry.{AnnounceEntry}
use reticulum_sdk.Transport.AnnounceTable.Table.{AnnounceTable, echo_received}

abbrev counted : AnnounceEntry → AnnounceEntry
counted e = record e { local_rebroadcasts = e.local_rebroadcasts + 1 }

module _ (now : ℕ) (d : AddressHash) (t : AnnounceTable) (e : AnnounceEntry)
    (known : get bytes_discrete d t.map' ≡ some e) (tried : 0 < e.retries) where
  first_echo :
      e.local_rebroadcasts ≡ 0
      → echo_received now d (e.hops + 1) t
        ≡ (record t { map' = update bytes_discrete d counted t.map' }, false)
  unfolding echo_received
  first_echo fresh = rw (known, echo_received) (ground arith)

  last_echo :
      e.local_rebroadcasts ≡ 1
      → echo_received now d (e.hops + 1) t
        ≡ (record t { map' = remove bytes_discrete d t.map' }, true)
  unfolding echo_received
  last_echo once = rw (known, echo_received) (ground arith)

  passed_on :
      e.hops + 1 < 256
      → now < e.timeout
      → echo_received now d (e.hops + 2) t
        ≡ (record t { map' = remove bytes_discrete d t.map' }, true)
  unfolding echo_received
  passed_on small early = rw (known, echo_received) (ground arith)

module _ (d : AddressHash) (t : AnnounceTable) (e : AnnounceEntry)
    (known : get bytes_discrete d t.map' ≡ some e) (tried : 0 < e.retries) where
  -- For an announce that was sent and had no echo yet, the first echo at its own hop count keeps
  -- it and the second one removes it.
  echo_received_twice :
      e.local_rebroadcasts ≡ 0
      → (now later : ℕ)
      → ((echo_received now d (e.hops + 1) t).1 ≡ false)
        × ((echo_received later d (e.hops + 1) (echo_received now d (e.hops + 1) t).0).1 ≡ true)
        × (get bytes_discrete d
              (echo_received later d (e.hops + 1) (echo_received now d (e.hops + 1) t).0).0.map'
            ≡ none)
  echo_received_twice fresh now later =
      let first = first_echo now d t e known tried fresh in
      let marked : AnnounceTable = record t { map' = update bytes_discrete d counted t.map' } in
      let here : get bytes_discrete d marked.map' ≡ some (counted e) =
        get-update bytes_discrete d d counted t.map'
        ∙ if_pos (bytes_discrete d d) refl _ _
        ∙ ap (mapped bytes_discrete counted) known in
      let second = last_echo later d marked (counted e) here tried (omega (arith, fresh)) in
      (
        ap (λ r. r.1) first,
        rw first (ap (λ r. r.1) second),
        rw first (
            ap (λ r. get bytes_discrete d r.0.map') second
            ∙ get-remove_self bytes_discrete d marked.map'),
      )

  echo_received_passed_on :
      e.hops + 1 < 256
      → (now : ℕ) → now < e.timeout
      → ((echo_received now d (e.hops + 2) t).1 ≡ true)
        × (get bytes_discrete d (echo_received now d (e.hops + 2) t).0.map' ≡ none)
  echo_received_passed_on small now early =
      let gone = passed_on now d t e known tried small early in
      (
        ap (λ r. r.1) gone,
        ap (λ r. get bytes_discrete d r.0.map') gone ∙ get-remove_self bytes_discrete d t.map',
      )
