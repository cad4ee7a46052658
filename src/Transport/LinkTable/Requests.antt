-- ===== src/Transport/LinkTable/Requests.antt =====
-- Link requests that come again, and entries that no proof validates in time
-- (src/transport/link_table.rs).
use reticulum_sdk.Base.{
  ◌↔◌, ℕ, ◌+◌, ◌*◌, ◌≤◌, ◌≡◌, refl, ap, ◌∙◌, inl, inr, max, List, none, some, ltb, if◌then◌else◌,
  arith, Bool-cases, bytes_discrete,
}
use reticulum_sdk.Base.Map.{get, insert, kept, Unique, get-insert_self, get-retain, insert-Unique}
use reticulum_sdk.Packet.Types.{AddressHash, Hash, Packet}
use reticulum_sdk.Transport.LinkTable.{
  LinkEntry, LinkTable, AddLinkRequest, new, retransmission, loop, link_id_from, link_add,
  link_entry_new, link_remove_stale, link_alive, default_per_hop_timeout,
}

module _ (sha256 : List ℕ → Hash) (now : ℕ) (request : Packet)
    (destination received_from iface : AddressHash) (remaining_hops : ℕ) (t : LinkTable)
    (unknown : get bytes_discrete (link_id_from sha256 request) t ≡ none) where
  abbrev pub requested : LinkTable × AddLinkRequest
  requested = link_add sha256 now request destination received_from iface remaining_hops t

  abbrev entry : LinkEntry
  entry = link_entry_new now request destination received_from iface remaining_hops

  requested_lem : requested ≡ (insert bytes_discrete (link_id_from sha256 request) entry t, new)
  unfolding link_add
  requested_lem = rw (unknown, link_add)

  requested-get : get bytes_discrete (link_id_from sha256 request) requested.0 ≡ some entry
  requested-get =
      rw requested_lem (get-insert_self bytes_discrete (link_id_from sha256 request) entry t)

  entry-taken_hops : entry.taken_hops ≡ request.header.hops
  unfolding link_entry_new
  entry-taken_hops = refl

  -- The first request of an unknown link is `New`. A later request with the same link id, whatever
  -- its other arguments, leaves the table as it is; it is a `Loop` if it has more hops than the
  -- first one, and a `Retransmission` otherwise.
  pub link_add-link_add :
      (requested.1 ≡ new)
      × ((again : Packet) (later remaining_hops' : ℕ)
            (destination' received_from' iface' : AddressHash)
          → link_id_from sha256 again ≡ link_id_from sha256 request
          → link_add sha256 later again destination' received_from' iface' remaining_hops'
              requested.0
            ≡ (
              requested.0,
              if ltb request.header.hops again.header.hops then loop else retransmission,
            ))
  unfolding link_add
  link_add-link_add = (
    ap (λ r. r.1) requested_lem,
    λ again later remaining_hops' destination' received_from' iface' same.
        let here : get bytes_discrete (link_id_from sha256 again) requested.0 ≡ some entry =
          ap (λ k. get bytes_discrete k requested.0) same ∙ requested-get in
        rw (here, link_add, entry-taken_hops),
  )

  entry-alive :
      (later max_age : ℕ)
      → link_alive later max_age (link_id_from sha256 request) entry
        ≡ ltb later (now + default_per_hop_timeout * max remaining_hops 1)
  unfolding link_alive link_entry_new
  entry-alive later max_age = refl

  requested-Unique : Unique bytes_discrete t → Unique bytes_discrete requested.0
  requested-Unique u =
      rw requested_lem (insert-Unique bytes_discrete (link_id_from sha256 request) entry t u)

  remaining :
      (later max_age : ℕ)
      → Unique bytes_discrete t
      → get bytes_discrete
          (link_id_from sha256 request)
          (link_remove_stale later max_age requested.0)
        ≡ (if ltb later (now + default_per_hop_timeout * max remaining_hops 1)
            then some entry
            else none)
  unfolding link_remove_stale
  remaining later max_age u =
      get-retain (link_alive later max_age) bytes_discrete (link_id_from sha256 request) requested.0
        (requested-Unique u)
      ∙ ap (kept (link_alive later max_age) bytes_discrete (link_id_from sha256 request))
          requested-get
      ∙ ap (λ b. if b then some entry else none) (entry-alive later max_age)

  -- In a table without duplicate keys, a link that was just requested is removed by `remove_stale`
  -- if and only if its proof timeout has passed: the timeout per hop times the larger of the
  -- remaining hops and 1, after the request.
  pub link_remove_stale-link_add :
      (later max_age : ℕ)
      → Unique bytes_discrete t
      → (get bytes_discrete
            (link_id_from sha256 request)
            (link_remove_stale later max_age requested.0)
          ≡ none)
        ↔ (now + default_per_hop_timeout * max remaining_hops 1 ≤ later)
  link_remove_stale-link_add later max_age u =
      let left = remaining later max_age u in
      elim (Bool-cases (ltb later (now + default_per_hop_timeout * max remaining_hops 1))) [
        | inl soon ↦ (λ gone. cc (rw (left, soon) at gone), λ late. absurd (ground arith))
        | inr late ↦ (λ gone. ground arith, λ over. left ∙ rw late)
      ]
