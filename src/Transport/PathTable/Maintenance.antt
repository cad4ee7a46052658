-- ===== src/Transport/PathTable/Maintenance.antt =====
-- How the maintenance operations of src/transport/path_table.rs change the table.
use Prim.Native.Nat.{min}
use mathlib.Core.Logic.{if_pos, if_neg}
use reticulum_sdk.Base.{
  ◌↔◌, ℕ, ◌+◌, ◌≤◌, ◌<◌, ◌≡◌, ◌≢◌, refl, sym, ap, ◌∙◌, inl, inr, Option, none, some, Bool, true,
  ltb, arith, Option-cases, Bool-cases, bytes_discrete,
}
use reticulum_sdk.Base.Map.{kept, mapped, Unique, get-update, update-Unique, get-retain}
use reticulum_sdk.Packet.Types.{AddressHash}
use reticulum_sdk.Transport.PathTable.Entry.{PathEntry}
use reticulum_sdk.Transport.PathTable.Table.{
  PathTable, path_get, alive, remove_stale, not_via, drop_all_via, rebalance_hops, refresh, change,
  hop_of, next_hop, next_hop_iface,
}

module _ {F : Type 0} where
  path_get-change :
      (destination : AddressHash) (f : PathEntry F → PathEntry F) (t : PathTable F)
      → path_get destination (change destination f t)
        ≡ mapped bytes_discrete f (path_get destination t)
  path_get-change destination f t =
      get-update bytes_discrete destination destination f t.map
      ∙ if_pos (bytes_discrete destination destination) refl _ _

  get-remove_stale :
      (now : ℕ) (is_active_iface : AddressHash → Bool) (destination : AddressHash) (t : PathTable F)
      → Unique bytes_discrete t.map
      → path_get destination (remove_stale now is_active_iface t).0
        ≡ kept (alive now is_active_iface) bytes_discrete destination (path_get destination t)
  unfolding remove_stale
  get-remove_stale now is_active_iface destination t u =
      get-retain (alive now is_active_iface) bytes_discrete destination t.map u

  kept-alive :
      (now : ℕ) (is_active_iface : AddressHash → Bool) (destination : AddressHash)
      (o : Option (PathEntry F)) (entry : PathEntry F)
      → (kept (alive now is_active_iface) bytes_discrete destination o ≡ some entry)
        ↔ (o ≡ some entry) × (now < entry.expires) × (is_active_iface entry.iface ≡ true)
  kept-alive now is_active_iface destination none entry = (λ e. cc, λ e. let e0 = e.0 in cc)
  kept-alive now is_active_iface destination (some e) entry = (
    λ h. ground (arith, h),
    λ h. let same = h.0 in let soon = h.1 in let active = h.2 in ground arith,
  )

  kept-not_via :
      (via destination : AddressHash) (o : Option (PathEntry F)) (entry : PathEntry F)
      → kept (not_via via) bytes_discrete destination o ≡ some entry
      → entry.received_from ≢ via
  kept-not_via via destination none entry h = cc
  kept-not_via via destination (some e) entry h = elim (bytes_discrete e.received_from via) [
    | yes same ↦ cc (rw (if_pos (bytes_discrete e.received_from via) same) at h)
    | no other ↦
        let here : some e ≡ some entry =
          rw (if_neg (bytes_discrete e.received_from via) other) at h in
        let equal : e ≡ entry = cc in λ q. other (ap (λ x. x.received_from) equal ∙ q)
  ]

  -- In a table without duplicate keys, `remove_stale` keeps an entry if and only if it was there,
  -- its expiry lies after `now` and its interface is active.
  remove_stale_keeps :
      (now : ℕ) (is_active_iface : AddressHash → Bool) (destination : AddressHash) (t : PathTable F)
      (entry : PathEntry F)
      → Unique bytes_discrete t.map
      → (path_get destination (remove_stale now is_active_iface t).0 ≡ some entry)
        ↔ (path_get destination t ≡ some entry)
          × (now < entry.expires)
          × (is_active_iface entry.iface ≡ true)
  remove_stale_keeps now is_active_iface destination t entry u =
      rw (get-remove_stale now is_active_iface destination t u)
        (kept-alive now is_active_iface destination (path_get destination t) entry)

  abbrev renewed : ℕ → PathEntry F → PathEntry F
  renewed now e = record e { timestamp = now; expires = now + e.path_expiry }

  next_hop_iface-get :
      (destination : AddressHash) (t : PathTable F) (e : PathEntry F)
      → path_get destination t ≡ some e
      → next_hop_iface destination t ≡ some e.iface
  unfolding next_hop_iface
  next_hop_iface-get destination t e found = rw (found, next_hop_iface)

  refresh-get :
      (now : ℕ) (destination : AddressHash) (t : PathTable F) (e : PathEntry F)
      → path_get destination t ≡ some e
      → path_get destination (refresh now destination t) ≡ some (renewed now e)
  unfolding refresh
  refresh-get now destination t e found =
      path_get-change destination (renewed now) t ∙ ap (mapped bytes_discrete (renewed now)) found

  refresh-Unique :
      (now : ℕ) (destination : AddressHash) (t : PathTable F)
      → Unique bytes_discrete t.map
      → Unique bytes_discrete (refresh now destination t).map
  unfolding refresh
  refresh-Unique now destination t u =
      update-Unique bytes_discrete destination (renewed now) t.map u

  -- In a table without duplicate keys, a refreshed path on an active interface survives every
  -- `remove_stale` that comes less than its expiry duration later, with its interface.
  pub refresh_extends :
      (now : ℕ) (is_active_iface : AddressHash → Bool) (destination : AddressHash) (t : PathTable F)
      (entry : PathEntry F)
      → path_get destination t ≡ some entry
      → is_active_iface entry.iface ≡ true
      → Unique bytes_discrete t.map
      → (later : ℕ) → later < now + entry.path_expiry
      → next_hop_iface destination
          (remove_stale later is_active_iface (refresh now destination t)).0
        ≡ some entry.iface
  refresh_extends now is_active_iface destination t entry found active u later soon =
      next_hop_iface-get destination
        (remove_stale later is_active_iface (refresh now destination t)).0 (renewed now entry)
        ((remove_stale_keeps later is_active_iface destination (refresh now destination t)
            (renewed now entry) (refresh-Unique now destination t u)).1
          (refresh-get now destination t entry found, soon, active))

  next_hop-get :
      (destination : AddressHash) (t : PathTable F) (o : Option (PathEntry F))
      → path_get destination t ≡ o
      → next_hop destination t ≡ hop_of o
  unfolding next_hop
  next_hop-get destination t o found = ap hop_of found

  -- After `drop_all_via` no destination of a table without duplicate keys has the dropped next
  -- hop.
  drop_all_via_drops :
      (via destination : AddressHash) (t : PathTable F)
      → Unique bytes_discrete t.map
      → next_hop destination (drop_all_via via t).0 ≢ some via
  unfolding drop_all_via next_hop
  drop_all_via_drops via destination t u =
      let o = kept (not_via via) bytes_discrete destination (path_get destination t) in
      let here : path_get destination (drop_all_via via t).0 ≡ o =
        get-retain (not_via via) bytes_discrete destination t.map u in
      elim (Option-cases o) [
        | inl gone ↦ λ q.
            let q' = sym (next_hop-get destination (drop_all_via via t).0 none (here ∙ gone)) ∙ q in
            cc
        | inr (e, left) ↦ λ q.
            let q' : hop_of (some e) ≡ some via =
              sym (next_hop-get destination (drop_all_via via t).0 (some e) (here ∙ left)) ∙ q in
            let equal : e.received_from ≡ via = cc in
            kept-not_via via destination (path_get destination t) e left equal
      ]

  rebalance_hops_kept :
      (destination : AddressHash) (new_hops : ℕ) (t : PathTable F) (entry : PathEntry F)
      → path_get destination t ≡ some entry
      → entry.hops ≤ new_hops
      → rebalance_hops destination new_hops t ≡ (t, none)
  unfolding rebalance_hops
  rebalance_hops_kept destination new_hops t entry found longer =
      rw (found, rebalance_hops) (ground arith)

  rebalance_hops_shorter :
      (destination : AddressHash) (new_hops : ℕ) (t : PathTable F) (entry : PathEntry F)
      → path_get destination t ≡ some entry
      → new_hops < entry.hops
      → rebalance_hops destination new_hops t
        ≡ (change destination (λ e. record e { hops = new_hops }) t, some (entry.hops, new_hops))
  unfolding rebalance_hops
  rebalance_hops_shorter destination new_hops t entry found shorter =
      rw (found, rebalance_hops) (ground arith)

  -- Rebalancing a known path sets its hop count to the smaller of the two and changes nothing else
  -- of it; the result is `None` if and only if the path would not become shorter.
  rebalance_hops-min :
      (destination : AddressHash) (new_hops : ℕ) (t : PathTable F) (entry : PathEntry F)
      → path_get destination t ≡ some entry
      → (path_get destination (rebalance_hops destination new_hops t).0
          ≡ some (record entry { hops = min new_hops entry.hops }))
        × (((rebalance_hops destination new_hops t).1 ≡ none) ↔ (entry.hops ≤ new_hops))
  rebalance_hops-min destination new_hops t entry found =
      elim (Bool-cases (ltb new_hops entry.hops)) [
        | inl shorter ↦
            rw (rebalance_hops_shorter destination new_hops t entry found (ground arith)) (
              path_get-change destination (λ e. record e { hops = new_hops }) t
                  ∙ ap (mapped bytes_discrete (λ e. record e { hops = new_hops })) found
                  ∙ ap (λ h. some (record entry { hops = h })) (ground arith),
              ((λ q. cc), λ q. absurd (ground arith)),
            )
        | inr longer ↦ rw (rebalance_hops_kept destination new_hops t entry found (ground arith)) (
          found ∙ ap (λ h. some (record entry { hops = h })) (ground arith),
          ((λ q. ground arith), λ q. refl),
        )
      ]
