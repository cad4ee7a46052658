-- ===== src/Iface/ReconnectPacer/Flood.antt =====
-- A client that keeps being rejected is blocked (src/iface/reconnect_pacer.rs).
use mathlib.Core.Logic.{if_pos}
use reticulum_sdk.Base.{
  ℕ, ◌+◌, ◌-◌, ◌≤◌, ◌<◌, ◌≡◌, refl, ap, ◌∙◌, inl, inr, List, [], ◌∷◌, length, Option, none, some,
  true, false, leb, min, arith, Option-cases, bytes_discrete,
}
use reticulum_sdk.Base.Map.{get, mapped, get-insert_self, get-update}
use reticulum_sdk.Iface.ReconnectPacer.{
  IpAddr, ReconnectEntry, ReconnectPacer, u32_max, fresh_entry, rejected, record_rejection,
  is_allowed, is_blocked, entry_allowed, entry_blocked, reconnect_rejection_block_threshold,
}

-- Rejections of one address at the given instants.
unfoldable pub flood : IpAddr → List ℕ → ReconnectPacer → ReconnectPacer
flood ip [] p = p
flood ip (now ∷ rest) p = flood ip rest (record_rejection now ip p)

-- The entry that a rejection starts from.
abbrev found_or_fresh : ℕ → ReconnectPacer → Option ReconnectEntry → ReconnectEntry
found_or_fresh now p none = fresh_entry now p
found_or_fresh now p (some e) = e

get-record_rejection :
    (now : ℕ) (ip : IpAddr) (p : ReconnectPacer)
    → get bytes_discrete ip (record_rejection now ip p).entries
      ≡ some (rejected now (found_or_fresh now p (get bytes_discrete ip p.entries)))
unfolding record_rejection
get-record_rejection now ip p = elim (Option-cases (get bytes_discrete ip p.entries)) [
  | inl new ↦
      rw (new, record_rejection)
        (get-insert_self bytes_discrete ip (rejected now (fresh_entry now p)) p.entries)
  | inr (e, known) ↦
      rw (known, record_rejection)
        (get-update bytes_discrete ip ip (rejected now) p.entries
          ∙ if_pos (bytes_discrete ip ip) refl _ _
          ∙ ap (mapped bytes_discrete (rejected now)) known)
]

-- The rejections on record for an address.
abbrev count : Option ReconnectEntry → ℕ
count none = 0
count (some e) = e.rejections

abbrev rejections_of : IpAddr → ReconnectPacer → ℕ
rejections_of ip p = count (get bytes_discrete ip p.entries)

rejected-rejections :
    (now : ℕ) (e : ReconnectEntry) → (rejected now e).rejections ≡ min (e.rejections + 1) u32_max
unfolding rejected
rejected-rejections now e = ground arith

found-rejections :
    (now : ℕ) (p : ReconnectPacer) (o : Option ReconnectEntry)
    → (found_or_fresh now p o).rejections ≡ count o
found-rejections now p none = refl
found-rejections now p (some e) = refl

record_rejection_counts :
    (now : ℕ) (ip : IpAddr) (p : ReconnectPacer)
    → rejections_of ip (record_rejection now ip p) ≡ min (rejections_of ip p + 1) u32_max
record_rejection_counts now ip p =
    let start = found_or_fresh now p (get bytes_discrete ip p.entries) in
    ap count (get-record_rejection now ip p)
    ∙ rejected-rejections now start
    ∙ ap (λ r. min (r + 1) u32_max) (found-rejections now p (get bytes_discrete ip p.entries))

flood_counts :
    (ip : IpAddr) (ts : List ℕ) (p : ReconnectPacer) (k : ℕ)
    → k ≤ reconnect_rejection_block_threshold
    → k ≤ rejections_of ip p + length ts
    → k ≤ rejections_of ip (flood ip ts p)
unfolding flood get
flood_counts ip [] p k below enough = omega arith
flood_counts ip (now ∷ rest) p k below enough =
    flood_counts ip rest (record_rejection now ip p) k below
      (omega (arith, record_rejection_counts now ip p))

rejected-block :
    (now : ℕ) (e : ReconnectEntry)
    → reconnect_rejection_block_threshold ≤ e.rejections + 1
    → ((rejected now e).blocked ≡ true) × ((rejected now e).blocked_at ≡ some now)
unfolding rejected
rejected-block now e enough =
    let over : leb reconnect_rejection_block_threshold (min (e.rejections + 1) u32_max) ≡ true =
      ground arith in
    rw over (refl, refl)

record_rejection-block_expiry :
    (now : ℕ) (ip : IpAddr) (p : ReconnectPacer)
    → (record_rejection now ip p).block_expiry ≡ p.block_expiry
unfolding record_rejection
record_rejection-block_expiry now ip p = elim (Option-cases (get bytes_discrete ip p.entries)) [
  | inl new ↦ rw (new, record_rejection)
  | inr (e, known) ↦ rw (known, record_rejection)
]

flood-block_expiry :
    (ip : IpAddr) (ts : List ℕ) (p : ReconnectPacer) → (flood ip ts p).block_expiry ≡ p.block_expiry
unfolding flood
flood-block_expiry ip [] p = refl
flood-block_expiry ip (now ∷ rest) p =
    flood-block_expiry ip rest (record_rejection now ip p) ∙ record_rejection-block_expiry now ip p

blocked_answers :
    (later now : ℕ) (ip : IpAddr) (p : ReconnectPacer) (e : ReconnectEntry)
    → get bytes_discrete ip p.entries ≡ some e
    → e.blocked ≡ true
    → e.blocked_at ≡ some now
    → later - now < p.block_expiry
    → (is_blocked later ip p ≡ true) × (is_allowed later ip p ≡ false)
unfolding is_blocked is_allowed entry_blocked entry_allowed
blocked_answers later now ip p e found on when soon =
    rw (found, is_blocked, is_allowed, on, when) (ground arith, ground arith)

-- After 200 or more rejections of an address it is blocked, and not allowed to connect, until the
-- block expiry has passed since the last of them. The block expiry is not 0.
pub flood_blocked :
    (ip : IpAddr) (ts : List ℕ) (now later : ℕ) (p : ReconnectPacer)
    → reconnect_rejection_block_threshold ≤ length ts + 1
    → later < now + p.block_expiry
    → 0 < p.block_expiry
    → (is_blocked later ip (record_rejection now ip (flood ip ts p)) ≡ true)
      × (is_allowed later ip (record_rejection now ip (flood ip ts p)) ≡ false)
flood_blocked ip ts now later p many soon lasts =
    let before = flood ip ts p in
    let start = found_or_fresh now before (get bytes_discrete ip before.entries) in
    let counted = flood_counts ip ts p 199 (omega arith) (omega arith) in
    let same = found-rejections now before (get bytes_discrete ip before.entries) in
    let (on, when) = rejected-block now start (omega arith) in
    let expiry = record_rejection-block_expiry now ip before ∙ flood-block_expiry ip ts p in
    blocked_answers later now ip (record_rejection now ip before) (rejected now start)
      (get-record_rejection now ip before) on when (omega arith)
