-- ===== src/Iface/ReconnectPacer/Backoff.antt =====
-- The backoff windows of src/iface/reconnect_pacer.rs.
use mathlib.Core.Logic.{if_pos, if_neg}
use reticulum_sdk.Base.{
  ℕ, ◌+◌, ◌-◌, ◌≤◌, ◌<◌, ◌≡◌, ◌≢◌, refl, sym, ap, ◌∙◌, inl, inr, Option, none, some, Bool, true,
  false, leb, arith, Option-cases, Bool-cases, bytes_discrete,
}
use reticulum_sdk.Base.Map.{
  get, mapped, kept, Unique, get-insert_self, get-insert_ne, get-update, get-retain,
}
use reticulum_sdk.Iface.ReconnectPacer.{
  IpAddr, ReconnectEntry, ReconnectPacer, duration_max, fresh_entry, reconnected, record_at,
  record_connect, maybe_cleanup, is_allowed, entry_allowed, remembered,
}

-- The entry after a connection, by what was known before.
abbrev connected : ℕ → ReconnectPacer → Option ReconnectEntry → ReconnectEntry
connected now p none = fresh_entry now p
connected now p (some e) = reconnected now p e

get-record_at :
    (now : ℕ) (ip : IpAddr) (p : ReconnectPacer)
    → get bytes_discrete ip (record_at now ip p).entries
      ≡ some (connected now p (get bytes_discrete ip p.entries))
unfolding record_at
get-record_at now ip p = elim (Option-cases (get bytes_discrete ip p.entries)) [
  | inl new ↦ rw (new, record_at) (get-insert_self bytes_discrete ip (fresh_entry now p) p.entries)
  | inr (e, known) ↦
      rw (known, record_at)
        (get-update bytes_discrete ip ip (reconnected now p) p.entries
          ∙ if_pos (bytes_discrete ip ip) refl _ _
          ∙ ap (mapped bytes_discrete (reconnected now p)) known)
]

-- The settings of the pacer, which no operation changes.
abbrev pub IsConfigured : ReconnectPacer → Type 0
IsConfigured p = (p.initial_backoff ≤ p.max_backoff) × (p.max_backoff ≤ duration_max)

abbrev pub InWindow : ReconnectPacer → ReconnectEntry → Type 0
InWindow p e = (p.initial_backoff ≤ e.backoff) × (e.backoff ≤ p.max_backoff)

abbrev pub AllInWindow : ReconnectPacer → Type 0
AllInWindow p =
    (ip : IpAddr) (e : ReconnectEntry) → get bytes_discrete ip p.entries ≡ some e → InWindow p e

reconnected-InWindow :
    (now : ℕ) (p : ReconnectPacer) (e : ReconnectEntry)
    → IsConfigured p
    → InWindow p e
    → InWindow p (reconnected now p e)
unfolding reconnected
reconnected-InWindow now p e cfg bounds =
    let low = cfg.0 in
    let high = cfg.1 in let above = bounds.0 in let below = bounds.1 in ground arith

connected-InWindow :
    (now : ℕ) (p : ReconnectPacer) (o : Option ReconnectEntry)
    → IsConfigured p
    → ((e : ReconnectEntry) → o ≡ some e → InWindow p e)
    → InWindow p (connected now p o)
connected-InWindow now p none cfg bounds = let low = cfg.0 in (omega arith, omega arith)
connected-InWindow now p (some e) cfg bounds = reconnected-InWindow now p e cfg (bounds e refl)

connected-fields :
    (now : ℕ) (p : ReconnectPacer) (o : Option ReconnectEntry)
    → ((connected now p o).last_connect ≡ now) × ((connected now p o).blocked ≡ false)
unfolding reconnected
connected-fields now p none = (refl, refl)
connected-fields now p (some e) = (refl, refl)

get-record_at_ne :
    (now : ℕ) (ip other : IpAddr) (p : ReconnectPacer)
    → ip ≢ other
    → get bytes_discrete other (record_at now ip p).entries ≡ get bytes_discrete other p.entries
unfolding record_at
get-record_at_ne now ip other p ne = elim (Option-cases (get bytes_discrete ip p.entries)) [
  | inl new ↦
      rw (new, record_at) (get-insert_ne bytes_discrete other ip (fresh_entry now p) p.entries ne)
  | inr (e, known) ↦
      rw (known, record_at)
        (get-update bytes_discrete other ip (reconnected now p) p.entries
          ∙ if_neg (bytes_discrete ip other) ne _ _)
]

-- The settings after an operation are those before it.
abbrev pub SameSettings : ReconnectPacer → ReconnectPacer → Type 0
SameSettings p q =
    (p.initial_backoff ≡ q.initial_backoff)
    × (p.max_backoff ≡ q.max_backoff)
    × (p.block_expiry ≡ q.block_expiry)

record_at-SameSettings :
    (now : ℕ) (ip : IpAddr) (p : ReconnectPacer) → SameSettings (record_at now ip p) p
unfolding record_at
record_at-SameSettings now ip p = elim (Option-cases (get bytes_discrete ip p.entries)) [
  | inl new ↦ rw (new, record_at) (refl, refl, refl)
  | inr (e, known) ↦ rw (known, record_at) (refl, refl, refl)
]

maybe_cleanup-SameSettings : (now : ℕ) (p : ReconnectPacer) → SameSettings (maybe_cleanup now p) p
unfolding maybe_cleanup
maybe_cleanup-SameSettings now p =
    elim (Bool-cases (leb p.cleanup_interval (now - p.last_cleanup))) [
      | inl due ↦ rw due (refl, refl, refl)
      | inr early ↦ rw early (refl, refl, refl)
    ]

kept-some :
    (keep : IpAddr → ReconnectEntry → Bool) (ip : IpAddr) (o : Option ReconnectEntry)
    (e : ReconnectEntry)
    → kept keep bytes_discrete ip o ≡ some e
    → o ≡ some e
kept-some keep ip none e h = cc
kept-some keep ip (some e') e h = elim (Bool-cases (keep ip e')) [
  | inl stays ↦ rw stays at h
  | inr goes ↦ cc (rw goes at h)
]

get-maybe_cleanup :
    (now : ℕ) (ip : IpAddr) (p : ReconnectPacer) (e : ReconnectEntry)
    → Unique bytes_discrete p.entries
    → get bytes_discrete ip (maybe_cleanup now p).entries ≡ some e
    → get bytes_discrete ip p.entries ≡ some e
unfolding maybe_cleanup
get-maybe_cleanup now ip p e u found =
    elim (Bool-cases (leb p.cleanup_interval (now - p.last_cleanup))) [
      | inl due ↦ kept-some (remembered now p) ip (get bytes_discrete ip p.entries) e (
          sym (get-retain (remembered now p) bytes_discrete ip p.entries u)
          ∙ (rw (due, maybe_cleanup) at found))
      | inr early ↦ rw (early, maybe_cleanup) at found
    ]

is_allowed-free :
    (now : ℕ) (ip : IpAddr) (p : ReconnectPacer) (e : ReconnectEntry)
    → get bytes_discrete ip p.entries ≡ some e
    → e.blocked ≡ false
    → is_allowed now ip p ≡ leb e.backoff (now - e.last_connect)
unfolding is_allowed entry_allowed
is_allowed-free now ip p e found free = rw (found, is_allowed, free)

module _ (now now' : ℕ) (ip : IpAddr) (p : ReconnectPacer) (cfg : IsConfigured p)
    (u : Unique bytes_discrete p.entries) (bounds : AllInWindow p) where
  abbrev cleaned : ReconnectPacer
  cleaned = maybe_cleanup now p

  record_connect-SameSettings : SameSettings (record_connect now now' ip p) p
  unfolding record_connect
  record_connect-SameSettings =
      let first = maybe_cleanup-SameSettings now p in
      let second = record_at-SameSettings now' ip cleaned in
      (second.0 ∙ first.0, second.1 ∙ first.1, second.2 ∙ first.2)

  cleaned-IsConfigured : IsConfigured cleaned
  cleaned-IsConfigured =
      let (i, m, b) = maybe_cleanup-SameSettings now p in
      let (low, high) = cfg in (omega arith, omega arith)

  cleaned-AllInWindow : AllInWindow cleaned
  cleaned-AllInWindow k e found =
      let (i, m, b) = maybe_cleanup-SameSettings now p in
      let (low, high) = bounds k e (get-maybe_cleanup now k p e u found) in
      (omega arith, omega arith)

  abbrev entry : ReconnectEntry
  entry = connected now' cleaned (get bytes_discrete ip cleaned.entries)

  entry-InWindow : InWindow p entry
  entry-InWindow =
      let (i, m, b) = maybe_cleanup-SameSettings now p in
      let (low, high) =
        connected-InWindow now' cleaned (get bytes_discrete ip cleaned.entries) cleaned-IsConfigured
          (cleaned-AllInWindow ip) in
      (omega arith, omega arith)

  get-record_connect : get bytes_discrete ip (record_connect now now' ip p).entries ≡ some entry
  unfolding record_connect
  get-record_connect = get-record_at now' ip cleaned

  -- Every backoff on record stays between the initial and the maximal one when a connection is
  -- recorded, in a pacer without duplicate addresses whose initial backoff is at most the maximal
  -- one.
  record_connect-AllInWindow : AllInWindow (record_connect now now' ip p)
  unfolding record_connect
  record_connect-AllInWindow k e found =
      let (i, m, b) = record_connect-SameSettings in
      elim (bytes_discrete ip k) [
        | yes same ↦
            let here : get bytes_discrete ip (record_connect now now' ip p).entries ≡ some e =
              rw (sym same) at found in
            let there = get-record_connect in
            let equal : e ≡ entry = cc in
            let (low, high) = entry-InWindow in rw equal (omega arith, omega arith)
        | no other ↦
            let (low, high) =
              cleaned-AllInWindow k e (sym (get-record_at_ne now' ip k cleaned other) ∙ found) in
            let (i', m', b') = maybe_cleanup-SameSettings now p in (omega arith, omega arith)
      ]

  -- After a connection of an address it may not connect again within the initial backoff, and may
  -- connect again once the maximal backoff has passed. The pacer has an initial backoff at most
  -- the maximal one, backoffs between the two, no duplicate addresses, and the clock does not run
  -- backwards.
  pub record_connect-is_allowed :
      (later : ℕ)
      → now' ≤ later
      → (later < now' + p.initial_backoff
          → is_allowed later ip (record_connect now now' ip p) ≡ false)
        × (now' + p.max_backoff ≤ later → is_allowed later ip (record_connect now now' ip p) ≡ true)
  record_connect-is_allowed later after =
      let (low, high) = entry-InWindow in
      let (when, free) = connected-fields now' cleaned (get bytes_discrete ip cleaned.entries) in
      let answer =
        is_allowed-free later ip (record_connect now now' ip p) entry get-record_connect free in
      rw answer (λ soon. ground arith, λ late. ground arith)
