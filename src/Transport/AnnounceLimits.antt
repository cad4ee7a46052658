-- ===== src/Transport/AnnounceLimits.antt =====
-- src/transport/announce_limits.rs: the rate limiter of announces for one destination, and the map
-- of limiters. `violations` is a `u32`, which wraps around as in a release build.
pub mod Blocking
mod Tests
use reticulum_sdk.Base.{
  ℕ, ◌+◌, ◌-◌, ◌*◌, ◌%◌, ◌^◌, List, [], ◌∷◌, length, Option, none, some, Bool, ltb, if◌then◌else◌,
  bytes_discrete,
}
use reticulum_sdk.Base.Map.{get, insert, update, retain}
use reticulum_sdk.Packet.Types.{AddressHash}

pub record AnnounceRateLimit : Type 0 where
  pub target : ℕ
  pub grace : ℕ
  pub penalty : Option ℕ

-- In nanoseconds.
abbrev pub rate_limit_default : AnnounceRateLimit
rate_limit_default = record {
  target = 3600 * 1_000_000_000;
  grace = 10;
  penalty = some (7200 * 1_000_000_000);
}

pub record AnnounceLimitEntry : Type 0 where
  pub rate_limit : Option AnnounceRateLimit
  pub violations : ℕ
  pub last_announce : ℕ
  pub blocked_until : ℕ

unfoldable pub entry_new : ℕ → Option AnnounceRateLimit → AnnounceLimitEntry
entry_new now rate_limit = record {
  rate_limit = rate_limit;
  violations = 0;
  last_announce = now;
  blocked_until = now;
}

-- `penalty.unwrap_or(Duration::ZERO)`
abbrev pub penalty_or_zero : Option ℕ → ℕ
penalty_or_zero none = 0
penalty_or_zero (some penalty) = penalty

-- `handle_announce` once a rate limit is configured. The result is the time for which the announce
-- is blocked, or `none` if it is accepted.
pub handle_limited : ℕ → AnnounceRateLimit → AnnounceLimitEntry → AnnounceLimitEntry × Option ℕ
handle_limited now limit e =
    let violations = (e.violations + 1) % 2 ^ 32 in
    let blocked_until = e.last_announce + limit.target + penalty_or_zero limit.penalty in
    if ltb now e.blocked_until
    then (e, some (e.blocked_until - now))
    else (if ltb now (e.last_announce + limit.target)
        then (if ltb limit.grace violations
            then (
              record e { violations = 0; blocked_until = blocked_until },
              some (blocked_until - now),
            )
            else (record e { violations = violations; last_announce = now }, none))
        else (record e { violations = e.violations - 1; last_announce = now }, none))

unfoldable pub handle_announce : ℕ → AnnounceLimitEntry → AnnounceLimitEntry × Option ℕ
unfolding handle_limited
handle_announce now e = elim e.rate_limit [
  | none ↦ (e, none)
  | some limit ↦ handle_limited now limit e
]

abbrev pub AnnounceLimits : Type 0
AnnounceLimits = List (AddressHash × AnnounceLimitEntry)

abbrev pub limits_new : AnnounceLimits
limits_new = []

unfoldable pub check : ℕ → AddressHash → AnnounceLimits → AnnounceLimits × Option ℕ
unfolding handle_announce
check now destination limits = elim (get bytes_discrete destination limits) [
  | some entry ↦ (
    update bytes_discrete destination (λ e. (handle_announce now e).0) limits,
    (handle_announce now entry).1,
  )
  | none ↦ (insert bytes_discrete destination (entry_new now none) limits, none)
]

abbrev pub young : ℕ → ℕ → AddressHash → AnnounceLimitEntry → Bool
young now max_age destination entry = ltb (now - entry.last_announce) max_age

-- The pruned map, and the number of entries that it lost.
unfoldable pub prune : ℕ → ℕ → AnnounceLimits → AnnounceLimits × ℕ
prune now max_age limits =
    let kept = retain (young now max_age) limits in (kept, length limits - length kept)
