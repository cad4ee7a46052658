-- ===== src/Iface/ReconnectPacer.antt =====
-- src/iface/reconnect_pacer.rs: the backoff and the block of clients that reconnect too fast.
-- `saturating_mul` and `saturating_add` stop at `duration_max` and `u32_max`. Instants and durations
-- are in nanoseconds; `as_millis() as u64` is taken without its wrap at 2 ^ 64 milliseconds.
pub mod Backoff
pub mod Flood
mod Tests
use reticulum_sdk.Base.{
  ℕ, zero, suc, ◌+◌, ◌-◌, ◌*◌, ◌/◌, ◌^◌, List, [], ◌∷◌, length, min, Option, none, some, Bool, true,
  false, not, ◌&&◌, ltb, leb, if◌then◌else◌, bytes_discrete,
}
use reticulum_sdk.Base.Map.{get, insert, update, retain}

abbrev pub reconnect_rejection_block_threshold : ℕ
reconnect_rejection_block_threshold = 200

-- In nanoseconds.
abbrev pub reconnect_block_expiry : ℕ
reconnect_block_expiry = 12 * 60 * 60 * 1_000_000_000

-- `Duration::MAX` and `u32::MAX`, where the saturating operations stop.
abbrev pub duration_max : ℕ
duration_max = 2 ^ 64 * 1_000_000_000 - 1

abbrev pub u32_max : ℕ
u32_max = 2 ^ 32 - 1

-- The octets of an address.
abbrev pub IpAddr : Type 0
IpAddr = List ℕ

pub record ReconnectEntry : Type 0 where
  pub last_connect : ℕ
  pub backoff : ℕ
  pub rejections : ℕ
  pub blocked : Bool
  pub blocked_at : Option ℕ

pub record ReconnectPacer : Type 0 where
  pub entries : List (IpAddr × ReconnectEntry)
  pub initial_backoff : ℕ
  pub max_backoff : ℕ
  pub block_expiry : ℕ
  pub cleanup_interval : ℕ
  pub last_cleanup : ℕ

abbrev pub pacer_new : ℕ → ℕ → ℕ → ℕ → ReconnectPacer
pacer_new now initial_backoff max_backoff cleanup_interval = record {
  entries = [];
  initial_backoff = initial_backoff;
  max_backoff = max_backoff;
  block_expiry = reconnect_block_expiry;
  cleanup_interval = cleanup_interval;
  last_cleanup = now;
}

-- `blocked_at.map(|at| now.duration_since(at) >= self.block_expiry).unwrap_or(false)`
abbrev pub block_expired : ℕ → ℕ → Option ℕ → Bool
block_expired now block_expiry none = false
block_expired now block_expiry (some at') = leb block_expiry (now - at')

-- `blocked_at.map(|at| now.duration_since(at) < self.block_expiry)`, or the default.
abbrev pub block_lasts : ℕ → ℕ → Bool → Option ℕ → Bool
block_lasts now block_expiry default none = default
block_lasts now block_expiry default (some at') = ltb (now - at') block_expiry

unfoldable pub entry_allowed : ℕ → ℕ → ReconnectEntry → Bool
entry_allowed now block_expiry entry =
    if entry.blocked && not (block_expired now block_expiry entry.blocked_at)
    then false
    else leb entry.backoff (now - entry.last_connect)

unfoldable pub is_allowed : ℕ → IpAddr → ReconnectPacer → Bool
unfolding entry_allowed
is_allowed now ip p = elim (get bytes_discrete ip p.entries) [
  | none ↦ true
  | some entry ↦ entry_allowed now p.block_expiry entry
]

unfoldable pub entry_blocked : ℕ → ℕ → ReconnectEntry → Bool
entry_blocked now block_expiry entry =
    if not entry.blocked then false else block_lasts now block_expiry true entry.blocked_at

unfoldable pub is_blocked : ℕ → IpAddr → ReconnectPacer → Bool
unfolding entry_blocked
is_blocked now ip p = elim (get bytes_discrete ip p.entries) [
  | none ↦ false
  | some entry ↦ entry_blocked now p.block_expiry entry
]

abbrev pub fresh_entry : ℕ → ReconnectPacer → ReconnectEntry
fresh_entry now p = record {
  last_connect = now;
  backoff = p.initial_backoff;
  rejections = 0;
  blocked = false;
  blocked_at = none;
}

-- The test of the clean-up for one entry.
unfoldable pub remembered : ℕ → ReconnectPacer → IpAddr → ReconnectEntry → Bool
remembered now p ip entry =
    if entry.blocked
    then block_lasts now p.block_expiry false entry.blocked_at
    else ltb (now - entry.last_connect) (min (p.max_backoff * 2) duration_max)

unfoldable pub maybe_cleanup : ℕ → ReconnectPacer → ReconnectPacer
unfolding remembered
maybe_cleanup now p =
    if leb p.cleanup_interval (now - p.last_cleanup)
    then record p { last_cleanup = now; entries = retain (remembered now p) p.entries }
    else p

-- The entry of an address that connected before.
unfoldable pub reconnected : ℕ → ReconnectPacer → ReconnectEntry → ReconnectEntry
reconnected now p entry =
    let elapsed = now - entry.last_connect in
    record entry {
      backoff =
          if leb p.max_backoff elapsed
          then p.initial_backoff
          else min p.max_backoff (min (entry.backoff * 2) duration_max);
      last_connect = now;
      blocked = false;
      blocked_at = none;
    }

unfoldable pub record_at : ℕ → IpAddr → ReconnectPacer → ReconnectPacer
unfolding reconnected
record_at now ip p = elim (get bytes_discrete ip p.entries) [
  | none ↦ record p { entries = insert bytes_discrete ip (fresh_entry now p) p.entries }
  | some entry ↦ record p { entries = update bytes_discrete ip (reconnected now p) p.entries }
]

-- `record`, with the clock of the clean-up and the clock after it.
unfoldable pub record_connect : ℕ → ℕ → IpAddr → ReconnectPacer → ReconnectPacer
unfolding record_at maybe_cleanup
record_connect now now' ip p = record_at now' ip (maybe_cleanup now p)

unfoldable pub rejected : ℕ → ReconnectEntry → ReconnectEntry
rejected now entry =
    let rejections = min (entry.rejections + 1) u32_max in
    if leb reconnect_rejection_block_threshold rejections
    then record entry { rejections = rejections; blocked = true; blocked_at = some now }
    else (if entry.blocked
        then record entry { rejections = rejections; blocked_at = some now }
        else record entry { rejections = rejections })

unfoldable pub record_rejection : ℕ → IpAddr → ReconnectPacer → ReconnectPacer
unfolding rejected
record_rejection now ip p = elim (get bytes_discrete ip p.entries) [
  | none ↦ record p {
    entries = insert bytes_discrete ip (rejected now (fresh_entry now p)) p.entries;
  }
  | some entry ↦ record p { entries = update bytes_discrete ip (rejected now) p.entries }
]

-- What `metrics` counts.
abbrev pub in_backoff : ℕ → ReconnectEntry → Bool
in_backoff now e = not e.blocked && ltb (now - e.last_connect) e.backoff

unfoldable pub count_entries : (ReconnectEntry → Bool) → List (IpAddr × ReconnectEntry) → ℕ
count_entries test [] = 0
count_entries test (e ∷ m) = if test e.1 then suc (count_entries test m) else count_entries test m

pub record ReconnectPacerMetrics : Type 0 where
  pub entries_in_backoff : ℕ
  pub total_tracked_ips : ℕ
  pub blocked_ips : ℕ
  pub initial_backoff_ms : ℕ
  pub max_backoff_ms : ℕ
  pub block_threshold : ℕ
  pub block_expiry_secs : ℕ

unfoldable pub metrics : ℕ → ReconnectPacer → ReconnectPacerMetrics
unfolding count_entries
metrics now p = record {
  entries_in_backoff = count_entries (in_backoff now) p.entries;
  total_tracked_ips = length p.entries;
  blocked_ips = count_entries (λ e. e.blocked) p.entries;
  initial_backoff_ms = p.initial_backoff / 1_000_000;
  max_backoff_ms = p.max_backoff / 1_000_000;
  block_threshold = reconnect_rejection_block_threshold;
  block_expiry_secs = p.block_expiry / 1_000_000_000;
}
