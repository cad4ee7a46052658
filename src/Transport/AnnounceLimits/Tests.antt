-- ===== src/Transport/AnnounceLimits/Tests.antt =====
-- Runs of src/transport/announce_limits.rs, and its theorems at concrete announces.
use reticulum_sdk.Base.{◌+◌, ◌-◌, ◌≡◌, refl, arith, [], ◌∷◌, All, some}
use reticulum_sdk.Transport.AnnounceLimits.{
  AnnounceRateLimit, AnnounceLimitEntry, handle_announce, handle_limited,
}
use reticulum_sdk.Transport.AnnounceLimits.Blocking.{run, answers, Accepted, burst_blocked}

-- The limit of the source's own tests.
abbrev limit : AnnounceRateLimit
limit = record { target = 10; grace = 2; penalty = some 30 }

abbrev entry : AnnounceLimitEntry
entry = record { rate_limit = some limit; violations = 0; last_announce = 100; blocked_until = 70 }

abbrev blocked : AnnounceLimitEntry
blocked = record entry { blocked_until = 160 }

burst_runs : (handle_announce 106 (run (102 ∷ 104 ∷ []) entry)).1 ≡ some 38
unfolding handle_announce handle_limited run
burst_runs = refl

burst_blocked_example :
    All Accepted (answers (102 ∷ 104 ∷ []) entry)
    × ((handle_announce 106 (run (102 ∷ 104 ∷ []) entry)).1 ≡ some (104 + 10 + 30 - 106))
    × ((handle_announce 106 (run (102 ∷ 104 ∷ []) entry)).0.blocked_until ≡ 104 + 10 + 30)
burst_blocked_example =
    burst_blocked limit (102 ∷ 104 ∷ []) 106 entry refl (omega arith) (omega arith) (omega arith)
      refl (omega arith)
