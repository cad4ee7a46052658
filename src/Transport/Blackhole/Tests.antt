-- ===== src/Transport/Blackhole/Tests.antt =====
-- The theorems on src/transport/blackhole.rs at a concrete table.
use reticulum_sdk.Base.{◌≤◌, ◌<◌, ◌≡◌, arith, [], ◌∷◌, none, some, bytes_discrete}
use reticulum_sdk.Base.Map.{get}
use reticulum_sdk.Transport.Blackhole.{
  BlackholeEntries, BlackholeTable, blackhole_new, blackhole_add, insert_remote, check_expired,
}
use reticulum_sdk.Transport.Blackhole.Precedence.{
  insert_remote-blackhole_add, check_expired-blackhole_add,
}

abbrev remote : BlackholeEntries
remote =
    ((1 ∷ []), record { source = 9 ∷ []; until = none; reason = none })
    ∷ ((2 ∷ []), record { source = 9 ∷ []; until = none; reason = none })
    ∷ []

insert_remote-blackhole_add_example :
    get bytes_discrete
      (1 ∷ [])
      (insert_remote remote
        (blackhole_add (1 ∷ []) (5 ∷ []) (some 7) none (blackhole_new 0)).0).0.entries
    ≡ some (record { source = 5 ∷ []; until = some 7; reason = none })
insert_remote-blackhole_add_example =
    insert_remote-blackhole_add (1 ∷ []) (5 ∷ []) (some 7) none (blackhole_new 0) remote

abbrev blocked : BlackholeTable
blocked = (blackhole_add (1 ∷ []) (5 ∷ []) (some 70_000_000_000) none (blackhole_new 0)).0

check_expired-blackhole_add_example :
    (60_000_000_001 < 70_000_000_000
      → get bytes_discrete (1 ∷ []) (check_expired 60_000_000_001 blocked).0.entries
        ≡ some (record { source = 5 ∷ []; until = some 70_000_000_000; reason = none }))
    × (70_000_000_000 ≤ 60_000_000_001
        → get bytes_discrete (1 ∷ []) (check_expired 60_000_000_001 blocked).0.entries ≡ none)
check_expired-blackhole_add_example =
    check_expired-blackhole_add (1 ∷ []) (5 ∷ []) 70_000_000_000 none (blackhole_new 0) tt
      60_000_000_001 (omega arith)
