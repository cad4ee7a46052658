-- ===== src/Iface/ReconnectPacer/Tests.antt =====
-- The theorems on src/iface/reconnect_pacer.rs at a concrete pacer.
use reticulum_sdk.Base.{ℕ, zero, suc, ◌+◌, ◌≤◌, ◌<◌, ◌≡◌, arith, List, [], ◌∷◌, true, false}
use reticulum_sdk.Base.Map.{get}
use reticulum_sdk.Iface.ReconnectPacer.{
  IpAddr, ReconnectPacer, pacer_new, record_connect, record_rejection, is_allowed, is_blocked,
}
use reticulum_sdk.Iface.ReconnectPacer.Backoff.{AllInWindow, record_connect-is_allowed}
use reticulum_sdk.Iface.ReconnectPacer.Flood.{flood, flood_blocked}

abbrev localhost : IpAddr
localhost = 127 ∷ 0 ∷ 0 ∷ 1 ∷ []

-- Backoff from 10 to 80, and a clean-up every 1000.
abbrev pacer : ReconnectPacer
pacer = pacer_new 0 10 80 1000

pacer-AllInWindow : AllInWindow pacer
unfolding get
pacer-AllInWindow ip e found = cc

record_connect-is_allowed_example :
    (9 < 6 + 10 → is_allowed 9 localhost (record_connect 5 6 localhost pacer) ≡ false)
    × (6 + 80 ≤ 9 → is_allowed 9 localhost (record_connect 5 6 localhost pacer) ≡ true)
record_connect-is_allowed_example =
    record_connect-is_allowed 5 6 localhost pacer (omega arith, omega arith) tt pacer-AllInWindow 9
      (omega arith)

-- `n` rejections, one at each instant.
abbrev ticks : ℕ → List ℕ
ticks zero = []
ticks (suc n) = n ∷ ticks n

flood_blocked_example :
    (is_blocked 300 localhost (record_rejection 200 localhost (flood localhost (ticks 199) pacer))
      ≡ true)
    × (is_allowed 300 localhost (record_rejection 200 localhost (flood localhost (ticks 199) pacer))
        ≡ false)
flood_blocked_example =
    flood_blocked localhost (ticks 199) 200 300 pacer (omega arith) (omega arith) (omega arith)
