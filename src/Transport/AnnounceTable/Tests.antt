-- ===== src/Transport/AnnounceTable/Tests.antt =====
-- The theorems on src/transport/announce_table.rs at concrete announces.
use mathlib.Core.List.{Mem}
use native.Mathlib.Decide.{ℕ_discrete}
use reticulum_sdk.Base.{
  ℕ, ◌+◌, ◌*◌, ◌≤◌, ◌≡◌, ◌≢◌, refl, arith, List, [], ◌∷◌, length, none, some, bytes_discrete,
}
use reticulum_sdk.Base.Map.{get, remove}
use reticulum_sdk.Packet.Types.{AddressHash, packet_default}
use reticulum_sdk.Transport.AnnounceTable.Entry.{AnnounceEntry, second, random_rw_jitter}
use reticulum_sdk.Transport.AnnounceTable.Cache.{cache_new, cache_insert, cache_get}
use reticulum_sdk.Transport.AnnounceTable.Table.{
  AnnounceTable, announce_table_new, announce_add, add_response, response_of, to_retransmit,
  cache_len,
}
use reticulum_sdk.Transport.AnnounceTable.Budget.{Cycle, run_cycles, run_cycles_bounded}
use reticulum_sdk.Transport.AnnounceTable.Archive.{cache_inserts, cache_insert-cache_get}
use reticulum_sdk.Transport.AnnounceTable.Bounds.{start, next, cycle, add_announce, Reach-cache_len}
use reticulum_sdk.Transport.AnnounceTable.Answers.{answer, add_response_sent, add_response_waits}

abbrev home : AddressHash
home = 9 ∷ []

abbrev entry : AnnounceEntry
entry = record {
  packet = packet_default;
  timestamp = 0;
  timeout = 400;
  received_from = 7 ∷ [];
  retries = 1;
  local_rebroadcasts = 0;
  hops = 3;
  response_to_iface = none;
}

abbrev table : AnnounceTable
table = record (announce_table_new 0) { map' = (home, entry) ∷ [] }

abbrev zero_draw : AddressHash → ℕ
zero_draw d = 0

abbrev cycles : List Cycle
cycles =
    record { random = zero_draw; random' = zero_draw; now = 500 }
    ∷ record { random = zero_draw; random' = zero_draw; now = 10 * second }
    ∷ []

home-get : get bytes_discrete home table.map' ≡ some entry
unfolding get bytes_discrete ℕ_discrete
home-get = refl

run_cycles_bounded_example :
    length (run_cycles (1 ∷ []) cycles table).1 ≤ 2 * length table.map' + length table.responses
run_cycles_bounded_example = run_cycles_bounded (1 ∷ []) cycles table

other : (8 ∷ []) ≢ home
other e = cc

cache_insert-cache_get_example :
    cache_get home
      (cache_inserts (((8 ∷ []), entry) ∷ []) (cache_insert home entry (cache_new 0 1)))
    ≡ some entry
cache_insert-cache_get_example =
    cache_insert-cache_get home entry (((8 ∷ []), entry) ∷ []) (cache_new 0 1) (other, tt)
      (omega arith)

abbrev cycled : AnnounceTable
cycled =
    (to_retransmit zero_draw zero_draw second (1 ∷ [])
      (announce_add 3 5 packet_default home (7 ∷ []) (announce_table_new 0))).0

Reach-cache_len_example : cache_len cycled.cache ≤ 20_000
Reach-cache_len_example = Reach-cache_len (
    next (next (start 0) (add_announce 3 5 packet_default home (7 ∷ []) refl))
      (cycle zero_draw zero_draw second (1 ∷ []) refl))

abbrev asked : AnnounceTable
asked = (add_response 0 1000 home (6 ∷ []) 4 50 table).0

add_response_sent_example :
    Mem (answer (1 ∷ []) (6 ∷ []) 4 entry) (to_retransmit zero_draw zero_draw 2000 (1 ∷ []) asked).1
    × (get bytes_discrete home (to_retransmit zero_draw zero_draw 2000 (1 ∷ []) asked).0.responses
        ≡ none)
    × (get bytes_discrete home (to_retransmit zero_draw zero_draw 2000 (1 ∷ []) asked).0.map'
        ≡ some entry)
unfolding random_rw_jitter
add_response_sent_example =
    add_response_sent table home entry home-get tt 0 1000 (6 ∷ []) 4 50 zero_draw zero_draw 2000
      (1 ∷ []) (omega arith)

add_response_waits_example :
    ((to_retransmit zero_draw zero_draw 1020 (1 ∷ []) asked).1
      ≡ (to_retransmit zero_draw zero_draw 1020 (1 ∷ []) (record table {
        map' = remove bytes_discrete home table.map';
        responses = remove bytes_discrete home table.responses;
      })).1)
    × (get bytes_discrete home (to_retransmit zero_draw zero_draw 1020 (1 ∷ []) asked).0.responses
        ≡ some (response_of 0 1000 (6 ∷ []) 4 50 entry))
    × (get bytes_discrete home (to_retransmit zero_draw zero_draw 1020 (1 ∷ []) asked).0.map'
        ≡ some entry)
add_response_waits_example =
    add_response_waits table home entry home-get tt 0 1000 (6 ∷ []) 4 50 zero_draw zero_draw 1020
      (1 ∷ []) (omega arith)
