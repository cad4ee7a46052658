-- ===== src/Transport/AnnounceTable/Budget.antt =====
-- How many messages the retransmission cycles of src/transport/announce_table.rs make.
use reticulum_sdk.Base.{
  ℕ, ◌+◌, ◌-◌, ◌*◌, ◌≤◌, ◌≡◌, inl, inr, List, [], ◌∷◌, ◌++◌, length, length-append, ◌==◌,
  if◌then◌else◌, arith, Bool-cases, Option-cases, bytes_discrete,
}
use reticulum_sdk.Base.Map.{get, remove, retain}
use reticulum_sdk.Iface.Message.{TxMessage}
use reticulum_sdk.Packet.Types.{AddressHash}
use reticulum_sdk.Transport.AnnounceTable.Entry.{
  AnnounceEntry, RetransmitOutcome, completed, deferred, ready, retransmit, transmitted,
}
use reticulum_sdk.Transport.AnnounceTable.Cache.{EntryMap, AnnounceCache, cache_insert}
use reticulum_sdk.Transport.AnnounceTable.Table.{
  AnnounceTable, sweep_announces, sweep_responses, archive, not_sent, messages_of, to_retransmit,
}

-- The transmissions that are left to an announce, out of `limit`.
abbrev left : ℕ → AnnounceEntry → ℕ
left limit e = limit - e.retries

budget : ℕ → EntryMap → ℕ
budget limit [] = 0
budget limit (e ∷ m) = left limit e.1 + budget limit m

abbrev count_of : RetransmitOutcome → ℕ
count_of (ready msg) = 1
count_of completed = 0
count_of deferred = 0

length-messages_of :
    (r : RetransmitOutcome) (messages : List TxMessage)
    → length (messages_of r messages) ≡ count_of r + length messages
unfolding messages_of
length-messages_of (ready msg) messages = omega arith
length-messages_of completed messages = omega arith
length-messages_of deferred messages = omega arith

module _ (random now : ℕ) (transport_id : AddressHash) (e : AnnounceEntry) where
  retransmit-left :
      count_of (retransmit random now transport_id e).1
        + left 2 (retransmit random now transport_id e).0
      ≤ left 2 e
  unfolding retransmit transmitted
  retransmit-left = ground arith

  retransmit-left_one :
      count_of (retransmit random now transport_id e).1
        + (if (retransmit random now transport_id e).0.retries == 0 then 1 else 0)
      ≤ 1
  unfolding retransmit transmitted
  retransmit-left_one = ground arith

budget-remove :
    (limit : ℕ) (d : AddressHash) (m : EntryMap)
    → budget limit (remove bytes_discrete d m) ≤ budget limit m
unfolding remove budget
budget-remove limit d [] = omega arith
budget-remove limit d (e ∷ m) = ground (arith, budget-remove limit d m)

budget-archive :
    (limit : ℕ) (ds : List AddressHash) (m : EntryMap) (c : AnnounceCache)
    → budget limit (archive ds m c).0 ≤ budget limit m
unfolding archive
budget-archive limit [] m c = omega arith
budget-archive limit (d ∷ ds) m c = elim (Option-cases (get bytes_discrete d m)) [
  | inl gone ↦
      rw (gone, archive)
        (omega
          (arith, budget-archive limit ds (remove bytes_discrete d m) c, budget-remove limit d m))
  | inr (e, here) ↦
      rw (here, archive)
        (omega (
          arith,
          budget-archive limit ds (remove bytes_discrete d m) (cache_insert d e c),
          budget-remove limit d m,
        ))
]

module _ (random : AddressHash → ℕ) (now : ℕ) (transport_id : AddressHash) where
  sweep_announces-budget :
      (responses m : EntryMap)
      → length (sweep_announces random now transport_id responses m).messages
          + budget 2 (sweep_announces random now transport_id responses m).entries
        ≤ budget 2 m
  unfolding sweep_announces budget
  sweep_announces-budget responses [] = omega arith
  sweep_announces-budget responses (e ∷ m) =
      elim (Option-cases (get bytes_discrete e.0 responses)) [
        | inr (r, waits) ↦ rw (waits) (omega (arith, sweep_announces-budget responses m))
        | inl free ↦ rw (free) (
            omega (
              arith,
              sweep_announces-budget responses m,
              retransmit-left (random e.0) now transport_id e.1,
              length-messages_of (retransmit (random e.0) now transport_id e.1).1
                  (sweep_announces random now transport_id responses m).messages,
            ))
      ]

  sweep_responses-budget :
      (m : EntryMap)
      → length (sweep_responses random now transport_id m).1
          + length (retain not_sent (sweep_responses random now transport_id m).0)
        ≤ length m
  unfolding sweep_responses retain
  sweep_responses-budget [] = omega arith
  sweep_responses-budget (e ∷ m) =
      let r = retransmit (random e.0) now transport_id e.1 in
      let rest = sweep_responses random now transport_id m in
      let one = retransmit-left_one (random e.0) now transport_id e.1 in
      let messages = length-messages_of r.1 rest.1 in
      elim (Bool-cases (r.0.retries == 0)) [
        | inl unsent ↦
            rw (unsent) (omega (arith, sweep_responses-budget m, messages, rw unsent at one))
        | inr gone ↦ rw (gone) (omega (arith, sweep_responses-budget m, messages, rw gone at one))
      ]

-- One retransmission cycle: its random numbers and its instant.
pub record Cycle : Type 0 where
  pub random : AddressHash → ℕ
  pub random' : AddressHash → ℕ
  pub now : ℕ

module _ (transport_id : AddressHash) where
  -- The messages of the cycles, together.
  unfoldable pub run_cycles : List Cycle → AnnounceTable → AnnounceTable × List TxMessage
  run_cycles [] t = (t, [])
  run_cycles (c ∷ cycles) t =
      let r = to_retransmit c.random c.random' c.now transport_id t in
      let rest = run_cycles cycles r.0 in (rest.0, r.1 ++ rest.1)

  potential : AnnounceTable → ℕ
  potential t = budget 2 t.map' + length t.responses

  to_retransmit-potential :
      (c : Cycle) (t : AnnounceTable)
      → length (to_retransmit c.random c.random' c.now transport_id t).1
          + potential (to_retransmit c.random c.random' c.now transport_id t).0
        ≤ potential t
  unfolding to_retransmit potential
  to_retransmit-potential c t = omega (
    arith,
    length-append (sweep_announces c.random c.now transport_id t.responses t.map').messages
        (sweep_responses c.random' c.now transport_id t.responses).1,
    sweep_announces-budget c.random c.now transport_id t.responses t.map',
    sweep_responses-budget c.random' c.now transport_id t.responses,
    budget-archive 2 (sweep_announces c.random c.now transport_id t.responses t.map').completed'
        (sweep_announces c.random c.now transport_id t.responses t.map').entries _,
  )

  run_cycles-potential :
      (cycles : List Cycle) (t : AnnounceTable) → length (run_cycles cycles t).1 ≤ potential t
  unfolding run_cycles
  run_cycles-potential [] t = omega arith
  run_cycles-potential (c ∷ cycles) t =
      let r = to_retransmit c.random c.random' c.now transport_id t in
      omega (
        arith,
        length-append r.1 (run_cycles cycles r.0).1,
        run_cycles-potential cycles r.0,
        to_retransmit-potential c t,
      )

  budget-length : (m : EntryMap) → budget 2 m ≤ 2 * length m
  unfolding budget
  budget-length [] = omega arith
  budget-length (e ∷ m) = omega (arith, budget-length m)

  -- However many retransmission cycles run, at whatever instants and with whatever random numbers,
  -- they make at most two messages for each announce of the table and one for each response, all
  -- together.
  pub run_cycles_bounded :
      (cycles : List Cycle) (t : AnnounceTable)
      → length (run_cycles cycles t).1 ≤ 2 * length t.map' + length t.responses
  unfolding potential
  run_cycles_bounded cycles t = omega (arith, run_cycles-potential cycles t, budget-length t.map')
