-- ===== src/Transport/AnnounceTable/Table.antt =====
-- src/transport/announce_table.rs, `AnnounceTable`: the retransmission cycle. In a loop over a map the
-- random numbers are a function of the destination.
use reticulum_sdk.Base.{
  ℕ, ◌+◌, ◌-◌, ◌%◌, List, [], ◌∷◌, ◌++◌, length, Option, none, some, Bool, true, false, ◌&&◌, ltb,
  leb, ◌==◌, if◌then◌else◌, bytes_discrete,
}
use reticulum_sdk.Base.Map.{get, insert, update, remove, retain}
use reticulum_sdk.Iface.Message.{TxMessage}
use reticulum_sdk.Packet.Types.{AddressHash, Packet}
use reticulum_sdk.Transport.AnnounceTable.Entry.{
  AnnounceEntry, RetransmitOutcome, completed, deferred, ready, retransmit, always_retransmit,
  random_rw_jitter, local_rebroadcasts_max,
}
use reticulum_sdk.Transport.AnnounceTable.Cache.{
  EntryMap, AnnounceCache, cache_new, cache_insert, cache_get, cache_prune, cache_clear,
  announce_cache_capacity, announce_cache_max_age,
}

pub record AnnounceTable : Type 0 where
  pub map' : EntryMap
  pub responses : EntryMap
  pub cache : AnnounceCache

abbrev pub announce_table_new : ℕ → AnnounceTable
announce_table_new now = record {
  map' = [];
  responses = [];
  cache = cache_new now announce_cache_capacity;
}

-- The entry of a new announce.
unfoldable pub announce_entry_new : ℕ → ℕ → Packet → AddressHash → AnnounceEntry
announce_entry_new random now announce received_from = record {
  packet = announce;
  timestamp = now;
  timeout = now + random_rw_jitter random;
  received_from = received_from;
  retries = 0;
  local_rebroadcasts = 0;
  hops = announce.header.hops;
  response_to_iface = none;
}

-- `AnnounceTable::add`
unfoldable pub announce_add :
    ℕ → ℕ → Packet → AddressHash → AddressHash → AnnounceTable → AnnounceTable
announce_add random now announce destination received_from t = record t {
  map' =
      insert bytes_discrete destination (announce_entry_new random now announce received_from)
        t.map';
}

-- What an announce becomes when it answers a path request.
unfoldable pub response_of : ℕ → ℕ → AddressHash → ℕ → ℕ → AnnounceEntry → AnnounceEntry
response_of random now to_iface hops grace response = record response {
  retries = 0;
  local_rebroadcasts = 0;
  hops = hops;
  timeout = now + grace + random_rw_jitter random;
  response_to_iface = some to_iface;
}

abbrev pub do_add_response :
    ℕ → ℕ → AnnounceEntry → AddressHash → AddressHash → ℕ → ℕ → AnnounceTable → AnnounceTable
do_add_response random now response destination to_iface hops grace t = record t {
  responses =
      insert bytes_discrete destination (response_of random now to_iface hops grace response)
        t.responses;
}

-- `AnnounceTable::add_response`
unfoldable pub add_response :
    ℕ → ℕ → AddressHash → AddressHash → ℕ → ℕ → AnnounceTable → AnnounceTable × Bool
add_response random now destination to_iface hops grace t =
    elim (get bytes_discrete destination t.map') [
      | some entry ↦ (do_add_response random now entry destination to_iface hops grace t, true)
      | none ↦ elim (cache_get destination t.cache) [
        | some entry ↦ (do_add_response random now entry destination to_iface hops grace t, true)
        | none ↦ (t, false)
      ]
    ]

abbrev pub older_length : Option EntryMap → ℕ
older_length none = 0
older_length (some older) = length older

unfoldable pub cache_len : AnnounceCache → ℕ
cache_len c = length c.newer + older_length c.older

abbrev pub announce_clear : AnnounceTable → AnnounceTable
announce_clear t = record { map' = []; responses = []; cache = cache_clear t.cache }

-- `AnnounceTable::echo_received`
unfoldable pub echo_received : ℕ → AddressHash → ℕ → AnnounceTable → AnnounceTable × Bool
echo_received now destination hops t = elim (get bytes_discrete destination t.map') [
  | none ↦ (t, false)
  | some entry ↦
      let gone : AnnounceTable = record t { map' = remove bytes_discrete destination t.map' } in
      let counted : EntryMap =
        update bytes_discrete destination
          (λ e. record e { local_rebroadcasts = e.local_rebroadcasts + 1 }) t.map' in
      if ltb 0 entry.retries && ltb 0 hops
      then (if hops - 1 == entry.hops
          then (if leb local_rebroadcasts_max (entry.local_rebroadcasts + 1)
              then (gone, true)
              else (record t { map' = counted }, false))
          else if (hops - 1 == (entry.hops + 1) % 256) && ltb now entry.timeout
          then (gone, true)
          else (t, false))
      else (t, false)
]

-- What the loop over `map` gives.
pub record Sweep : Type 0 where
  pub entries : EntryMap
  pub messages : List TxMessage
  pub completed' : List AddressHash

abbrev pub is_some : Option AnnounceEntry → Bool
is_some none = false
is_some (some e) = true

-- The arms of the `match` in the loops.
unfoldable pub messages_of : RetransmitOutcome → List TxMessage → List TxMessage
messages_of (ready msg) messages = msg ∷ messages
messages_of completed messages = messages
messages_of deferred messages = messages

unfoldable pub completed_of : AddressHash → RetransmitOutcome → List AddressHash → List AddressHash
completed_of destination completed rest = destination ∷ rest
completed_of destination deferred rest = rest
completed_of destination (ready msg) rest = rest

module _ (random : AddressHash → ℕ) (now : ℕ) (transport_id : AddressHash) where
  unfoldable pub sweep_announces : EntryMap → EntryMap → Sweep
  sweep_announces responses [] = record { entries = []; messages = []; completed' = [] }
  sweep_announces responses (e ∷ m) =
      let rest = sweep_announces responses m in
      let r = retransmit (random e.0) now transport_id e.1 in
      if is_some (get bytes_discrete e.0 responses)
      then record rest { entries = e ∷ rest.entries }
      else record {
        entries = (e.0, r.0) ∷ rest.entries;
        messages = messages_of r.1 rest.messages;
        completed' = completed_of e.0 r.1 rest.completed';
      }

  unfoldable pub sweep_responses : EntryMap → EntryMap × List TxMessage
  sweep_responses [] = ([], [])
  sweep_responses (e ∷ m) =
      let rest = sweep_responses m in
      let r = retransmit (random e.0) now transport_id e.1 in
      ((e.0, r.0) ∷ rest.0, messages_of r.1 rest.1)

abbrev pub not_sent : AddressHash → AnnounceEntry → Bool
not_sent destination e = e.retries == 0

-- The loop that moves the completed announces to the archive.
unfoldable pub archive : List AddressHash → EntryMap → AnnounceCache → EntryMap × AnnounceCache
archive [] m cache = (m, cache)
archive (destination ∷ rest) m cache = elim (get bytes_discrete destination m) [
  | none ↦ archive rest (remove bytes_discrete destination m) cache
  | some announce ↦
      archive rest (remove bytes_discrete destination m) (cache_insert destination announce cache)
]

-- `AnnounceTable::to_retransmit`
unfoldable pub to_retransmit :
    (AddressHash → ℕ)
    → (AddressHash → ℕ)
    → ℕ
    → AddressHash
    → AnnounceTable
    → AnnounceTable × List TxMessage
to_retransmit random random' now transport_id t =
    let pruned = cache_prune now announce_cache_max_age t.cache in
    let announces = sweep_announces random now transport_id t.responses t.map' in
    let responses = sweep_responses random' now transport_id t.responses in
    let archived = archive announces.completed' announces.entries pruned in
    (
      record { map' = archived.0; responses = retain not_sent responses.0; cache = archived.1 },
      announces.messages ++ responses.1,
    )

-- The announces of a bucket for which no response is waiting.
unfoldable pub old_messages : AddressHash → EntryMap → EntryMap → List TxMessage
old_messages transport_id responses [] = []
old_messages transport_id responses (e ∷ m) =
    let rest = old_messages transport_id responses m in
    if is_some (get bytes_discrete e.0 responses)
    then rest
    else always_retransmit transport_id e.1 ∷ rest

abbrev pub old_bucket : Option EntryMap → EntryMap
old_bucket none = []
old_bucket (some older) = older

-- `AnnounceTable::to_retransmit_old`
unfoldable pub to_retransmit_old : AddressHash → AnnounceTable → List TxMessage
to_retransmit_old transport_id t =
    old_messages transport_id t.responses t.cache.newer
    ++ old_messages transport_id t.responses (old_bucket t.cache.older)
