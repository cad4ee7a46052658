-- ===== src/Transport/AnnounceTable/Cache.antt =====
-- src/transport/announce_table.rs, `AnnounceCache`: the archive of announces that were sent, in two
-- buckets.
use reticulum_sdk.Base.{
  ℕ, ◌-◌, ◌*◌, List, [], length, Option, none, some, Bool, ltb, leb, if◌then◌else◌, bytes_discrete,
}
use reticulum_sdk.Base.Map.{get, insert, retain}
use reticulum_sdk.Packet.Types.{AddressHash}
use reticulum_sdk.Transport.AnnounceTable.Entry.{AnnounceEntry, second}

abbrev pub EntryMap : Type 0
EntryMap = List (AddressHash × AnnounceEntry)

abbrev pub announce_cache_max_age : ℕ
announce_cache_max_age = 60 * 60 * second

abbrev pub announce_cache_prune_interval : ℕ
announce_cache_prune_interval = 60 * second

abbrev pub announce_cache_capacity : ℕ
announce_cache_capacity = 10_000

-- `newer` is `Some` from `new` on, and `insert` puts a new map in its place when it takes it out.
pub record AnnounceCache : Type 0 where
  pub newer : EntryMap
  pub older : Option EntryMap
  pub capacity : ℕ
  pub last_prune : ℕ

abbrev pub cache_new : ℕ → ℕ → AnnounceCache
cache_new now capacity = record { newer = []; older = none; capacity = capacity; last_prune = now }

-- The buckets with room in the newer one.
unfoldable pub rotated : AnnounceCache → AnnounceCache
rotated c =
    if leb c.capacity (length c.newer) then record c { older = some c.newer; newer = [] } else c

-- `AnnounceCache::insert`
unfoldable pub cache_insert : AddressHash → AnnounceEntry → AnnounceCache → AnnounceCache
cache_insert destination entry c =
    let c' = rotated c in record c' { newer = insert bytes_discrete destination entry c'.newer }

abbrev pub in_older : AddressHash → Option EntryMap → Option AnnounceEntry
in_older destination none = none
in_older destination (some older) = get bytes_discrete destination older

-- `AnnounceCache::get`
unfoldable pub cache_get : AddressHash → AnnounceCache → Option AnnounceEntry
cache_get destination c = elim (get bytes_discrete destination c.newer) [
  | some entry ↦ some entry
  | none ↦ in_older destination c.older
]

abbrev pub recent : ℕ → ℕ → AddressHash → AnnounceEntry → Bool
recent now max_age destination entry = leb (now - entry.timestamp) max_age

abbrev pub prune_older : (AddressHash → AnnounceEntry → Bool) → Option EntryMap → Option EntryMap
prune_older keep none = none
prune_older keep (some older) = some (retain keep older)

-- `AnnounceCache::prune`
unfoldable pub cache_prune : ℕ → ℕ → AnnounceCache → AnnounceCache
cache_prune now max_age c =
    if ltb (now - c.last_prune) announce_cache_prune_interval then c else record c {
      last_prune = now;
      newer = retain (recent now max_age) c.newer;
      older = prune_older (recent now max_age) c.older;
    }

abbrev pub cache_clear : AnnounceCache → AnnounceCache
cache_clear c = record c { newer = []; older = none }
