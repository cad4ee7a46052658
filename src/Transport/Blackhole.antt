-- ===== src/Transport/Blackhole.antt =====
-- src/transport/blackhole.rs, `BlackholeTable`: the identities that this node ignores. A reason is a
-- text as bytes; instants are in nanoseconds, and the clock is an argument.
pub mod Precedence
mod Tests
use mathlib.Core.Logic.{ite}
use reticulum_sdk.Base.{
  ℕ, ◌+◌, ◌-◌, ◌*◌, List, [], ◌∷◌, ◌++◌, length, Option, none, some, Bool, true, false, not, leb,
  if◌then◌else◌, bytes_discrete,
}
use reticulum_sdk.Base.Map.{get, insert, remove, retain}
use reticulum_sdk.Packet.Types.{AddressHash, Hash, address_hash_new_from_hash}

abbrev pub blackhole_check_interval : ℕ
blackhole_check_interval = 60 * 1_000_000_000

-- `blackhole_destination_hash`, with the name hash of the service.
unfoldable pub blackhole_destination_hash : (List ℕ → Hash) → List ℕ → AddressHash → AddressHash
blackhole_destination_hash sha256 name_hash identity_hash =
    address_hash_new_from_hash (sha256 (name_hash ++ identity_hash))

pub record BlackholeEntry : Type 0 where
  pub source : AddressHash
  pub until : Option ℕ
  pub reason : Option (List ℕ)

abbrev reached : ℕ → Option ℕ → Bool
reached now none = false
reached now (some t) = leb t now

unfoldable pub is_expired : ℕ → BlackholeEntry → Bool
is_expired now e = reached now e.until

abbrev pub BlackholeEntries : Type 0
BlackholeEntries = List (AddressHash × BlackholeEntry)

pub record BlackholeTable : Type 0 where
  pub entries : BlackholeEntries
  pub last_check : ℕ

abbrev pub blackhole_new : ℕ → BlackholeTable
blackhole_new now = record { entries = []; last_check = now }

abbrev pub is_vacant : Option BlackholeEntry → Bool
is_vacant none = true
is_vacant (some e) = false

-- `BlackholeTable::add`
unfoldable pub blackhole_add :
    AddressHash → AddressHash → Option ℕ → Option (List ℕ) → BlackholeTable → BlackholeTable × Bool
blackhole_add identity_hash source until reason t =
    let entry : BlackholeEntry = record { source = source; until = until; reason = reason } in
    (
      record t { entries = insert bytes_discrete identity_hash entry t.entries },
      is_vacant (get bytes_discrete identity_hash t.entries),
    )

-- `BlackholeTable::remove`
unfoldable pub blackhole_remove : AddressHash → BlackholeTable → BlackholeTable × Bool
blackhole_remove identity_hash t = (
  record t { entries = remove bytes_discrete identity_hash t.entries },
  not (is_vacant (get bytes_discrete identity_hash t.entries)),
)

abbrev pub blackhole_contains : AddressHash → BlackholeTable → Bool
blackhole_contains identity_hash t = not (is_vacant (get bytes_discrete identity_hash t.entries))

-- `BlackholeTable::identity_hashes`
unfoldable pub identity_hashes : BlackholeEntries → List AddressHash
identity_hashes [] = []
identity_hashes (e ∷ m) = e.0 ∷ identity_hashes m

abbrev from_source : AddressHash → AddressHash → BlackholeEntry → Bool
from_source source_hash identity_hash e = ite (bytes_discrete e.source source_hash) true false

unfoldable pub local_entries : AddressHash → BlackholeTable → BlackholeEntries
local_entries source_hash t = retain (from_source source_hash) t.entries

-- The two arms of the `match` on a remote entry.
abbrev pub insert_vacant :
    AddressHash → BlackholeEntry → Option BlackholeEntry → BlackholeTable → BlackholeTable
insert_vacant identity_hash entry none t = record t {
  entries = insert bytes_discrete identity_hash entry t.entries;
}
insert_vacant identity_hash entry (some known) t = t

-- `BlackholeTable::insert_remote_entry`
unfoldable pub insert_remote_entry :
    AddressHash → BlackholeEntry → BlackholeTable → BlackholeTable × Bool
insert_remote_entry identity_hash entry t =
    let known = get bytes_discrete identity_hash t.entries in
    (insert_vacant identity_hash entry known t, is_vacant known)

-- `BlackholeTable::insert_remote`
unfoldable pub insert_remote : BlackholeEntries → BlackholeTable → BlackholeTable × ℕ
insert_remote [] t = (t, 0)
insert_remote (e ∷ entries) t =
    let r = insert_remote_entry e.0 e.1 t in
    let rest = insert_remote entries r.0 in (rest.0, if r.1 then rest.1 + 1 else rest.1)

abbrev lasting : ℕ → AddressHash → BlackholeEntry → Bool
lasting now identity_hash e = not (is_expired now e)

unfoldable pub remove_expired : ℕ → BlackholeTable → BlackholeTable × ℕ
remove_expired now t =
    let left = retain (lasting now) t.entries in
    (record t { entries = left }, length t.entries - length left)

-- `BlackholeTable::check_expired`
unfoldable pub check_expired : ℕ → BlackholeTable → BlackholeTable × Option ℕ
check_expired now t =
    let r = remove_expired now (record t { last_check = now }) in
    if leb (t.last_check + blackhole_check_interval) now then (r.0, some r.1) else (t, none)

abbrev pub reset_check_timer : ℕ → BlackholeTable → BlackholeTable
reset_check_timer now t = record t { last_check = now }
