-- ===== src/Transport/PathTable/Entry.antt =====
-- src/transport/path_table.rs, `PathEntry`: what is known of one path, and when an announce may
-- replace it.
use mathlib.Core.Logic.{ite}
use reticulum_sdk.Base.{
  ℕ, zero, suc, ◌+◌, ◌-◌, ◌*◌, ◌^◌, max, List, [], ◌∷◌, ◌++◌, length, take, drop, Option, none,
  some, Bool, true, false, not, ◌&&◌, ltb, leb, ◌==◌, if◌then◌else◌, bytes_discrete,
}
use reticulum_sdk.Base.Int.{ℤ, gt_ℤ, eq_ℤ}
use reticulum_sdk.Packet.Types.{AddressHash, Hash, Packet}

abbrev pub max_random_blobs : ℕ
max_random_blobs = 64

abbrev pub rand_hash_length : ℕ
rand_hash_length = 10

-- PUBLIC_KEY_LENGTH * 2 + NAME_HASH_LENGTH
abbrev pub announce_random_blob_offset : ℕ
announce_random_blob_offset = 32 * 2 + 10

abbrev pub RandomBlob : Type 0
RandomBlob = List ℕ

pub data PathState : Type 0 where
  unknown responsive unresponsive : PathState

abbrev pub is_unresponsive_state : PathState → Bool
is_unresponsive_state unresponsive = true
is_unresponsive_state _ = false

pub record PathEntry (F : Type 0) : Type 0 where
  pub timestamp : ℕ
  pub received_from : AddressHash
  pub hops : ℕ
  pub iface : AddressHash
  pub packet_hash : Hash
  pub expires : ℕ
  pub path_expiry : ℕ
  pub random_blobs : List RandomBlob
  pub state : PathState
  pub iface_gravity : ℤ
  pub iface_bitrate : Option F
  pub announce : Option Packet

unfoldable pub announce_random_blob : Packet → Option RandomBlob
announce_random_blob packet =
    if ltb (length packet.data'.buffer) (announce_random_blob_offset + rand_hash_length)
    then none
    else some (take rand_hash_length (drop announce_random_blob_offset packet.data'.buffer))

-- `random_blob[i]`; a blob has ten bytes.
abbrev byte_at : ℕ → List ℕ → ℕ
byte_at i [] = 0
byte_at zero (x ∷ xs) = x
byte_at (suc i) (x ∷ xs) = byte_at i xs

-- `u64::from_be_bytes` of three zero bytes and bytes 5 to 9.
unfoldable pub timebase_from_random_blob : RandomBlob → ℕ
timebase_from_random_blob blob =
    byte_at 5 blob * 2 ^ 32
    + byte_at 6 blob * 2 ^ 24
    + byte_at 7 blob * 2 ^ 16
    + byte_at 8 blob * 2 ^ 8
    + byte_at 9 blob

-- `random_blobs.contains(&random_blob)`
unfoldable pub contains : RandomBlob → List RandomBlob → Bool
contains blob [] = false
contains blob (b ∷ bs) = ite (bytes_discrete b blob) true (contains blob bs)

unfoldable pub max_timebase : List RandomBlob → ℕ
max_timebase [] = 0
max_timebase (b ∷ bs) = max (timebase_from_random_blob b) (max_timebase bs)

unfoldable pub pushed : List RandomBlob → Option RandomBlob → List RandomBlob
pushed blobs none = blobs
pushed blobs (some blob) = if contains blob blobs then blobs else blobs ++ (blob ∷ [])

unfoldable pub trimmed : List RandomBlob → List RandomBlob
trimmed blobs =
    if ltb max_random_blobs (length blobs)
    then drop (length blobs - max_random_blobs) blobs
    else blobs

module _ {F : Type 0} where
  unfoldable pub timebase : PathEntry F → ℕ
  timebase e = max_timebase e.random_blobs

  unfoldable pub updated_random_blobs : PathEntry F → Option RandomBlob → List RandomBlob
  unfolding pushed trimmed
  updated_random_blobs e blob = trimmed (pushed e.random_blobs blob)

module _ {F : Type 0} (gt : F → F → Bool) where
  prefers_bitrate : Option F → Option F → Bool
  prefers_bitrate (some a) (some b) = gt a b
  prefers_bitrate (some a) none = true
  prefers_bitrate none b = false

  -- The closure `prefers_interface`.
  unfoldable pub prefers_interface : ℤ → Option F → PathEntry F → Bool
  unfolding prefers_bitrate
  prefers_interface gravity bitrate e =
      if not (eq_ℤ gravity e.iface_gravity)
      then gt_ℤ gravity e.iface_gravity
      else prefers_bitrate bitrate e.iface_bitrate

  -- `now` is the clock at the expiry test.
  unfoldable pub should_accept : ℕ → ℕ → RandomBlob → ℤ → Option F → PathEntry F → Bool
  should_accept now hops blob gravity bitrate e =
      let announce_emitted = timebase_from_random_blob blob in
      let path_timebase = timebase e in
      let preferred = prefers_interface gravity bitrate e in
      if contains blob e.random_blobs
      then (if ltb hops e.hops then true else (if hops == e.hops && preferred then true else false))
      else (if leb hops e.hops
          then (if ltb path_timebase announce_emitted
              then true
              else (if announce_emitted == path_timebase && preferred then true else false))
          else (if leb e.expires now
              then true
              else (if ltb path_timebase announce_emitted
                  then true
                  else (if announce_emitted == path_timebase && is_unresponsive_state e.state
                      then true
                      else false))))
