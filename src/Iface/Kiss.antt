-- ===== src/Iface/Kiss.antt =====
-- src/iface/kiss.rs: the KISS frames on a serial line, `encode_data_frame` and `KissDecoder`.
pub mod Frames
mod Tests
use Prim.Native.Nat.{bit_and}
use reticulum_sdk.Base.{
  ℕ, ◌/◌, min, List, [], ◌∷◌, ◌++◌, length, Option, none, some, Bool, true, false, not, ◌&&◌, ◌||◌,
  leb, ◌==◌, if◌then◌else◌,
}

abbrev pub fend : ℕ
fend = 0xc0

abbrev pub fesc : ℕ
fesc = 0xdb

abbrev pub tfend : ℕ
tfend = 0xdc

abbrev pub tfesc : ℕ
tfesc = 0xdd

abbrev pub cmd_unknown : ℕ
cmd_unknown = 0xfe

abbrev pub cmd_data : ℕ
cmd_data = 0x00

abbrev pub cmd_ready : ℕ
cmd_ready = 0x0f

abbrev pub hw_mtu : ℕ
hw_mtu = 564

-- The `match` in the loop of `escape_into`.
unfoldable pub escape_byte : ℕ → List ℕ
escape_byte byte =
    if byte == fend
    then fesc ∷ tfend ∷ []
    else if byte == fesc
    then fesc ∷ tfesc ∷ []
    else byte ∷ []

unfoldable pub escape_into : List ℕ → List ℕ → List ℕ
escape_into [] frame = frame
escape_into (byte ∷ bytes) frame = escape_into bytes (frame ++ escape_byte byte)

unfoldable pub encode_data_frame : List ℕ → List ℕ
encode_data_frame bytes = escape_into bytes (fend ∷ cmd_data ∷ []) ++ (fend ∷ [])

abbrev pub scale_10ms : ℕ → ℕ
scale_10ms value_ms = min (value_ms / 10) 255

pub data KissEvent : Type 0 where
  data' : List ℕ → KissEvent
  ready : KissEvent

pub record KissDecoder : Type 0 where
  pub in_frame : Bool
  pub escape : Bool
  pub command : ℕ
  pub bytes : List ℕ

abbrev pub kiss_decoder_new : KissDecoder
kiss_decoder_new = record { in_frame = false; escape = false; command = cmd_unknown; bytes = [] }

abbrev pub is_empty : List ℕ → Bool
is_empty [] = true
is_empty (x ∷ xs) = false

-- The byte that an escape stands for.
abbrev pub unescape : Bool → ℕ → ℕ
unescape escape byte =
    if escape then (if byte == tfend then fend else if byte == tfesc then fesc else byte) else byte

-- `KissDecoder::push`
unfoldable pub push : ℕ → KissDecoder → KissDecoder × Option KissEvent
push byte d =
    if d.in_frame && (byte == fend) && (d.command == cmd_data)
    then (kiss_decoder_new, some (data' d.bytes))
    else if byte == fend
    then (record { in_frame = true; escape = false; command = cmd_unknown; bytes = [] }, none)
    else if not d.in_frame || leb hw_mtu (length d.bytes)
    then (d, none)
    else if is_empty d.bytes && (d.command == cmd_unknown)
    then (record d { command = bit_and byte 0x0f }, none)
    else if d.command == cmd_data
    then (if byte == fesc
        then (record d { escape = true }, none)
        else (record d { escape = false; bytes = d.bytes ++ (unescape d.escape byte ∷ []) }, none))
    else if d.command == cmd_ready
    then (d, some ready)
    else (d, none)

-- `KissDecoder::reset_timed_out`
unfoldable pub reset_timed_out : KissDecoder → KissDecoder
reset_timed_out d = if not (is_empty d.bytes) then kiss_decoder_new else d

abbrev pub with_event : Option KissEvent → List KissEvent → List KissEvent
with_event none events = events
with_event (some event) events = event ∷ events

-- The events of the bytes that are read, in the loop of `read_loop`.
unfoldable pub push_all : List ℕ → KissDecoder → KissDecoder × List KissEvent
push_all [] d = (d, [])
push_all (byte ∷ rest) d =
    let r = push byte d in let more = push_all rest r.0 in (more.0, with_event r.1 more.1)
