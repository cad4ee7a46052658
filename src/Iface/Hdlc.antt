-- ===== src/Iface/Hdlc.antt =====
-- src/iface/hdlc.rs: `Hdlc::encode`, `Hdlc::find` and `Hdlc::decode`. A loop over a slice is a
-- recursion on the list of the bytes not yet visited; its variables are arguments.
pub mod Frame
pub mod Encode
pub mod Decode
pub mod Find
mod Tests
use Prim.Native.Nat.{bit_xor}
use reticulum_sdk.Base.{
  ℕ, ◌+◌, suc, List, [], ◌∷◌, ◌==◌, ◌||◌, not, Bool, true, false, if◌then◌else◌, Option, none, some,
}
use reticulum_sdk.Error.{ok, Fallible, ◌>>=◌, ◌>>◌, then_do, return, fail, out_of_memory}
use reticulum_sdk.Buffer.Output.{OutputBuffer, write, write_byte}

abbrev pub hdlc_frame_flag : ℕ
hdlc_frame_flag = 0x7e

abbrev pub hdlc_escape_byte : ℕ
hdlc_escape_byte = 0x7d

abbrev pub hdlc_escape_mask : ℕ
hdlc_escape_mask = 0b00100000

-- `buffer.offset()`, the result of both `encode` and `decode`.
abbrev pub offset : Fallible OutputBuffer ℕ
offset b = (ok b.offset, b)

-- The `match` in the loop of `encode`.
pub encode_byte : ℕ → Fallible OutputBuffer ℕ
encode_byte byte =
    if byte == hdlc_frame_flag || byte == hdlc_escape_byte
    then write (hdlc_escape_byte ∷ bit_xor byte hdlc_escape_mask ∷ [])
    else write_byte byte

pub encode_loop : List ℕ → Fallible OutputBuffer (Unit {0})
encode_loop [] = return tt
encode_loop (byte ∷ rest) = do encode_byte byte; encode_loop rest

pub encode : List ℕ → Fallible OutputBuffer ℕ
encode bytes = do write_byte hdlc_frame_flag; encode_loop bytes; write_byte hdlc_frame_flag; offset

-- `i` is the loop's index, `start_index` is meaningful once `start` is set. The flag `end` is set
-- only where the function returns.
pub find_loop : ℕ → Bool → ℕ → List ℕ → Option (ℕ × ℕ)
find_loop i start start_index [] = none
find_loop i start start_index (byte ∷ rest) =
    let next = find_loop (i + 1) start start_index rest in
    let started = find_loop (i + 1) true i rest in
    if not (byte == hdlc_frame_flag)
    then next
    else (if start then some (start_index, i) else started)

pub find : List ℕ → Option (ℕ × ℕ)
find = find_loop 0 false 0

-- The result is the loop's `finished`.
pub decode_loop : Bool → Bool → List ℕ → Fallible OutputBuffer Bool
decode_loop started escape [] = return false
decode_loop started escape (byte ∷ rest) =
    let unescaped = (do
      write_byte (bit_xor byte hdlc_escape_mask)
      decode_loop started false rest) in
    let opened = decode_loop true false rest in
    let escaped = decode_loop started true rest in
    let plain = (do write_byte byte; decode_loop started false rest) in
    if escape
    then unescaped
    else (if byte == hdlc_frame_flag
        then (if started then return true else opened)
        else (if byte == hdlc_escape_byte then escaped else plain))

pub finish : Bool → Fallible OutputBuffer ℕ
finish finished = if not finished then fail out_of_memory else offset

pub decode : List ℕ → Fallible OutputBuffer ℕ
decode bytes = do finished ← decode_loop false false bytes; finish finished
