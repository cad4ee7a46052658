-- ===== src/Iface/Ifac.antt =====
-- src/iface/ifac.rs: the access codes of an interface, and `encode_tx` and `decode_rx` of
-- src/iface.rs. SHA-256, HKDF and Ed25519 are parameters: keys, digests and signatures are bytes.
pub mod Mask
pub mod Codes
pub mod Acceptance
pub mod RoundTrip
pub mod Transfer
mod Tests
use Prim.Native.Nat.{bit_and, bit_or, bit_xor}
use mathlib.Core.Logic.{ite}
use reticulum_sdk.Base.{
  ℕ, suc, ◌+◌, ◌-◌, ◌≤◌, ◌≡◌, min, List, [], ◌∷◌, ◌++◌, length, take, drop, replicate, Option, none,
  some, Bool, true, false, not, ◌&&◌, ◌||◌, ltb, leb, ◌==◌, if◌then◌else◌, All, bytes_discrete,
}
use reticulum_sdk.Buffer.Input.{input_new}
use reticulum_sdk.Buffer.Output.{OutputBuffer, output_new}
use reticulum_sdk.Error.{
  RnsError, Result, ok, err, Fallible, incorrect_signature, packet_error, crypto_error,
}
use reticulum_sdk.Packet.Header.{Header, authenticated, is_authenticated}
use reticulum_sdk.Packet.Types.{Packet, PacketIfac, ifac_new_from_slice, ifac_as_slice, signed_data}
use reticulum_sdk.Serde.{serialize, deserialize}

abbrev pub ifac_salt : List ℕ
ifac_salt =
    0xad ∷ 0xf5 ∷ 0x4d ∷ 0x88 ∷ 0x2c ∷ 0x9a ∷ 0x9b ∷ 0x80 ∷ 0x77 ∷ 0x1e ∷ 0xb4 ∷ 0x99 ∷ 0x5d ∷ 0x70
    ∷ 0x2d ∷ 0x4a ∷ 0x3e ∷ 0x73 ∷ 0x33 ∷ 0x91 ∷ 0xb2 ∷ 0xa0 ∷ 0xf5 ∷ 0x3f ∷ 0x41 ∷ 0x6d ∷ 0x9f
    ∷ 0x90 ∷ 0x7e ∷ 0x55 ∷ 0xcf ∷ 0xf8 ∷ []

-- Of ed25519_dalek.
abbrev pub signature_length : ℕ
signature_length = 64

-- What the code calls in other crates. `expand salt ikm n` is the HKDF output of `n` bytes, or none
-- where `n` is more than HKDF gives.
pub record Primitives : Type 0 where
  pub sha256 : List ℕ → List ℕ
  pub expand : List ℕ → List ℕ → ℕ → Option (List ℕ)
  pub verifying_key : List ℕ → List ℕ
  pub sign : List ℕ → List ℕ → List ℕ
  pub signature_from_slice : List ℕ → Option (List ℕ)
  pub verify_strict : List ℕ → List ℕ → List ℕ → Bool

pub record IfacConfig : Type 0 where
  pub sign_key : List ℕ
  pub verify_key : List ℕ
  pub ifac_key : List ℕ
  pub ifac_len : ℕ

abbrev pub bytes_of : Option (List ℕ) → ℕ → List ℕ
bytes_of none n = replicate n 0
bytes_of (some out) n = out

abbrev digest_of : (List ℕ → List ℕ) → Option (List ℕ) → List ℕ
digest_of sha256 none = []
digest_of sha256 (some text) = sha256 text

-- The byte at place `i` of a frame to send, under the mask byte `m`.
unfoldable pub mask_byte : ℕ → ℕ → ℕ → ℕ → ℕ
mask_byte ifac_len i byte m =
    if i == 0
    then bit_or (bit_xor byte m) 0x80
    else if (i == 1) || ltb (ifac_len + 1) i
    then bit_xor byte m
    else byte

unfoldable pub unmask_byte : ℕ → ℕ → ℕ → ℕ → ℕ
unmask_byte ifac_len i byte m = if leb i 1 || ltb (ifac_len + 1) i then bit_xor byte m else byte

-- The loops over a frame from place `i` on. The mask is as long as the frame.
unfoldable pub mask_loop : ℕ → ℕ → List ℕ → List ℕ → List ℕ
mask_loop ifac_len i [] mask = []
mask_loop ifac_len i (byte ∷ frame) [] = byte ∷ frame
mask_loop ifac_len i (byte ∷ frame) (m ∷ mask) =
    mask_byte ifac_len i byte m ∷ mask_loop ifac_len (suc i) frame mask

unfoldable pub unmask_loop : ℕ → ℕ → List ℕ → List ℕ → List ℕ
unmask_loop ifac_len i [] mask = []
unmask_loop ifac_len i (byte ∷ frame) [] = byte ∷ frame
unmask_loop ifac_len i (byte ∷ frame) (m ∷ mask) =
    unmask_byte ifac_len i byte m ∷ unmask_loop ifac_len (suc i) frame mask

-- `frame[0] & 0x80 == 0` fails, for a frame that is not empty.
abbrev pub is_flagged : List ℕ → Bool
is_flagged [] = false
is_flagged (byte ∷ frame) = not (bit_and byte 0x80 == 0)

-- The packet without the IFAC field and with the flag cleared.
unfoldable pub clean_of : ℕ → List ℕ → List ℕ
clean_of ifac_len [] = []
clean_of ifac_len (meta ∷ []) = bit_and meta 0x7f ∷ []
clean_of ifac_len (meta ∷ hops ∷ rest) = bit_and meta 0x7f ∷ hops ∷ drop ifac_len rest

abbrev pub ifac_of : ℕ → List ℕ → List ℕ
ifac_of ifac_len frame = take ifac_len (drop 2 frame)

abbrev pub too_short : ℕ → List ℕ → Bool
too_short ifac_len frame = (ifac_len == 0) || leb (length frame) (2 + ifac_len)

-- `config.mask_frame(&mut buffer[..len])?; Ok(len)`, with what follows in the buffer.
abbrev pub masked_result : ℕ → List ℕ → Result (Unit {0}) × List ℕ → Result ℕ × List ℕ
masked_result len rest (ok done, frame) = (ok len, frame ++ rest)
masked_result len rest (err e, frame) = (err e, frame ++ rest)

module _ (crypto : Primitives) where
  unfoldable pub hkdf_stream : List ℕ → List ℕ → ℕ → List ℕ
  hkdf_stream salt ikm n = bytes_of (crypto.expand salt ikm n) n

  -- `IfacConfig::derive`, with the names as bytes.
  unfoldable pub derive : Option (List ℕ) → Option (List ℕ) → ℕ → IfacConfig
  derive netname netkey ifac_len =
      let ifac_origin = digest_of crypto.sha256 netname ++ digest_of crypto.sha256 netkey in
      let ifac_origin_hash = crypto.sha256 ifac_origin in
      let ifac_key = bytes_of (crypto.expand ifac_salt ifac_origin_hash 64) 64 in
      let sign_key = take 32 (drop 32 ifac_key) in
      record {
        sign_key = sign_key;
        verify_key = crypto.verifying_key sign_key;
        ifac_key = ifac_key;
        ifac_len = min ifac_len signature_length;
      }

  module _ (config : IfacConfig) where
    -- The last `n` bytes of the signature.
    unfoldable pub truncated_signature : ℕ → List ℕ → List ℕ
    truncated_signature n bytes = drop (signature_length - n) (crypto.sign config.sign_key bytes)

    -- `IfacConfig::attach`
    unfoldable pub attach : Fallible Packet (Unit {0})
    unfolding truncated_signature
    attach p = elim (signed_data p) [
      | err e ↦ (err e, p)
      | ok bytes ↦
          let truncated_len = min config.ifac_len signature_length in
          (
            ok tt,
            record p {
              header = record (p.header) { ifac_flag = authenticated };
              ifac = some (ifac_new_from_slice (truncated_signature truncated_len bytes));
            },
          )
    ]

    -- `IfacConfig::mask_frame`
    unfoldable pub mask_frame : Fallible (List ℕ) (Unit {0})
    mask_frame frame =
        if too_short config.ifac_len frame
        then (err packet_error, frame)
        else let mask =
            hkdf_stream config.ifac_key (ifac_of config.ifac_len frame) (length frame) in
          (ok tt, mask_loop config.ifac_len 0 frame mask)

    -- `IfacConfig::decode_frame`
    unfoldable pub decode_frame : List ℕ → Result (List ℕ)
    unfolding truncated_signature
    decode_frame frame =
        let ifac = ifac_of config.ifac_len frame in
        let mask = hkdf_stream config.ifac_key ifac (length frame) in
        let clean = clean_of config.ifac_len (unmask_loop config.ifac_len 0 frame mask) in
        if too_short config.ifac_len frame
        then err packet_error
        else if not (is_flagged frame)
        then err packet_error
        else ite (bytes_discrete (truncated_signature config.ifac_len clean) ifac) (ok clean)
            (err incorrect_signature)

    -- `IfacConfig::verify_raw`
    unfoldable pub verify_raw : Header → List ℕ → List ℕ → Result (Unit {0})
    unfolding truncated_signature
    verify_raw header ifac_bytes bytes =
        if not (is_authenticated header.ifac_flag)
        then err packet_error
        else if (length ifac_bytes == 0) || ltb signature_length (length ifac_bytes)
        then err packet_error
        else if ltb (length ifac_bytes) signature_length
        then ite (bytes_discrete (truncated_signature (length ifac_bytes) bytes) ifac_bytes) (ok tt)
            (err incorrect_signature)
        else (elim (crypto.signature_from_slice ifac_bytes) [
          | none ↦ err crypto_error
          | some signature ↦
              if crypto.verify_strict config.verify_key bytes signature
              then ok tt
              else err incorrect_signature
        ])

    -- `IfacConfig::verify_packet`
    unfoldable pub verify_packet : Packet → Result (Unit {0})
    verify_packet p =
        if not (is_authenticated p.header.ifac_flag) then err packet_error else (elim p.ifac [
          | none ↦ err packet_error
          | some ifac ↦ elim (signed_data p) [
            | err e ↦ err e
            | ok bytes ↦ verify_raw p.header (ifac_as_slice ifac) bytes
          ]
        ])

  -- What `encode_tx` does with the bytes that `serialize` wrote.
  unfoldable pub mask_written : Option IfacConfig → OutputBuffer → Result ℕ × List ℕ
  mask_written none out = (ok out.offset, out.buffer)
  mask_written (some config) out =
      masked_result out.offset (drop out.offset out.buffer)
        (mask_frame config (take out.offset out.buffer))

  -- `encode_tx`, with the buffer that it writes.
  unfoldable pub encode_tx : Option IfacConfig → Packet → Fallible (List ℕ) ℕ
  unfolding mask_written
  encode_tx ifac_config packet buffer =
      let out = serialize packet (output_new buffer) in
      elim out.0 [ err e ↦ (err e, out.1.buffer) | ok _ ↦ mask_written ifac_config out.1 ]

  -- `decode_rx`
  unfoldable pub decode_rx : Option IfacConfig → List ℕ → Result Packet
  decode_rx none bytes =
      if is_flagged bytes then err packet_error else (deserialize (input_new bytes)).0
  decode_rx (some config) bytes = elim (decode_frame config bytes) [
    | err e ↦ err e
    | ok clean ↦ (deserialize (input_new clean)).0
  ]
