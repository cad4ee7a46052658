-- ===== src/Iface/Ifac/Codes.antt =====
-- What the access codes of src/iface/ifac.rs prove: a packet that a holder of the key has signed is
-- accepted, and an accepted frame carries the code of the packet that it is read as.
use Prim.Native.Nat.{bit_and}
use native.Mathlib.Decide.{dec_le}
use reticulum_sdk.Base.{
  ℕ, ◌+◌, ◌-◌, ◌≤◌, ◌<◌, ◌≡◌, refl, ap, ◌∙◌, min, List, length, length-drop, Option, some, true,
  All, arith,
}
use reticulum_sdk.Base.Bytes.{IsByte}
use reticulum_sdk.Error.{ok}
use reticulum_sdk.Packet.Header.{
  Header, IfacFlag, authenticated, to_meta, HeaderType, ContextFlag, PropagationType,
  DestinationType, PacketType,
}
use reticulum_sdk.Packet.Types.{
  Packet, PacketIfac, ifac_as_slice, ifac_new_from_slice, signed_data, signed_tail,
}
use reticulum_sdk.Serde.RoundTrip.{ifac_as_slice-new}
use reticulum_sdk.Iface.Ifac.{
  Primitives, IfacConfig, attach, verify_raw, verify_packet, truncated_signature, signature_length,
}

-- What the code relies on of the other crates: the sizes of signatures and HKDF output, and that
-- Ed25519 accepts what it signed.
pub record IsSound (crypto : Primitives) : Type 0 where
  pub length-sign : (key bytes : List ℕ) → length (crypto.sign key bytes) ≡ signature_length
  pub sign-IsByte : (key bytes : List ℕ) → All IsByte (crypto.sign key bytes)
  pub length-expand :
      (salt ikm : List ℕ) (n : ℕ) (out : List ℕ)
      → crypto.expand salt ikm n ≡ some out
      → length out ≡ n
  pub expand-IsByte :
      (salt ikm : List ℕ) (n : ℕ) (out : List ℕ)
      → crypto.expand salt ikm n ≡ some out
      → All IsByte out
  pub signature_from_slice-length :
      (bytes : List ℕ)
      → length bytes ≡ signature_length
      → crypto.signature_from_slice bytes ≡ some bytes
  pub verify_strict-sign :
      (key bytes : List ℕ)
      → crypto.verify_strict (crypto.verifying_key key) bytes (crypto.sign key bytes) ≡ true

pub record IsConfigured (crypto : Primitives) (config : IfacConfig) : Type 0 where
  pub len_positive : 1 ≤ config.ifac_len
  pub len_bound : config.ifac_len ≤ signature_length
  pub same_key : config.verify_key ≡ crypto.verifying_key config.sign_key

module _ (h : HeaderType) (c : ContextFlag) (p : PropagationType) (d : DestinationType)
    (t : PacketType) (n : ℕ) (f g : IfacFlag) where
  abbrev flagged_header : IfacFlag → Header
  flagged_header i = record {
    ifac_flag = i;
    header_type = h;
    context_flag = c;
    propagation_type = p;
    destination_type = d;
    packet_type = t;
    hops = n;
  }

  low_bits_same :
      bit_and (to_meta (flagged_header f)) 0b0111_1111
      ≡ bit_and (to_meta (flagged_header g)) 0b0111_1111
  unfolding to_meta
  low_bits_same = ground arith

-- The bytes that are signed do not depend on the IFAC flag.
pub to_meta-flag :
    (h : Header) (f : IfacFlag)
    → bit_and (to_meta (record h { ifac_flag = f })) 0b0111_1111 ≡ bit_and (to_meta h) 0b0111_1111
to_meta-flag h f =
    low_bits_same h.header_type h.context_flag h.propagation_type h.destination_type h.packet_type
      h.hops f h.ifac_flag

pub signed_data-flag :
    (p : Packet) (f : IfacFlag) (ifac : Option PacketIfac)
    → signed_data (record p { header = record (p.header) { ifac_flag = f }; ifac = ifac })
      ≡ signed_data p
unfolding signed_data signed_tail
signed_data-flag p f ifac = ground (arith, to_meta-flag p.header f)

module _ (crypto : Primitives) (sound : IsSound crypto) (config : IfacConfig) where
  pub length-truncated_signature :
      (n : ℕ) (bytes : List ℕ) → n ≤ 64 → length (truncated_signature crypto config n bytes) ≡ n
  unfolding truncated_signature
  length-truncated_signature n bytes small =
      let whole = sound.length-sign config.sign_key bytes in
      omega (arith, length-drop (64 - n) (crypto.sign config.sign_key bytes), whole)

  pub attach_lem :
      (p : Packet) (bytes : List ℕ)
      → signed_data p ≡ ok bytes
      → config.ifac_len ≤ 64
      → attach crypto config p ≡ (
        ok tt,
        record p {
          header = record (p.header) { ifac_flag = authenticated };
          ifac =
              some (ifac_new_from_slice (truncated_signature crypto config config.ifac_len bytes));
        },
      )
  unfolding attach
  attach_lem p bytes signed small =
      let len : min config.ifac_len 64 ≡ config.ifac_len = omega arith in
      rw (signed, len, attach) refl

  verify_raw-short :
      (header : Header) (n : ℕ) (bytes : List ℕ)
      → header.ifac_flag ≡ authenticated
      → 1 ≤ n
      → n < 64
      → verify_raw crypto config header (truncated_signature crypto config n bytes) bytes ≡ ok tt
  unfolding verify_raw
  verify_raw-short header n bytes flag low high =
      let len = length-truncated_signature n bytes (omega arith) in rw (flag, len) (ground (arith))

  verify_raw-full :
      (header : Header) (bytes : List ℕ)
      → header.ifac_flag ≡ authenticated
      → config.verify_key ≡ crypto.verifying_key config.sign_key
      → verify_raw crypto config header (truncated_signature crypto config 64 bytes) bytes ≡ ok tt
  unfolding verify_raw truncated_signature
  verify_raw-full header bytes flag same =
      let len = sound.length-sign config.sign_key bytes in
      rw
        (
          flag,
          len,
          sound.signature_from_slice-length _ len,
          same,
          sound.verify_strict-sign config.sign_key bytes,
          verify_raw,
        )
        refl

  verify_raw_any :
      (header : Header) (bytes : List ℕ)
      → IsConfigured crypto config
      → header.ifac_flag ≡ authenticated
      → verify_raw crypto config header
          (truncated_signature crypto config config.ifac_len bytes)
          bytes
        ≡ ok tt
  verify_raw_any header bytes configured flag = elim (dec_le (config.ifac_len + 1) 64) [
    | yes short ↦
        verify_raw-short header config.ifac_len bytes flag configured.len_positive
          (omega (arith, short))
    | no long ↦
        let full : config.ifac_len ≡ 64 = omega (arith, configured.len_bound) in
        ap (λ n. verify_raw crypto config header (truncated_signature crypto config n bytes) bytes)
          full
        ∙ verify_raw-full header bytes flag configured.same_key
  ]

  verify_packet_lem :
      (p : Packet) (ifac : PacketIfac) (bytes : List ℕ)
      → p.header.ifac_flag ≡ authenticated
      → p.ifac ≡ some ifac
      → signed_data p ≡ ok bytes
      → verify_packet crypto config p ≡ verify_raw crypto config p.header (ifac_as_slice ifac) bytes
  unfolding verify_packet
  verify_packet_lem p ifac bytes flag code signed = ground arith

  -- A packet that `attach` has signed is accepted by `verify_packet` with the same keys, for every
  -- IFAC length from 1 to 64. The packet can be signed, and Ed25519 accepts what it signed.
  pub verify_packet-attach :
      IsConfigured crypto config
      → (p : Packet) (bytes : List ℕ) → signed_data p ≡ ok bytes
      → ((attach crypto config p).0 ≡ ok tt)
        × (verify_packet crypto config (attach crypto config p).1 ≡ ok tt)
  verify_packet-attach configured p bytes signed =
      let code = truncated_signature crypto config config.ifac_len bytes in
      let sent : Packet = record p {
        header = record (p.header) { ifac_flag = authenticated };
        ifac = some (ifac_new_from_slice code);
      } in
      let attached = attach_lem p bytes signed configured.len_bound in
      let read : ifac_as_slice (ifac_new_from_slice code) ≡ code = ifac_as_slice-new code (
        omega (
          arith,
          length-truncated_signature config.ifac_len bytes configured.len_bound,
          configured.len_bound,
        )) in
      let same : signed_data sent ≡ ok bytes =
        signed_data-flag p authenticated (some (ifac_new_from_slice code)) ∙ signed in
      (
        ap (λ r. r.0) attached,
        rw attached (
            verify_packet_lem sent (ifac_new_from_slice code) bytes refl refl same
            ∙ ap (λ c. verify_raw crypto config sent.header c bytes) read
            ∙ verify_raw_any sent.header bytes configured refl),
      )
