-- ===== src/Iface/Ifac/Transfer.antt =====
-- A packet that goes through `encode_tx` on one node and `decode_rx` on another with the same access
-- code (src/iface.rs, src/iface/ifac.rs).
use Prim.Native.Nat.{bit_and}
use mathlib.Core.Path.{subst}
use reticulum_sdk.Base.{
  ℕ, ◌+◌, ◌≤◌, ◌<◌, ◌≡◌, refl, sym, ap, ◌∙◌, List, [], ◌∷◌, ◌++◌, length, length-append, take, drop,
  take_front, some, false, All, arith,
}
use reticulum_sdk.Base.Bytes.{IsByte}
use reticulum_sdk.Buffer.Output.{OutputBuffer, output_new, advance}
use reticulum_sdk.Buffer.Append.{take-splice}
use reticulum_sdk.Error.{ok}
use reticulum_sdk.Iface.Ifac.{
  Primitives, IfacConfig, attach, mask_frame, decode_frame, encode_tx, decode_rx, mask_written,
  masked_result, truncated_signature,
}
use reticulum_sdk.Iface.Ifac.Codes.{
  IsSound, IsConfigured, attach_lem, length-truncated_signature, to_meta-flag,
}
use reticulum_sdk.Iface.Ifac.RoundTrip.{mask_frame-decode_frame}
use reticulum_sdk.Packet.Context.{context_u8}
use reticulum_sdk.Packet.Header.{
  Header, IfacFlag, HeaderType, ContextFlag, PropagationType, DestinationType, PacketType, to_meta,
  open', authenticated,
}
use reticulum_sdk.Packet.Types.{Packet, ifac_new_from_slice, signed_data, signed_tail}
use reticulum_sdk.Serde.{serialize, deserialize}
use reticulum_sdk.Serde.RoundTrip.{ifac_as_slice-new, deserialize-wire}
use reticulum_sdk.Serde.Serialize.{serialize-Appends}
use reticulum_sdk.Serde.Wire.{wire, ifac_bytes, transport_bytes, is_some, IsReadable}

module _ (h : HeaderType) (c : ContextFlag) (p : PropagationType) (d : DestinationType)
    (t : PacketType) (n : ℕ) (f : IfacFlag) where
  abbrev header : IfacFlag → Header
  header i = record {
    ifac_flag = i;
    header_type = h;
    context_flag = c;
    propagation_type = p;
    destination_type = d;
    packet_type = t;
    hops = n;
  }

  to_meta_small : to_meta (header f) < 256
  unfolding to_meta
  to_meta_small = ground arith

  to_meta_open : bit_and (to_meta (header open')) 0b0111_1111 ≡ to_meta (header open')
  unfolding to_meta
  to_meta_open = ground arith

-- The wire form after the header byte and the hop count, without the IFAC field.
abbrev body : Packet → List ℕ
body p = transport_bytes p ++ (p.destination ++ ((context_u8 p.context ∷ []) ++ p.data'.buffer))

module _ (p : Packet) (clean : IsReadable 0 p) where
  ifac_none : is_some p.ifac ≡ false
  ifac_none = let matches = clean.ifac in ground arith

  flag_open : p.header.ifac_flag ≡ open'
  flag_open = let flag = clean.ifac_flag in ground (arith, ifac_none)

  wire_clean : wire p ≡ to_meta p.header ∷ p.header.hops ∷ body p
  unfolding wire
  wire_clean =
      let no_field : ifac_bytes p ≡ [] = ground (arith, flag_open) in
      ap (λ c. to_meta p.header ∷ p.header.hops ∷ (c ++ body p)) no_field

  to_meta_same : bit_and (to_meta p.header) 0b0111_1111 ≡ to_meta p.header
  to_meta_same =
      let h = p.header in
      subst
        (λ f.
          bit_and (to_meta (record h { ifac_flag = f })) 0b0111_1111
          ≡ to_meta (record h { ifac_flag = f }))
        (sym flag_open)
        (to_meta_open h.header_type h.context_flag h.propagation_type h.destination_type
          h.packet_type h.hops open')

  signed_data-wire : signed_data p ≡ ok (wire p)
  unfolding signed_data signed_tail
  signed_data-wire = let flag = clean.header_type in ground (arith, to_meta_same, wire_clean)

-- The state of a cursor after one write into fresh storage.
module _ (storage w : List ℕ) (room : length w ≤ length storage) where
  fresh_room : (output_new storage).offset + length w ≤ length (output_new storage).buffer
  unfolding output_new
  fresh_room = omega arith

  fresh_advance :
      (take (advance (output_new storage) w).offset (advance (output_new storage) w).buffer ≡ w)
      × ((advance (output_new storage) w).offset ≡ length w)
  unfolding output_new advance
  fresh_advance = (take-splice storage 0 w (omega arith), omega arith)

module _ (crypto : Primitives) (sound : IsSound crypto) (config : IfacConfig) where
  mask_written_lem :
      (o : OutputBuffer) (w out : List ℕ)
      → take o.offset o.buffer ≡ w
      → mask_frame crypto config w ≡ (ok tt, out)
      → mask_written crypto (some config) o ≡ (ok o.offset, out ++ drop o.offset o.buffer)
  unfolding mask_written
  mask_written_lem o w out front masked =
      ap (masked_result o.offset (drop o.offset o.buffer))
        (ap (mask_frame crypto config) front ∙ masked)

  encode_tx_masked :
      (q : Packet) (storage : List ℕ) (n : ℕ) (o : OutputBuffer) (w out : List ℕ)
      → serialize q (output_new storage) ≡ (ok n, o)
      → take o.offset o.buffer ≡ w
      → mask_frame crypto config w ≡ (ok tt, out)
      → encode_tx crypto (some config) q storage ≡ (ok o.offset, out ++ drop o.offset o.buffer)
  unfolding encode_tx
  encode_tx_masked q storage n o w out written front masked =
      rw (written, encode_tx)
        (ap (λ r. mask_written crypto (some config) r.1) written
          ∙ mask_written_lem o w out front masked)

  decode_rx_clean :
      (frame : List ℕ) (p : Packet)
      → IsReadable 0 p
      → decode_frame crypto config frame ≡ ok (wire p)
      → decode_rx crypto (some config) frame ≡ ok p
  unfolding decode_rx deserialize
  decode_rx_clean frame p clean decoded = rw (decoded, decode_rx) (deserialize-wire 0 p clean).0

  module _ (configured : IsConfigured crypto config) (p : Packet) (clean : IsReadable 0 p) where
    abbrev code : List ℕ
    code = truncated_signature crypto config config.ifac_len (wire p)

    abbrev sent : Packet
    sent = record p {
      header = record (p.header) { ifac_flag = authenticated };
      ifac = some (ifac_new_from_slice code);
    }

    attach-sent : attach crypto config p ≡ (ok tt, sent)
    attach-sent =
        attach_lem crypto sound config p (wire p) (signed_data-wire p clean) configured.len_bound

    code-length : length code ≡ config.ifac_len
    code-length =
        length-truncated_signature crypto sound config config.ifac_len (wire p) configured.len_bound

    wire-sent : wire sent ≡ to_meta sent.header ∷ p.header.hops ∷ (code ++ body p)
    unfolding wire
    wire-sent =
        let small : length code ≤ 64 = omega (arith, code-length, configured.len_bound) in
        ap (λ c. to_meta sent.header ∷ p.header.hops ∷ (c ++ body p)) (ifac_as_slice-new code small)

    clean_bytes : bit_and (to_meta sent.header) 0b0111_1111 ∷ p.header.hops ∷ body p ≡ wire p
    clean_bytes =
        ap (λ m. m ∷ p.header.hops ∷ body p)
          (to_meta-flag p.header authenticated ∙ to_meta_same p clean)
        ∙ sym (wire_clean p clean)

    body_long : 1 ≤ length (body p)
    body_long = omega (
      arith,
      length-append (transport_bytes p)
          (p.destination ++ ((context_u8 p.context ∷ []) ++ p.data'.buffer)),
      length-append p.destination ((context_u8 p.context ∷ []) ++ p.data'.buffer),
    )

    sent-small : IsByte (to_meta sent.header)
    sent-small =
        let h = p.header in
        to_meta_small h.header_type h.context_flag h.propagation_type h.destination_type
          h.packet_type h.hops authenticated

    module _ (bytes : All IsByte (wire p)) where
      masked_frame :
          (out : List ℕ) × (mask_frame crypto config (wire sent) ≡ (ok tt, out))
          × (length out ≡ length (wire sent))
          × (decode_frame crypto config out ≡ ok (wire p))
      masked_frame =
          let inner = subst (All IsByte) (wire_clean p clean) bytes in
          let payload : 1 ≤ length (body p) = body_long in
          let (out, masked, size, decoded) =
            mask_frame-decode_frame crypto sound config (to_meta sent.header) p.header.hops code
              (body p) code-length configured.len_positive payload sent-small inner.1.0 inner.1.1
              (ap (truncated_signature crypto config config.ifac_len) clean_bytes) in
          (
            out,
            ap (mask_frame crypto config) wire-sent ∙ masked,
            size ∙ ap length (sym wire-sent),
            decoded ∙ ap ok clean_bytes,
          )

      -- A packet without an IFAC field that is signed by `attach` and written by `encode_tx` is
      -- read back by `decode_rx` with the same access code. The IFAC length is 1 to 64, the packet
      -- is readable and made of bytes, the buffer has room for the frame, and HKDF and Ed25519
      -- give byte strings of the documented sizes.
      pub decode_rx-encode_tx :
          (storage : List ℕ)
          → length (wire sent) ≤ length storage
          → ((encode_tx crypto (some config) (attach crypto config p).1 storage).0
              ≡ ok (length (wire sent)))
            × (decode_rx crypto (some config) (
                  take
                    (length (wire sent))
                    (encode_tx crypto (some config) (attach crypto config p).1 storage).1)
                ≡ ok p)
      decode_rx-encode_tx storage room =
          let (out, masked, size, decoded) = masked_frame in
          let o = advance (output_new storage) (wire sent) in
          let flag = clean.header_type in
          let written : serialize sent (output_new storage) ≡ (ok (length p.data'.buffer), o) =
            (serialize-Appends sent refl (ground arith)).fits (output_new storage)
              (fresh_room storage (wire sent) room) in
          let (front, place) = fresh_advance storage (wire sent) room in
          let all =
            encode_tx_masked sent storage (length p.data'.buffer) o (wire sent) out written front
              masked in
          rw attach-sent (
            ap (λ r. r.0) all ∙ ap ok place,
            ap (λ r. decode_rx crypto (some config) (take (length (wire sent)) r.1)) all
                ∙ ap (decode_rx crypto (some config))
                    (take_front (length (wire sent)) out (drop o.offset o.buffer) size)
                ∙ decode_rx_clean out p clean decoded,
          )
