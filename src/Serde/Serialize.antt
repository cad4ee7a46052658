-- ===== src/Serde/Serialize.antt =====
-- `Packet::serialize` of src/serde.rs writes the wire format, or fails with the right error.
use mathlib.Core.List.{append-nil}
use native.Mathlib.Decide.{dec_le}
use reticulum_sdk.Base.{
  ℕ, ◌+◌, ◌≤◌, ◌≡◌, refl, ap, ◌∙◌, List, [], ◌∷◌, ◌++◌, length, if◌then◌else◌, true, false, ◌&&◌,
  Bool-cases, Option-cases, inl, inr, arith, le→leb, lt→leb,
}
use reticulum_sdk.Error.{
  ok, err, ◌>>◌, return, packet_error, out_of_memory, then_do_ok, then_do_err,
}
use reticulum_sdk.Buffer.Output.{OutputBuffer, InBounds, advance, write, as_slice}
use reticulum_sdk.Buffer.Append.{
  fits_in, write_fits, as_slice-advance, offset-advance, capacity-advance,
}
use reticulum_sdk.Buffer.Writers.{Appends, write-Appends, return-Appends, then-Appends}
use reticulum_sdk.Packet.Header.{to_meta, is_authenticated, is_type2}
use reticulum_sdk.Packet.Context.{context_u8}
use reticulum_sdk.Packet.Types.{Packet}
use reticulum_sdk.Serde.{
  serialize_ifac, serialize_transport, serialize, address_serialize, header_serialize,
}
use reticulum_sdk.Serde.Wire.{wire, ifac_bytes, transport_bytes, has_ifac, has_transport}

written-Appends : (bytes : List ℕ) → Appends (write bytes >> return tt) bytes (λ _. tt)
written-Appends bytes = rw append-nil at (
    then-Appends (write bytes) (return tt) bytes [] (write-Appends bytes)
      (return-Appends (λ _. tt)))

serialize_ifac-Appends :
    (p : Packet) → has_ifac p ≡ true → Appends (serialize_ifac p) (ifac_bytes p) (λ _. tt)
unfolding serialize_ifac
serialize_ifac-Appends p h = elim (Bool-cases (is_authenticated p.header.ifac_flag)) [
  | inl flag ↦ elim (Option-cases p.ifac) [
    | inl missing ↦ absurd (ground arith)
    | inr (ifac, present) ↦ rw (flag, present) (written-Appends _)
  ]
  | inr open' ↦ rw open' (return-Appends (λ _. tt))
]

serialize_transport-Appends :
    (p : Packet)
    → has_transport p ≡ true
    → Appends (serialize_transport p) (transport_bytes p) (λ _. tt)
unfolding serialize_transport address_serialize
serialize_transport-Appends p h = elim (Bool-cases (is_type2 p.header.header_type)) [
  | inl type2 ↦ elim (Option-cases p.transport) [
    | inl missing ↦ absurd (ground arith)
    | inr (address, present) ↦ rw (type2, present) (written-Appends address)
  ]
  | inr type1 ↦ rw type1 (return-Appends (λ _. tt))
]

pub serialize-Appends :
    (p : Packet)
    → has_ifac p ≡ true
    → has_transport p ≡ true
    → Appends (serialize p) (wire p) (λ _. length p.data'.buffer)
unfolding serialize wire
serialize-Appends p ifac transport =
    then-Appends _ _ (to_meta p.header ∷ p.header.hops ∷ []) _ (write-Appends _) (
      then-Appends _ _ (ifac_bytes p) _ (serialize_ifac-Appends p ifac) (
        then-Appends _ _ (transport_bytes p) _ (serialize_transport-Appends p transport) (
          then-Appends _ _ p.destination _ (write-Appends p.destination) (
            then-Appends _ _ (context_u8 p.context ∷ []) _ (write-Appends _)
              (write-Appends p.data'.buffer)))))

-- A packet whose header announces no missing field is written in the wire format when the buffer
-- has room for it: the result is the length of the payload, the slice grows by the wire form, and
-- the storage keeps its size.
pub serialize_writes :
    (p : Packet) (b : OutputBuffer)
    → has_ifac p ≡ true
    → has_transport p ≡ true
    → b.offset + length (wire p) ≤ length b.buffer
    → ((serialize p b).0 ≡ ok (length p.data'.buffer))
      × (as_slice (serialize p b).1 ≡ as_slice b ++ wire p)
      × (length (serialize p b).1.buffer ≡ length b.buffer)
serialize_writes p b ifac transport room =
    rw ((serialize-Appends p ifac transport).fits b room)
      (refl, as_slice-advance b (wire p) room, capacity-advance b (wire p) room)

-- On a buffer whose cursor is within its storage, serializing a packet that announces no missing
-- field returns the length of the payload if the wire form fits, and `OutOfMemory` otherwise.
serialize_result :
    (p : Packet) (b : OutputBuffer)
    → InBounds b
    → has_ifac p ≡ true
    → has_transport p ≡ true
    → (serialize p b).0
      ≡ (if fits_in b (wire p) then ok (length p.data'.buffer) else err out_of_memory)
serialize_result p b inside ifac transport =
    elim (dec_le (b.offset + length (wire p)) (length b.buffer)) [
      | yes room ↦
          rw (le→leb (b.offset + length (wire p)) (length b.buffer) room)
            (serialize_writes p b ifac transport room).0
      | no short ↦
          rw (lt→leb (b.offset + length (wire p)) (length b.buffer) (omega arith))
            ((serialize-Appends p ifac transport).over b inside (omega arith))
    ]

missing_ifac :
    (p : Packet) (b : OutputBuffer) → has_ifac p ≡ false → (serialize_ifac p b).0 ≡ err packet_error
unfolding serialize_ifac
missing_ifac p b h = ground arith

missing_transport :
    (p : Packet) (b : OutputBuffer)
    → has_transport p ≡ false
    → (serialize_transport p b).0 ≡ err packet_error
unfolding serialize_transport
missing_transport p b h = ground arith

-- A packet whose header announces an IFAC field or a transport address that the packet does not
-- carry is refused with `PacketError`, given room for what is written before the missing field.
serialize_incomplete :
    (p : Packet) (b : OutputBuffer)
    → b.offset + (2 + length (ifac_bytes p)) ≤ length b.buffer
    → has_ifac p && has_transport p ≡ false
    → (serialize p b).0 ≡ err packet_error
unfolding serialize header_serialize
serialize_incomplete p b room h = elim (Bool-cases (has_ifac p)) [
  | inl ifac ↦
      ap (λ r. r.0) (then_do_ok _ _ (header b (omega arith)))
      ∙ ap (λ r. r.0)
          (then_do_ok _ _ (
            (serialize_ifac-Appends p ifac).fits after_header (
              omega (
                arith,
                capacity-advance b head (omega arith),
                offset-advance b head (omega arith),
              ))))
      ∙ then_do_err _ _ (missing_transport p _ (rw ifac at h))
  | inr missing ↦
      ap (λ r. r.0) (then_do_ok _ _ (header b (omega arith)))
      ∙ then_do_err _ _ (missing_ifac p _ missing)
]
  where
    head : List ℕ
    head = to_meta p.header ∷ p.header.hops ∷ []

    after_header : OutputBuffer
    after_header = advance b head

    header :
        (c : OutputBuffer) → c.offset + 2 ≤ length c.buffer → write head c ≡ (ok 2, advance c head)
    header c fits = write_fits c head fits
