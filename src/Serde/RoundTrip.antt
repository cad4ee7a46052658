-- ===== src/Serde/RoundTrip.antt =====
-- Reading back what `Packet::serialize` wrote (src/serde.rs).
use mathlib.Core.List.{append-nil}
use mathlib.Core.Path.{subst}
use reticulum_sdk.Base.{
  ℕ, ◌+◌, ◌≤◌, ◌≡◌, refl, sym, ap, ◌∙◌, List, [], ◌∷◌, ◌++◌, length, take, replicate, Option, none,
  some, true, false, arith, ltb,
}
use reticulum_sdk.Error.{ok, ◌>>=◌, return}
use reticulum_sdk.Buffer.Output.{splice, as_slice, output_new}
use reticulum_sdk.Serde.Serialize.{serialize_writes}
use reticulum_sdk.Buffer.Append.{take-splice}
use reticulum_sdk.Buffer.Input.{input_new, read, read_byte, bytes_left, rest}
use reticulum_sdk.Buffer.Reading.{rest-new, bytes_left_lem, skip, Readable, rest-skip_front}
use reticulum_sdk.Buffer.Readers.{Reads, return-Reads, read-Reads, read_byte-Reads, bind-Reads}
use reticulum_sdk.Packet.Header.{
  Header, IfacFlag, to_meta, from_meta, is_authenticated, is_type2, open', authenticated,
}
use reticulum_sdk.Packet.Meta.{from_meta-to_meta}
use reticulum_sdk.Packet.Context.{PacketContext, context_u8, context_from-context_u8}
use reticulum_sdk.Packet.Types.{AddressHash, PacketIfac, Packet, ifac_as_slice, ifac_new_from_slice}
use reticulum_sdk.Serde.{
  header_deserialize, address_deserialize, context_deserialize, deserialize_ifac,
  deserialize_transport, set_ifac_flag, read_left, serialize, deserialize_with_ifac_len,
}
use reticulum_sdk.Serde.Wire.{
  wire, ifac_field, transport_field, ifac_bytes, transport_bytes, is_some, has_ifac, has_transport,
  IfacMatches, AddressMatches, IsReadable,
}

-- The access code that is put into a PacketIfac is the one that is read out of it.
pub ifac_as_slice-new :
    (code : List ℕ) → length code ≤ 64 → ifac_as_slice (ifac_new_from_slice code) ≡ code
unfolding ifac_as_slice ifac_new_from_slice
ifac_as_slice-new code h =
    ap (λ n. take n (splice (replicate 64 0) 0 code)) start
    ∙ take-splice (replicate 64 0) 0 code (omega arith)
  where
    start : length code ≡ 0 + length code
    start = omega arith

header-Reads :
    (h : Header) (tail : List ℕ) → Reads header_deserialize (to_meta h ∷ h.hops ∷ []) h tail
unfolding header_deserialize
header-Reads h tail =
    bind-Reads read_byte _ (to_meta h ∷ []) (h.hops ∷ []) tail (read_byte-Reads (to_meta h) _) (
      bind-Reads read_byte _ (h.hops ∷ []) [] tail (read_byte-Reads h.hops tail)
        (subst (λ g. Reads (return g) [] h tail) (sym whole) (return-Reads h tail)))
  where
    whole : record (from_meta (to_meta h)) { hops = h.hops } ≡ h
    whole = ap (λ (g : Header). record g { hops = h.hops }) (from_meta-to_meta h)

ifac-Reads :
    (ifac_len : ℕ) (ifac : Option PacketIfac) (tail : List ℕ)
    → IfacMatches ifac_len ifac
    → Reads (deserialize_ifac ifac_len) (ifac_field ifac) ifac tail
unfolding deserialize_ifac
ifac-Reads ifac_len none tail m =
    let open' : ltb 0 ifac_len ≡ false = ground arith in rw open' (return-Reads none tail)
ifac-Reads ifac_len (some ifac) tail (code, same, len, low, high) =
    let some_code : ltb 0 ifac_len ≡ true = ground arith in
    let short : ltb 64 ifac_len ≡ false = ground arith in
    let one =
      bind-Reads (read ifac_len) (λ d. return (some (ifac_new_from_slice d))) code [] tail
        (read-Reads ifac_len code tail len) (return-Reads (some (ifac_new_from_slice code)) tail) in
    rw (same, some_code, short, ifac_as_slice-new code (omega arith)) (rw append-nil at one)

transport-Reads :
    (h : Header) (address : Option AddressHash) (tail : List ℕ)
    → is_type2 h.header_type ≡ is_some address
    → AddressMatches address
    → Reads (deserialize_transport h) (transport_field address) address tail
unfolding deserialize_transport address_deserialize
transport-Reads h none tail flag m = rw flag (return-Reads none tail)
transport-Reads h (some address) tail flag m =
    let one =
      bind-Reads (read 16) (λ d. return (some d)) address [] tail (read-Reads 16 address tail m)
        (return-Reads (some address) tail) in
    rw flag (rw append-nil at one)

context-Reads :
    (c : PacketContext) (tail : List ℕ) → Reads context_deserialize (context_u8 c ∷ []) c tail
unfolding context_deserialize
context-Reads c tail =
    bind-Reads read_byte _ (context_u8 c ∷ []) [] tail (read_byte-Reads (context_u8 c) tail)
      (rw context_from-context_u8 (return-Reads c tail))

left-Reads : (xs : List ℕ) → Reads read_left xs xs []
unfolding read_left
left-Reads xs = record {
  reads = λ b inside front.
      let left : length xs ≡ bytes_left b =
        sym (bytes_left_lem b ∙ ap length (front ∙ append-nil xs)) in
      (read-Reads (bytes_left b) xs [] left).reads b inside front;
}

flag_open : (f : IfacFlag) → is_authenticated f ≡ false → open' ≡ f
flag_open open' e = refl
flag_open authenticated e = cc

flag_authenticated : (f : IfacFlag) → is_authenticated f ≡ true → authenticated ≡ f
flag_authenticated open' e = cc
flag_authenticated authenticated e = refl

set_ifac_flag_same :
    (h : Header) (ifac : Option PacketIfac)
    → is_authenticated h.ifac_flag ≡ is_some ifac
    → set_ifac_flag h ifac ≡ h
unfolding set_ifac_flag
set_ifac_flag_same h none e = ap (λ f. record h { ifac_flag = f }) (flag_open h.ifac_flag e)
set_ifac_flag_same h (some i) e =
    ap (λ f. record h { ifac_flag = f }) (flag_authenticated h.ifac_flag e)

ifac_bytes_lem :
    (p : Packet)
    → is_authenticated p.header.ifac_flag ≡ is_some p.ifac
    → ifac_bytes p ≡ ifac_field p.ifac
ifac_bytes_lem p e = ground arith

transport_bytes_lem :
    (p : Packet)
    → is_type2 p.header.header_type ≡ is_some p.transport
    → transport_bytes p ≡ transport_field p.transport
transport_bytes_lem p e = ground arith

packet-Reads :
    (ifac_len : ℕ) (p : Packet)
    → IsReadable ifac_len p
    → Reads (deserialize_with_ifac_len ifac_len) (wire p) p []
unfolding deserialize_with_ifac_len wire
packet-Reads ifac_len p r =
    rw (ifac_bytes_lem p r.ifac_flag, transport_bytes_lem p r.header_type)
      (bind-Reads header_deserialize _ (to_meta p.header ∷ p.header.hops ∷ []) _ []
        (header-Reads p.header _)
        (bind-Reads (deserialize_ifac ifac_len) _ (ifac_field p.ifac) _ []
          (ifac-Reads ifac_len p.ifac _ r.ifac)
          (bind-Reads (deserialize_transport (set_ifac_flag p.header p.ifac)) _
            (transport_field p.transport) _ []
            (rw same (transport-Reads p.header p.transport _ r.header_type r.transport))
            (bind-Reads address_deserialize _ p.destination _ [] destination (
              bind-Reads context_deserialize _ (context_u8 p.context ∷ []) _ []
                (context-Reads p.context _) (rw append-nil at payload))))))
  where
    same : set_ifac_flag p.header p.ifac ≡ p.header
    same = set_ifac_flag_same p.header p.ifac r.ifac_flag

    destination : {tail : List ℕ} → Reads address_deserialize p.destination p.destination tail
    destination {tail} =
        unfold address_deserialize in read-Reads 16 p.destination tail r.destination

    read_packet : List ℕ → Packet
    read_packet bytes = record p {
      header = set_ifac_flag p.header p.ifac;
      data' = record { buffer = bytes };
    }

    payload : Reads (read_left >>= λ bytes. return (read_packet bytes)) (p.data'.buffer ++ []) p []
    payload =
        bind-Reads read_left (λ bytes. return (read_packet bytes)) p.data'.buffer [] []
          (left-Reads p.data'.buffer)
          (subst (λ h. Reads (return (record p { header = h })) [] p []) (sym same)
            (return-Reads p []))

-- Reading the wire form of a packet with the matching IFAC length gives the packet back, all of its
-- fields included, and takes every byte.
pub deserialize-wire :
    (ifac_len : ℕ) (p : Packet)
    → IsReadable ifac_len p
    → ((deserialize_with_ifac_len ifac_len (input_new (wire p))).0 ≡ ok p)
      × (rest (deserialize_with_ifac_len ifac_len (input_new (wire p))).1 ≡ [])
deserialize-wire ifac_len p r =
    rw read_all (refl, rest-skip_front (input_new (wire p)) (wire p) [] inside start)
  where
    start : rest (input_new (wire p)) ≡ wire p ++ []
    start = rest-new (wire p) ∙ sym (append-nil (wire p))

    inside : Readable (input_new (wire p))
    inside = unfold input_new in omega arith

    read_all :
        deserialize_with_ifac_len ifac_len (input_new (wire p))
        ≡ (ok p, skip (length (wire p)) (input_new (wire p)))
    read_all = (packet-Reads ifac_len p r).reads (input_new (wire p)) inside start

IsReadable-has_ifac : {n : ℕ} {p : Packet} → IsReadable n p → has_ifac p ≡ true
IsReadable-has_ifac {p = p} r = let flag = r.ifac_flag in ground arith

IsReadable-has_transport : {n : ℕ} {p : Packet} → IsReadable n p → has_transport p ≡ true
IsReadable-has_transport {p = p} r = let flag = r.header_type in ground arith

-- What `Packet::serialize` writes into fresh storage with room for it, a receiver reads back as
-- the same packet. The addresses have 16 bytes, the header announces exactly the optional fields
-- that are there, and the access code, if any, has the length that the receiver is configured for
-- (at most 64 bytes).
pub deserialize-serialize :
    (ifac_len : ℕ) (p : Packet) (storage : List ℕ)
    → IsReadable ifac_len p
    → length (wire p) ≤ length storage
    → (deserialize_with_ifac_len ifac_len
        (input_new (as_slice (serialize p (output_new storage)).1))).0
      ≡ ok p
deserialize-serialize ifac_len p storage r room = rw written (deserialize-wire ifac_len p r).0
  where
    written : as_slice (serialize p (output_new storage)).1 ≡ wire p
    written =
        (serialize_writes p (output_new storage) (IsReadable-has_ifac r)
          (IsReadable-has_transport r) (unfold output_new in omega arith)).1
        ∙ unfold output_new as_slice in refl
