-- ===== src/Transport/PathRequests/Decoding.antt =====
-- What `PathRequest::decode` reads of the data that `generate` writes
-- (src/transport/path_requests.rs).
use mathlib.Core.List.{append_assoc}
use reticulum_sdk.Base.{
  ◌-◌, ◌≤◌, ◌≡◌, ap, ◌∙◌, ◌++◌, length, take, drop, Option, none, some, true, false, ltb, leb,
  arith, length-append, take_front, drop_front, take_all,
}
use reticulum_sdk.Packet.Types.{AddressHash, data_new_from_slice, data_write}
use reticulum_sdk.Transport.PathRequests.{
  PathRequests, TagBytes, request_decode, generate, write_transport,
}

module _ (d : AddressHash) (tag : TagBytes) (size : length d ≡ 16) (low : 1 ≤ length tag)
    (high : length tag ≤ 16) where
  request_decode_plain :
      request_decode (d ++ tag)
      ≡ some (record { destination = d; requesting_transport = none; tag_bytes = tag })
  unfolding request_decode
  request_decode_plain =
      let total = length-append d tag in
      let long : leb (length (d ++ tag)) 16 ≡ false = ground arith in
      let direct : ltb 32 (length (d ++ tag)) ≡ false = ground arith in
      let short : ltb 16 (length (d ++ tag) - 16) ≡ false = ground arith in
      rw (
        long,
        direct,
        short,
        take_front 16 d tag size,
        drop_front 16 d tag size,
        take_all (length (d ++ tag) - 16) tag (omega arith),
      )

  request_decode_relayed :
      (t : AddressHash)
      → length t ≡ 16
      → request_decode ((d ++ t) ++ tag)
        ≡ some (record { destination = d; requesting_transport = some t; tag_bytes = tag })
  unfolding request_decode
  request_decode_relayed t size' =
      let front = length-append d t in
      let total = length-append (d ++ t) tag in
      let split : (d ++ t) ++ tag ≡ d ++ (t ++ tag) = append_assoc d t tag in
      let first : take 16 ((d ++ t) ++ tag) ≡ d =
        ap (take 16) split ∙ take_front 16 d (t ++ tag) size in
      let second : take 16 (drop 16 ((d ++ t) ++ tag)) ≡ t =
        ap (λ x. take 16 (drop 16 x)) split
        ∙ ap (take 16) (drop_front 16 d (t ++ tag) size)
        ∙ take_front 16 t tag size' in
      let third : drop 32 ((d ++ t) ++ tag) ≡ tag = drop_front 32 (d ++ t) tag (omega arith) in
      let long : leb (length ((d ++ t) ++ tag)) 16 ≡ false = ground arith in
      let relayed : ltb 32 (length ((d ++ t) ++ tag)) ≡ true = ground arith in
      let short : ltb 16 (length ((d ++ t) ++ tag) - 32) ≡ false = ground arith in
      rw (
        long,
        relayed,
        short,
        first,
        second,
        third,
        take_all (length ((d ++ t) ++ tag) - 32) tag (omega arith),
      )

  abbrev pub HasSize : Option AddressHash → Type 0
  HasSize none = Unit {0}
  HasSize (some t) = length t ≡ 16

  written :
      (o : Option AddressHash)
      → HasSize o
      → request_decode (data_write (write_transport o (data_new_from_slice d)) tag).0.buffer
        ≡ some (record { destination = d; requesting_transport = o; tag_bytes = tag })
  unfolding data_write data_new_from_slice
  written none sized = request_decode_plain
  written (some t) sized = request_decode_relayed t sized

  -- The data of a path request that `generate` makes is decoded to its destination, the transport
  -- id of the requesting node if it has one, and its tag, for addresses of 16 bytes and a given
  -- tag of 1 to 16 bytes.
  pub request_decode-generate :
      (random_tag : TagBytes) (r : PathRequests)
      → HasSize r.transport_id
      → request_decode (generate random_tag d (some tag) r).data'.buffer
        ≡ some (record { destination = d; requesting_transport = r.transport_id; tag_bytes = tag })
  unfolding generate
  request_decode-generate random_tag r sized = written r.transport_id sized
