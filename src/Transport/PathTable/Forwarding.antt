-- ===== src/Transport/PathTable/Forwarding.antt =====
-- What `handle_packet` and `handle_inbound_packet` of src/transport/path_table.rs keep of a packet.
use Prim.Native.Nat.{bit_and}
use mathlib.Core.Path.{ap₂}
use reticulum_sdk.Base.{
  ℕ, ◌+◌, ◌*◌, ◌≡◌, refl, sym, ◌∙◌, List, ◌∷◌, ◌++◌, Option, some, true, Option-cases, Bool-cases,
  inl, inr, ltb,
}
use reticulum_sdk.Packet.Header.{to_meta, is_type2, destination_type_u8, packet_type_u8}
use reticulum_sdk.Packet.Context.{context_u8}
use reticulum_sdk.Packet.Meta.{meta_low_bits}
use reticulum_sdk.Packet.Types.{AddressHash, Hash, Packet, packet_hash}
use reticulum_sdk.Serde.Wire.{has_ifac, is_some}
use reticulum_sdk.Transport.PathTable.Entry.{PathEntry}
use reticulum_sdk.Transport.PathTable.Table.{PathTable, path_get}
use reticulum_sdk.Transport.PathTable.Routing.{
  forwarded, addressed, handle_inbound_packet, handle_packet, route_fields, lookup_or, is_announce,
  is_plain_or_group,
}

-- What a packet's hash reads.
pub record SameContent (p q : Packet) : Type 0 where
  pub destination_type : p.header.destination_type ≡ q.header.destination_type
  pub packet_type : p.header.packet_type ≡ q.header.packet_type
  pub destination : p.destination ≡ q.destination
  pub context : p.context ≡ q.context
  pub data' : p.data' ≡ q.data'

low_bits-same :
    (p q : Packet) → SameContent p q → bit_and (to_meta p.header) 15 ≡ bit_and (to_meta q.header) 15
low_bits-same p q s =
    meta_low_bits p.header
    ∙ ap₂ (λ d t. destination_type_u8 d * 4 + packet_type_u8 t) s.destination_type s.packet_type
    ∙ sym (meta_low_bits q.header)

pub packet_hash-same :
    (sha256 : List ℕ → Hash) (p q : Packet)
    → SameContent p q
    → packet_hash sha256 p ≡ packet_hash sha256 q
unfolding packet_hash
packet_hash-same sha256 p q s = λ i.
    sha256
      ((low_bits-same p q s i ∷ s.destination i) ++ (context_u8 (s.context i) ∷ (s.data' i).buffer))

same : (p : Packet) → SameContent p p
same p = record {
  destination_type = refl;
  packet_type = refl;
  destination = refl;
  context = refl;
  data' = refl;
}

module _ {F : Type 0} (p : Packet) where
  forwarded-SameContent : (entry : PathEntry F) → SameContent (forwarded p entry) p
  unfolding forwarded
  forwarded-SameContent entry = record {
    destination_type = refl;
    packet_type = refl;
    destination = refl;
    context = refl;
    data' = refl;
  }

  addressed-SameContent : (entry : PathEntry F) → SameContent (addressed p entry) p
  unfolding addressed
  addressed-SameContent entry = record {
    destination_type = refl;
    packet_type = refl;
    destination = refl;
    context = refl;
    data' = refl;
  }

  forwarded_fields :
      (entry : PathEntry F)
      → (has_ifac (forwarded p entry) ≡ true)
        × (is_type2 (forwarded p entry).header.header_type ≡ is_some (forwarded p entry).transport)
        × ((forwarded p entry).header.hops ≡ p.header.hops)
  unfolding forwarded route_fields
  forwarded_fields entry = elim (Bool-cases (ltb 1 entry.hops)) [
    | inl far ↦ rw far (refl, refl, refl)
    | inr near ↦ rw near (refl, refl, refl)
  ]

  module _ (sha256 : List ℕ → Hash) (t : PathTable F) where
    -- Forwarding a packet along a path does not change its hash, with or without a path.
    hash-handle_inbound_packet :
        (lookup : Option AddressHash)
        → packet_hash sha256 (handle_inbound_packet p lookup t).0 ≡ packet_hash sha256 p
    unfolding handle_inbound_packet
    hash-handle_inbound_packet lookup =
        elim (Option-cases (path_get (lookup_or lookup p.destination) t)) [
          | inl e ↦ rw (e, handle_inbound_packet)
          | inr (entry, e) ↦
              rw (e, handle_inbound_packet)
                (packet_hash-same sha256 (forwarded p entry) p (forwarded-SameContent entry))
        ]

    -- Addressing an outbound packet does not change its hash, on any branch of `handle_packet`.
    hash-handle_packet : packet_hash sha256 (handle_packet p t).0 ≡ packet_hash sha256 p
    unfolding handle_packet
    hash-handle_packet = elim (Bool-cases (is_announce p.header.packet_type)) [
      | inl announced ↦ rw (announced, handle_packet)
      | inr heard ↦ elim (Bool-cases (is_plain_or_group p.header.destination_type)) [
        | inl local ↦ rw (heard, local, handle_packet)
        | inr routed ↦ elim (Option-cases (path_get p.destination t)) [
          | inl e ↦ rw (heard, routed, e, handle_packet)
          | inr (entry, e) ↦
              rw (heard, routed, e, handle_packet)
                (packet_hash-same sha256 (addressed p entry) p (addressed-SameContent entry))
        ]
      ]
    ]

  -- A packet that `handle_inbound_packet` forwards to an interface announces no IFAC field that it
  -- lacks, has a transport address exactly if its header type is Type2, and keeps its hop count.
  forwarded_complete :
      (t : PathTable F) (lookup : Option AddressHash) (iface : AddressHash)
      → (handle_inbound_packet p lookup t).1 ≡ some iface
      → (has_ifac (handle_inbound_packet p lookup t).0 ≡ true)
        × (is_type2 (handle_inbound_packet p lookup t).0.header.header_type
            ≡ is_some (handle_inbound_packet p lookup t).0.transport)
        × ((handle_inbound_packet p lookup t).0.header.hops ≡ p.header.hops)
  unfolding handle_inbound_packet
  forwarded_complete t lookup iface found =
      elim (Option-cases (path_get (lookup_or lookup p.destination) t)) [
        | inl e ↦ cc (rw (e, handle_inbound_packet) at found)
        | inr (entry, e) ↦ rw (e, handle_inbound_packet) (forwarded_fields entry)
      ]
