-- ===== src/Serde/Tests.antt =====
-- Runs of src/serde.rs, and its theorems at a routed, authenticated packet.
use reticulum_sdk.Base.{ℕ, ◌≡◌, refl, arith, List, [], ◌∷◌, ◌++◌, length, replicate, none, some}
use reticulum_sdk.Error.{ok}
use reticulum_sdk.Buffer.Output.{OutputBuffer, output_new, as_slice}
use reticulum_sdk.Buffer.Output.{splice}
use reticulum_sdk.Buffer.Input.{input_new}
use reticulum_sdk.Packet.Header.{authenticated, type2, unset, transport, single, data'}
use reticulum_sdk.Packet.Context.{resource}
use reticulum_sdk.Packet.Types.{Packet, ifac_new_from_slice, ifac_as_slice}
use reticulum_sdk.Serde.{serialize, deserialize_with_ifac_len}
use reticulum_sdk.Serde.Wire.{wire, IsReadable}
use reticulum_sdk.Serde.Serialize.{serialize_writes}
use reticulum_sdk.Serde.RoundTrip.{deserialize-serialize}

abbrev routed : Packet
routed = record {
  header = record {
    ifac_flag = authenticated;
    header_type = type2;
    context_flag = unset;
    propagation_type = transport;
    destination_type = single;
    packet_type = data';
    hops = 3;
  };
  ifac = some (ifac_new_from_slice (0xaa ∷ 0xbb ∷ []));
  destination = replicate 16 0x11;
  transport = some (replicate 16 0x22);
  context = resource;
  data' = record { buffer = 1 ∷ 2 ∷ 3 ∷ [] };
}

abbrev storage : List ℕ
storage = replicate 64 0

routed-IsReadable : IsReadable 2 routed
routed-IsReadable = record {
  ifac = (0xaa ∷ 0xbb ∷ [], refl, refl, omega arith, omega arith);
  ifac_flag = refl;
  transport = refl;
  header_type = refl;
  destination = refl;
}

deserialize-serialize_example :
    (deserialize_with_ifac_len 2 (input_new (as_slice (serialize routed (output_new storage)).1))).0
    ≡ ok routed
unfolding wire ifac_as_slice ifac_new_from_slice splice
deserialize-serialize_example =
    deserialize-serialize 2 routed storage routed-IsReadable (omega arith)

abbrev empty : OutputBuffer
empty = record { buffer = storage; offset = 0 }

serialize_writes_example :
    ((serialize routed empty).0 ≡ ok 3)
    × (as_slice (serialize routed empty).1 ≡ as_slice empty ++ wire routed)
    × (length (serialize routed empty).1.buffer ≡ 64)
unfolding wire ifac_as_slice ifac_new_from_slice splice
serialize_writes_example = serialize_writes routed empty refl refl (omega arith)

abbrev lost : Packet
lost = record routed { transport = none }
