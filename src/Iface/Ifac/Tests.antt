-- ===== src/Iface/Ifac/Tests.antt =====
-- The theorems on src/iface/ifac.rs with stand-ins for HKDF and Ed25519.
use mathlib.Core.Logic.{ite, if_pos}
use mathlib.Core.Path.{subst}
use native.Mathlib.Decide.{ℕ_discrete}
use reticulum_sdk.Base.{
  ℕ, suc, ◌%◌, ◌≡◌, ◌≢◌, ◌↔◌, refl, List, [], ◌∷◌, length, length-replicate, replicate, take,
  Option, none, some, true, false, leb, if◌then◌else◌, All, arith, Bool-cases, inl, inr,
  bytes_discrete,
}
use reticulum_sdk.Base.Bytes.{IsByte}
use reticulum_sdk.Error.{ok, err, packet_error, incorrect_signature}
use reticulum_sdk.Iface.Ifac.{
  Primitives, IfacConfig, attach, verify_packet, encode_tx, decode_rx, decode_frame, is_flagged,
  truncated_signature, clean_of, unmask_loop, unmask_byte, hkdf_stream,
}
use reticulum_sdk.Iface.Ifac.Codes.{IsSound, IsConfigured, verify_packet-attach}
use reticulum_sdk.Iface.Ifac.Acceptance.{opened, decode_frame_iff}
use reticulum_sdk.Iface.Ifac.Transfer.{decode_rx-encode_tx}
use reticulum_sdk.Buffer.Output.{splice}
use reticulum_sdk.Packet.Context.{context_u8}
use reticulum_sdk.Packet.Header.{to_meta}
use reticulum_sdk.Packet.Types.{
  Packet, packet_default, signed_data, ifac_as_slice, ifac_new_from_slice,
}
use reticulum_sdk.Serde.Wire.{wire, IsReadable}

abbrev toy_sign : List ℕ → List ℕ → List ℕ
toy_sign key bytes = replicate 64 (length bytes % 256)

abbrev toy_expand : List ℕ → List ℕ → ℕ → Option (List ℕ)
toy_expand salt ikm n = if leb n 8160 then some (replicate n (length ikm % 256)) else none

abbrev toy : Primitives
toy = record {
  sha256 = λ bytes. replicate 32 (length bytes % 256);
  expand = toy_expand;
  verifying_key = λ key. key;
  sign = toy_sign;
  signature_from_slice = λ bytes. some bytes;
  verify_strict =
      λ key bytes signature. ite (bytes_discrete signature (toy_sign key bytes)) true false;
}

replicate-IsByte : (n x : ℕ) → IsByte x → All IsByte (replicate n x)
replicate-IsByte ℕ.zero x small = tt
replicate-IsByte (suc n) x small = (small, replicate-IsByte n x small)

toy_expand_lem :
    (salt ikm : List ℕ) (n : ℕ) (out : List ℕ)
    → toy_expand salt ikm n ≡ some out
    → (length out ≡ n) × All IsByte out
toy_expand_lem salt ikm n out given = elim (Bool-cases (leb n 8160)) [
  | inl fits ↦
      let same : replicate n (length ikm % 256) ≡ out = cc (rw fits at given) in
      subst (λ o. (length o ≡ n) × All IsByte o) same
        (length-replicate n (length ikm % 256), replicate-IsByte n (length ikm % 256) (omega arith))
  | inr over ↦ cc (rw over at given)
]

toy-IsSound : IsSound toy
toy-IsSound = record {
  length-sign = λ key bytes. length-replicate 64 (length bytes % 256);
  sign-IsByte = λ key bytes. replicate-IsByte 64 (length bytes % 256) (omega arith);
  length-expand = λ salt ikm n out given. (toy_expand_lem salt ikm n out given).0;
  expand-IsByte = λ salt ikm n out given. (toy_expand_lem salt ikm n out given).1;
  signature_from_slice-length = λ bytes size. refl;
  verify_strict-sign =
      λ key bytes. if_pos (bytes_discrete (toy_sign key bytes) (toy_sign key bytes)) refl _ _;
}

abbrev config : IfacConfig
config = record { sign_key = 1 ∷ []; verify_key = 1 ∷ []; ifac_key = 2 ∷ []; ifac_len = 8 }

config-IsConfigured : IsConfigured toy config
config-IsConfigured = record {
  len_positive = omega arith;
  len_bound = omega arith;
  same_key = refl;
}

abbrev plain : Packet
plain = record packet_default {
  destination = replicate 16 3;
  data' = record { buffer = 5 ∷ 6 ∷ [] };
}

plain-IsReadable : IsReadable 0 plain
plain-IsReadable = record {
  ifac = refl;
  ifac_flag = refl;
  transport = tt;
  header_type = refl;
  destination = refl;
}

plain-IsByte : All IsByte (wire plain)
unfolding wire to_meta context_u8
plain-IsByte = grind arith

abbrev storage : List ℕ
storage = replicate 64 0

decode_rx-encode_tx_example :
    ((encode_tx toy (some config) (attach toy config plain).1 storage).0 ≡ ok 29)
    × (decode_rx toy
          (some config)
          (take 29 (encode_tx toy (some config) (attach toy config plain).1 storage).1)
        ≡ ok plain)
unfolding wire ifac_as_slice ifac_new_from_slice truncated_signature splice
decode_rx-encode_tx_example =
    decode_rx-encode_tx toy toy-IsSound config config-IsConfigured plain plain-IsReadable
      plain-IsByte storage (omega arith)

verify_packet-attach_example :
    ((attach toy config plain).0 ≡ ok tt)
    × (verify_packet toy config (attach toy config plain).1 ≡ ok tt)
unfolding signed_data
verify_packet-attach_example =
    verify_packet-attach toy toy-IsSound config config-IsConfigured plain _ refl

abbrev short_config : IfacConfig
short_config = record { sign_key = 1 ∷ []; verify_key = 1 ∷ []; ifac_key = 2 ∷ []; ifac_len = 1 }

abbrev received : List ℕ
received = 0xc0 ∷ 3 ∷ 3 ∷ 6 ∷ []

received-decode_frame : decode_frame toy short_config received ≡ ok (0x41 ∷ 2 ∷ 7 ∷ [])
unfolding decode_frame clean_of unmask_loop unmask_byte hkdf_stream truncated_signature
    bytes_discrete ℕ_discrete
received-decode_frame = refl

decode_frame_iff_example :
    ((decode_frame toy short_config received
        ≡ ok (opened 1 1 (1 ∷ 1 ∷ []) 0xc0 3 (3 ∷ []) (6 ∷ [])))
      ↔ (is_flagged received ≡ true)
        × (truncated_signature toy short_config 1 (opened 1 1 (1 ∷ 1 ∷ []) 0xc0 3 (3 ∷ []) (6 ∷ []))
            ≡ 3 ∷ []))
    × (is_flagged received ≡ false → decode_frame toy short_config received ≡ err packet_error)
    × (is_flagged received ≡ true
        → truncated_signature toy short_config 1 (opened 1 1 (1 ∷ 1 ∷ []) 0xc0 3 (3 ∷ []) (6 ∷ []))
          ≢ 3 ∷ []
        → decode_frame toy short_config received ≡ err incorrect_signature)
unfolding hkdf_stream
decode_frame_iff_example =
    decode_frame_iff toy short_config 0xc0 3 (3 ∷ []) (6 ∷ []) refl (omega arith) (omega arith) 1 1
      (1 ∷ 1 ∷ []) refl (omega arith)
