-- ===== src/Channel/Tests.antt =====
-- The theorems on src/channel.rs at concrete messages.
use reticulum_sdk.Base.{ℕ, ◌<◌, ◌≡◌, ◌≢◌, refl, arith, List, [], ◌∷◌, true, false, ltb, ◌==◌, All}
use reticulum_sdk.Channel.Arrivals.{arrive, arrive-upto}
use reticulum_sdk.Channel.Envelope.{pack_envelope, unpack_envelope, unpack_envelope-pack_envelope}
use reticulum_sdk.Channel.Inbound.{Inbound, inbound_new}
use reticulum_sdk.Channel.Order.{upto}
use reticulum_sdk.Channel.Outbound.{Outbound, outbound_new, enqueue_send}
use reticulum_sdk.Channel.Params.{RttTests}
use reticulum_sdk.Packet.Context.{context_u8}
use reticulum_sdk.Error.{Result, ok, err, channel_unknown_message_type}
use reticulum_sdk.Packet.Types.{Hash, Packet, packet_default}

unpack_envelope-pack_envelope_example :
    unpack_envelope (pack_envelope 0x101 513 (7 ∷ 8 ∷ [])) ≡ ok (0x101, 513, 7 ∷ 8 ∷ [])
unpack_envelope-pack_envelope_example =
    unpack_envelope-pack_envelope 0x101 513 (7 ∷ 8 ∷ []) (omega arith) (omega arith)

abbrev number : ℕ → ℕ
number k = k

abbrev byte_type : ℕ → ℕ
byte_type k = 1

abbrev one_byte : ℕ → List ℕ
one_byte k = k ∷ []

abbrev unpack_number : List ℕ → ℕ → Result ℕ
unpack_number [] t = err channel_unknown_message_type
unpack_number (x ∷ xs) t = ok x

abbrev arrivals : List ℕ
arrivals = 1 ∷ 0 ∷ 1 ∷ 3 ∷ []

byte_type-small : (k : ℕ) → byte_type k < 65536
byte_type-small k = omega arith

abbrev after : Inbound ℕ
after =
    arrive number byte_type one_byte unpack_number byte_type-small (λ k. refl) arrivals inbound_new

arrive-upto_example :
    (after.incoming ≡ upto number after.next_sequence) × All (λ k. k ≢ after.next_sequence) arrivals
arrive-upto_example =
    arrive-upto number byte_type one_byte unpack_number byte_type-small (λ k. refl) arrivals
      (omega arith, (omega arith, (omega arith, (omega arith, tt))))

-- Round trip times in milliseconds.
abbrev tests : RttTests ℕ
tests = record {
  is_zero = λ rtt. rtt == 0;
  above_fast = λ rtt. ltb 180 rtt;
  above_medium = λ rtt. ltb 750 rtt;
  above_slow = λ rtt. ltb 1450 rtt;
}

abbrev timeout : ℕ → ℕ → ℕ → ℕ
timeout rtt ring_len tries = 1000

abbrev hash : Packet → Hash
hash p = p.data'.buffer

abbrev to_packet : List ℕ → Result Packet
to_packet bytes = ok (record packet_default { data' = record { buffer = bytes } })

abbrev busy : Outbound
busy = (enqueue_send tests timeout hash 5 true 100 to_packet 1 (7 ∷ []) (outbound_new false)).0

-- A stand-in for the hash that covers the context and the data.
abbrev context_hash : Packet → Hash
context_hash p = context_u8 p.context ∷ p.data'.buffer

abbrev sender : Outbound
sender =
    (enqueue_send tests timeout context_hash 5 true 100 to_packet 1 (7 ∷ []) (outbound_new false)).0
