-- ===== src/Channel/Delivery.antt =====
-- The handlers of the sender of a channel in src/channel.rs as steps, an invariant by induction on the
-- steps, and the status that a sender reads.
use reticulum_sdk.Base.{ℕ, ◌≡◌, ◌⊎◌, refl, inl, inr, List, length, Bool, true, ltb, Bool-cases}
use reticulum_sdk.Channel.Envelope.{pack_envelope}
use reticulum_sdk.Channel.Outbound.{
  Outbound, outbound_new, is_ready_to_send, track, enqueue_send, channel_handle_proof,
  handle_timeout, Effect,
}
use reticulum_sdk.Channel.Params.{RttTests}
use reticulum_sdk.Error.{RnsError, Result, ok, err, channel_link_not_ready, channel_message_too_big}
use reticulum_sdk.Packet.Mdu.{packet_mdu}
use reticulum_sdk.Packet.Types.{Hash, Packet}

pub Result-cases :
    {A : Type 0} (r : Result A) → ((e : RnsError) × (r ≡ err e)) ⊎ ((a : A) × (r ≡ ok a))
Result-cases (err e) = inl (e, refl)
Result-cases (ok a) = inr (a, refl)

module _ {Rtt : Type 0} (tests : RttTests Rtt) (timeout_duration : Rtt → ℕ → ℕ → ℕ)
    (hash : Packet → Hash) where
  pub data Step (o u : Outbound) : Type 0 where
    enqueue :
        (now : ℕ) (active : Bool) (rtt : Rtt) (data_packet : List ℕ → Result Packet) (msg_type : ℕ)
        (payload : List ℕ)
        → u
          ≡ (enqueue_send tests timeout_duration hash now active rtt data_packet msg_type payload
              o).0
        → Step o u
    prove_delivery :
        (now : ℕ) (rtt : Rtt) (h : Hash)
        → u ≡ (channel_handle_proof tests timeout_duration hash now rtt h o).0
        → Step o u
    time_out :
        (now : ℕ) (rtt : Rtt) (data_packet : List ℕ → Result Packet) (h : Hash)
        → u ≡ (handle_timeout tests timeout_duration hash now rtt data_packet h o).0
        → Step o u

  pub data Reach (slow : Bool) : Outbound → Type 0 where
    start : Reach slow (outbound_new slow)
    next : {o u : Outbound} → Reach slow o → Step o u → Reach slow u

  module _ (now : ℕ) (active : Bool) (rtt : Rtt) (data_packet : List ℕ → Result Packet)
      (msg_type : ℕ) (payload : List ℕ) (o : Outbound) where
    abbrev raw : List ℕ
    raw = pack_envelope msg_type o.next_sequence payload

    abbrev outcome : Outbound × Result Hash × List Effect
    outcome = enqueue_send tests timeout_duration hash now active rtt data_packet msg_type payload o

    abbrev tracked : Packet → Outbound
    tracked packet = track tests timeout_duration hash now rtt raw packet o

    -- Either nothing changes and the result is an error, or a packet is sent and tracked.
    pub enqueue_send_cases :
        ((outcome.0 ≡ o) × ((e : RnsError) × (outcome.1 ≡ err e)))
        ⊎ ((packet : Packet) × (is_ready_to_send active o ≡ true)
            × (outcome.0 ≡ tracked packet)
            × (outcome.1 ≡ ok (hash packet)))
    unfolding enqueue_send
    enqueue_send_cases = elim (Bool-cases (is_ready_to_send active o)) [
      | inr busy ↦ rw (busy, enqueue_send) (inl (refl, (channel_link_not_ready, refl)))
      | inl ready ↦ elim (Bool-cases (ltb packet_mdu (length raw))) [
        | inl big ↦ rw (ready, big, enqueue_send) (inl (refl, (channel_message_too_big, refl)))
        | inr fits ↦ elim (Result-cases (data_packet raw)) [
          | inl (e, failed) ↦ rw (ready, fits, failed, enqueue_send) (inl (refl, (e, refl)))
          | inr (packet, made) ↦
              rw (ready, fits, made, enqueue_send) (inr (packet, refl, refl, refl))
        ]
      ]
    ]
