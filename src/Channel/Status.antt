-- ===== src/Channel/Status.antt =====
-- The status that the sender of a message reads in src/channel.rs.
use mathlib.Core.Logic.{if_pos, if_neg}
use reticulum_sdk.Base.{
  ℕ, ◌+◌, ◌≡◌, refl, sym, ap, ◌∙◌, inl, inr, List, [], ◌∷◌, length, some, Bool, true, if◌then◌else◌,
  Bool-cases, Option-cases, bytes_discrete,
}
use reticulum_sdk.Base.Map.{
  get, insert, remove, update, mapped, get-insert_self, get-update, get-remove_self,
}
use reticulum_sdk.Channel.Envelope.{pack_envelope}
use reticulum_sdk.Channel.Outbound.{
  SentMessage, SentMessages, Outbound, message_status, redate, track, enqueue_send, proved,
  channel_handle_proof, delivered, sent_times, is_in, status_of, unknown, Effect,
}
use reticulum_sdk.Channel.Params.{RttTests}
use reticulum_sdk.Error.{Result, ok}
use reticulum_sdk.Packet.Types.{Hash, Packet}
use reticulum_sdk.Channel.Delivery.{enqueue_send_cases}

module _ {Rtt : Type 0} (tests : RttTests Rtt) (timeout_duration : Rtt → ℕ → ℕ → ℕ)
    (hash : Packet → Hash) where
  module _ (now : ℕ) (rtt : Rtt) where
    abbrev dated : ℕ → SentMessage → SentMessage
    dated n e = record e { deadline = now + timeout_duration rtt n e.tries }

    get-redate :
        (n : ℕ) (k : Hash) (m : SentMessages)
        → get bytes_discrete k (redate tests timeout_duration hash now rtt n m)
          ≡ mapped bytes_discrete (dated n) (get bytes_discrete k m)
    unfolding redate get
    get-redate n k [] = refl
    get-redate n k (e ∷ m) = elim (bytes_discrete e.0 k) [
      | yes same ↦
          if_pos (bytes_discrete e.0 k) same _ _
          ∙ ap (mapped bytes_discrete (dated n))
              (sym (if_pos (bytes_discrete e.0 k) same (some e.1) (get bytes_discrete k m)))
      | no other ↦
          if_neg (bytes_discrete e.0 k) other _ _
          ∙ get-redate n k m
          ∙ ap (mapped bytes_discrete (dated n))
              (sym (if_neg (bytes_discrete e.0 k) other (some e.1) (get bytes_discrete k m)))
    ]

    message_status-track :
        (raw : List ℕ) (packet : Packet) (o : Outbound)
        → message_status (hash packet) (track tests timeout_duration hash now rtt raw packet o)
          ≡ sent_times 1
    unfolding message_status track
    message_status-track raw packet o =
        let k = hash packet in
        let fresh : SentMessage = record {
          raw_envelope = raw;
          packet_hash = k;
          tries = 0;
          deadline = now;
        } in
        let m = insert bytes_discrete k fresh o.sent_messages in
        let m' = update bytes_discrete k (λ (e : SentMessage). record e { tries = 1 }) m in
        let here : get bytes_discrete k m' ≡ some (record fresh { tries = 1 }) =
          get-update bytes_discrete k k (λ (e : SentMessage). record e { tries = 1 }) m
          ∙ if_pos (bytes_discrete k k) refl _ _
          ∙ ap (mapped bytes_discrete (λ (e : SentMessage). record e { tries = 1 }))
              (get-insert_self bytes_discrete k fresh o.sent_messages) in
        ap (λ e. status_of e (is_in k o.delivered_set))
          (get-redate (length m') k m' ∙ ap (mapped bytes_discrete (dated (length m'))) here)

    message_status-proved :
        (k : Hash) (o : Outbound)
        → message_status k (proved tests timeout_duration hash now rtt k o) ≡ delivered
    unfolding message_status proved
    message_status-proved k o =
        let m = remove bytes_discrete k o.sent_messages in
        let gone =
          get-redate (length m) k m
          ∙ ap (mapped bytes_discrete (dated (length m)))
              (get-remove_self bytes_discrete k o.sent_messages) in
        ap (λ e. status_of e (is_in k (k ∷ o.delivered_set))) gone
        ∙ ap (λ b. if b then delivered else unknown)
            (if_pos (bytes_discrete k k) refl true (is_in k o.delivered_set))

  module _ (now : ℕ) (active : Bool) (rtt : Rtt) (data_packet : List ℕ → Result Packet)
      (msg_type : ℕ) (payload : List ℕ) (o : Outbound) (h : Hash) where
    abbrev outcome : Outbound × Result Hash × List Effect
    outcome = enqueue_send tests timeout_duration hash now active rtt data_packet msg_type payload o

    enqueued : outcome.1 ≡ ok h → message_status h outcome.0 ≡ sent_times 1
    enqueued done =
        elim (enqueue_send_cases tests timeout_duration hash now active rtt data_packet msg_type
          payload o) [
            | inl (same, (e, failed)) ↦ cc (failed, done)
            | inr (packet, ready, after, sent) ↦
                let same : hash packet ≡ h = cc (sent, done) in
                ap (message_status h) after
                ∙ ap
                    (λ k. message_status k (
                      track tests timeout_duration hash now rtt
                        (pack_envelope msg_type o.next_sequence payload) packet o))
                    (sym same)
                ∙ message_status-track now rtt (pack_envelope msg_type o.next_sequence payload)
                    packet o
          ]

    proof_known :
        (later : ℕ) (rtt' : Rtt) (u : Outbound)
        → message_status h u ≡ sent_times 1
        → message_status h (channel_handle_proof tests timeout_duration hash later rtt' h u).0
          ≡ delivered
    unfolding channel_handle_proof message_status
    proof_known later rtt' u pending = elim (Option-cases (get bytes_discrete h u.sent_messages)) [
      | inr (e, here) ↦ rw (here, channel_handle_proof) (message_status-proved later rtt' h u)
      | inl gone ↦ elim (Bool-cases (is_in h u.delivered_set)) [
        | inl yes' ↦ cc (rw (gone, yes') at pending)
        | inr no' ↦ cc (rw (gone, no') at pending)
      ]
    ]

    -- After a message was sent with success its status is `Sent(1)`, and `Delivered` after a
    -- `handle_proof` of the hash that `enqueue_send` returned. This is the hash of the packet before
    -- its context is set, not of the packet that is sent.
    message_status-enqueue_send :
        outcome.1 ≡ ok h
        → (message_status h outcome.0 ≡ sent_times 1)
          × ((later : ℕ) (rtt' : Rtt)
              → message_status h
                  (channel_handle_proof tests timeout_duration hash later rtt' h outcome.0).0
                ≡ delivered)
    message_status-enqueue_send done =
        (enqueued done, λ later rtt'. proof_known later rtt' outcome.0 (enqueued done))
