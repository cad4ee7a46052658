-- ===== src/Channel/Outbound.antt =====
-- src/channel.rs, `Outbound`: the messages in flight. What a handler asks of the link is an argument:
-- whether it is active, its round trip time, and the packet that it makes of an envelope. What a
-- handler does outside its state is a list of effects. The hash of a packet and the timeout, which
-- is computed with `f32` values, are parameters.
use mathlib.Core.Logic.{ite}
use reticulum_sdk.Base.{
  ℕ, ◌+◌, List, [], ◌∷◌, length, Option, none, some, Bool, true, false, not, ◌&&◌, ltb, leb, ◌==◌,
  if◌then◌else◌, bytes_discrete,
}
use reticulum_sdk.Base.Map.{get, insert, remove, update}
use reticulum_sdk.Channel.Envelope.{pack_envelope}
use reticulum_sdk.Channel.Inbound.{wrapping_add}
use reticulum_sdk.Channel.Params.{
  RttTests, ChannelParams, adjust_params, narrow, channel_params_new,
}
use reticulum_sdk.Error.{Result, ok, err, channel_link_not_ready, channel_message_too_big}
use reticulum_sdk.Packet.Context.{channel}
use reticulum_sdk.Packet.Mdu.{packet_mdu}
use reticulum_sdk.Packet.Types.{Hash, Packet}

pub record SentMessage : Type 0 where
  pub raw_envelope : List ℕ
  pub packet_hash : Hash
  pub tries : ℕ
  pub deadline : ℕ

abbrev pub SentMessages : Type 0
SentMessages = List (Hash × SentMessage)

pub record Outbound : Type 0 where
  pub sent_messages : SentMessages
  pub delivered_set : List Hash
  pub next_sequence : ℕ
  pub params : ChannelParams
  pub cancelled : Bool

pub data Effect : Type 0 where
  send_packet : Packet → Effect
  signal_delivered : SentMessage → Effect
  recalc close_link : Effect

pub data MessageStatus : Type 0 where
  unknown waiting delivered : MessageStatus
  sent_times : ℕ → MessageStatus

abbrev pub outbound_new : Bool → Outbound
outbound_new slow = record {
  sent_messages = [];
  delivered_set = [];
  next_sequence = 0;
  params = channel_params_new slow;
  cancelled = false;
}

unfoldable pub is_ready_to_send : Bool → Outbound → Bool
is_ready_to_send active o =
    not o.cancelled && active && ltb (length o.sent_messages) o.params.window

abbrev pub on_channel : Packet → Packet
on_channel packet = record packet { context = channel }

abbrev pub is_in : Hash → List Hash → Bool
is_in h [] = false
is_in h (x ∷ xs) = ite (bytes_discrete x h) true (is_in h xs)

-- `Channel::message_status`, by what the two sets hold.
abbrev pub status_of : Option SentMessage → Bool → MessageStatus
status_of (some sent) is_delivered = if sent.tries == 0 then waiting else sent_times sent.tries
status_of none is_delivered = if is_delivered then delivered else unknown

unfoldable pub message_status : Hash → Outbound → MessageStatus
message_status h o = status_of (get bytes_discrete h o.sent_messages) (is_in h o.delivered_set)

module _ {Rtt : Type 0} (tests : RttTests Rtt) (timeout_duration : Rtt → ℕ → ℕ → ℕ)
    (hash : Packet → Hash) where
  -- The loop of `recalculate_all_deadlines`.
  unfoldable pub redate : ℕ → Rtt → ℕ → SentMessages → SentMessages
  redate now rtt ring_len [] = []
  redate now rtt ring_len (e ∷ m) =
      (e.0, record (e.1) { deadline = now + timeout_duration rtt ring_len e.1.tries })
      ∷ redate now rtt ring_len m

  abbrev pub recalculate_all_deadlines : ℕ → Rtt → Outbound → Outbound
  recalculate_all_deadlines now rtt o = record o {
    sent_messages = redate now rtt (length o.sent_messages) o.sent_messages;
  }

  -- The state after a packet was sent.
  unfoldable pub track : ℕ → Rtt → List ℕ → Packet → Outbound → Outbound
  track now rtt raw packet o =
      let sent : SentMessage = record {
        raw_envelope = raw;
        packet_hash = hash packet;
        tries = 0;
        deadline = now;
      } in
      recalculate_all_deadlines now rtt (record o {
        next_sequence = wrapping_add o.next_sequence 1;
        sent_messages =
            update bytes_discrete (hash packet) (λ e. record e { tries = 1 })
              (insert bytes_discrete (hash packet) sent o.sent_messages);
      })

  -- `Outbound::enqueue_send`. On an error the reserved sequence number is given back.
  unfoldable pub enqueue_send :
      ℕ
      → Bool
      → Rtt
      → (List ℕ → Result Packet)
      → ℕ
      → List ℕ
      → Outbound
      → Outbound × Result Hash × List Effect
  unfolding track
  enqueue_send now active rtt data_packet msg_type payload o =
      let raw = pack_envelope msg_type o.next_sequence payload in
      if not (is_ready_to_send active o)
      then (o, err channel_link_not_ready, [])
      else if ltb packet_mdu (length raw)
      then (o, err channel_message_too_big, [])
      else (elim (data_packet raw) [
        | err e ↦ (o, err e, [])
        | ok packet ↦ (
          track now rtt raw packet o,
          ok (hash packet),
          send_packet (on_channel packet) ∷ recalc ∷ [],
        )
      ])

  -- The state after a delivery proof.
  unfoldable pub proved : ℕ → Rtt → Hash → Outbound → Outbound
  proved now rtt h o = recalculate_all_deadlines now rtt (record o {
    sent_messages = remove bytes_discrete h o.sent_messages;
    params = adjust_params tests rtt o.params;
    delivered_set = h ∷ o.delivered_set;
  })

  -- `Outbound::handle_proof`
  unfoldable pub channel_handle_proof : ℕ → Rtt → Hash → Outbound → Outbound × List Effect
  unfolding proved
  channel_handle_proof now rtt h o = elim (get bytes_discrete h o.sent_messages) [
    | none ↦ (o, [])
    | some sent ↦ (proved now rtt h o, signal_delivered sent ∷ recalc ∷ [])
  ]

  -- The state after a packet was sent again, under the hash of the new one.
  unfoldable pub resent : ℕ → Rtt → Hash → SentMessage → Packet → Outbound → Outbound
  resent now rtt h sent packet o =
      let entry = record sent { tries = sent.tries + 1; packet_hash = hash packet } in
      recalculate_all_deadlines now rtt (record o {
        sent_messages =
            insert bytes_discrete (hash packet) entry (remove bytes_discrete h o.sent_messages);
      })

  -- `Outbound::handle_timeout`
  unfoldable pub handle_timeout :
      ℕ → Rtt → (List ℕ → Result Packet) → Hash → Outbound → Outbound × List Effect
  unfolding resent
  handle_timeout now rtt data_packet h o = elim (get bytes_discrete h o.sent_messages) [
    | none ↦ (o, [])
    | some sent ↦
        let narrowed = record o { params = narrow o.params } in
        if leb o.params.max_tries sent.tries
        then (o, close_link ∷ [])
        else (elim (data_packet sent.raw_envelope) [
          | err e ↦ (narrowed, [])
          | ok packet ↦
              (resent now rtt h sent packet narrowed, send_packet (on_channel packet) ∷ recalc ∷ [])
        ])
  ]
