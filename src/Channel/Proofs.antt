-- ===== src/Channel/Proofs.antt =====
-- The delivery proofs of the packets that a channel sends (src/channel.rs). A message is tracked
-- under the hash of the packet that the link makes of it, which has the context `None`, and the packet
-- is sent with the context `Channel`.
use reticulum_sdk.Base.{ℕ, ◌≡◌, List, Bool}
use reticulum_sdk.Channel.Outbound.{
  SentMessage, Outbound, outbound_new, enqueue_send, channel_handle_proof, handle_timeout, Effect,
  send_packet, signal_delivered, recalc, close_link,
}
use reticulum_sdk.Channel.Params.{RttTests}
use reticulum_sdk.Error.{Result, ok}
use reticulum_sdk.Packet.Context.{none', channel}
use reticulum_sdk.Packet.Types.{Hash, Packet}

-- What `Link::data_packet` makes has the context `None`.
abbrev pub IsPlain : (List ℕ → Result Packet) → Type 0
IsPlain data_packet =
    (raw : List ℕ) (packet : Packet) → data_packet raw ≡ ok packet → packet.context ≡ none'

abbrev pub IsOnChannel : Effect → Type 0
IsOnChannel (send_packet packet) = packet.context ≡ channel
IsOnChannel (signal_delivered sent) = Unit {0}
IsOnChannel recalc = Unit {0}
IsOnChannel close_link = Unit {0}

module _ {Rtt : Type 0} (tests : RttTests Rtt) (timeout_duration : Rtt → ℕ → ℕ → ℕ)
    (hash : Packet → Hash) where
  -- The handlers of the sender on a link, for any delivery proofs and timeouts.
  pub data Handled (slow : Bool) : Outbound → Type 0 where
    fresh : Handled slow (outbound_new slow)
    enqueued :
        {o : Outbound} (now : ℕ) (active : Bool) (rtt : Rtt) (data_packet : List ℕ → Result Packet)
        (msg_type : ℕ) (payload : List ℕ)
        → IsPlain data_packet
        → Handled slow o
        → Handled slow
            (enqueue_send tests timeout_duration hash now active rtt data_packet msg_type payload
              o).0
    proven :
        {o : Outbound} (now : ℕ) (rtt : Rtt) (h : Hash)
        → Handled slow o
        → Handled slow (channel_handle_proof tests timeout_duration hash now rtt h o).0
    timed_out :
        {o : Outbound} (now : ℕ) (rtt : Rtt) (data_packet : List ℕ → Result Packet) (h : Hash)
        → IsPlain data_packet
        → Handled slow o
        → Handled slow (handle_timeout tests timeout_duration hash now rtt data_packet h o).0

  -- A message is tracked under the hash of a packet with the context `None`.
  abbrev IsTracked : Hash × SentMessage → Type 0
  IsTracked e = (packet : Packet) × (e.0 ≡ hash packet) × (packet.context ≡ none')
