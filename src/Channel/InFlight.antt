-- ===== src/Channel/InFlight.antt =====
-- The messages in flight of a channel in src/channel.rs: what each change of the state preserves.
use mathlib.Core.Logic.{if_pos, if_neg}
use reticulum_sdk.Base.{
  ℕ, ◌≤◌, ◌<◌, ◌≡◌, refl, sym, ap, ◌∙◌, List, [], ◌∷◌, length, some, All, arith, bytes_discrete,
}
use reticulum_sdk.Base.Map.{
  get, insert, remove, update, length-update, length-remove-le, length-remove_present,
}
use reticulum_sdk.Channel.Outbound.{
  SentMessage, SentMessages, Outbound, redate, track, proved, resent, recalculate_all_deadlines,
}
use reticulum_sdk.Channel.Params.{RttTests}
use reticulum_sdk.Channel.Window.{ParamsOk, adjust_params-ParamsOk}
use reticulum_sdk.Packet.Types.{Hash, Packet}

abbrev pub FewTries : Hash × SentMessage → Type 0
FewTries p = p.1.tries ≤ 5

All-remove :
    (h : Hash) (m : SentMessages) → All FewTries m → All FewTries (remove bytes_discrete h m)
unfolding remove
All-remove h [] few = tt
All-remove h (e ∷ m) few = elim (bytes_discrete e.0 h) [
  | yes same ↦ rw (if_pos (bytes_discrete e.0 h) same) (All-remove h m few.1)
  | no other ↦ rw (if_neg (bytes_discrete e.0 h) other) (few.0, All-remove h m few.1)
]

pub All-get :
    (h : Hash) (m : SentMessages) (e : SentMessage)
    → All FewTries m
    → get bytes_discrete h m ≡ some e
    → e.tries ≤ 5
unfolding get
All-get h [] e few found = cc
All-get h (f ∷ m) e few found = elim (bytes_discrete f.0 h) [
  | yes same ↦
      let here : f.1 ≡ e =
        cc (found, if_pos (bytes_discrete f.0 h) same (some f.1) (get bytes_discrete h m)) in
      omega (arith, few.0, ap (λ s. s.tries) here)
  | no other ↦ All-get h m e few.1 (sym (if_neg (bytes_discrete f.0 h) other _ _) ∙ found)
]

All-update :
    (h : Hash) (m : SentMessages)
    → All FewTries m
    → All FewTries (update bytes_discrete h (λ e. record e { tries = 1 }) m)
unfolding update
All-update h [] few = tt
All-update h (e ∷ m) few = elim (bytes_discrete e.0 h) [
  | yes same ↦ rw (if_pos (bytes_discrete e.0 h) same) (omega arith, few.1)
  | no other ↦ rw (if_neg (bytes_discrete e.0 h) other) (few.0, All-update h m few.1)
]

-- The invariant of the sender.
pub record SenderOk (o : Outbound) : Type 0 where
  pub params_ok : ParamsOk o.params
  pub in_flight : length o.sent_messages ≤ 48
  pub few_tries : All FewTries o.sent_messages

module _ {Rtt : Type 0} (tests : RttTests Rtt) (timeout_duration : Rtt → ℕ → ℕ → ℕ)
    (hash : Packet → Hash) where
  module _ (now : ℕ) (rtt : Rtt) (n : ℕ) where
    redate-All :
        (m : SentMessages)
        → All FewTries m
        → All FewTries (redate tests timeout_duration hash now rtt n m)
    unfolding redate
    redate-All [] few = tt
    redate-All (e ∷ m) few = (few.0, redate-All m few.1)

    length-redate :
        (m : SentMessages) → length (redate tests timeout_duration hash now rtt n m) ≡ length m
    unfolding redate
    length-redate [] = refl
    length-redate (e ∷ m) = omega (arith, length-redate m)

  module _ (now : ℕ) (rtt : Rtt) where
    recalculate-SenderOk :
        (o : Outbound)
        → SenderOk o
        → SenderOk (recalculate_all_deadlines tests timeout_duration hash now rtt o)
    recalculate-SenderOk o h = record {
      params_ok = h.params_ok;
      in_flight =
          omega
            (arith, h.in_flight, length-redate now rtt (length o.sent_messages) o.sent_messages);
      few_tries = redate-All now rtt (length o.sent_messages) o.sent_messages h.few_tries;
    }

    pub track-SenderOk :
        (raw : List ℕ) (packet : Packet) (o : Outbound)
        → length o.sent_messages < o.params.window
        → SenderOk o
        → SenderOk (track tests timeout_duration hash now rtt raw packet o)
    unfolding track
    track-SenderOk raw packet o room h =
        let k = hash packet in
        let fits = h.params_ok in
        recalculate-SenderOk _ (record {
          params_ok = h.params_ok;
          in_flight = omega (
            arith,
            room,
            fits.1,
            fits.4,
            length-remove-le bytes_discrete k o.sent_messages,
            length-update bytes_discrete k (λ (e : SentMessage). record e { tries = 1 })
                (insert bytes_discrete k
                  (record { raw_envelope = raw; packet_hash = k; tries = 0; deadline = now })
                  o.sent_messages),
          );
          few_tries = All-update k _ (omega arith, All-remove k o.sent_messages h.few_tries);
        })

    pub proved-SenderOk :
        (k : Hash) (o : Outbound)
        → SenderOk o
        → SenderOk (proved tests timeout_duration hash now rtt k o)
    unfolding proved
    proved-SenderOk k o h = recalculate-SenderOk _ (record {
      params_ok = adjust_params-ParamsOk tests rtt o.params h.params_ok;
      in_flight = omega (arith, h.in_flight, length-remove-le bytes_discrete k o.sent_messages);
      few_tries = All-remove k o.sent_messages h.few_tries;
    })

    pub resent-SenderOk :
        (k : Hash) (e : SentMessage) (packet : Packet) (o : Outbound)
        → get bytes_discrete k o.sent_messages ≡ some e
        → e.tries < 5
        → SenderOk o
        → SenderOk (resent tests timeout_duration hash now rtt k e packet o)
    unfolding resent
    resent-SenderOk k e packet o found more h =
        let less = remove bytes_discrete k o.sent_messages in
        recalculate-SenderOk _ (record {
          params_ok = h.params_ok;
          in_flight = omega (
            arith,
            h.in_flight,
            length-remove-le bytes_discrete (hash packet) less,
            length-remove_present bytes_discrete k o.sent_messages e found,
          );
          few_tries = (
            omega (arith, more),
            All-remove (hash packet) less (All-remove k o.sent_messages h.few_tries),
          );
        })
