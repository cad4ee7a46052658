-- ===== src/Channel/Arrivals.antt =====
-- What src/channel.rs hands on after any arrivals, as long as the sequence numbers do not wrap.
use native.Mathlib.Decide.{ℕ_discrete}
use reticulum_sdk.Base.{
  ℕ, ◌<◌, ◌≡◌, ◌≢◌, refl, ap, ◌∙◌, inl, inr, List, [], ◌∷◌, none, true, if◌then◌else◌, All, arith,
  Bool-cases,
}
use reticulum_sdk.Base.Map.{get}
use reticulum_sdk.Channel.Inbound.{
  Inbound, inbound_new, accept, receive, receive_message, receive_envelope, out_of_window,
}
use reticulum_sdk.Channel.Envelope.{pack_envelope, unpack_envelope-pack_envelope}
use reticulum_sdk.Error.{Result, ok}
use reticulum_sdk.Channel.Order.{upto, InOrder, Seen, accept-Settled, hold-Seen}

module _ {M : Type 0} (msg : ℕ → M) where
  -- What the receiver makes of the messages: the type and the payload of each are given.
  module _ (msg_type : ℕ → ℕ) (payload : ℕ → List ℕ) (unpack : List ℕ → ℕ → Result M)
      (typed : (k : ℕ) → msg_type k < 65536)
      (unpacks : (k : ℕ) → unpack (payload k) (msg_type k) ≡ ok (msg k)) where
    abbrev pub sent_as : ℕ → List ℕ
    sent_as k = pack_envelope (msg_type k) k (payload k)

    receive_lem :
        (k : ℕ) (s : Inbound M)
        → k < 65535
        → receive unpack (sent_as k) s
          ≡ (if out_of_window k s.next_sequence then s else accept k (msg k) s)
    unfolding receive
    receive_lem k s small =
        ap (λ r. receive_envelope unpack r s)
          (unpack_envelope-pack_envelope (msg_type k) k (payload k) (typed k) (omega arith))
        ∙ ap (λ m. if out_of_window k s.next_sequence then s else receive_message k m s) (unpacks k)

    old_if_out : (k n : ℕ) → out_of_window k n ≡ true → k < n
    unfolding out_of_window
    old_if_out k n out = ground arith

    record Received (s u : Inbound M) (k : ℕ) : Type 0 where
      ordered : InOrder msg u
      seen : (j : ℕ) → Seen msg s j → Seen msg u j
      arrived : Seen msg u k
      empty : get ℕ_discrete u.next_sequence u.on_hold ≡ none

    receive-Received :
        (k : ℕ) (s : Inbound M)
        → k < 65535
        → InOrder msg s
        → get ℕ_discrete s.next_sequence s.on_hold ≡ none
        → Received s (receive unpack (sent_as k) s) k
    unfolding Seen
    receive-Received k s small good empty = elim (Bool-cases (out_of_window k s.next_sequence)) [
      | inl old ↦
          rw (receive_lem k s small, old)
            (record {
              ordered = good;
              seen = λ j h. h;
              arrived = inl (old_if_out k s.next_sequence old);
              empty = empty;
            })
      | inr new ↦
          let after = accept-Settled msg k s small good in
          rw (receive_lem k s small, new)
            (record {
              ordered = after.ordered;
              seen = λ j h. after.seen j (hold-Seen msg k j s (inl h));
              arrived = after.seen k (hold-Seen msg k k s (inr refl));
              empty = after.empty;
            })
    ]

    -- The messages with the given numbers arrive, in this order.
    unfoldable pub arrive : List ℕ → Inbound M → Inbound M
    arrive [] s = s
    arrive (k ∷ ks) s = arrive ks (receive unpack (sent_as k) s)

    abbrev pub BelowLast : ℕ → Type 0
    BelowLast k = k < 65535

    arrive-InOrder :
        (ks : List ℕ) (s : Inbound M)
        → All BelowLast ks
        → InOrder msg s
        → get ℕ_discrete s.next_sequence s.on_hold ≡ none
        → InOrder msg (arrive ks s)
          × (get ℕ_discrete (arrive ks s).next_sequence (arrive ks s).on_hold ≡ none)
          × ((j : ℕ) → Seen msg s j → Seen msg (arrive ks s) j)
          × All (Seen msg (arrive ks s)) ks
    unfolding arrive
    arrive-InOrder [] s small good empty = (good, empty, λ j h. h, tt)
    arrive-InOrder (k ∷ ks) s small good empty =
        let here = receive-Received k s small.0 good empty in
        let (ordered, empty', seen, all) =
          arrive-InOrder ks (receive unpack (sent_as k) s) small.1 here.ordered here.empty in
        (ordered, empty', λ j h. seen j (here.seen j h), (seen k here.arrived, all))

    next-Seen :
        (ks : List ℕ) (u : Inbound M)
        → get ℕ_discrete u.next_sequence u.on_hold ≡ none
        → All (Seen msg u) ks
        → All (λ k. k ≢ u.next_sequence) ks
    unfolding Seen
    next-Seen [] u empty seen = tt
    next-Seen (k ∷ ks) u empty (inl done, seen) =
        (λ e. absurd (omega (arith, done, e)), next-Seen ks u empty seen)
    next-Seen (k ∷ ks) u empty (inr (v, waits), seen) =
        (λ e. cc (empty, waits, ap (λ j. get ℕ_discrete j u.on_hold) e), next-Seen ks u empty seen)

    -- When messages with sequence numbers below 65535 arrive in any order and any number of times,
    -- those handed on are the first messages in order, each once, and the first one that was not
    -- handed on has not arrived. The messages are unpacked from the envelopes that they are packed
    -- in.
    pub arrive-upto :
        (ks : List ℕ)
        → All BelowLast ks
        → ((arrive ks inbound_new).incoming ≡ upto msg (arrive ks inbound_new).next_sequence)
          × All (λ k. k ≢ (arrive ks inbound_new).next_sequence) ks
    unfolding upto get
    arrive-upto ks small =
        let fresh : InOrder msg inbound_new = record {
          handed_on = refl;
          held = λ k m found. cc (found);
        } in
        let (ordered, empty, seen, all) = arrive-InOrder ks inbound_new small fresh refl in
        (ordered.handed_on, next-Seen ks (arrive ks inbound_new) empty all)
