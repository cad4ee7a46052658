-- ===== src/Channel/Inbound.antt =====
-- src/channel.rs, `Inbound`: messages are put back in the order of their sequence numbers. The
-- message type with its `unpack` is a parameter; the broadcast to the receivers is the list of the
-- messages that were sent to them.
use native.Mathlib.Decide.{ℕ_discrete}
use reticulum_sdk.Base.{
  ℕ, suc, ◌+◌, ◌%◌, List, [], ◌∷◌, ◌++◌, length, none, some, Bool, ◌&&◌, ◌||◌, ltb, if◌then◌else◌,
}
use reticulum_sdk.Base.Map.{get, insert, remove}
use reticulum_sdk.Error.{Result, ok, err}
use reticulum_sdk.Channel.Envelope.{unpack_envelope}
use reticulum_sdk.Channel.Params.{window_max_fast}

abbrev pub channel_window_max : ℕ
channel_window_max = window_max_fast

-- `u16::wrapping_add`
abbrev pub wrapping_add : ℕ → ℕ → ℕ
wrapping_add a b = (a + b) % 65536

-- Whether a sequence number is outside the window.
unfoldable pub out_of_window : ℕ → ℕ → Bool
out_of_window sequence next_sequence =
    let overflow = wrapping_add sequence channel_window_max in
    ltb sequence next_sequence && (ltb overflow next_sequence || ltb overflow sequence)

module _ (M : Type 0) where
  pub record Inbound : Type 0 where
    pub on_hold : List (ℕ × M)
    pub incoming : List M
    pub next_sequence : ℕ

module _ {M : Type 0} where
  abbrev pub inbound_new : Inbound M
  inbound_new = record { on_hold = []; incoming = []; next_sequence = 0 }

  -- The `while let` loop, on fuel: a turn takes an entry out of `on_hold`.
  unfoldable pub release_loop : ℕ → Inbound M → Inbound M
  release_loop ℕ.zero s = s
  release_loop (suc fuel) s = elim (get ℕ_discrete s.next_sequence s.on_hold) [
    | none ↦ s
    | some message ↦ release_loop fuel (record {
      on_hold = remove ℕ_discrete s.next_sequence s.on_hold;
      incoming = s.incoming ++ (message ∷ []);
      next_sequence = wrapping_add s.next_sequence 1;
    })
  ]

  -- What `receive` does with a message that was unpacked.
  unfoldable pub accept : ℕ → M → Inbound M → Inbound M
  accept sequence message s =
      let held = insert ℕ_discrete sequence message s.on_hold in
      release_loop (length held) (record s { on_hold = held })

  -- The two `match`es of `receive`.
  abbrev pub receive_message : ℕ → Result M → Inbound M → Inbound M
  receive_message sequence (err e) s = s
  receive_message sequence (ok message) s = accept sequence message s

  abbrev pub receive_envelope :
      (List ℕ → ℕ → Result M) → Result (ℕ × ℕ × List ℕ) → Inbound M → Inbound M
  receive_envelope unpack (err e) s = s
  receive_envelope unpack (ok (msg_type, sequence, payload)) s =
      if out_of_window sequence s.next_sequence
      then s
      else receive_message sequence (unpack payload msg_type) s

  -- `Inbound::receive`
  unfoldable pub receive : (List ℕ → ℕ → Result M) → List ℕ → Inbound M → Inbound M
  receive unpack raw s = receive_envelope unpack (unpack_envelope raw) s
