-- ===== src/Channel/Order.antt =====
-- The loop of `Inbound::receive` in src/channel.rs, as long as the sequence numbers do not wrap: the
-- messages that it hands on are in order.
use native.Mathlib.Decide.{ℕ_discrete}
use reticulum_sdk.Base.{
  ℕ, suc, ◌+◌, ◌%◌, ◌≤◌, ◌<◌, ◌≡◌, ◌⊎◌, refl, sym, ap, ◌∙◌, inl, inr, List, [], ◌∷◌, ◌++◌, length,
  none, some, arith, Option-cases,
}
use reticulum_sdk.Base.Map.{
  get, insert, remove, get-insert_self, get-insert_ne, get-remove_self, get-remove_ne,
  length-remove_present,
}
use reticulum_sdk.Channel.Inbound.{Inbound, release_loop, accept}

module _ {M : Type 0} (msg : ℕ → M) where
  -- The first messages, in order.
  unfoldable pub upto : ℕ → List M
  upto ℕ.zero = []
  upto (suc n) = upto n ++ (msg n ∷ [])

  -- What was handed on is the first messages in order, and what is on hold stands under its number.
  pub record InOrder (s : Inbound M) : Type 0 where
    pub handed_on : s.incoming ≡ upto s.next_sequence
    pub held : (k : ℕ) (m : M) → get ℕ_discrete k s.on_hold ≡ some m → (m ≡ msg k) × (k < 65535)

  -- A number whose message was handed on or is on hold.
  unfoldable pub Seen : Inbound M → ℕ → Type 0
  Seen s k = (k < s.next_sequence) ⊎ ((m : M) × (get ℕ_discrete k s.on_hold ≡ some m))

  -- What a turn of the loop makes of the state.
  abbrev released : Inbound M → M → Inbound M
  released s m = record {
    on_hold = remove ℕ_discrete s.next_sequence s.on_hold;
    incoming = s.incoming ++ (m ∷ []);
    next_sequence = (s.next_sequence + 1) % 65536;
  }

  module _ (s : Inbound M) (m : M) (here : get ℕ_discrete s.next_sequence s.on_hold ≡ some m)
      (good : InOrder s) where
    next_lem : (s.next_sequence + 1) % 65536 ≡ suc s.next_sequence
    next_lem = omega (arith, (good.held s.next_sequence m here).1)

    released-InOrder : InOrder (released s m)
    unfolding upto
    released-InOrder = record {
      handed_on =
          ap (λ xs. xs ++ (m ∷ [])) good.handed_on
          ∙ ap (λ x. upto s.next_sequence ++ (x ∷ [])) (good.held s.next_sequence m here).0
          ∙ ap upto (sym next_lem);
      held = λ k v found. elim (ℕ_discrete s.next_sequence k) [
        | yes same ↦ cc (found, get-remove_self ℕ_discrete s.next_sequence s.on_hold, same)
        | no other ↦
            good.held k v (sym (get-remove_ne ℕ_discrete k s.next_sequence s.on_hold other) ∙ found)
      ];
    }

    released-Seen : (k : ℕ) → Seen s k → Seen (released s m) k
    unfolding Seen
    released-Seen k (inl done) = inl (rw next_lem (omega (arith, done)))
    released-Seen k (inr (v, waits)) = elim (ℕ_discrete s.next_sequence k) [
      | yes same ↦ inl (rw next_lem (omega (arith, same)))
      | no other ↦ inr (v, get-remove_ne ℕ_discrete k s.next_sequence s.on_hold other ∙ waits)
    ]

  nothing_in : (k : ℕ) (h : List (ℕ × M)) → length h ≤ 0 → get ℕ_discrete k h ≡ none
  unfolding get
  nothing_in k [] few = refl
  nothing_in k (e ∷ h) few = absurd (omega arith)

  -- The loop with enough fuel.
  pub record Settled (s u : Inbound M) : Type 0 where
    pub ordered : InOrder u
    pub seen : (k : ℕ) → Seen s k → Seen u k
    pub empty : get ℕ_discrete u.next_sequence u.on_hold ≡ none

  release_loop-Settled :
      (fuel : ℕ) (s : Inbound M)
      → length s.on_hold ≤ fuel
      → InOrder s
      → Settled s (release_loop fuel s)
  unfolding release_loop get
  release_loop-Settled ℕ.zero s enough good = record {
    ordered = good;
    seen = λ k h. h;
    empty = nothing_in s.next_sequence s.on_hold enough;
  }
  release_loop-Settled (suc fuel) s enough good =
      elim (Option-cases (get ℕ_discrete s.next_sequence s.on_hold)) [
        | inl none' ↦
            rw (none', release_loop) (record { ordered = good; seen = λ k h. h; empty = none' })
        | inr (m, here) ↦
            let rest =
              release_loop-Settled fuel (released s m)
                (omega (arith, length-remove_present ℕ_discrete s.next_sequence s.on_hold m here))
                (released-InOrder s m here good) in
            rw (here, release_loop)
              (record {
                ordered = rest.ordered;
                seen = λ k h. rest.seen k (released-Seen s m here good k h);
                empty = rest.empty;
              })
      ]

  -- A message that is put on hold.
  hold-InOrder :
      (k : ℕ) (s : Inbound M)
      → k < 65535
      → InOrder s
      → InOrder (record s { on_hold = insert ℕ_discrete k (msg k) s.on_hold })
  hold-InOrder k s small good = record {
    handed_on = good.handed_on;
    held = λ j v found. elim (ℕ_discrete k j) [
      | yes same ↦
          let mine : some (msg k) ≡ some v =
            sym (get-insert_self ℕ_discrete k (msg k) s.on_hold)
            ∙ ap (λ i. get ℕ_discrete i (insert ℕ_discrete k (msg k) s.on_hold)) same
            ∙ found in
          (cc (mine, same), omega (arith, same, small))
      | no other ↦
          good.held j v (sym (get-insert_ne ℕ_discrete j k (msg k) s.on_hold other) ∙ found)
    ];
  }

  pub accept-Settled :
      (k : ℕ) (s : Inbound M)
      → k < 65535
      → InOrder s
      → Settled (record s { on_hold = insert ℕ_discrete k (msg k) s.on_hold }) (accept k (msg k) s)
  unfolding accept
  accept-Settled k s small good =
      release_loop-Settled (length (insert ℕ_discrete k (msg k) s.on_hold)) _ (omega arith)
        (hold-InOrder k s small good)

  pub hold-Seen :
      (k j : ℕ) (s : Inbound M)
      → Seen s j ⊎ (k ≡ j)
      → Seen (record s { on_hold = insert ℕ_discrete k (msg k) s.on_hold }) j
  unfolding Seen
  hold-Seen k j s (inl (inl done)) = inl done
  hold-Seen k j s (inl (inr (v, waits))) = elim (ℕ_discrete k j) [
    | yes same ↦ inr (
      msg k,
      ap (λ i. get ℕ_discrete i (insert ℕ_discrete k (msg k) s.on_hold)) (sym same)
          ∙ get-insert_self ℕ_discrete k (msg k) s.on_hold,
    )
    | no other ↦ inr (v, get-insert_ne ℕ_discrete j k (msg k) s.on_hold other ∙ waits)
  ]
  hold-Seen k j s (inr same) = inr (
    msg k,
    ap (λ i. get ℕ_discrete i (insert ℕ_discrete k (msg k) s.on_hold)) (sym same)
        ∙ get-insert_self ℕ_discrete k (msg k) s.on_hold,
  )
