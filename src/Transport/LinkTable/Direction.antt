-- ===== src/Transport/LinkTable/Direction.antt =====
-- Which way src/transport/link_table.rs forwards the packets of a link that a proof has validated.
use reticulum_sdk.Base.{
  ℕ, ◌+◌, ◌≡◌, ◌≢◌, refl, ap, ◌∙◌, inl, inr, Option, none, some, Bool, true, false, arith,
  Option-cases, Bool-cases, bytes_discrete,
}
use reticulum_sdk.Base.Map.{get, update, mapped}
use reticulum_sdk.Packet.Context.{link_request_proof}
use reticulum_sdk.Packet.Types.{AddressHash, Packet}
use reticulum_sdk.Transport.LinkTable.{
  LinkEntry, LinkTable, HandleProofOutcome, RebalanceInfo, is_lrproof, proof_outbound,
  packet_outbound, proven, rebalance_of, propagate, link_handle_proof, link_handle_packet,
}
use reticulum_sdk.Transport.LinkTable.Cases.{
  get-update_self, link_handle_proof_forwarded, link_handle_proof_dropped,
  link_handle_packet_forwarded, link_handle_packet_dropped,
}

-- A link that is carried between two different interfaces.
abbrev pub IsBetween : AddressHash → AddressHash → LinkEntry → Type 0
IsBetween initiator_side destination_side e =
    (e.received_from ≡ initiator_side)
    × (e.next_hop_iface ≡ destination_side)
    × (destination_side ≢ initiator_side)

module _ (initiator_side destination_side : AddressHash) (e : LinkEntry)
    (between : IsBetween initiator_side destination_side e) where
  proof_outbound-lrproof :
      (hops : ℕ) → proof_outbound true destination_side hops e ≡ some initiator_side
  unfolding proof_outbound
  proof_outbound-lrproof hops = let (from, to, apart) = between in ground arith

  packet_outbound-back :
      (hops : ℕ)
      → hops ≡ e.remaining_hops
      → packet_outbound destination_side hops e ≡ some initiator_side
  unfolding packet_outbound
  packet_outbound-back hops same = let (from, to, apart) = between in ground arith

  packet_outbound-forth :
      (hops : ℕ)
      → hops ≡ e.taken_hops
      → packet_outbound initiator_side hops e ≡ some destination_side
  unfolding packet_outbound
  packet_outbound-forth hops same = let (from, to, apart) = between in ground arith

  packet_outbound_elsewhere :
      (hops : ℕ) (other : AddressHash)
      → other ≢ initiator_side
      → other ≢ destination_side
      → packet_outbound other hops e ≡ none
  unfolding packet_outbound
  packet_outbound_elsewhere hops other far far' = let (from, to, apart) = between in ground arith

rebalance_of_first :
    (hops : ℕ) (e : LinkEntry)
    → e.rebalanced ≡ false
    → rebalance_of true hops e ≡ some (record { destination = e.original_destination; hops = hops })
unfolding rebalance_of
rebalance_of_first hops e first = ground arith

rebalance_of_again :
    (lrproof : Bool) (hops : ℕ) (e : LinkEntry)
    → e.rebalanced ≡ true
    → rebalance_of lrproof hops e ≡ none
unfolding rebalance_of
rebalance_of_again lrproof hops e again = ground arith

-- The rebalance that a proof asks for.
abbrev pub rebalances : Option HandleProofOutcome → Option RebalanceInfo
rebalances none = none
rebalances (some outcome) = outcome.rebalance

-- The entry after a forwarded link-request proof.
abbrev entry_after : ℕ → ℕ → LinkEntry → LinkEntry
entry_after now hops e = record e {
  rebalanced = true;
  remaining_hops = hops;
  validated = true;
  timestamp = now;
  forward_count = e.forward_count + 1;
}

proven-lrproof : (now hops : ℕ) (e : LinkEntry) → proven now true hops e ≡ entry_after now hops e
unfolding proven
proven-lrproof now hops e = elim (Bool-cases e.rebalanced) [
  | inl again ↦ ground arith
  | inr first ↦ ground arith
]

module _ (initiator_side destination_side : AddressHash) (e : LinkEntry)
    (between : IsBetween initiator_side destination_side e) (t : LinkTable) (proof : Packet)
    (found : get bytes_discrete proof.destination t ≡ some e)
    (request : proof.context ≡ link_request_proof) (now : ℕ) where
  abbrev proof_run : LinkTable × Option HandleProofOutcome
  proof_run = link_handle_proof now proof destination_side t

  is_request : is_lrproof proof.context ≡ true
  is_request = rw request refl

  proof_run_lem : proof_run ≡ (
    update bytes_discrete proof.destination (proven now true proof.header.hops) t,
    some (record {
      propagation = propagate proof initiator_side;
      rebalance = rebalance_of true proof.header.hops e;
    }),
  )
  proof_run_lem =
      link_handle_proof_forwarded now proof destination_side t e found initiator_side (
        rw is_request
          (proof_outbound-lrproof initiator_side destination_side e between proof.header.hops))
      ∙ rw is_request

  proof_run-get :
      get bytes_discrete proof.destination proof_run.0 ≡ some (entry_after now proof.header.hops e)
  proof_run-get = rw proof_run_lem (
      get-update_self proof.destination (proven now true proof.header.hops) t
      ∙ ap (mapped bytes_discrete (proven now true proof.header.hops)) found
      ∙ ap some (proven-lrproof now proof.header.hops e))

  -- After a link-request proof from the destination side of a link between two different
  -- interfaces, a packet with the hop count of the proof goes from the destination side to the
  -- initiator side, a packet with the taken hops goes the other way, and a packet from any other
  -- interface is dropped and changes nothing.
  pub lrproof-link_handle_packet :
      (later : ℕ) (packet : Packet)
      → packet.destination ≡ proof.destination
      → (packet.header.hops ≡ proof.header.hops
          → (link_handle_packet later packet destination_side proof_run.0).1
            ≡ some (propagate packet initiator_side))
        × (packet.header.hops ≡ e.taken_hops
            → (link_handle_packet later packet initiator_side proof_run.0).1
              ≡ some (propagate packet destination_side))
        × ((other : AddressHash)
            → other ≢ initiator_side
            → other ≢ destination_side
            → link_handle_packet later packet other proof_run.0 ≡ (proof_run.0, none))
  lrproof-link_handle_packet later packet same =
      let open' : LinkEntry = entry_after now proof.header.hops e in
      let here : get bytes_discrete packet.destination proof_run.0 ≡ some open' =
        ap (λ k. get bytes_discrete k proof_run.0) same ∙ proof_run-get in
      (
        λ hops.
            ap (λ r. r.1)
              (link_handle_packet_forwarded later packet destination_side proof_run.0 open' here
                initiator_side refl
                (packet_outbound-back initiator_side destination_side open' between
                  packet.header.hops hops)),
        λ hops.
            ap (λ r. r.1)
              (link_handle_packet_forwarded later packet initiator_side proof_run.0 open' here
                destination_side refl
                (packet_outbound-forth initiator_side destination_side open' between
                  packet.header.hops hops)),
        λ other far far'. link_handle_packet_dropped later packet other proof_run.0 open' here (
            packet_outbound_elsewhere initiator_side destination_side open' between
              packet.header.hops other far far'),
      )

  -- A link-request proof from the destination side of a link between two different interfaces asks
  -- for a rebalance to its hop count if none was asked for before; no later proof of the link asks
  -- for one.
  lrproof-rebalance :
      ((e.rebalanced ≡ false
          → (rebalances proof_run.1
              ≡ some (record { destination = e.original_destination; hops = proof.header.hops })))
        × ((again : Packet) (later : ℕ) (on : AddressHash)
            → again.destination ≡ proof.destination
            → rebalances (link_handle_proof later again on proof_run.0).1 ≡ none))
  lrproof-rebalance = (
    λ first. ap (λ r. rebalances r.1) proof_run_lem ∙ rebalance_of_first proof.header.hops e first,
    λ again later on same.
        let rebalanced' : LinkEntry = entry_after now proof.header.hops e in
        let here : get bytes_discrete again.destination proof_run.0 ≡ some rebalanced' =
          ap (λ k. get bytes_discrete k proof_run.0) same ∙ proof_run-get in
        elim (Option-cases
          (proof_outbound (is_lrproof again.context) on again.header.hops rebalanced')) [
            | inl drop ↦
                ap (λ r. rebalances r.1)
                  (link_handle_proof_dropped later again on proof_run.0 rebalanced' here drop)
            | inr (iface, out) ↦
                ap (λ r. rebalances r.1)
                  (link_handle_proof_forwarded later again on proof_run.0 rebalanced' here iface
                    out)
                ∙ rebalance_of_again (is_lrproof again.context) again.header.hops rebalanced' refl
          ],
  )
