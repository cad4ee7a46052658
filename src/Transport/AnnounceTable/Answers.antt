-- ===== src/Transport/AnnounceTable/Answers.antt =====
-- When src/transport/announce_table.rs sends the answer to a path request.
use mathlib.Core.List.{Mem, mem-append_right}
use reticulum_sdk.Base.{
  ℕ, ◌+◌, ◌≤◌, ◌<◌, ◌≡◌, ◌≢◌, refl, sym, ap, ap₂, ◌∙◌, List, ◌++◌, none, some, arith, le→ltb,
  bytes_discrete,
}
use reticulum_sdk.Base.Map.{
  get, Unique, mapped, kept, remove, get-insert_self, get-insert_ne, get-remove_ne, get-retain,
  insert-Unique,
}
use reticulum_sdk.Iface.Message.{TxMessage, direct}
use reticulum_sdk.Packet.Context.{path_response}
use reticulum_sdk.Packet.Header.{open', type2, transport, single, announce}
use reticulum_sdk.Packet.Types.{AddressHash}
use reticulum_sdk.Transport.AnnounceTable.Entry.{
  AnnounceEntry, ready, deferred, retransmit, always_retransmit, transmitted, random_rw_jitter,
}
use reticulum_sdk.Transport.AnnounceTable.Table.{
  AnnounceTable, add_response, response_of, do_add_response, not_sent, to_retransmit,
  sweep_announces, sweep_responses, messages_of,
}
use reticulum_sdk.Transport.AnnounceTable.Responses.{
  sweep_announces-waiting, sweep_announces-remove, archive-get, sweep_responses-get,
  sweep_responses-Mem, sweep_responses-Unique,
}

-- The message that answers a path request: the announce of the path, to the interface that asked.
abbrev pub answer : AddressHash → AddressHash → ℕ → AnnounceEntry → TxMessage
answer transport_id iface hops e = record {
  tx_type = direct iface;
  packet = record (e.packet) {
    header = record {
      ifac_flag = open';
      header_type = type2;
      context_flag = e.packet.header.context_flag;
      propagation_type = transport;
      destination_type = single;
      packet_type = announce;
      hops = hops;
    };
    ifac = none;
    transport = some transport_id;
    context = path_response;
  };
}

module _ (random now : ℕ) (iface : AddressHash) (hops grace : ℕ) (e : AnnounceEntry)
    (draw later : ℕ) (transport_id : AddressHash) where
  retransmit_due :
      now + grace + random_rw_jitter random ≤ later
      → (retransmit draw later transport_id (response_of random now iface hops grace e)).1
        ≡ ready (answer transport_id iface hops e)
  unfolding retransmit response_of transmitted always_retransmit
  retransmit_due due =
      rw (le→ltb later (now + grace + random_rw_jitter random) due, retransmit) refl

  retransmit_due-retries :
      now + grace + random_rw_jitter random ≤ later
      → (retransmit draw later transport_id (response_of random now iface hops grace e)).0.retries
        ≡ 1
  unfolding retransmit response_of transmitted
  retransmit_due-retries due = ground arith

  retransmit_early-deferred :
      later < now + grace
      → (retransmit draw later transport_id (response_of random now iface hops grace e)).1
        ≡ deferred
  unfolding retransmit response_of
  retransmit_early-deferred early = ground arith

  retransmit_early :
      later < now + grace
      → (retransmit draw later transport_id (response_of random now iface hops grace e)).0
        ≡ response_of random now iface hops grace e
  unfolding retransmit response_of
  retransmit_early early = ground arith

module _ (t : AnnounceTable) (d : AddressHash) (e : AnnounceEntry)
    (known : get bytes_discrete d t.map' ≡ some e) (unique : Unique bytes_discrete t.responses)
    (random now : ℕ) (iface : AddressHash) (hops grace : ℕ) where
  abbrev answered : AnnounceTable
  answered = (add_response random now d iface hops grace t).0

  answered_lem :
      (add_response random now d iface hops grace t).0
      ≡ do_add_response random now e d iface hops grace t
  unfolding add_response
  answered_lem = rw (known, add_response) refl

  answered-get :
      get bytes_discrete d answered.responses ≡ some (response_of random now iface hops grace e)
  answered-get =
      rw answered_lem
        (get-insert_self bytes_discrete d (response_of random now iface hops grace e) t.responses)

  answered-Unique : Unique bytes_discrete answered.responses
  answered-Unique = rw answered_lem (
      insert-Unique bytes_discrete d (response_of random now iface hops grace e) t.responses unique)

  module _ (draw draw' : AddressHash → ℕ) (later : ℕ) (transport_id : AddressHash) where
    abbrev after : AnnounceTable × List TxMessage
    after = to_retransmit draw draw' later transport_id answered

    after-announce : get bytes_discrete d after.0.map' ≡ some e
    unfolding to_retransmit
    after-announce =
        let swept =
          sweep_announces-waiting d draw later transport_id answered.responses _ answered-get
            answered.map' in
        archive-get d _ _ _ swept.1 ∙ swept.0 ∙ rw answered_lem known

    after-response :
        get bytes_discrete d after.0.responses
        ≡ kept not_sent bytes_discrete d (
            some
              (retransmit
                (draw' d)
                later
                transport_id
                (response_of random now iface hops grace e)).0)
    unfolding to_retransmit
    after-response =
        get-retain not_sent bytes_discrete d _
          (sweep_responses-Unique draw' later transport_id answered.responses answered-Unique)
        ∙ ap (kept not_sent bytes_discrete d) (
            sweep_responses-get d draw' later transport_id answered.responses
            ∙ ap (mapped bytes_discrete (λ r. (retransmit (draw' d) later transport_id r).0))
                answered-get)

    agree :
        (k : AddressHash)
        → k ≢ d
        → get bytes_discrete k answered.responses
          ≡ get bytes_discrete k (remove bytes_discrete d t.responses)
    agree k other = rw answered_lem (
        get-insert_ne bytes_discrete k d (response_of random now iface hops grace e) t.responses
          (λ q. other (sym q))
        ∙ sym (get-remove_ne bytes_discrete k d t.responses (λ q. other (sym q))))

    early-responses :
        later < now + grace
        → (sweep_responses draw' later transport_id answered.responses).1
          ≡ (sweep_responses draw' later transport_id (remove bytes_discrete d t.responses)).1
    unfolding sweep_responses messages_of
    early-responses early =
        rw
          (
            answered_lem,
            retransmit_early-deferred random now iface hops grace e (draw' d) later transport_id
                early,
          )
          refl

    early-announces :
        (sweep_announces draw later transport_id answered.responses answered.map').messages
        ≡ (sweep_announces draw later transport_id
            (remove bytes_discrete d t.responses)
            (remove bytes_discrete d t.map')).messages
    early-announces =
        sweep_announces-remove d draw later transport_id answered.responses
          (remove bytes_discrete d t.responses) _ answered-get agree answered.map'
        ∙ ap
            (λ (u : AnnounceTable).
              (sweep_announces draw later transport_id (remove bytes_discrete d t.responses)
                (remove bytes_discrete d u.map')).messages)
            answered_lem

    early-messages :
        later < now + grace
        → after.1
          ≡ (to_retransmit draw draw' later transport_id (record t {
            map' = remove bytes_discrete d t.map';
            responses = remove bytes_discrete d t.responses;
          })).1
    unfolding to_retransmit
    early-messages early = ap₂ ◌++◌ early-announces (early-responses early)

    -- A path request for an announce of the table is answered by the first retransmission cycle
    -- after its grace time and jitter: a path response with the given hop count goes to the
    -- interface that asked, the response is gone from the table, and the announce itself is
    -- untouched. The table has no duplicate responses.
    pub add_response_sent :
        now + grace + random_rw_jitter random ≤ later
        → Mem (answer transport_id iface hops e) after.1
          × (get bytes_discrete d after.0.responses ≡ none)
          × (get bytes_discrete d after.0.map' ≡ some e)
    unfolding to_retransmit
    add_response_sent due = (
      mem-append_right _ (
          sweep_responses-Mem d draw' later transport_id answered.responses _ _ answered-get
            (retransmit_due random now iface hops grace e (draw' d) later transport_id due)),
      after-response
          ∙ rw
              (retransmit_due-retries random now iface hops grace e (draw' d) later transport_id
                due)
              refl,
      after-announce,
    )

    -- A retransmission cycle before the grace time of a response has passed sends the same
    -- messages as a cycle on the table without the response and without the announce that it is
    -- made of, and keeps both as they were. The table has no duplicate responses.
    pub add_response_waits :
        later < now + grace
        → (after.1
            ≡ (to_retransmit draw draw' later transport_id (record t {
              map' = remove bytes_discrete d t.map';
              responses = remove bytes_discrete d t.responses;
            })).1)
          × (get bytes_discrete d after.0.responses
              ≡ some (response_of random now iface hops grace e))
          × (get bytes_discrete d after.0.map' ≡ some e)
    unfolding response_of
    add_response_waits early = (
      early-messages early,
      after-response
          ∙ rw (retransmit_early random now iface hops grace e (draw' d) later transport_id early)
              refl,
      after-announce,
    )
