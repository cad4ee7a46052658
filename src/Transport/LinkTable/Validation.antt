-- ===== src/Transport/LinkTable/Validation.antt =====
-- A link that no link-request proof has reached carries nothing (src/transport/link_table.rs): the
-- operations as steps of the table, and an invariant by induction on the steps.
use mathlib.Core.Logic.{if_pos, if_neg}
use reticulum_sdk.Base.{
  ℕ, ◌≡◌, refl, sym, ap, ◌∙◌, inl, inr, List, Option, none, some, Bool, false, Option-cases,
  Bool-cases, bytes_discrete,
}
use reticulum_sdk.Base.Map.{
  get, insert, update, mapped, kept, Unique, get-insert_self, get-insert_ne, get-update, get-retain,
  insert-Unique, update-Unique, retain-Unique,
}
use reticulum_sdk.Packet.Types.{AddressHash, Hash, Packet}
use reticulum_sdk.Transport.LinkTable.{
  LinkId, LinkEntry, LinkTable, link_id_from, link_add, link_entry_new, handle_keepalive,
  link_handle_packet, link_handle_proof, link_remove_stale, link_alive, is_lrproof, proven,
  count_forward, packet_outbound, proof_outbound, link_table_new, original_destination,
}
use reticulum_sdk.Transport.LinkTable.Cases.{
  link_handle_packet_unknown, link_handle_packet_unproven, link_handle_packet_dropped,
  link_handle_packet_forwarded, link_handle_proof_unknown, link_handle_proof_dropped,
  link_handle_proof_forwarded,
}

-- The changes of the table, by anything but a link-request proof of the link `k`.
module _ (sha256 : List ℕ → Hash) (k : LinkId) where
  pub data Step (t u : LinkTable) : Type 0 where
    add_request :
        (now : ℕ) (packet : Packet) (destination received_from iface : AddressHash) (remaining : ℕ)
        → u ≡ (link_add sha256 now packet destination received_from iface remaining t).0
        → Step t u
    forward_keepalive :
        (now : ℕ) (packet : Packet) → u ≡ (handle_keepalive now packet t).0 → Step t u
    forward_packet :
        (now : ℕ) (p : Packet) (received_on : AddressHash)
        → u ≡ (link_handle_packet now p received_on t).0
        → Step t u
    forward_proof :
        (now : ℕ) (p : Packet) (received_on : AddressHash)
        → (p.destination ≡ k → is_lrproof p.context ≡ false)
        → u ≡ (link_handle_proof now p received_on t).0
        → Step t u
    sweep_stale : (now max_age : ℕ) → u ≡ link_remove_stale now max_age t → Step t u

  pub data Reach : LinkTable → Type 0 where
    start : Reach link_table_new
    next : {t u : LinkTable} → Reach t → Step t u → Reach u

abbrev validated_in : Option LinkEntry → Bool
validated_in none = false
validated_in (some e) = e.validated

original_destination_unproven :
    (k : LinkId) (t : LinkTable)
    → validated_in (get bytes_discrete k t) ≡ false
    → original_destination k t ≡ none
unfolding original_destination
original_destination_unproven k t unproven = elim (Option-cases (get bytes_discrete k t)) [
  | inl unknown ↦ rw (unknown, original_destination)
  | inr (e, known) ↦
      let invalid : e.validated ≡ false = sym (ap validated_in known) ∙ unproven in
      rw (known, original_destination, invalid)
]

-- What the steps preserve.
record Unproven (k : LinkId) (t : LinkTable) : Type 0 where
  unproven : validated_in (get bytes_discrete k t) ≡ false
  unique : Unique bytes_discrete t

mapped-validated :
    (f : LinkEntry → LinkEntry)
    → ((e : LinkEntry) → (f e).validated ≡ e.validated)
    → (o : Option LinkEntry) → validated_in (mapped bytes_discrete f o) ≡ validated_in o
mapped-validated f same none = refl
mapped-validated f same (some e) = same e

module _ (k : LinkId) (t : LinkTable) (h : Unproven k t) where
  -- A change of an entry that does not validate the entry of `k`.
  update-Unproven :
      (d : AddressHash) (f : LinkEntry → LinkEntry)
      → (d ≡ k → (e : LinkEntry) → (f e).validated ≡ e.validated)
      → Unproven k (update bytes_discrete d f t)
  update-Unproven d f same = record {
    unproven = elim (bytes_discrete d k) [
      | yes eq ↦
          ap validated_in (get-update bytes_discrete k d f t ∙ if_pos (bytes_discrete d k) eq _ _)
          ∙ mapped-validated f (same eq) (get bytes_discrete k t)
          ∙ h.unproven
      | no ne ↦
          ap validated_in (get-update bytes_discrete k d f t ∙ if_neg (bytes_discrete d k) ne _ _)
          ∙ h.unproven
    ];
    unique = update-Unique bytes_discrete d f t h.unique;
  }

  insert-Unproven :
      (d : AddressHash) (e : LinkEntry)
      → e.validated ≡ false
      → Unproven k (insert bytes_discrete d e t)
  insert-Unproven d e fresh = record {
    unproven = elim (bytes_discrete d k) [
      | yes eq ↦
          ap validated_in (
            ap (λ j. get bytes_discrete j (insert bytes_discrete d e t)) (sym eq)
            ∙ get-insert_self bytes_discrete d e t)
          ∙ fresh
      | no ne ↦ ap validated_in (get-insert_ne bytes_discrete k d e t ne) ∙ h.unproven
    ];
    unique = insert-Unique bytes_discrete d e t h.unique;
  }

kept-validated :
    (keep : LinkId → LinkEntry → Bool) (k : LinkId) (o : Option LinkEntry)
    → validated_in o ≡ false
    → validated_in (kept keep bytes_discrete k o) ≡ false
kept-validated keep k none h = refl
kept-validated keep k (some e) h = elim (Bool-cases (keep k e)) [
  | inl stays ↦ rw stays h
  | inr goes ↦ rw goes refl
]

not_lrproof-validated :
    (now hops : ℕ) (e : LinkEntry) → (proven now false hops e).validated ≡ e.validated
unfolding proven
not_lrproof-validated now hops e = refl

module _ (sha256 : List ℕ → Hash) (k : LinkId) where
  request-Unproven :
      (t : LinkTable)
      → Unproven k t
      → (now : ℕ) (packet : Packet) (destination received_from iface : AddressHash) (remaining : ℕ)
      → Unproven k (link_add sha256 now packet destination received_from iface remaining t).0
  unfolding link_add link_entry_new
  request-Unproven t h now packet destination received_from iface remaining =
      elim (Option-cases (get bytes_discrete (link_id_from sha256 packet) t)) [
        | inl new ↦ rw (new, link_add) (insert-Unproven k t h (link_id_from sha256 packet) _ refl)
        | inr (e, known) ↦ rw (known, link_add) h
      ]

  keepalive-Unproven :
      (t : LinkTable)
      → Unproven k t
      → (now : ℕ) (packet : Packet) → Unproven k (handle_keepalive now packet t).0
  unfolding handle_keepalive
  keepalive-Unproven t h now packet =
      elim (Option-cases (get bytes_discrete packet.destination t)) [
        | inl new ↦ rw (new, handle_keepalive) h
        | inr (e, known) ↦
            rw (known, handle_keepalive)
              (update-Unproven k t h packet.destination (λ e. record e { timestamp = now })
                (λ eq e. refl))
      ]

  packet-Unproven :
      (t : LinkTable)
      → Unproven k t
      → (now : ℕ) (p : Packet) (received_on : AddressHash)
      → Unproven k (link_handle_packet now p received_on t).0
  packet-Unproven t h now p received_on = elim (Option-cases (get bytes_discrete p.destination t)) [
    | inl new ↦ rw (link_handle_packet_unknown now p received_on t new) h
    | inr (e, known) ↦ elim (Bool-cases e.validated) [
      | inr unproven ↦ rw (link_handle_packet_unproven now p received_on t e known unproven) h
      | inl valid ↦ elim (Option-cases (packet_outbound received_on p.header.hops e)) [
        | inl drop ↦ rw (link_handle_packet_dropped now p received_on t e known drop) h
        | inr (iface, out) ↦
            rw (link_handle_packet_forwarded now p received_on t e known iface valid out)
              (update-Unproven k t h p.destination (count_forward now) (λ eq e. refl))
      ]
    ]
  ]

  proof-Unproven :
      (t : LinkTable)
      → Unproven k t
      → (now : ℕ) (p : Packet) (received_on : AddressHash)
      → (p.destination ≡ k → is_lrproof p.context ≡ false)
      → Unproven k (link_handle_proof now p received_on t).0
  proof-Unproven t h now p received_on foreign =
      elim (Option-cases (get bytes_discrete p.destination t)) [
        | inl new ↦ rw (link_handle_proof_unknown now p received_on t new) h
        | inr (e, known) ↦
            elim (Option-cases
              (proof_outbound (is_lrproof p.context) received_on p.header.hops e)) [
                | inl drop ↦ rw (link_handle_proof_dropped now p received_on t e known drop) h
                | inr (iface, out) ↦
                    rw (link_handle_proof_forwarded now p received_on t e known iface out) (
                      update-Unproven k t h p.destination
                        (proven now (is_lrproof p.context) p.header.hops)
                        (λ eq e. rw (foreign eq) (not_lrproof-validated now p.header.hops e)))
              ]
      ]

  sweep-Unproven :
      (t : LinkTable)
      → Unproven k t
      → (now max_age : ℕ) → Unproven k (link_remove_stale now max_age t)
  unfolding link_remove_stale
  sweep-Unproven t h now max_age = record {
    unproven =
        ap validated_in (get-retain (link_alive now max_age) bytes_discrete k t h.unique)
        ∙ kept-validated (link_alive now max_age) k (get bytes_discrete k t) h.unproven;
    unique = retain-Unique (link_alive now max_age) bytes_discrete t h.unique;
  }

  Step-Unproven : {t u : LinkTable} → Step sha256 k t u → Unproven k t → Unproven k u
  Step-Unproven {t} (add_request now p d r i n e) h = rw e (request-Unproven t h now p d r i n)
  Step-Unproven {t} (forward_keepalive now p e) h = rw e (keepalive-Unproven t h now p)
  Step-Unproven {t} (forward_packet now p on e) h = rw e (packet-Unproven t h now p on)
  Step-Unproven {t} (forward_proof now p on foreign e) h =
      rw e (proof-Unproven t h now p on foreign)
  Step-Unproven {t} (sweep_stale now max_age e) h = rw e (sweep-Unproven t h now max_age)

  Reach-Unproven : {t : LinkTable} → Reach sha256 k t → Unproven k t
  unfolding get
  Reach-Unproven start = record { unproven = refl; unique = tt }
  Reach-Unproven (next r step) = Step-Unproven step (Reach-Unproven r)

  -- In every table that the operations reach from the empty one without a link-request proof of a
  -- link, a packet of that link is dropped without a change of the table, and the link has no
  -- original destination.
  pub Reach-link_handle_packet :
      {t : LinkTable}
      → Reach sha256 k t
      → (now : ℕ) (packet : Packet) (received_on : AddressHash) → packet.destination ≡ k
      → (link_handle_packet now packet received_on t ≡ (t, none))
        × (original_destination k t ≡ none)
  Reach-link_handle_packet {t} r now packet received_on same =
      let h = Reach-Unproven r in
      (
        elim (Option-cases (get bytes_discrete packet.destination t)) [
          | inl unknown ↦ link_handle_packet_unknown now packet received_on t unknown
          | inr (e, known) ↦ link_handle_packet_unproven now packet received_on t e known (
              sym (ap validated_in (sym (ap (λ j. get bytes_discrete j t) same) ∙ known))
              ∙ h.unproven)
        ],
        original_destination_unproven k t h.unproven,
      )
