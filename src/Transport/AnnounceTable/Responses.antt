-- ===== src/Transport/AnnounceTable/Responses.antt =====
-- The loops of the retransmission cycle of src/transport/announce_table.rs, by destination.
use mathlib.Core.List.{Mem, mem-cons_self, mem-cons_of_mem}
use mathlib.Core.Logic.{ite, if_pos, if_neg}
use reticulum_sdk.Base.{
  ℕ, ◌≡◌, ◌≢◌, refl, sym, ap, ◌∙◌, inl, inr, List, [], ◌∷◌, some, All, Option-cases, bytes_discrete,
}
use reticulum_sdk.Base.Map.{get, remove, Unique, mapped, get-remove_ne}
use reticulum_sdk.Iface.Message.{TxMessage}
use reticulum_sdk.Packet.Types.{AddressHash}
use reticulum_sdk.Transport.AnnounceTable.Entry.{
  AnnounceEntry, RetransmitOutcome, completed, deferred, ready, retransmit,
}
use reticulum_sdk.Transport.AnnounceTable.Cache.{EntryMap, AnnounceCache, cache_insert}
use reticulum_sdk.Transport.AnnounceTable.Table.{
  sweep_announces, sweep_responses, archive, messages_of, completed_of,
}

-- A loop leaves an announce alone while a response to its destination waits.
module _ (d : AddressHash) where
  abbrev pub Other : AddressHash → Type 0
  Other k = k ≢ d

  completed_of-Other :
      (k : AddressHash) (r : RetransmitOutcome) (rest : List AddressHash)
      → k ≢ d
      → All Other rest
      → All Other (completed_of k r rest)
  unfolding completed_of
  completed_of-Other k completed rest other others = (other, others)
  completed_of-Other k deferred rest other others = others
  completed_of-Other k (ready msg) rest other others = others

  module _ (random : AddressHash → ℕ) (now : ℕ) (transport_id : AddressHash) (responses : EntryMap)
      (waiting : AnnounceEntry) (waits : get bytes_discrete d responses ≡ some waiting) where
    pub sweep_announces-waiting :
        (m : EntryMap)
        → (get bytes_discrete d (sweep_announces random now transport_id responses m).entries
            ≡ get bytes_discrete d m)
          × All Other (sweep_announces random now transport_id responses m).completed'
    unfolding sweep_announces get
    sweep_announces-waiting [] = (refl, tt)
    sweep_announces-waiting (e ∷ m) =
        let rest = sweep_announces-waiting m in
        elim (Option-cases (get bytes_discrete e.0 responses)) [
          | inr (w, held) ↦ rw (held) (ap (ite (bytes_discrete e.0 d) (some e.1)) rest.0, rest.1)
          | inl free ↦
              let other : e.0 ≢ d =
                λ same. cc (free, waits, ap (λ k. get bytes_discrete k responses) same) in
              rw (free) (
                if_neg (bytes_discrete e.0 d) other _ _
                    ∙ rest.0
                    ∙ sym (if_neg (bytes_discrete e.0 d) other _ _),
                completed_of-Other e.0 (retransmit (random e.0) now transport_id e.1).1
                    (sweep_announces random now transport_id responses m).completed' other rest.1,
              )
        ]

  -- The messages of the loop are those of a loop without the announce and its response.
  module _ (random : AddressHash → ℕ) (now : ℕ) (transport_id : AddressHash)
      (responses others : EntryMap) (waiting : AnnounceEntry)
      (waits : get bytes_discrete d responses ≡ some waiting)
      (agree : (k : AddressHash)
        → k ≢ d
        → get bytes_discrete k responses ≡ get bytes_discrete k others) where
    pub sweep_announces-remove :
        (m : EntryMap)
        → (sweep_announces random now transport_id responses m).messages
          ≡ (sweep_announces random now transport_id others (remove bytes_discrete d m)).messages
    unfolding sweep_announces remove
    sweep_announces-remove [] = refl
    sweep_announces-remove (e ∷ m) = elim (bytes_discrete e.0 d) [
      | yes same ↦
          let held : get bytes_discrete e.0 responses ≡ some waiting =
            ap (λ k. get bytes_discrete k responses) same ∙ waits in
          rw (held, if_pos (bytes_discrete e.0 d) same) (sweep_announces-remove m)
      | no other ↦
          rw (if_neg (bytes_discrete e.0 d) other, agree e.0 other)
            (elim (Option-cases (get bytes_discrete e.0 others)) [
              | inl free ↦ rw free (
                  ap (messages_of (retransmit (random e.0) now transport_id e.1).1)
                    (sweep_announces-remove m))
              | inr (w, held) ↦ rw held (sweep_announces-remove m)
            ])
    ]

  pub archive-get :
      (ds : List AddressHash) (m : EntryMap) (c : AnnounceCache)
      → All Other ds
      → get bytes_discrete d (archive ds m c).0 ≡ get bytes_discrete d m
  unfolding archive
  archive-get [] m c others = refl
  archive-get (k ∷ ds) m c others =
      let here = get-remove_ne bytes_discrete d k m others.0 in
      elim (Option-cases (get bytes_discrete k m)) [
        | inl gone ↦
            rw (gone, archive) (archive-get ds (remove bytes_discrete k m) c others.1 ∙ here)
        | inr (e, found) ↦
            rw (found, archive)
              (archive-get ds (remove bytes_discrete k m) (cache_insert k e c) others.1 ∙ here)
      ]

  module _ (random : AddressHash → ℕ) (now : ℕ) (transport_id : AddressHash) where
    -- The loop over the responses, by destination.
    pub sweep_responses-get :
        (m : EntryMap)
        → get bytes_discrete d (sweep_responses random now transport_id m).0
          ≡ mapped bytes_discrete
              (λ e. (retransmit (random d) now transport_id e).0)
              (get bytes_discrete d m)
    unfolding sweep_responses get
    sweep_responses-get [] = refl
    sweep_responses-get (e ∷ m) = elim (bytes_discrete e.0 d) [
      | yes same ↦
          if_pos (bytes_discrete e.0 d) same _ _
          ∙ ap (λ k. some (retransmit (random k) now transport_id e.1).0) same
          ∙ ap (mapped bytes_discrete (λ e. (retransmit (random d) now transport_id e).0))
              (sym (if_pos (bytes_discrete e.0 d) same _ _))
      | no other ↦
          if_neg (bytes_discrete e.0 d) other _ _
          ∙ sweep_responses-get m
          ∙ ap (mapped bytes_discrete (λ e. (retransmit (random d) now transport_id e).0))
              (sym (if_neg (bytes_discrete e.0 d) other _ _))
    ]

    messages_of-Mem :
        (r : RetransmitOutcome) (x : TxMessage) (messages : List TxMessage)
        → Mem x messages
        → Mem x (messages_of r messages)
    unfolding messages_of
    messages_of-Mem (ready msg) x messages h = mem-cons_of_mem msg h
    messages_of-Mem completed x messages h = h
    messages_of-Mem deferred x messages h = h

    pub sweep_responses-Mem :
        (m : EntryMap) (e : AnnounceEntry) (x : TxMessage)
        → get bytes_discrete d m ≡ some e
        → (retransmit (random d) now transport_id e).1 ≡ ready x
        → Mem x (sweep_responses random now transport_id m).1
    unfolding sweep_responses get messages_of
    sweep_responses-Mem [] e x found due = cc
    sweep_responses-Mem (f ∷ m) e x found due = elim (bytes_discrete f.0 d) [
      | yes same ↦
          let here : f.1 ≡ e =
            cc (found, if_pos (bytes_discrete f.0 d) same (some f.1) (get bytes_discrete d m)) in
          rw (same, here, due) (mem-cons_self)
      | no other ↦
          messages_of-Mem (retransmit (random f.0) now transport_id f.1).1 x _
            (sweep_responses-Mem m e x (sym (if_neg (bytes_discrete f.0 d) other _ _) ∙ found) due)
    ]

pub sweep_responses-Unique :
    (random : AddressHash → ℕ) (now : ℕ) (transport_id : AddressHash) (m : EntryMap)
    → Unique bytes_discrete m
    → Unique bytes_discrete (sweep_responses random now transport_id m).0
unfolding sweep_responses
sweep_responses-Unique random now transport_id [] u = tt
sweep_responses-Unique random now transport_id (e ∷ m) u = (
  sweep_responses-get e.0 random now transport_id m ∙ ap (mapped bytes_discrete _) u.0,
  sweep_responses-Unique random now transport_id m u.1,
)
