-- ===== src/Transport/Blackhole/Precedence.antt =====
-- Which entries of src/transport/blackhole.rs stay.
use reticulum_sdk.Base.{
  ℕ, ◌+◌, ◌≤◌, ◌<◌, ◌≡◌, ◌≢◌, refl, ap, ◌∙◌, inl, inr, List, [], ◌∷◌, Option, none, some,
  Option-cases, bytes_discrete, lt→leb, le→leb,
}
use reticulum_sdk.Base.Map.{
  get, insert, kept, Unique, get-insert_self, get-insert_ne, get-retain, insert-Unique,
}
use reticulum_sdk.Packet.Types.{AddressHash}
use reticulum_sdk.Transport.Blackhole.{
  BlackholeEntry, BlackholeEntries, BlackholeTable, blackhole_add, insert_remote,
  insert_remote_entry, insert_vacant, remove_expired, check_expired, is_expired, lasting,
  blackhole_check_interval,
}

module _ (k : AddressHash) (e : BlackholeEntry) where
  insert_remote_entry-get :
      (j : AddressHash) (f : BlackholeEntry) (t : BlackholeTable)
      → get bytes_discrete k t.entries ≡ some e
      → get bytes_discrete k (insert_remote_entry j f t).0.entries ≡ some e
  unfolding insert_remote_entry
  insert_remote_entry-get j f t here = elim (Option-cases (get bytes_discrete j t.entries)) [
    | inr (g, known) ↦ ap (λ o. get bytes_discrete k (insert_vacant j f o t).entries) known ∙ here
    | inl vacant ↦
        let other : j ≢ k =
          λ same. cc (vacant, here, ap (λ i. get bytes_discrete i t.entries) same) in
        ap (λ o. get bytes_discrete k (insert_vacant j f o t).entries) vacant
        ∙ get-insert_ne bytes_discrete k j f t.entries other
        ∙ here
  ]

  insert_remote-get :
      (remote : BlackholeEntries) (t : BlackholeTable)
      → get bytes_discrete k t.entries ≡ some e
      → get bytes_discrete k (insert_remote remote t).0.entries ≡ some e
  unfolding insert_remote
  insert_remote-get [] t here = here
  insert_remote-get (f ∷ remote) t here =
      insert_remote-get remote (insert_remote_entry f.0 f.1 t).0
        (insert_remote_entry-get f.0 f.1 t here)

-- An entry that this node has added stays as it is, whatever entries are merged from a remote
-- source.
pub insert_remote-blackhole_add :
    (k source : AddressHash) (until : Option ℕ) (reason : Option (List ℕ)) (t : BlackholeTable)
    (remote : BlackholeEntries)
    → get bytes_discrete k
        (insert_remote remote (blackhole_add k source until reason t).0).0.entries
      ≡ some (record { source = source; until = until; reason = reason })
unfolding blackhole_add
insert_remote-blackhole_add k source until reason t remote =
    insert_remote-get k _ remote _ (get-insert_self bytes_discrete k _ t.entries)

-- A check that is due keeps an entry with a later expiry as it was added and removes one whose
-- expiry has come. The table has no duplicate keys.
pub check_expired-blackhole_add :
    (k source : AddressHash) (until : ℕ) (reason : Option (List ℕ)) (t : BlackholeTable)
    → Unique bytes_discrete t.entries
    → (now : ℕ) → t.last_check + blackhole_check_interval ≤ now
    → (now < until
        → get bytes_discrete k
            (check_expired now (blackhole_add k source (some until) reason t).0).0.entries
          ≡ some (record { source = source; until = some until; reason = reason }))
      × (until ≤ now
          → get bytes_discrete k
              (check_expired now (blackhole_add k source (some until) reason t).0).0.entries
            ≡ none)
unfolding blackhole_add check_expired remove_expired is_expired
check_expired-blackhole_add k source until reason t unique now due =
    let entry : BlackholeEntry = record { source = source; until = some until; reason = reason } in
    let m = insert bytes_discrete k entry t.entries in
    let found =
      get-retain (lasting now) bytes_discrete k m
        (insert-Unique bytes_discrete k entry t.entries unique)
      ∙ ap (kept (lasting now) bytes_discrete k)
          (get-insert_self bytes_discrete k entry t.entries) in
    (
      λ later.
          rw (le→leb (t.last_check + blackhole_check_interval) now due)
            (found ∙ rw (lt→leb until now later) refl),
      λ past.
          rw (le→leb (t.last_check + blackhole_check_interval) now due)
            (found ∙ rw (le→leb until now past) refl),
    )
