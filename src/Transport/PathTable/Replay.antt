-- ===== src/Transport/PathTable/Replay.antt =====
-- The random blobs that src/transport/path_table.rs remembers: bounded, and enough to refuse an
-- announce that is heard again.
use mathlib.Core.Logic.{if_pos}
use reticulum_sdk.Base.{
  ℕ, zero, suc, ◌-◌, ◌≤◌, ◌≡◌, refl, sym, ◌∙◌, inl, inr, List, [], ◌∷◌, ◌++◌, length, drop, Option,
  none, some, Bool, true, false, ltb, arith, Option-cases, Bool-cases, bytes_discrete,
  length-append, length-drop,
}
use reticulum_sdk.Base.Int.{ℤ, pos, negsuc, eq_ℤ}
use reticulum_sdk.Packet.Types.{AddressHash, Hash, Packet}
use reticulum_sdk.Transport.PathTable.Entry.{
  PathEntry, RandomBlob, announce_random_blob, max_random_blobs, contains, pushed, trimmed,
  updated_random_blobs, prefers_interface, should_accept,
}
use reticulum_sdk.Transport.PathTable.Table.{
  PathTable, path_get, would_update_path, installed, path_handle_announce,
}
use reticulum_sdk.Transport.PathTable.Updates.{
  after, entry_after, after-get, after-get_ne, after-keep, path_handle_announce_rejected,
}

trimmed_bounded : (blobs : List RandomBlob) → length (trimmed blobs) ≤ max_random_blobs
unfolding trimmed
trimmed_bounded blobs = elim (Bool-cases (ltb max_random_blobs (length blobs))) [
  | inl long ↦ rw long (rw (length-drop (length blobs - max_random_blobs) blobs) (omega arith))
  | inr short ↦ rw short (ground arith)
]

contains_last : (b : RandomBlob) (bs : List RandomBlob) → contains b (bs ++ (b ∷ [])) ≡ true
unfolding contains
contains_last b [] = if_pos (bytes_discrete b b) refl _ _
contains_last b (c ∷ bs) = ground (arith, contains_last b bs)

contains-drop :
    (b : RandomBlob) (n : ℕ) (bs : List RandomBlob)
    → n ≤ length bs
    → contains b (drop n (bs ++ (b ∷ []))) ≡ true
contains-drop b zero bs below = contains_last b bs
contains-drop b (suc n) [] below = absurd (omega arith)
contains-drop b (suc n) (c ∷ bs) below = contains-drop b n bs (omega arith)

not_long :
    (bs : List RandomBlob) → length bs ≤ max_random_blobs → ltb max_random_blobs (length bs) ≡ false
not_long bs bounded = ground arith

contains-trimmed :
    (b : RandomBlob) (bs : List RandomBlob)
    → length bs ≤ max_random_blobs
    → contains b (trimmed (pushed bs (some b))) ≡ true
unfolding trimmed pushed
contains-trimmed b bs bounded = elim (Bool-cases (contains b bs)) [
  | inl known ↦ rw (known, not_long bs bounded) known
  | inr new ↦ rw new (elim (Bool-cases (ltb max_random_blobs (length (bs ++ (b ∷ []))))) [
    | inl long ↦ rw long (
        contains-drop b (length (bs ++ (b ∷ [])) - max_random_blobs) bs
          (rw (length-append bs (b ∷ [])) (omega arith)))
    | inr short ↦ rw short (contains_last b bs)
  ])
]

module _ {F : Type 0} where
  -- Every path remembers at most `max_random_blobs` blobs.
  abbrev pub BlobsBounded : PathTable F → Type 0
  BlobsBounded t =
      (d : AddressHash) (e : PathEntry F)
      → path_get d t ≡ some e
      → length e.random_blobs ≤ max_random_blobs

  blobs-bounded :
      (e : PathEntry F) (blob : Option RandomBlob)
      → length (updated_random_blobs e blob) ≤ max_random_blobs
  unfolding updated_random_blobs
  blobs-bounded e blob = trimmed_bounded (pushed e.random_blobs blob)

  installed-bounded :
      (gt : F → F → Bool) (sha256 : List ℕ → Hash) (now : ℕ) (announce : Packet)
      (transport_id : Option AddressHash) (iface : AddressHash) (path_expiry : ℕ) (gravity : ℤ)
      (bitrate : Option F) (t : PathTable F)
      → length
          (entry_after gt sha256 now announce transport_id iface path_expiry gravity bitrate
            t).random_blobs
        ≤ max_random_blobs
  unfolding installed
  installed-bounded gt sha256 now announce transport_id iface path_expiry gravity bitrate t =
      elim (Option-cases (path_get announce.destination t)) [
        | inl fresh ↦ elim (Option-cases (announce_random_blob announce)) [
          | inl short ↦ rw (fresh, short) (omega arith)
          | inr (blob, long) ↦ rw (fresh, long) (omega arith)
        ]
        | inr (e, known) ↦ rw known (blobs-bounded e (announce_random_blob announce))
      ]

eq_ℤ-self : (a : ℤ) → eq_ℤ a a ≡ true
eq_ℤ-self (pos n) = ground arith
eq_ℤ-self (negsuc n) = ground arith

prefers-same :
    {F : Type 0} (gt : F → F → Bool)
    → ((a : F) → gt a a ≡ false)
    → (gravity : ℤ) (bitrate : Option F) (e : PathEntry F) → e.iface_gravity ≡ gravity
    → e.iface_bitrate ≡ bitrate
    → prefers_interface gt gravity bitrate e ≡ false
unfolding prefers_interface
prefers-same gt gt_irrefl gravity none e g b = rw (prefers_interface, g, eq_ℤ-self gravity)
prefers-same gt gt_irrefl gravity (some a) e g b =
    rw (prefers_interface, g, b, eq_ℤ-self gravity) (gt_irrefl a)

same_emission :
    {F : Type 0} (gt : F → F → Bool) (now : ℕ) (blob : RandomBlob) (gravity : ℤ)
    (bitrate : Option F) (e : PathEntry F)
    → contains blob e.random_blobs ≡ true
    → prefers_interface gt gravity bitrate e ≡ false
    → should_accept gt now e.hops blob gravity bitrate e ≡ false
unfolding should_accept
same_emission gt now blob gravity bitrate e known plain = rw (known, plain) (ground arith)

pub would_update_path-entry :
    {F : Type 0} (gt : F → F → Bool) (now : ℕ) (announce : Packet) (blob : RandomBlob) (gravity : ℤ)
    (bitrate : Option F) (e : PathEntry F) (t : PathTable F)
    → announce_random_blob announce ≡ some blob
    → path_get announce.destination t ≡ some e
    → would_update_path gt now announce gravity bitrate t
      ≡ should_accept gt now announce.header.hops blob gravity bitrate e
unfolding would_update_path
would_update_path-entry gt now announce blob gravity bitrate e t emitted found =
    rw (emitted, found, would_update_path)

pub found_entry :
    {F : Type 0} (gt : F → F → Bool) (sha256 : List ℕ → Hash) (now : ℕ) (announce : Packet)
    (transport_id : Option AddressHash) (iface : AddressHash) (path_expiry : ℕ) (gravity : ℤ)
    (bitrate : Option F) (t : PathTable F) (d : AddressHash) (e : PathEntry F)
    → (after gt sha256 now announce transport_id iface path_expiry gravity bitrate t).1 ≡ true
    → announce.destination ≡ d
    → path_get d (after gt sha256 now announce transport_id iface path_expiry gravity bitrate t).0
      ≡ some e
    → e ≡ entry_after gt sha256 now announce transport_id iface path_expiry gravity bitrate t
found_entry gt sha256 now announce transport_id iface path_expiry gravity bitrate t d e accepted
      same found =
    let here : path_get announce.destination
          (after gt sha256 now announce transport_id iface path_expiry gravity bitrate t).0
        ≡ some e =
      rw (sym same) at found in
    let there =
      after-get gt sha256 now announce transport_id iface path_expiry gravity bitrate t accepted in
    cc

module _ {F : Type 0} (gt : F → F → Bool) (sha256 : List ℕ → Hash) (now : ℕ) (announce : Packet)
    (transport_id : Option AddressHash) (iface : AddressHash) (path_expiry : ℕ) (gravity : ℤ)
    (bitrate : Option F) (t : PathTable F) where
  -- If every path of the table remembers at most 64 random blobs, this is so after an announce,
  -- accepted or rejected.
  path_handle_announce-BlobsBounded :
      BlobsBounded t
      → BlobsBounded
          (path_handle_announce gt sha256 now announce transport_id iface path_expiry gravity
            bitrate t).0
  path_handle_announce-BlobsBounded bounded d e found =
      elim (Bool-cases
        (after gt sha256 now announce transport_id iface path_expiry gravity bitrate t).1) [
          | inl accepted ↦ elim (bytes_discrete announce.destination d) [
            | yes same ↦
                rw
                  (found_entry gt sha256 now announce transport_id iface path_expiry gravity bitrate
                    t d e accepted same found)
                  (installed-bounded gt sha256 now announce transport_id iface path_expiry gravity
                    bitrate t)
            | no other ↦ bounded d e (
                sym (
                  after-get_ne gt sha256 now announce transport_id iface path_expiry gravity bitrate
                    t d other)
                ∙ found)
          ]
          | inr refused ↦ bounded d e (
              rw
                ((path_handle_announce_rejected gt sha256 now announce transport_id iface
                  path_expiry gravity bitrate t refused).0)
                at found)
        ]

  abbrev pub run : PathTable F × Bool
  run = after gt sha256 now announce transport_id iface path_expiry gravity bitrate t

  abbrev entry : PathEntry F
  entry = entry_after gt sha256 now announce transport_id iface path_expiry gravity bitrate t

  pub entry-contains :
      (blob : RandomBlob)
      → BlobsBounded t
      → announce_random_blob announce ≡ some blob
      → contains blob entry.random_blobs ≡ true
  unfolding installed updated_random_blobs
  entry-contains blob bounded emitted = elim (Option-cases (path_get announce.destination t)) [
    | inl fresh ↦ rw (fresh, emitted) (contains_last blob [])
    | inr (e, known) ↦
        rw (known, emitted)
          (contains-trimmed blob e.random_blobs (bounded announce.destination e known))
  ]

  entry-prefers : ((a : F) → gt a a ≡ false) → prefers_interface gt gravity bitrate entry ≡ false
  unfolding installed
  entry-prefers gt_irrefl = prefers-same gt gt_irrefl gravity bitrate entry refl refl

  entry-refuses :
      (blob : RandomBlob)
      → ((a : F) → gt a a ≡ false)
      → BlobsBounded t
      → announce_random_blob announce ≡ some blob
      → (later : ℕ) → should_accept gt later announce.header.hops blob gravity bitrate entry ≡ false
  unfolding installed
  entry-refuses blob gt_irrefl bounded emitted later =
      same_emission gt later blob gravity bitrate entry (entry-contains blob bounded emitted)
        (entry-prefers gt_irrefl)

  -- In a table whose paths remember at most 64 random blobs, an announce that was accepted and has
  -- a random blob is rejected, and the table kept, when it is heard again with the same hop count,
  -- gravity and bit rate: at any later time, by any transport, interface and expiry, also when its
  -- path has expired. No bit rate is greater than itself.
  pub path_handle_announce_replayed :
      (blob : RandomBlob)
      → ((a : F) → gt a a ≡ false)
      → BlobsBounded t
      → announce_random_blob announce ≡ some blob
      → run.1 ≡ true
      → (later : ℕ) (transport_id' : Option AddressHash) (iface' : AddressHash) (path_expiry' : ℕ)
      → path_handle_announce gt sha256 later announce transport_id' iface' path_expiry' gravity
          bitrate run.0
        ≡ (run.0, false)
  path_handle_announce_replayed blob gt_irrefl bounded emitted accepted later transport_id' iface'
        path_expiry' =
      after-keep gt sha256 later announce transport_id' iface' path_expiry' gravity bitrate run.0 (
        would_update_path-entry gt later announce blob gravity bitrate entry run.0 emitted (
          after-get gt sha256 now announce transport_id iface path_expiry gravity bitrate t
            accepted)
        ∙ entry-refuses blob gt_irrefl bounded emitted later)
