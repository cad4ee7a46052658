-- ===== src/Transport/PathRequests/Discovery.antt =====
-- Pending discoveries and duplicate requests of src/transport/path_requests.rs.
use reticulum_sdk.Base.{
  ℕ, ◌+◌, ◌≤◌, ◌<◌, ◌≡◌, refl, ap, ◌∙◌, inl, inr, List, [], ◌∷◌, ◌++◌, length, none, some, Bool,
  true, false, ltb, arith, Option-cases, Bool-cases, bytes_discrete,
}
use reticulum_sdk.Base.Map.{
  get, insert, kept, Unique, get-insert_self, get-retain, insert-Unique, retain-Unique,
  length-remove-le, length-retain-le,
}
use reticulum_sdk.Packet.Types.{AddressHash}
use reticulum_sdk.Transport.PathRequests.{
  PathRequests, PathRequest, CacheKey, key_discrete, path_request_timeout,
  path_request_gate_timeout, max_discovery_path_request_tags, later_than, allow_recursive,
  take_discovery, is_pending, iface_if_pending, release_expired, admit, decode_request,
  request_decode, enforce_cache_limit, limit_loop,
}

module _ (now : ℕ) (destination iface : AddressHash) (r : PathRequests) where
  abbrev pub asked : PathRequests × Bool
  asked = allow_recursive now destination iface r

  asked-get :
      asked.1 ≡ true
      → get bytes_discrete destination asked.0.discovery
        ≡ some (record { timeout = now + path_request_timeout; requesting_iface = iface })
  unfolding allow_recursive
  asked-get allowed =
      elim (Bool-cases (is_pending now (get bytes_discrete destination r.discovery))) [
        | inl waits ↦ cc (rw (waits, allow_recursive) at allowed)
        | inr free ↦
            rw (free, allow_recursive) (get-insert_self bytes_discrete destination _ r.discovery)
      ]

  -- After an allowed discovery, and before its timeout, `take_discovery` returns the interface
  -- that asked, and another discovery of the destination is refused and changes nothing, whichever
  -- interface asks.
  pub allow_recursive-take_discovery :
      (later : ℕ) (other : AddressHash)
      → asked.1 ≡ true
      → later < now + path_request_timeout
      → ((take_discovery later destination asked.0).1 ≡ some iface)
        × (allow_recursive later destination other asked.0 ≡ (asked.0, false))
  unfolding take_discovery allow_recursive
  allow_recursive-take_discovery later other allowed soon =
      let here = asked-get allowed in
      let waits : ltb later (now + path_request_timeout) ≡ true = ground arith in
      let still : is_pending later (get bytes_discrete destination asked.0.discovery) ≡ true =
        ap (is_pending later) here ∙ waits in
      (ap (iface_if_pending later) here ∙ rw waits, rw (still, allow_recursive))

limit_loop-room :
    (cache : List (CacheKey × ℕ)) (order : List CacheKey)
    → length cache ≤ max_discovery_path_request_tags
    → limit_loop cache order ≡ (cache, order)
unfolding limit_loop
limit_loop-room cache [] room = refl
limit_loop-room cache (tag ∷ order) room =
    let few : ltb max_discovery_path_request_tags (length cache) ≡ false = ground arith in
    rw (few, limit_loop)

limit-room :
    (r : PathRequests)
    → length r.cache ≤ max_discovery_path_request_tags
    → enforce_cache_limit r ≡ r
unfolding enforce_cache_limit
limit-room r room = rw (limit_loop-room r.cache r.cache_order room, enforce_cache_limit)

abbrev pub key : PathRequest → CacheKey
key request = (request.destination, request.tag_bytes)

abbrev recorded : ℕ → PathRequest → PathRequests → PathRequests
recorded now request r = record r {
  cache = insert key_discrete (key request) (now + path_request_gate_timeout) r.cache;
  cache_order = r.cache_order ++ (key request ∷ []);
}

admit_fresh :
    (now : ℕ) (request : PathRequest) (r : PathRequests)
    → get key_discrete (key request) r.cache ≡ none
    → length r.cache < max_discovery_path_request_tags
    → admit now request r ≡ (recorded now request r, some request)
unfolding admit
admit_fresh now request r new room = rw (
  new,
  admit,
  limit-room (recorded now request r)
      (omega (arith, length-remove-le key_discrete (key request) r.cache)),
)

-- What `release_expired` leaves of the cache.
get-release_expired :
    (now : ℕ) (k : CacheKey) (r : PathRequests)
    → Unique key_discrete r.cache
    → get key_discrete k (release_expired now r).cache
      ≡ kept (later_than now) key_discrete k (get key_discrete k r.cache)
unfolding release_expired
get-release_expired now k r u = get-retain (later_than now) key_discrete k r.cache u

release_expired-Unique :
    (now : ℕ) (r : PathRequests)
    → Unique key_discrete r.cache
    → Unique key_discrete (release_expired now r).cache
unfolding release_expired
release_expired-Unique now r u = retain-Unique (later_than now) key_discrete r.cache u

release_expired-length :
    (now : ℕ) (r : PathRequests) → length (release_expired now r).cache ≤ length r.cache
unfolding release_expired
release_expired-length now r = length-retain-le (later_than now) r.cache

-- A request whose tag is still held back is a duplicate.
decode_request_held :
    (now now' expires : ℕ) (bytes : List ℕ) (request : PathRequest) (r : PathRequests)
    → request_decode bytes ≡ some request
    → Unique key_discrete r.cache
    → get key_discrete (key request) r.cache ≡ some expires
    → now < expires
    → (decode_request now now' bytes r).1 ≡ none
unfolding decode_request admit
decode_request_held now now' expires bytes request r parsed u held soon =
    let lasts : ltb now expires ≡ true = ground arith in
    let here : get key_discrete (key request) (release_expired now r).cache ≡ some expires =
      get-release_expired now (key request) r u
      ∙ ap (kept (later_than now) key_discrete (key request)) held
      ∙ rw lasts in
    rw (parsed, decode_request, here, admit)

decode_request_malformed :
    (now now' : ℕ) (bytes : List ℕ) (r : PathRequests)
    → request_decode bytes ≡ none
    → decode_request now now' bytes r ≡ (r, none)
unfolding decode_request
decode_request_malformed now now' bytes r malformed = rw (malformed, decode_request)

decode_request_known :
    (now now' expires : ℕ) (bytes : List ℕ) (request : PathRequest) (r : PathRequests)
    → request_decode bytes ≡ some request
    → get key_discrete (key request) (release_expired now r).cache ≡ some expires
    → decode_request now now' bytes r ≡ (release_expired now r, none)
unfolding decode_request admit
decode_request_known now now' expires bytes request r parsed held =
    rw (parsed, decode_request, held, admit)

decode_request_new :
    (now now' : ℕ) (bytes : List ℕ) (request : PathRequest) (r : PathRequests)
    → request_decode bytes ≡ some request
    → get key_discrete (key request) (release_expired now r).cache ≡ none
    → length (release_expired now r).cache < max_discovery_path_request_tags
    → decode_request now now' bytes r
      ≡ (recorded now' request (release_expired now r), some request)
unfolding decode_request
decode_request_new now now' bytes request r parsed new room =
    rw (parsed, decode_request) (admit_fresh now' request (release_expired now r) new room)

-- A path request that was accepted is refused when the same data comes again before the gate
-- timeout has passed. The cache has no duplicate tags, and is below its limit when the first one
-- comes.
pub decode_request_duplicate :
    (now now' later later' : ℕ) (bytes : List ℕ) (request : PathRequest) (r : PathRequests)
    → Unique key_discrete r.cache
    → length r.cache < max_discovery_path_request_tags
    → (decode_request now now' bytes r).1 ≡ some request
    → later < now' + path_request_gate_timeout
    → (decode_request later later' bytes (decode_request now now' bytes r).0).1 ≡ none
decode_request_duplicate now now' later later' bytes request r u room accepted soon =
    elim (Option-cases (request_decode bytes)) [
      | inl malformed ↦ cc (rw (decode_request_malformed now now' bytes r malformed) at accepted)
      | inr (q, parsed) ↦
          elim (Option-cases (get key_discrete (key q) (release_expired now r).cache)) [
            | inr (expires, held) ↦
                cc (rw (decode_request_known now now' expires bytes q r parsed held) at accepted)
            | inl new ↦
                let first =
                  decode_request_new now now' bytes q r parsed new
                    (omega (arith, release_expired-length now r)) in
                let after = recorded now' q (release_expired now r) in
                rw first (
                  decode_request_held later later' (now' + path_request_gate_timeout) bytes q after
                    parsed
                    (insert-Unique key_discrete (key q) (now' + path_request_gate_timeout)
                      (release_expired now r).cache (release_expired-Unique now r u))
                    (get-insert_self key_discrete (key q) (now' + path_request_gate_timeout)
                      (release_expired now r).cache)
                    soon)
          ]
    ]
