-- ===== src/Transport/PathRequests/Tests.antt =====
-- The theorems on src/transport/path_requests.rs at concrete requests.
use reticulum_sdk.Base.{ℕ, zero, suc, ◌≡◌, refl, arith, List, [], ◌∷◌, none, some, false}
use reticulum_sdk.Base.Map.{get, retain}
use reticulum_sdk.Transport.PathRequests.{
  PathRequests, path_requests_new, request_decode, generate, decode_request, allow_recursive,
  take_discovery, admit, release_expired,
}
use reticulum_sdk.Transport.PathRequests.Decoding.{request_decode-generate}
use reticulum_sdk.Transport.PathRequests.Discovery.{
  allow_recursive-take_discovery, decode_request_duplicate, asked,
}

abbrev filled : ℕ → ℕ → List ℕ
filled byte zero = []
filled byte (suc n) = byte ∷ filled byte n

abbrev relay : PathRequests
relay = path_requests_new (filled 9 16) (some (filled 2 16))

request_decode-generate_example :
    request_decode (generate [] (filled 1 16) (some (filled 3 4)) relay).data'.buffer
    ≡ some (record {
      destination = filled 1 16;
      requesting_transport = some (filled 2 16);
      tag_bytes = filled 3 4;
    })
request_decode-generate_example =
    request_decode-generate (filled 1 16) (filled 3 4) refl (omega arith) (omega arith) [] relay
      refl

allow_recursive-take_discovery_example :
    ((take_discovery 20 (filled 1 16) (asked 10 (filled 1 16) (7 ∷ []) relay).0).1 ≡ some (7 ∷ []))
    × (allow_recursive 20 (filled 1 16) (8 ∷ []) (asked 10 (filled 1 16) (7 ∷ []) relay).0
        ≡ ((asked 10 (filled 1 16) (7 ∷ []) relay).0, false))
unfolding allow_recursive get
allow_recursive-take_discovery_example =
    allow_recursive-take_discovery 10 (filled 1 16) (7 ∷ []) relay 20 (8 ∷ []) refl (omega arith)

abbrev request_bytes : List ℕ
request_bytes = filled 1 17

decode_request_duplicate_example :
    (decode_request 60 61 request_bytes (decode_request 50 51 request_bytes relay).0).1 ≡ none
unfolding decode_request request_decode admit release_expired get retain
decode_request_duplicate_example =
    decode_request_duplicate 50 51 60 61 request_bytes
      (record { destination = filled 1 16; requesting_transport = none; tag_bytes = 1 ∷ [] }) relay
      tt (omega arith) refl (omega arith)
