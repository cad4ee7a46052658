-- ===== src/Transport/PathRequests.antt =====
-- src/transport/path_requests.rs: the path requests that this node sends and answers. The address
-- of the destination for path requests and the random tag are parameters. Instants and durations
-- are in nanoseconds.
pub mod Decoding
pub mod Discovery
mod Tests
use mathlib.Core.HLevel.{×_discrete}
use reticulum_sdk.Base.{
  ℕ, ◌+◌, ◌-◌, ◌*◌, List, [], ◌∷◌, ◌++◌, length, take, drop, Option, none, some, Bool, true, false,
  ltb, leb, if◌then◌else◌, bytes_discrete,
}
use reticulum_sdk.Base.Map.{get, insert, remove, retain}
use reticulum_sdk.Packet.Header.{open', type1, unset, broadcast, plain, data'}
use reticulum_sdk.Packet.Context.{none'}
use reticulum_sdk.Packet.Types.{
  AddressHash, Packet, PacketDataBuffer, data_new_from_slice, data_write, address_hash_size,
}

abbrev pub TagBytes : Type 0
TagBytes = List ℕ

abbrev pub path_request_timeout : ℕ
path_request_timeout = 15 * 1_000_000_000

abbrev pub path_request_gate_timeout : ℕ
path_request_gate_timeout = 120 * 1_000_000_000

abbrev pub max_discovery_path_request_tags : ℕ
max_discovery_path_request_tags = 32_000

pub record PathRequest : Type 0 where
  pub destination : AddressHash
  pub requesting_transport : Option AddressHash
  pub tag_bytes : TagBytes

pub record DiscoveryPathRequest : Type 0 where
  pub timeout : ℕ
  pub requesting_iface : AddressHash

-- `PathRequest::decode`
unfoldable pub request_decode : List ℕ → Option PathRequest
request_decode bytes =
    let has_transport = ltb (address_hash_size * 2) (length bytes) in
    let tag_start = if has_transport then address_hash_size * 2 else address_hash_size in
    let tag_end =
      if ltb address_hash_size (length bytes - tag_start)
      then tag_start + address_hash_size
      else length bytes in
    if leb (length bytes) address_hash_size
    then none
    else some (record {
      destination = take address_hash_size bytes;
      requesting_transport =
          if has_transport
          then some (take address_hash_size (drop address_hash_size bytes))
          else none;
      tag_bytes = take (tag_end - tag_start) (drop tag_start bytes);
    })

abbrev pub CacheKey : Type 0
CacheKey = AddressHash × TagBytes

abbrev pub key_discrete : Discrete CacheKey
key_discrete = ×_discrete bytes_discrete bytes_discrete

pub record PathRequests : Type 0 where
  pub cache : List (CacheKey × ℕ)
  pub cache_order : List CacheKey
  pub transport_id : Option AddressHash
  pub controlled_destination : AddressHash
  pub discovery : List (AddressHash × DiscoveryPathRequest)

abbrev pub path_requests_new : AddressHash → Option AddressHash → PathRequests
path_requests_new controlled_destination transport_id = record {
  cache = [];
  cache_order = [];
  transport_id = transport_id;
  controlled_destination = controlled_destination;
  discovery = [];
}

abbrev pub later_than : ℕ → CacheKey → ℕ → Bool
later_than now tag expires = ltb now expires

abbrev pub pending : ℕ → AddressHash → DiscoveryPathRequest → Bool
pending now destination request = ltb now request.timeout

-- The loop that takes tags off the front of the order until one is in the cache.
unfoldable pub drop_released : List (CacheKey × ℕ) → List CacheKey → List CacheKey
drop_released cache [] = []
drop_released cache (tag ∷ order) =
    let rest = drop_released cache order in
    elim (get key_discrete tag cache) [ some expires ↦ tag ∷ order | none ↦ rest ]

unfoldable pub release_expired : ℕ → PathRequests → PathRequests
unfolding drop_released
release_expired now r =
    let cache = retain (later_than now) r.cache in
    record r {
      cache = cache;
      discovery = retain (pending now) r.discovery;
      cache_order = drop_released cache r.cache_order;
    }

-- The loop of `enforce_cache_limit`.
unfoldable pub limit_loop :
    List (CacheKey × ℕ) → List CacheKey → List (CacheKey × ℕ) × List CacheKey
limit_loop cache [] = (cache, [])
limit_loop cache (tag ∷ order) =
    let rest = limit_loop (remove key_discrete tag cache) order in
    if ltb max_discovery_path_request_tags (length cache) then rest else (cache, tag ∷ order)

unfoldable pub enforce_cache_limit : PathRequests → PathRequests
unfolding limit_loop
enforce_cache_limit r =
    let (cache, order) = limit_loop r.cache r.cache_order in
    record r { cache = cache; cache_order = order }

-- A request that is in the cache is a duplicate; another one is recorded, at the instant `now`.
unfoldable pub admit : ℕ → PathRequest → PathRequests → PathRequests × Option PathRequest
unfolding enforce_cache_limit
admit now request r =
    let tag : CacheKey = (request.destination, request.tag_bytes) in
    elim (get key_discrete tag r.cache) [
      | some expires ↦ (r, none)
      | none ↦ (
        enforce_cache_limit (record r {
          cache = insert key_discrete tag (now + path_request_gate_timeout) r.cache;
          cache_order = r.cache_order ++ (tag ∷ []);
        }),
        some request,
      )
    ]

-- `decode`, with the clocks of the release and of the insertion.
unfoldable pub decode_request : ℕ → ℕ → List ℕ → PathRequests → PathRequests × Option PathRequest
unfolding request_decode admit release_expired
decode_request now now' bytes r = elim (request_decode bytes) [
  | none ↦ (r, none)
  | some request ↦ admit now' request (release_expired now r)
]

abbrev pub tag_or : TagBytes → Option TagBytes → TagBytes
tag_or random_tag none = random_tag
tag_or random_tag (some tag) = tag

abbrev pub write_transport : Option AddressHash → PacketDataBuffer → PacketDataBuffer
write_transport none d = d
write_transport (some transport_id) d = (data_write d transport_id).0

-- `random_tag` is what `create_random_tag` returns.
unfoldable pub generate : TagBytes → AddressHash → Option TagBytes → PathRequests → Packet
generate random_tag destination tag r =
    let addressed = write_transport r.transport_id (data_new_from_slice destination) in
    record {
      header = record {
        ifac_flag = open';
        header_type = type1;
        context_flag = unset;
        propagation_type = broadcast;
        destination_type = plain;
        packet_type = data';
        hops = 0;
      };
      ifac = none;
      destination = r.controlled_destination;
      transport = r.transport_id;
      context = none';
      data' = (data_write addressed (tag_or random_tag tag)).0;
    }

-- Whether a discovery that is still pending forbids another one.
abbrev pub is_pending : ℕ → Option DiscoveryPathRequest → Bool
is_pending now none = false
is_pending now (some request) = ltb now request.timeout

unfoldable pub allow_recursive : ℕ → AddressHash → AddressHash → PathRequests → PathRequests × Bool
allow_recursive now destination requesting_iface r =
    if is_pending now (get bytes_discrete destination r.discovery) then (r, false) else (
      record r {
        discovery =
            insert bytes_discrete destination
              (record { timeout = now + path_request_timeout; requesting_iface = requesting_iface })
              r.discovery;
      },
      true,
    )

abbrev pub iface_if_pending : ℕ → Option DiscoveryPathRequest → Option AddressHash
iface_if_pending now none = none
iface_if_pending now (some request) =
    if ltb now request.timeout then some request.requesting_iface else none

unfoldable pub take_discovery : ℕ → AddressHash → PathRequests → PathRequests × Option AddressHash
take_discovery now destination r = (
  record r { discovery = remove bytes_discrete destination r.discovery },
  iface_if_pending now (get bytes_discrete destination r.discovery),
)

unfoldable pub generate_recursive :
    ℕ
    → TagBytes
    → AddressHash
    → AddressHash
    → Option TagBytes
    → PathRequests
    → PathRequests × Option Packet
unfolding allow_recursive generate
generate_recursive now random_tag destination requesting_iface tag r =
    let (after, allowed) = allow_recursive now destination requesting_iface r in
    if allowed then (after, some (generate random_tag destination tag after)) else (after, none)
