-- ===== src/Packet/Context.antt =====
-- src/packet.rs, `PacketContext`: the context byte, and `From<u8>` with its catch-all.
use reticulum_sdk.Base.{ℕ, ◌≡◌, refl, ◌==◌, if◌then◌else◌, List, [], ◌∷◌}

pub data PacketContext : Type 0 where
  none' resource resource_advertisement resource_request resource_hash_update : PacketContext
  resource_proof resource_initiator_cancel resource_receiver_cancel cache_request : PacketContext
  request response path_response command command_status channel keep_alive : PacketContext
  link_identify link_close link_proof link_rtt link_request_proof : PacketContext

unfoldable pub context_u8 : PacketContext → ℕ
context_u8 none' = 0x00
context_u8 resource = 0x01
context_u8 resource_advertisement = 0x02
context_u8 resource_request = 0x03
context_u8 resource_hash_update = 0x04
context_u8 resource_proof = 0x05
context_u8 resource_initiator_cancel = 0x06
context_u8 resource_receiver_cancel = 0x07
context_u8 cache_request = 0x08
context_u8 request = 0x09
context_u8 response = 0x0A
context_u8 path_response = 0x0B
context_u8 command = 0x0C
context_u8 command_status = 0x0D
context_u8 channel = 0x0E
context_u8 keep_alive = 0xFA
context_u8 link_identify = 0xFB
context_u8 link_close = 0xFC
context_u8 link_proof = 0xFD
context_u8 link_rtt = 0xFE
context_u8 link_request_proof = 0xFF

-- The arms of the `match`, tried from the first to the last.
abbrev arms : List (ℕ × PacketContext)
arms =
    (0x01, resource)
    ∷ (0x02, resource_advertisement)
    ∷ (0x03, resource_request)
    ∷ (0x04, resource_hash_update)
    ∷ (0x05, resource_proof)
    ∷ (0x06, resource_initiator_cancel)
    ∷ (0x07, resource_receiver_cancel)
    ∷ (0x08, cache_request)
    ∷ (0x09, request)
    ∷ (0x0A, response)
    ∷ (0x0B, path_response)
    ∷ (0x0C, command)
    ∷ (0x0D, command_status)
    ∷ (0x0E, channel)
    ∷ (0xFA, keep_alive)
    ∷ (0xFB, link_identify)
    ∷ (0xFC, link_close)
    ∷ (0xFD, link_proof)
    ∷ (0xFE, link_rtt)
    ∷ (0xFF, link_request_proof)
    ∷ []

first_arm : ℕ → List (ℕ × PacketContext) → PacketContext
first_arm value [] = none'
first_arm value ((byte, context) ∷ rest) = if value == byte then context else first_arm value rest

unfoldable pub context_from : ℕ → PacketContext
unfolding first_arm
context_from value = first_arm value arms

-- The context byte of a packet is read back as the context that it was written for.
pub context_from-context_u8 : (c : PacketContext) → context_from (context_u8 c) ≡ c
unfolding context_from context_u8
context_from-context_u8 none' = refl
context_from-context_u8 c = refl
