-- ===== src/Packet/Mdu.antt =====
-- src/packet.rs, the size limits of encrypted payloads.
use reticulum_sdk.Base.{ℕ, ◌+◌, ◌-◌, ◌*◌, ◌/◌, ◌≤◌, ◌≡◌, refl, ◌↔◌, arith}

abbrev pub reticulum_mtu : ℕ
reticulum_mtu = 500

abbrev pub reticulum_header_minsize : ℕ
reticulum_header_minsize = 2 + 1 + 16

abbrev pub reticulum_max_header_size : ℕ
reticulum_max_header_size = 35

abbrev pub reticulum_min_ifac_size : ℕ
reticulum_min_ifac_size = 1

abbrev pub packet_mdu : ℕ
packet_mdu = reticulum_mtu - reticulum_max_header_size - reticulum_min_ifac_size

abbrev pub reticulum_token_overhead : ℕ
reticulum_token_overhead = 48

abbrev pub reticulum_aes_block_size : ℕ
reticulum_aes_block_size = 16

-- A constant: the source subtracts at compile time, where an underflow is a compile error; at the
-- two uses below nothing underflows.
unfoldable pub encrypted_payload_mdu : ℕ → ℕ → ℕ
encrypted_payload_mdu header_size cleartext_overhead =
    let available =
      reticulum_mtu - reticulum_min_ifac_size - header_size - reticulum_token_overhead
      - cleartext_overhead in
    available / reticulum_aes_block_size * reticulum_aes_block_size - 1

abbrev pub encrypted_packet_mdu : ℕ
encrypted_packet_mdu = encrypted_payload_mdu reticulum_max_header_size 32

abbrev pub link_packet_mdu : ℕ
link_packet_mdu = encrypted_payload_mdu reticulum_header_minsize 0

unfoldable pub compute_link_mdu : ℕ → ℕ
compute_link_mdu mtu =
    let available =
      mtu - reticulum_min_ifac_size - reticulum_header_minsize - reticulum_token_overhead in
    available / reticulum_aes_block_size * reticulum_aes_block_size - 1

-- The size of a payload after PKCS#7 padding, and of the link packet that carries it: the minimal
-- IFAC field, the header, the token's IV and HMAC, and the padded payload.
abbrev pub padded : ℕ → ℕ
padded n = (n / 16 + 1) * 16

abbrev pub link_packet_size : ℕ → ℕ
link_packet_size n = 1 + 19 + 48 + padded n

-- On a link with an MTU that has room for one cipher block, `compute_link_mdu` is exact: a payload
-- fits the MTU after padding and framing if and only if it is not longer than the result.
compute_link_mdu_exact :
    (mtu n : ℕ) → 84 ≤ mtu → (n ≤ compute_link_mdu mtu) ↔ (link_packet_size n ≤ mtu)
unfolding compute_link_mdu
compute_link_mdu_exact mtu n room = (λ h. omega arith, λ h. omega arith)

-- The constant of the default MTU agrees with the function.
pub link_packet_mdu_lem : link_packet_mdu ≡ compute_link_mdu reticulum_mtu
unfolding encrypted_payload_mdu compute_link_mdu
link_packet_mdu_lem = refl
