-- ===== src/Iface/Kiss/Tests.antt =====
-- The theorem on src/iface/kiss.rs at two payloads, with the bytes that are escaped.
use reticulum_sdk.Base.{◌≡◌, refl, List, [], ◌∷◌, ℕ}
use reticulum_sdk.Iface.Kiss.{
  push_all, kiss_decoder_new, data', encode_data_frame, escape_into, escape_byte,
}
use reticulum_sdk.Iface.Kiss.Frames.{frames, delivered, push_all-frames}

abbrev payloads : List (List ℕ)
payloads = (1 ∷ 0xc0 ∷ 2 ∷ []) ∷ (0xdb ∷ []) ∷ []

push_all-frames_example :
    push_all (frames payloads) kiss_decoder_new
    ≡ (kiss_decoder_new, data' (1 ∷ 0xc0 ∷ 2 ∷ []) ∷ data' (0xdb ∷ []) ∷ [])
unfolding delivered
push_all-frames_example = push_all-frames payloads

framed : encode_data_frame (0xdb ∷ 7 ∷ []) ≡ 0xc0 ∷ 0 ∷ 0xdb ∷ 0xdd ∷ 7 ∷ 0xc0 ∷ []
unfolding encode_data_frame escape_into escape_byte
framed = refl
