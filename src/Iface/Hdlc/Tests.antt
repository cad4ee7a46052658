-- ===== src/Iface/Hdlc/Tests.antt =====
-- Runs of src/iface/hdlc.rs, and the theorems at concrete frames.
use reticulum_sdk.Base.{ℕ, ◌+◌, ◌≡◌, refl, arith, List, [], ◌∷◌, ◌++◌, length, replicate, some}
use reticulum_sdk.Error.{ok}
use reticulum_sdk.Buffer.Output.{OutputBuffer, splice, advance, write, write_byte, as_slice}
use reticulum_sdk.Iface.Hdlc.{
  encode_byte, encode_loop, encode, decode_loop, finish, decode, find_loop, find,
}
use reticulum_sdk.Iface.Hdlc.Frame.{stuff, stuffed, frame}
use reticulum_sdk.Iface.Hdlc.Encode.{encode_frames}
use reticulum_sdk.Iface.Hdlc.Decode.{decode-frame}

abbrev payload : List ℕ
payload = 0x01 ∷ 0x7e ∷ 0x7d ∷ []

abbrev storage : OutputBuffer
storage = record { buffer = replicate 8 0; offset = 0 }

encode_runs :
    as_slice (encode payload storage).1 ≡ 0x7e ∷ 0x01 ∷ 0x7d ∷ 0x5e ∷ 0x7d ∷ 0x5d ∷ 0x7e ∷ []
unfolding as_slice encode encode_loop encode_byte write write_byte advance splice
encode_runs = refl

decode_runs : (decode (0x7e ∷ 0x01 ∷ 0x7d ∷ 0x5e ∷ 0x7d ∷ 0x5d ∷ 0x7e ∷ 0x33 ∷ []) storage).0 ≡ ok 3
unfolding decode decode_loop finish write write_byte advance splice
decode_runs = refl

find_runs : find (0x11 ∷ 0x7e ∷ 0x01 ∷ 0x7e ∷ 0x7e ∷ []) ≡ some (1, 3)
unfolding find find_loop
find_runs = refl

encode_frames_example :
    ((encode payload storage).0 ≡ ok (0 + length (frame payload)))
    × (as_slice (encode payload storage).1 ≡ as_slice storage ++ frame payload)
    × (length (encode payload storage).1.buffer ≡ 8)
unfolding frame stuffed stuff
encode_frames_example = encode_frames payload storage (omega arith)

decode-frame_example :
    ((decode (frame payload ++ (0x33 ∷ [])) storage).0 ≡ ok 3)
    × (as_slice (decode (frame payload ++ (0x33 ∷ [])) storage).1 ≡ as_slice storage ++ payload)
decode-frame_example = decode-frame payload (0x33 ∷ []) storage (omega arith)
