-- ===== src/Buffer/Tests.antt =====
-- Runs of the buffers of src/buffer.rs, and their theorems at concrete buffers.
use reticulum_sdk.Base.{◌≡◌, refl, [], ◌∷◌}
use reticulum_sdk.Buffer.Output.{OutputBuffer, splice, advance, write, as_slice}
use reticulum_sdk.Buffer.Input.{InputBuffer}
use reticulum_sdk.Buffer.Static.{StaticBuffer}

abbrev half_full : OutputBuffer
half_full = record { buffer = 1 ∷ 2 ∷ 0 ∷ 0 ∷ []; offset = 2 }

write_runs : as_slice (write (7 ∷ 8 ∷ []) half_full).1 ≡ 1 ∷ 2 ∷ 7 ∷ 8 ∷ []
unfolding as_slice write advance splice
write_runs = refl

abbrev input : InputBuffer
input = record { buffer = 5 ∷ 6 ∷ 7 ∷ []; offset = 1 }

abbrev static : StaticBuffer
static = record { buffer = 9 ∷ 0 ∷ 0 ∷ []; len = 1 }
