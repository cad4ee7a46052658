-- ===== src/Base/Bytes.antt =====
-- The bit operations on bytes, checked on all of them. No code is modelled here.
use Prim.Native.Nat.{ℕ, bit_xor, bit_and, bit_or, ◌<◌}
use mathlib.Core.Bool.{Bool, true, not}
use mathlib.Core.List.{List, [], ◌∷◌}
use mathlib.Core.Path.{◌≡◌, refl}
use reticulum_sdk.Base.Tests.{passes, ◌==◌, passes_at, ==_iff, ltb, ltb→lt}

abbrev pub IsByte : ℕ → Type 0
IsByte x = x < 256

-- What masking a byte with another, and setting or clearing the highest bit, leaves of it.
abbrev toggles : ℕ → ℕ → Bool
toggles m x = bit_xor (bit_xor x m) m == x

abbrev flags : ℕ → ℕ → Bool
flags m x = bit_and (bit_xor (bit_or (bit_xor x m) 0x80) m) 0x7f == bit_and x 0x7f

abbrev flagged : ℕ → Bool
flagged x = not (bit_and (bit_or x 0x80) 0x80 == 0)

abbrev stays : ℕ → ℕ → Bool
stays m x = ltb (bit_xor x m) 256

toggle_table : passes (λ m. passes (toggles m) 256) 256 ≡ true
unfolding passes
toggle_table = refl

flag_table : passes (λ m. passes (flags m) 256) 256 ≡ true
unfolding passes
flag_table = refl

flagged_table : passes flagged 256 ≡ true
unfolding passes
flagged_table = refl

stays_table : passes (λ m. passes (stays m) 256) 256 ≡ true
unfolding passes
stays_table = refl

module _ (m x : ℕ) (mask : IsByte m) (byte : IsByte x) where
  at_both : (test : ℕ → ℕ → Bool) → passes (λ m. passes (test m) 256) 256 ≡ true → test m x ≡ true
  at_both test table =
      passes_at (test m) 256 (passes_at (λ m. passes (test m) 256) 256 table m mask) x byte

  pub bit_xor_twice : bit_xor (bit_xor x m) m ≡ x
  bit_xor_twice = (==_iff _ x).0 (at_both toggles toggle_table)

  pub flag_masked : bit_and (bit_xor (bit_or (bit_xor x m) 0x80) m) 0x7f ≡ bit_and x 0x7f
  flag_masked = (==_iff _ (bit_and x 0x7f)).0 (at_both flags flag_table)

  pub bit_xor-IsByte : IsByte (bit_xor x m)
  bit_xor-IsByte = ltb→lt (bit_xor x m) 256 (at_both stays stays_table)

pub flag_set : (x : ℕ) → IsByte x → not (bit_and (bit_or x 0x80) 0x80 == 0) ≡ true
flag_set x byte = passes_at flagged 256 flagged_table x byte

-- Byte by byte, as far as both lists go.
unfoldable pub xor_bytes : List ℕ → List ℕ → List ℕ
xor_bytes [] mask = []
xor_bytes (x ∷ xs) [] = x ∷ xs
xor_bytes (x ∷ xs) (m ∷ mask) = bit_xor x m ∷ xor_bytes xs mask
