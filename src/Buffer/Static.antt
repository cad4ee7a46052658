-- ===== src/Buffer/Static.antt =====
-- src/buffer.rs, `StaticBuffer<N>`: an owned array of `N` bytes of which the first `len` are in use.
use reticulum_sdk.Base.{ℕ, ◌+◌, ◌-◌, List, length, take, replicate, min, ltb, ◌==◌, if◌then◌else◌}
use reticulum_sdk.Error.{Result, ok, err, Fallible, out_of_memory}
use reticulum_sdk.Buffer.Output.{splice}

pub record StaticBuffer : Type 0 where
  pub buffer : List ℕ
  pub len : ℕ

unfoldable pub static_new : ℕ → StaticBuffer
static_new n = record { buffer = replicate n 0; len = 0 }

unfoldable pub static_reset : StaticBuffer → StaticBuffer
static_reset b = record b { len = 0 }

unfoldable pub resize : StaticBuffer → ℕ → StaticBuffer
resize b len = record b { len = min len (length b.buffer) }

unfoldable pub static_write : List ℕ → Fallible StaticBuffer ℕ
static_write bytes b =
    if length bytes == 0
    then (ok 0, b)
    else (if ltb (length b.buffer) (b.len + length bytes) then (err out_of_memory, b) else (
      ok (length bytes),
      record { buffer = splice b.buffer b.len bytes; len = b.len + length bytes },
    ))

-- `.unwrap_or(0)`
abbrev unwrap_or_zero : Result ℕ → ℕ
unwrap_or_zero (ok n) = n
unwrap_or_zero (err e) = 0

unfoldable pub safe_write : List ℕ → StaticBuffer → ℕ × StaticBuffer
safe_write bytes b =
    let max_size = min (length bytes) (length b.buffer - b.len) in
    let (r, b') = static_write (take max_size bytes) b in (unwrap_or_zero r, b')

unfoldable pub static_from_slice : ℕ → List ℕ → StaticBuffer
static_from_slice n bytes = (safe_write bytes (static_new n)).1

unfoldable pub static_slice : StaticBuffer → List ℕ
static_slice b = take b.len b.buffer
