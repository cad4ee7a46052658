-- ===== src/Channel/Params.antt =====
-- src/channel.rs, the window of a channel and how it adapts to the round trip times. These are `f32`
-- values: a type that is a parameter, with the tests that the code makes.
use reticulum_sdk.Base.{ℕ, ◌+◌, ◌-◌, ◌%◌, min, Bool, ◌&&◌, ltb, ◌==◌, if◌then◌else◌}

abbrev pub window_initial : ℕ
window_initial = 2

abbrev pub window_min_initial : ℕ
window_min_initial = 2

abbrev pub window_min_limit_medium : ℕ
window_min_limit_medium = 5

abbrev pub window_min_limit_fast : ℕ
window_min_limit_fast = 16

abbrev pub window_max_slow : ℕ
window_max_slow = 5

abbrev pub window_max_medium : ℕ
window_max_medium = 12

abbrev pub window_max_fast : ℕ
window_max_fast = 48

abbrev pub window_flexibility : ℕ
window_flexibility = 4

abbrev pub fast_rate_threshold : ℕ
fast_rate_threshold = 10

abbrev pub channel_max_tries : ℕ
channel_max_tries = 5

-- The comparisons with RTT_FAST, RTT_MEDIUM and RTT_SLOW.
pub record RttTests (Rtt : Type 0) : Type 0 where
  pub is_zero : Rtt → Bool
  pub above_fast : Rtt → Bool
  pub above_medium : Rtt → Bool
  pub above_slow : Rtt → Bool

pub record ChannelParams : Type 0 where
  pub max_tries : ℕ
  pub fast_rate_rounds : ℕ
  pub medium_rate_rounds : ℕ
  pub window : ℕ
  pub window_max : ℕ
  pub window_min : ℕ

unfoldable pub channel_params_new : Bool → ChannelParams
channel_params_new slow = record {
  max_tries = channel_max_tries;
  fast_rate_rounds = 0;
  medium_rate_rounds = 0;
  window = if slow then 1 else window_initial;
  window_max = if slow then 1 else window_max_slow;
  window_min = if slow then 1 else window_min_initial;
}

-- `params.window += 1` below the maximum.
unfoldable pub widen : ChannelParams → ChannelParams
widen p = if ltb p.window p.window_max then record p { window = p.window + 1 } else p

-- A round at a medium rate, and one at a fast rate. The counters are `u16`.
unfoldable pub medium_round : ChannelParams → ChannelParams
medium_round p =
    let rounds = (p.medium_rate_rounds + 1) % 65536 in
    if ltb p.window_max window_max_medium && (rounds == fast_rate_threshold)
    then record p {
      medium_rate_rounds = rounds;
      window_max = window_max_medium;
      window_min = window_min_limit_medium;
    }
    else record p { medium_rate_rounds = rounds }

unfoldable pub fast_round : ChannelParams → ChannelParams
fast_round p =
    let rounds = (p.fast_rate_rounds + 1) % 65536 in
    if ltb p.window_max window_max_fast && (rounds == fast_rate_threshold)
    then record p {
      fast_rate_rounds = rounds;
      window_max = window_max_fast;
      window_min = window_min_limit_fast;
    }
    else record p { fast_rate_rounds = rounds }

-- The part of `handle_timeout` that narrows the window.
unfoldable pub narrow : ChannelParams → ChannelParams
narrow p =
    let flex = min window_flexibility (p.window_max - p.window_min) in
    if ltb p.window_min p.window
    then (if ltb (p.window_min + flex) p.window_max
        then record p { window = p.window - 1; window_max = p.window_max - 1 }
        else record p { window = p.window - 1 })
    else p

module _ {Rtt : Type 0} (tests : RttTests Rtt) where
  unfoldable pub adjust_params : Rtt → ChannelParams → ChannelParams
  unfolding widen medium_round fast_round
  adjust_params rtt params =
      let p = widen params in
      let reset = record p { fast_rate_rounds = 0 } in
      if tests.is_zero rtt
      then p
      else if tests.above_fast rtt
      then (if tests.above_medium rtt
          then record reset { medium_rate_rounds = 0 }
          else medium_round reset)
      else fast_round p
