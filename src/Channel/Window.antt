-- ===== src/Channel/Window.antt =====
-- The bounds of the window and of the tries of a channel in src/channel.rs.
use reticulum_sdk.Base.{◌≤◌, ◌≡◌, refl, inl, inr, Bool, true, false, Bool-cases, arith}
use reticulum_sdk.Channel.Params.{
  RttTests, ChannelParams, channel_params_new, widen, medium_round, fast_round, narrow,
  adjust_params,
}

abbrev pub ParamsOk : ChannelParams → Type 0
ParamsOk p =
    (1 ≤ p.window)
    × (p.window ≤ p.window_max)
    × (1 ≤ p.window_min)
    × (p.window_min ≤ p.window_max)
    × (p.window_max ≤ 48)
    × (p.max_tries ≡ 5)

pub channel_params_new-ParamsOk : (slow : Bool) → ParamsOk (channel_params_new slow)
unfolding channel_params_new
channel_params_new-ParamsOk true =
    (omega arith, omega arith, omega arith, omega arith, omega arith, refl)
channel_params_new-ParamsOk false =
    (omega arith, omega arith, omega arith, omega arith, omega arith, refl)

module _ (p : ChannelParams) (h : ParamsOk p) where
  widen-ParamsOk : ParamsOk (widen p)
  unfolding widen
  widen-ParamsOk = grind arith

  medium_round-ParamsOk : ParamsOk (medium_round p)
  unfolding medium_round
  medium_round-ParamsOk = grind arith

  fast_round-ParamsOk : ParamsOk (fast_round p)
  unfolding fast_round
  fast_round-ParamsOk = grind arith

  pub narrow-ParamsOk : ParamsOk (narrow p)
  unfolding narrow
  narrow-ParamsOk = grind arith

module _ {Rtt : Type 0} (tests : RttTests Rtt) where
  pub adjust_params-ParamsOk :
      (rtt : Rtt) (p : ChannelParams) → ParamsOk p → ParamsOk (adjust_params tests rtt p)
  unfolding adjust_params
  adjust_params-ParamsOk rtt p h =
      let wide = widen-ParamsOk p h in
      elim (Bool-cases (tests.is_zero rtt)) [
        | inl zero' ↦ rw (zero', adjust_params) wide
        | inr some' ↦ elim (Bool-cases (tests.above_fast rtt)) [
          | inr fast ↦ rw (some', fast, adjust_params) (fast_round-ParamsOk (widen p) wide)
          | inl slower ↦ elim (Bool-cases (tests.above_medium rtt)) [
            | inl slow ↦ rw (some', slower, slow, adjust_params) wide
            | inr medium ↦
                rw (some', slower, medium, adjust_params)
                  (medium_round-ParamsOk (record (widen p) { fast_rate_rounds = 0 }) wide)
          ]
        ]
      ]
