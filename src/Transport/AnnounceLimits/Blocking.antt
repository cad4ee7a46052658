-- ===== src/Transport/AnnounceLimits/Blocking.antt =====
-- When the announce rate limiter (src/transport/announce_limits.rs) blocks.
use native.Mathlib.Nat.{add-zero}
use reticulum_sdk.Base.{
  ℕ, suc, ◌+◌, ◌-◌, ◌%◌, ◌^◌, ◌≤◌, ◌<◌, ◌≡◌, refl, sym, ap, ◌∙◌, List, [], ◌∷◌, map, length, All,
  Option, none, some, arith,
}
use reticulum_sdk.Transport.AnnounceLimits.{
  AnnounceRateLimit, AnnounceLimitEntry, handle_announce, penalty_or_zero,
}

-- The limiter after announces at the given instants, and its answers to them.
unfoldable pub run : List ℕ → AnnounceLimitEntry → AnnounceLimitEntry
run [] e = e
run (now ∷ rest) e = run rest (handle_announce now e).0

unfoldable pub answers : List ℕ → AnnounceLimitEntry → List (Option ℕ)
answers [] e = []
answers (now ∷ rest) e = (handle_announce now e).1 ∷ answers rest (handle_announce now e).0

-- Each announce comes sooner than `target` after the one before it, and not before `from`.
abbrev pub Fast : ℕ → ℕ → ℕ → List ℕ → Type 0
Fast target from last [] = Unit {0}
Fast target from last (now ∷ rest) =
    (from ≤ now) × (now < last + target) × Fast target from now rest

-- Each announce comes `target` or more after the one before it, and not before `from`.
abbrev pub Spaced : ℕ → ℕ → ℕ → List ℕ → Type 0
Spaced target from last [] = Unit {0}
Spaced target from last (now ∷ rest) =
    (from ≤ now) × (last + target ≤ now) × Spaced target from now rest

abbrev pub Accepted : Option ℕ → Type 0
Accepted r = r ≡ none

abbrev pub last_of : ℕ → List ℕ → ℕ
last_of last [] = last
last_of last (now ∷ rest) = last_of now rest

module _ (limit : AnnounceRateLimit) where
  burst_step :
      (now : ℕ) (e : AnnounceLimitEntry)
      → e.rate_limit ≡ some limit
      → e.blocked_until ≤ now
      → now < e.last_announce + limit.target
      → e.violations + 1 ≤ limit.grace
      → limit.grace + 1 < 2 ^ 32
      → handle_announce now e
        ≡ (record e { violations = e.violations + 1; last_announce = now }, none)
  unfolding handle_announce
  burst_step now e cfg free fast room small =
      let whole : (e.violations + 1) % 2 ^ 32 ≡ e.violations + 1 = omega arith in
      rw (cfg, handle_announce, whole) (ground arith)

  burst_state :
      (ts : List ℕ) (e : AnnounceLimitEntry)
      → e.rate_limit ≡ some limit
      → Fast limit.target e.blocked_until e.last_announce ts
      → e.violations + length ts ≤ limit.grace
      → limit.grace + 1 < 2 ^ 32
      → All Accepted (answers ts e)
        × (run ts e ≡ record e {
          violations = e.violations + length ts;
          last_announce = last_of e.last_announce ts;
        })
  unfolding run answers
  burst_state [] e cfg fast room small =
      (tt, ap (λ v. record e { violations = v }) (sym (add-zero e.violations)))
  burst_state (now ∷ rest) e cfg fast room small =
      let step = burst_step now e cfg fast.0 fast.1 (omega arith) small in
      let e' : AnnounceLimitEntry = record e {
        violations = e.violations + 1;
        last_announce = now;
      } in
      let later = burst_state rest e' cfg fast.2 (omega arith) small in
      let total : e.violations + 1 + length rest ≡ e.violations + suc (length rest) = omega arith in
      rw step (
        (refl, later.0),
        later.1 ∙ ap (λ v. record e { violations = v; last_announce = last_of now rest }) total,
      )

  block_step :
      (now : ℕ) (e : AnnounceLimitEntry)
      → e.rate_limit ≡ some limit
      → e.blocked_until ≤ now
      → now < e.last_announce + limit.target
      → limit.grace ≡ e.violations
      → limit.grace + 1 < 2 ^ 32
      → handle_announce now e ≡ (
        record e {
          violations = 0;
          blocked_until = e.last_announce + limit.target + penalty_or_zero limit.penalty;
        },
        some (e.last_announce + limit.target + penalty_or_zero limit.penalty - now),
      )
  unfolding handle_announce
  block_step now e cfg free fast full small =
      let whole : (e.violations + 1) % 2 ^ 32 ≡ e.violations + 1 = omega arith in
      rw (cfg, handle_announce, whole) (ground arith)

  -- Announces that come sooner than `target` after each other are accepted until the violations
  -- reach `grace`; the next such announce is blocked until `target` plus the penalty after the
  -- last accepted one, and the result is the time left. `grace` is below 2^32 - 1.
  pub burst_blocked :
      (ts : List ℕ) (now : ℕ) (e : AnnounceLimitEntry)
      → e.rate_limit ≡ some limit
      → Fast limit.target e.blocked_until e.last_announce ts
      → e.blocked_until ≤ now
      → now < last_of e.last_announce ts + limit.target
      → e.violations + length ts ≡ limit.grace
      → limit.grace + 1 < 2 ^ 32
      → All Accepted (answers ts e)
        × ((handle_announce now (run ts e)).1
            ≡ some
                (last_of e.last_announce ts + limit.target + penalty_or_zero limit.penalty - now))
        × ((handle_announce now (run ts e)).0.blocked_until
            ≡ last_of e.last_announce ts + limit.target + penalty_or_zero limit.penalty)
  burst_blocked ts now e cfg fast free soon full small =
      let before = burst_state ts e cfg fast (omega arith) small in
      let blocked = block_step now burst cfg free soon (sym full) small in
      rw before.1 (before.0, ap (λ p. p.1) blocked, ap (λ p. p.0.blocked_until) blocked)
    where
      burst : AnnounceLimitEntry
      burst = record e {
        violations = e.violations + length ts;
        last_announce = last_of e.last_announce ts;
      }

  blocked_step :
      (now : ℕ) (e : AnnounceLimitEntry)
      → e.rate_limit ≡ some limit
      → now < e.blocked_until
      → handle_announce now e ≡ (e, some (e.blocked_until - now))
  unfolding handle_announce
  blocked_step now e cfg soon = rw (cfg, handle_announce) (ground arith)

  -- Announces during a block do not extend it: the limiter is unchanged by any number of them, and
  -- each answer is the time left.
  blocked_stays :
      (ts : List ℕ) (e : AnnounceLimitEntry)
      → e.rate_limit ≡ some limit
      → All (λ now. now < e.blocked_until) ts
      → (run ts e ≡ e) × (answers ts e ≡ map (λ now. some (e.blocked_until - now)) ts)
  unfolding run answers
  blocked_stays [] e cfg soon = (refl, refl)
  blocked_stays (now ∷ rest) e cfg soon =
      let later = blocked_stays rest e cfg soon.1 in
      rw (blocked_step now e cfg soon.0) (later.0, ap (◌∷◌ (some (e.blocked_until - now))) later.1)

  spaced_step :
      (now : ℕ) (e : AnnounceLimitEntry)
      → e.rate_limit ≡ some limit
      → e.blocked_until ≤ now
      → e.last_announce + limit.target ≤ now
      → handle_announce now e
        ≡ (record e { violations = e.violations - 1; last_announce = now }, none)
  unfolding handle_announce
  spaced_step now e cfg free spaced = rw (cfg, handle_announce) (ground arith)

  -- Announces that come `target` or more after each other, outside a block, are all accepted, and
  -- each takes one violation away.
  Spaced-Accepted :
      (ts : List ℕ) (e : AnnounceLimitEntry)
      → e.rate_limit ≡ some limit
      → Spaced limit.target e.blocked_until e.last_announce ts
      → All Accepted (answers ts e) × ((run ts e).violations ≡ e.violations - length ts)
  unfolding run answers
  Spaced-Accepted [] e cfg spaced = (tt, omega arith)
  Spaced-Accepted (now ∷ rest) e cfg spaced =
      let e' : AnnounceLimitEntry = record e {
        violations = e.violations - 1;
        last_announce = now;
      } in
      let later = Spaced-Accepted rest e' cfg spaced.2 in
      let step = spaced_step now e cfg spaced.0 spaced.1 in
      let total : e.violations - 1 - length rest ≡ e.violations - suc (length rest) = omega arith in
      (rw step (refl, later.0), ap (λ p. (run rest p.0).violations) step ∙ later.1 ∙ total)
