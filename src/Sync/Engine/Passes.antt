-- ===== src/Sync/Engine/Passes.antt =====
-- What a pass of app/sync/engine.py shows at the register, and the wait after it.
use pos.Prelude.{
  ℕ, zero, suc, ◌≤◌, ◌≡◌, ◌⊎◌, inl, inr, refl, sym, ap, ◌∙◌, Bool, Bool-cases, true, false, Option,
  none, some, Result, ok, err, text_eq_refl, min, arith,
}
use mathlib.Core.Option.{some-injective}
use pos.Sync.Backoff.{Backoff, default_backoff, reset, seconds}
use pos.Sync.Backoff.Waits.{fails, seconds-fails}
use pos.Sync.Outbox.{Envelope, Outbox, backlog}
use pos.Sync.Pusher.{Cloud, DrainResult, sign_in_needed}
use pos.Sync.Pusher.Drain.{Sync, drain}
use pos.Sync.Pusher.Server.{Server}
use pos.Sync.Pusher.Safety.{IsHealthy, drain-IsHealthy}
use pos.Sync.Engine.{
  SyncStatus, wants_signin, push, pull, refresh, Pass, cycle, next_delay, next_wait,
}

abbrev pub returned {ℓ κ} : {E : Type ℓ} {A : Type κ} → Result E A → Bool
returned (ok _) = true
returned (err _) = false

module _ {W : Type 0} (cloud : Cloud W) (Accepted : Envelope → W → Type 0) where
  -- A pass whose drain is the one of the pusher, over a queue in good order and with a server that keeps
  -- what it accepts, shows no backlog whenever it shows the cloud as online and nothing was queued
  -- while it pulled.
  pub cycle-clear :
      Server cloud Accepted
      → (s s' : Sync W) (r : DrainResult) (pass : Pass) (st : SyncStatus)
      → IsHealthy cloud Accepted s
      → drain cloud s ≡ some (r, s')
      → pass.drains s.outbox ≡ (ok r, s'.outbox)
      → (pass.pulls s'.outbox).1 ≡ s'.outbox
      → let st' = (cycle pass (st, s.outbox)).1.0 in (st'.online ≡ false) ⊎ (st'.backlog ≡ 0)
  unfolding cycle push pull refresh
  cycle-clear server s s' r pass st healthy drained same quiet =
      let (r₀, s₀, done, keys_, healthy_, end) = drain-IsHealthy cloud Accepted server s healthy in
      let it : (r₀, s₀) ≡ (r, s') = some-injective _ _ (sym done ∙ drained) in
      elim end [
        | inl early ↦
            let stops : r.stopped_early ≡ true =
              ap (λ (q : DrainResult × Sync W). q.0.stopped_early) (sym it) ∙ early in
            rw (same, stops) (inl refl)
        | inr empty ↦
            let none_left : backlog s'.outbox ≡ 0 =
              ap (λ (q : DrainResult × Sync W). backlog q.1.outbox) (sym it) ∙ empty in
            elim (Bool-cases r.stopped_early) [
              | inl e ↦ rw (same, e) (inl refl)
              | inr e ↦ rw (same, e, quiet, none_left) (inr refl)
            ]
      ]

-- A drain that stopped for want of a session leaves the register offline and asking for a sign-in.
pub cycle-sign_in :
    (pass : Pass) (st : SyncStatus) (o : Outbox) (r : DrainResult)
    → (pass.drains o).0 ≡ ok r
    → r.stopped_early ≡ true
    → r.error ≡ some sign_in_needed
    → let st' = (cycle pass (st, o)).1.0 in (st'.needs_signin ≡ true) × (st'.online ≡ false)
unfolding cycle push refresh
cycle-sign_in pass st o r d e w =
    let asks : wants_signin r.error ≡ true = rw w (text_eq_refl sign_in_needed) in
    rw (d, e, asks) (refl, refl)

seconds-le-next_delay : (r : DrainResult) (b : Backoff) → seconds b ≤ next_delay (some r) b
unfolding next_delay
seconds-le-next_delay r b = ground arith

next_delay-le_cap :
    (n : ℕ) (r : DrainResult) → next_delay (some r) (fails (suc n) (reset default_backoff)) ≤ 300
unfolding next_delay
next_delay-le_cap n r =
    let wait = seconds-fails n default_backoff (omega arith) (omega arith) in ground (arith, wait)

next_delay-le_idle : (r : DrainResult) → next_delay (some r) (reset default_backoff) ≤ 300
unfolding next_delay reset
next_delay-le_idle r = ground arith

next_delay-le :
    (n : ℕ) (ran : Option DrainResult) → next_delay ran (fails n (reset default_backoff)) ≤ 300
unfolding next_delay
next_delay-le n none = omega arith
next_delay-le zero (some r) = next_delay-le_idle r
next_delay-le (suc n) (some r) = next_delay-le_cap n r

-- What ends a wait of so many seconds.
pub data Wait (b : Backoff) : Option DrainResult → Option ℕ → ℕ → Type 0 where
  in_full : (r : DrainResult) (wait : ℕ) → seconds b ≤ wait → Wait b (some r) none wait
  raised : Wait b none none 90
  nudged : (ran : Option DrainResult) (at wait : ℕ) → wait ≤ at → Wait b ran (some at) wait

-- With the waits of the program, after any number of failed drains since the last that succeeded, the
-- loop waits at most five minutes for its next pass. A nudge ends the wait when it comes. Without one
-- the backoff is waited out after a pass that returned, and 90 seconds pass after one that raised,
-- whatever the backoff.
pub next_wait_lem :
    (n : ℕ) (ran : Option DrainResult) (nudge : Option ℕ)
    → let b = fails n (reset default_backoff) in
      (next_wait ran b nudge ≤ 300) × Wait b ran nudge (next_wait ran b nudge)
unfolding next_delay next_wait
next_wait_lem n none none = (next_delay-le n none, raised)
next_wait_lem n (some r) none =
    let b = fails n (reset default_backoff) in
    (next_delay-le n (some r), in_full r (next_delay (some r) b) (seconds-le-next_delay r b))
next_wait_lem n ran (some at) =
    let delay = next_delay ran (fails n (reset default_backoff)) in
    let le : delay ≤ 300 = next_delay-le n ran in
    (omega (arith, le), nudged ran at (min at delay) (omega arith))
