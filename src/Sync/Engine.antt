-- ===== src/Sync/Engine.antt =====
-- app/sync/engine.py: one pass of the sync loop, and how long the loop waits for the next. What the
-- token store answered is given; a drain and a pull are functions of the queue, with a result or the
-- text of an exception. The end of the loop by a cancellation is left out.
pub mod Passes
use pos.Prelude.{
  ℕ, ◌+◌, ◌==◌, ltb, leb, max, min, Bool, true, false, ◌&&◌, not, if◌then◌else◌, Option, none, some,
  Result, ok, err, Text, text_eq, contains, codes,
}
use pos.Sync.Backoff.{Backoff, is_backing_off, seconds}
use pos.Sync.Outbox.{Outbox, backlog, oldest_pending_at, unacknowledged_failures}
use pos.Sync.Pusher.{Outcome, refreshed, dead, DrainResult, did_anything, sign_in_needed}

-- In seconds, as whole numbers.
abbrev pub idle_interval : ℕ
idle_interval = 90

abbrev pub busy_interval : ℕ
busy_interval = 5

pub record SyncStatus : Type 0 where
  pub online : Bool
  pub backlog : ℕ
  pub oldest_pending_at : Option ℕ
  pub failures : ℕ
  pub last_push_at : Option ℕ
  pub last_pull_at : Option ℕ
  pub last_error : Option Text
  pub needs_update : Bool
  pub needs_signin : Bool

-- `_keep_session_alive`, with what `ensure_fresh` answered; `none` without a refresher.
unfoldable pub keep_session_alive : Option Outcome → SyncStatus → SyncStatus
keep_session_alive (some refreshed) st = record st { needs_signin = false }
keep_session_alive (some dead) st = record st {
  needs_signin = true;
  last_error = some sign_in_needed;
}
keep_session_alive _ st = st

-- `DrainResult(stopped_early=True, error=str(exc))`
abbrev pub gave_up : Text → DrainResult
gave_up text = record {
  pushed = 0;
  quarantined = 0;
  batches = 0;
  stopped_early = true;
  error = some text;
}

abbrev pub wants_update : Option Text → Bool
wants_update none = false
wants_update (some error) = contains (codes "needs updating") error

abbrev pub wants_signin : Option Text → Bool
wants_signin none = false
wants_signin (some error) = text_eq error sign_in_needed

-- `_push`
unfoldable pub push : Result Text DrainResult → ℕ → SyncStatus → DrainResult × SyncStatus
push (err text) now st = (gave_up text, record st { online = false; last_error = some text })
push (ok r) now st = (
  r,
  record st {
    last_push_at = if r.pushed == 0 then st.last_push_at else some now;
    online = not r.stopped_early;
    last_error = r.error;
    needs_update = wants_update r.error;
    needs_signin =
        if wants_signin r.error then true else if r.pushed == 0 then st.needs_signin else false;
  },
)

-- `_pull`
unfoldable pub pull : Result Text (Unit {0}) → ℕ → SyncStatus → SyncStatus
pull (err text) now st = record st { online = false; last_error = some text }
pull (ok _) now st = record st { last_pull_at = some now; online = true; needs_signin = false }

-- `_refresh`
unfoldable pub refresh : Outbox → SyncStatus → SyncStatus
refresh o st = record st {
  backlog = pos.Sync.Outbox.backlog o;
  oldest_pending_at = pos.Sync.Outbox.oldest_pending_at o;
  failures = unacknowledged_failures o;
}

-- What is done in a pass: a drain and a pull, with the sweep after it, each with the queue as it is when
-- they are done, sales that were queued meanwhile included.
pub record Pass : Type 0 where
  pub renewal : Option Outcome
  pub drains : Outbox → Result Text DrainResult × Outbox
  pub pulls : Outbox → Result Text (Unit {0}) × Outbox
  pub pushed_at : ℕ
  pub pulled_at : ℕ

abbrev pub pull_after : DrainResult → Pass → SyncStatus × Outbox → SyncStatus × Outbox
pull_after r pass (st, o) =
    let (pulled, o') = pass.pulls o in
    if r.stopped_early then (st, o) else (pull pulled pass.pulled_at st, o')

-- `cycle`, with the queue that it leaves
unfoldable pub cycle : Pass → SyncStatus × Outbox → DrainResult × (SyncStatus × Outbox)
cycle pass (st, o) =
    let (drained, o₁) = pass.drains o in
    let (r, st₁) = push drained pass.pushed_at (keep_session_alive pass.renewal st) in
    let (st₂, o₂) = pull_after r pass (st₁, o₁) in (r, (refresh o₂ st₂, o₂))

-- The `delay` of `_run`; `none` where the pass raised.
unfoldable pub next_delay : Option DrainResult → Backoff → ℕ
next_delay none b = idle_interval
next_delay (some r) b =
    let delay : ℕ = if did_anything r then busy_interval else idle_interval in
    if is_backing_off b then max delay (seconds b) else delay

-- How long `_run` waits for the next pass: the delay, or less where a `nudge` comes so many seconds
-- into it, at once where one came before.
unfoldable pub next_wait : Option DrainResult → Backoff → Option ℕ → ℕ
unfolding next_delay
next_wait ran b none = next_delay ran b
next_wait ran b (some nudged) = min nudged (next_delay ran b)
