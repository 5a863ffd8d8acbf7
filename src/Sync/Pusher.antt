-- ===== src/Sync/Pusher.antt =====
-- app/sync/pusher.py: draining the outbox. All that is outside is a parameter: the state `W` of the
-- world, which a request changes, and the answers of the server, the token store and the clock.
-- A payload is built of records that are never changed, so that it is a function of the pointer.
pub mod Drain
pub mod Server
pub mod Books
pub mod Rounds
pub mod Ends
pub mod Drained
pub mod Safety
pub mod History
pub mod Emptied
use pos.Prelude.{
  ℕ, zero, suc, ◌+◌, ◌==◌, ltb, leb, Bool, true, false, ◌||◌, ◌&&◌, not, if◌then◌else◌, List, [],
  ◌∷◌, ◌++◌, length, map, Option, none, some, Result, ok, err, Text, codes, contains,
}
use pos.Cart.{is_nil}
use pos.Barcode.{padded}
use pos.Sync.Backoff.{Backoff, fail, reset}
use pos.Sync.Outbox.{
  Outbox, OutboxRow, Envelope, next_pending, mark_synced, record_attempt, quarantine,
}

abbrev pub batch_size : ℕ
batch_size = 200

-- `Outcome` of app/sync/tokens.py
pub data Outcome : Type 0 where
  refreshed dead unreachable nothing : Outcome

-- `SIGN_IN_NEEDED`
abbrev pub sign_in_needed : Text
sign_in_needed =
    codes
      "This till's cloud session has expired. Sales are safe on this machine; sign in again to resume sending them."

-- What comes of a request: an `httpx.HTTPError`, or a status and what `_detail` reads of the answer.
pub data Reply : Type 0 where
  failed : Text → Reply
  responded : ℕ → Text → Reply

-- `TransientError` for the first three, `AuthRefused` the third of them, `PermanentError` for the
-- last two, `SchemaTooOld` the first of them.
pub data PushError : Type 0 where
  no_session : PushError
  network : Text → PushError
  unavailable : ℕ → Text → PushError
  auth_refused : ℕ → Text → PushError
  schema_too_old : Text → PushError
  rejected : ℕ → Text → PushError

abbrev pub is_permanent : PushError → Bool
is_permanent (schema_too_old detail) = true
is_permanent (rejected status detail) = true
is_permanent _ = false

-- `f"HTTP {status}: {detail}"`, of a status with three digits
abbrev http_text : ℕ → Text → Text
http_text status detail = codes "HTTP " ++ padded 3 status ++ codes ": " ++ detail

-- `str(exc)`
unfoldable pub message : PushError → Text
message no_session = codes "no cloud session yet"
message (network text) = text
message (unavailable status detail) = http_text status detail
message (auth_refused status detail) = http_text status detail
message (schema_too_old detail) =
    codes "this terminal is behind the server (built for schema v3) and needs updating: " ++ detail
message (rejected status detail) = http_text status detail

-- `Pusher._raise_for`, after the request itself
unfoldable pub raise_for : Reply → Result PushError (Unit {0})
raise_for (failed text) = err (network text)
raise_for (responded status detail) =
    if ltb status 400
    then ok tt
    else if leb 500 status || status == 429
    then err (unavailable status detail)
    else if contains (codes "schema_version") detail || contains (codes "outdated_terminal") detail
    then err (schema_too_old detail)
    else if status == 401 || status == 403
    then err (auth_refused status detail)
    else err (rejected status detail)

pub record Cloud (W : Type 0) : Type 0 where
  pub token_provider : W → Option Text
  pub send : Text → List Envelope → W → Reply × W
  pub renew : Option (W → Outcome × W)
  pub utcnow : W → ℕ
  pub build : Text → Text → Text → ℕ → Result Text Envelope

pub record DrainResult : Type 0 where
  pub pushed : ℕ
  pub quarantined : ℕ
  pub batches : ℕ
  pub stopped_early : Bool
  pub error : Option Text

abbrev pub did_anything : DrainResult → Bool
did_anything r = not (r.pushed == 0) || not (r.quarantined == 0)

abbrev pub ids_of : List (OutboxRow × Envelope) → List ℕ
ids_of = map (λ e. e.0.id)

abbrev pub rows_of : List (OutboxRow × Envelope) → List OutboxRow
rows_of = map (λ e. e.0)

abbrev pub envelopes_of : List (OutboxRow × Envelope) → List Envelope
envelopes_of = map (λ e. e.1)

module _ {W : Type 0} (cloud : Cloud W) where
  -- `if not token`
  unfoldable pub post_with : Option Text → List Envelope → W → Result PushError (Unit {0}) × W
  post_with none envelopes w = (err no_session, w)
  post_with (some token) envelopes w =
      if is_nil token
      then (err no_session, w)
      else (let (reply, w') = cloud.send token envelopes w in (raise_for reply, w'))

  -- `Pusher._post`
  abbrev pub post : List Envelope → W → Result PushError (Unit {0}) × W
  post envelopes w = post_with (cloud.token_provider w) envelopes w

  abbrev pub build_row : OutboxRow → Result Text Envelope
  build_row row = cloud.build row.entity row.entity_id row.op row.client_seq

  abbrev sorted_out :
      OutboxRow
      → Result Text Envelope
      → List (OutboxRow × Envelope) × List (OutboxRow × Text)
      → List (OutboxRow × Envelope) × List (OutboxRow × Text)
  sorted_out row (ok envelope) (made, failures) = ((row, envelope) ∷ made, failures)
  sorted_out row (err reason) (made, failures) = (made, (row, reason) ∷ failures)

  -- `Pusher._build`
  unfoldable pub build_all : List OutboxRow → List (OutboxRow × Envelope) × List (OutboxRow × Text)
  build_all [] = ([], [])
  build_all (row ∷ rows) = sorted_out row (build_row row) (build_all rows)
