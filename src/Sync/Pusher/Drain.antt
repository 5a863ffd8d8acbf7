-- ===== src/Sync/Pusher/Drain.antt =====
-- The loop of `drain` of app/sync/pusher.py, one round at a time.
use pos.Prelude.{
  ℕ, zero, suc, ◌+◌, ◌==◌, Bool, true, false, if◌then◌else◌, List, [], ◌∷◌, ◌++◌, length, map,
  Option, none, some, Result, ok, err, Text, codes,
}
use pos.Cart.{is_nil}
use pos.Sync.Backoff.{Backoff, fail, reset}
use pos.Sync.Outbox.{
  Outbox, OutboxRow, Envelope, next_pending, mark_synced, record_attempt, quarantine, backlog,
}
use pos.Sync.Pusher.{
  batch_size, Outcome, refreshed, dead, sign_in_needed, PushError, auth_refused, schema_too_old,
  rejected, is_permanent, message, Cloud, DrainResult, ids_of, rows_of, envelopes_of, post,
  build_all,
}

-- The terminal while it drains: its queue, its waits, and the world.
pub record Sync (W : Type 0) : Type 0 where
  pub outbox : Outbox
  pub backoff : Backoff
  pub world : W

-- The local variables of `drain`.
pub record Progress : Type 0 where
  pub pushed : ℕ
  pub quarantined : ℕ
  pub batches : ℕ
  pub refreshed : Bool

abbrev pub start : Progress
start = record { pushed = 0; quarantined = 0; batches = 0; refreshed = false }

abbrev pub finished : Progress → DrainResult
finished p = record {
  pushed = p.pushed;
  quarantined = p.quarantined;
  batches = p.batches;
  stopped_early = false;
  error = none;
}

abbrev pub stopped : Progress → Text → DrainResult
stopped p error = record {
  pushed = p.pushed;
  quarantined = p.quarantined;
  batches = p.batches;
  stopped_early = true;
  error = some error;
}

-- How a round of `drain` ends: it returns, or the loop goes on.
pub data Next (W : Type 0) : Type 0 where
  returns : DrainResult → Sync W → Next W
  again : Progress → Sync W → Next W

-- `"; ".join(...)`
unfoldable pub joined : List Text → Text
joined [] = []
joined (text ∷ texts) = if is_nil texts then text else text ++ codes "; " ++ joined texts

module _ {W : Type 0} (cloud : Cloud W) where
  abbrev dict_of : List (OutboxRow × Envelope) → List (ℕ × Envelope)
  dict_of = map (λ e. (e.0.id, e.1))

  -- `Pusher._quarantine`
  unfoldable pub set_aside : List (OutboxRow × Envelope) → Text → Sync W → Sync W
  set_aside envelopes error s = record s {
    outbox =
        quarantine (rows_of envelopes) error (cloud.utcnow s.world) (dict_of envelopes) s.outbox;
  }

  abbrev mark : List ℕ → Sync W → Sync W
  mark ids s = record s { outbox = mark_synced ids (cloud.utcnow s.world) s.outbox }

  -- `Pusher._isolate`, with its two counters
  unfoldable pub isolate :
      List (OutboxRow × Envelope) → ℕ → ℕ → Sync W → Result PushError (ℕ × ℕ) × Sync W
  isolate [] sent bad s = (ok (sent, bad), s)
  isolate ((row, envelope) ∷ rest) sent bad s =
      let (reply, w) = post cloud (envelope ∷ []) s.world in
      let s' : Sync W = record s { world = w } in
      elim reply [
        | ok _ ↦ isolate rest (sent + 1) bad (mark (row.id ∷ []) s')
        | err e ↦ (elim (is_permanent e) [
          | true ↦ isolate rest sent (bad + 1) (set_aside ((row, envelope) ∷ []) (message e) s')
          | false ↦ (err e, s')
        ])
      ]

  -- A failure that is to be tried again later.
  abbrev pub defer : List ℕ → Text → Progress → Sync W → Next W
  defer ids error p s =
      returns (stopped p error)
        (record s { outbox = record_attempt ids error s.outbox; backoff = fail s.backoff })

  abbrev pub count_sent : Progress → ℕ → ℕ → Progress
  count_sent p sent bad = record p {
    pushed = p.pushed + sent;
    quarantined = p.quarantined + bad;
    batches = p.batches + 1;
  }

  -- What the handler of `AuthRefused` does with the outcome of `renew`.
  abbrev pub renewed : Outcome → List ℕ → Text → Progress → Sync W → Next W
  renewed refreshed ids error p s = again (record p { refreshed = true }) s
  renewed dead ids error p s =
      returns (stopped p sign_in_needed)
        (record s { outbox = record_attempt ids sign_in_needed s.outbox })
  renewed _ ids error p s = defer ids error p s

  abbrev pub refused_auth :
      Option (W → Outcome × W) → Bool → List ℕ → Text → Progress → Sync W → Next W
  refused_auth (some renew) false ids error p s =
      let (outcome, w) = renew s.world in renewed outcome ids error p (record s { world = w })
  refused_auth _ _ ids error p s = defer ids error p s

  abbrev pub isolated : List ℕ → Progress → Result PushError (ℕ × ℕ) × Sync W → Next W
  isolated ids p (ok (sent, bad), s) = again (count_sent p sent bad) s
  isolated ids p (err e, s) = defer ids (message e) p s

  -- The handlers of `drain`, by the class of the exception.
  unfoldable pub handle : List (OutboxRow × Envelope) → PushError → Progress → Sync W → Next W
  handle envelopes (auth_refused status detail) p s =
      refused_auth cloud.renew p.refreshed (ids_of envelopes) (message (auth_refused status detail))
        p s
  handle envelopes (schema_too_old detail) p s =
      again (count_sent p 0 (length envelopes))
        (set_aside envelopes (message (schema_too_old detail)) s)
  handle envelopes (rejected status detail) p s =
      if length envelopes == 1
      then again (count_sent p 0 1) (set_aside envelopes (message (rejected status detail)) s)
      else isolated (ids_of envelopes) p (isolate envelopes 0 0 s)
  handle envelopes e p s = defer (ids_of envelopes) (message e) p s

  -- A batch that was accepted.
  abbrev pub acknowledged : List (OutboxRow × Envelope) → Progress → Sync W → Next W
  acknowledged envelopes p s =
      let s' = mark (ids_of envelopes) s in
      again (count_sent p (length envelopes) 0) (record s' { backoff = reset s'.backoff })

  abbrev pub answered :
      List (OutboxRow × Envelope) → Progress → Sync W → Result PushError (Unit {0}) → Next W
  answered envelopes p s (ok _) = acknowledged envelopes p s
  answered envelopes p s (err e) = handle envelopes e p s

  -- `if not envelopes: continue`, and what follows it
  unfoldable pub send_batch : List (OutboxRow × Envelope) → Progress → Sync W → Next W
  send_batch [] p s = again p s
  send_batch (e ∷ envelopes) p s =
      let (reply, w) = post cloud (envelopes_of (e ∷ envelopes)) s.world in
      answered (e ∷ envelopes) p (record s { world = w }) reply

  -- What the loop does with the rows that no payload can be built of.
  unfoldable pub drop_unbuildable : List (OutboxRow × Text) → Progress → Sync W → Progress × Sync W
  drop_unbuildable [] p s = (p, s)
  drop_unbuildable (u ∷ unbuildable) p s = (
    record p { quarantined = p.quarantined + length (u ∷ unbuildable) },
    record s {
      outbox =
          quarantine (map (λ e. e.0) (u ∷ unbuildable)) (joined (map (λ e. e.1) (u ∷ unbuildable)))
            (cloud.utcnow s.world) [] s.outbox;
    },
  )

  -- One round of the loop of `drain`.
  unfoldable pub drain_round : List OutboxRow → Progress → Sync W → Next W
  drain_round [] p s = returns (finished p) (record s { backoff = reset s.backoff })
  drain_round (row ∷ batch) p s =
      let (envelopes, unbuildable) = build_all cloud (row ∷ batch) in
      let (p', s') = drop_unbuildable unbuildable p s in send_batch envelopes p' s'

  -- The loop, on fuel.
  unfoldable pub drain_loop : ℕ → Progress → Sync W → Option (DrainResult × Sync W)
  drain_loop zero p s = none
  drain_loop (suc fuel) p s = elim (drain_round (next_pending batch_size s.outbox) p s) [
    | returns r s' ↦ some (r, s')
    | again p' s' ↦ drain_loop fuel p' s'
  ]

  -- `Pusher.drain`, with two rounds more than there are rows to send.
  abbrev pub drain : Sync W → Option (DrainResult × Sync W)
  drain s = drain_loop (suc (suc (backlog s.outbox))) start s
