-- ===== src/Sync/Pusher/Ends.antt =====
-- `drain` of app/sync/pusher.py ends, and what it leaves behind.
use pos.Prelude.{
  ℕ, ◌+◌, ◌≤◌, ◌==◌, ◌≡◌, inl, inr, refl, Bool, Bool-cases, true, false, List, ◌∷◌, length, All,
  Option, none, some, Result, ok, err, Text, arith,
}
use pos.Sync.Backoff.{fail, reset}
use pos.Sync.Outbox.{OutboxRow, Envelope, mark_synced, record_attempt, backlog}
use pos.Sync.Outbox.Waiting.{waiting-mark_synced_lt}
use pos.Sync.Pusher.{
  Outcome, refreshed, dead, unreachable, nothing, PushError, no_session, network, unavailable,
  auth_refused, schema_too_old, rejected, message, Cloud, envelopes_of, ids_of, post,
}
use pos.Sync.Pusher.Drain.{
  Sync, Progress, Next, returns, again, isolate, set_aside, handle, count_sent, stopped, renewed,
  refused_auth, isolated, answered, send_batch,
}
use pos.Sync.Pusher.Server.{Server, post-Accepted}
use pos.Sync.Pusher.Books.{
  Keeps, Keeps-trans, IsMade, Keeps-mark_synced, Keeps-record_attempt, Keeps-set_aside, Keeps-world,
  Delivered-ids,
}
use pos.Sync.Pusher.Rounds.{
  slack, Good, Keeps-post, isolate-Keeps, set_aside-falls, isolate-falls, Ready, fall,
}

module _ {W : Type 0} (cloud : Cloud W) (Accepted : Envelope → W → Type 0) (row_at : ℕ → OutboxRow)
    (server : Server cloud Accepted) where
  abbrev Kept : Sync W → Sync W → Type 0
  Kept = Keeps cloud Accepted row_at

  Keeps-defer :
      (ids : List ℕ) (error : Text) (s : Sync W)
      → Kept s (record s { outbox = record_attempt ids error s.outbox; backoff = fail s.backoff })
  Keeps-defer ids error s =
      let k = Keeps-record_attempt cloud Accepted row_at ids error s in
      record {
        same_keys = k.same_keys;
        fewer = k.fewer;
        same_next = k.same_next;
        logged = k.logged;
        books = k.books;
      }

  -- The bound, the state at the start of the round and the batch that is sent.
  module _ (bound : ℕ) (s₀ s : Sync W) (p : Progress) (row : OutboxRow) (envelope : Envelope)
      (rest : List (OutboxRow × Envelope)) (before : Kept s₀ s)
      (ready : Ready cloud Accepted row_at server bound p s row)
      (made : All (IsMade cloud Accepted row_at) ((row, envelope) ∷ rest)) where
    abbrev batch : List (OutboxRow × Envelope)
    batch = (row, envelope) ∷ rest

    abbrev IsGood : Next W → Type 0
    IsGood = Good cloud Accepted row_at bound s₀

    IsGood-renewed :
        (outcome : Outcome) (ids : List ℕ) (error : Text) (w : W)
        → p.refreshed ≡ false
        → Kept s (record s { world = w })
        → IsGood (renewed cloud outcome ids error p (record s { world = w }))
    IsGood-renewed refreshed ids error w r k =
        let bounded : backlog s.outbox + slack p.refreshed ≤ bound = (elim ready [
          | inl low ↦ omega arith
          | inr (at, waits) ↦ at
        ]) in
        let one : slack p.refreshed ≡ 1 = rw r refl in
        (Keeps-trans cloud Accepted row_at before k, omega arith)
    IsGood-renewed dead ids error w r k = (
      Keeps-trans cloud Accepted row_at before (
          Keeps-trans cloud Accepted row_at k
            (Keeps-record_attempt cloud Accepted row_at ids _ (record s { world = w }))),
      λ h. cc,
    )
    IsGood-renewed unreachable ids error w r k = (
      Keeps-trans cloud Accepted row_at before
          (Keeps-trans cloud Accepted row_at k (Keeps-defer ids error (record s { world = w }))),
      λ h. cc,
    )
    IsGood-renewed nothing ids error w r k = (
      Keeps-trans cloud Accepted row_at before
          (Keeps-trans cloud Accepted row_at k (Keeps-defer ids error (record s { world = w }))),
      λ h. cc,
    )

    IsGood-refused_auth :
        (renew : Option (W → Outcome × W)) (spent : Bool) (ids : List ℕ) (error : Text)
        → cloud.renew ≡ renew
        → p.refreshed ≡ spent
        → IsGood (refused_auth cloud renew spent ids error p s)
    IsGood-refused_auth none spent ids error r e =
        (Keeps-trans cloud Accepted row_at before (Keeps-defer ids error s), λ h. cc)
    IsGood-refused_auth (some renew) true ids error r e =
        (Keeps-trans cloud Accepted row_at before (Keeps-defer ids error s), λ h. cc)
    IsGood-refused_auth (some renew) false ids error r e =
        IsGood-renewed (renew s.world).0 ids error (renew s.world).1 e (
          Keeps-world cloud Accepted row_at s (renew s.world).1
            (λ x a. server.renews x renew s.world r a))

    IsGood-aside :
        (error : Text) (p' : Progress)
        → p'.refreshed ≡ p.refreshed
        → IsGood (again p' (set_aside cloud batch error s))
    IsGood-aside error p' same =
        let k = Keeps-set_aside cloud Accepted row_at batch error s in
        (
          Keeps-trans cloud Accepted row_at before k,
          rw same (
              fall cloud Accepted row_at server bound p s (set_aside cloud batch error s) row ready
                k (set_aside-falls cloud Accepted row_at server row envelope rest error s)),
        )

    IsGood-isolated :
        (result : Result PushError (ℕ × ℕ)) (ids : List ℕ)
        → (isolate cloud batch 0 0 s).0 ≡ result
        → IsGood (isolated cloud ids p (result, (isolate cloud batch 0 0 s).1))
    IsGood-isolated (err e) ids h = (
      Keeps-trans cloud Accepted row_at before (
          Keeps-trans cloud Accepted row_at
            (isolate-Keeps cloud Accepted row_at server batch 0 0 s made)
            (Keeps-defer ids (message e) (isolate cloud batch 0 0 s).1)),
      λ x. cc,
    )
    IsGood-isolated (ok (sent, bad)) ids h =
        let k = isolate-Keeps cloud Accepted row_at server batch 0 0 s made in
        (
          Keeps-trans cloud Accepted row_at before k,
          fall cloud Accepted row_at server bound p s (isolate cloud batch 0 0 s).1 row ready k
              (isolate-falls cloud Accepted row_at server row envelope rest s made.1 h),
        )

    IsGood-deferred :
        (e : PushError)
        → IsGood (
            returns (stopped p (message e)) (record s {
              outbox = record_attempt (ids_of batch) (message e) s.outbox;
              backoff = fail s.backoff;
            }))
    IsGood-deferred e = (
      Keeps-trans cloud Accepted row_at before (Keeps-defer (ids_of batch) (message e) s),
      λ h. cc,
    )

    pub IsGood-handle : (e : PushError) → IsGood (handle cloud batch e p s)
    unfolding handle
    IsGood-handle no_session = IsGood-deferred no_session
    IsGood-handle (network text) = IsGood-deferred (network text)
    IsGood-handle (unavailable status detail) = IsGood-deferred (unavailable status detail)
    IsGood-handle (auth_refused status detail) =
        IsGood-refused_auth cloud.renew p.refreshed (ids_of batch) _ refl refl
    IsGood-handle (schema_too_old detail) =
        IsGood-aside _ (count_sent cloud p 0 (length batch)) refl
    IsGood-handle (rejected status detail) = elim (Bool-cases (length batch == 1)) [
      | inl one ↦ rw one (IsGood-aside _ (count_sent cloud p 0 1) refl)
      | inr more ↦ rw more (IsGood-isolated _ (ids_of batch) refl)
    ]

    pub IsGood-answered :
        (reply : Result PushError (Unit {0}))
        → (reply ≡ ok tt → All (λ e. Accepted e s.world) (envelopes_of batch))
        → IsGood (answered cloud batch p s reply)
    IsGood-answered (err e) accepted = IsGood-handle e
    IsGood-answered (ok tt) accepted =
        let given = Delivered-ids cloud Accepted row_at batch s.world made (accepted refl) in
        let k =
          Keeps-mark_synced cloud Accepted row_at (ids_of batch) (cloud.utcnow s.world) s given in
        let s' : Sync W = record s {
          outbox = mark_synced (ids_of batch) (cloud.utcnow s.world) s.outbox;
          backoff = reset s.backoff;
        } in
        let k' : Kept s s' = record {
          same_keys = k.same_keys;
          fewer = k.fewer;
          same_next = k.same_next;
          logged = k.logged;
          books = k.books;
        } in
        (
          Keeps-trans cloud Accepted row_at before k',
          fall cloud Accepted row_at server bound p s s' row ready k'
              (waiting-mark_synced_lt row.id (ids_of rest) (cloud.utcnow s.world) s.outbox),
        )

  pub IsGood-send_batch :
      (bound : ℕ) (s₀ s : Sync W) (p : Progress) (row : OutboxRow) (envelope : Envelope)
      (rest : List (OutboxRow × Envelope))
      → Kept s₀ s
      → Ready cloud Accepted row_at server bound p s row
      → All (IsMade cloud Accepted row_at) ((row, envelope) ∷ rest)
      → Good cloud Accepted row_at bound s₀ (send_batch cloud ((row, envelope) ∷ rest) p s)
  unfolding send_batch
  IsGood-send_batch bound s₀ s p row envelope rest before ready made =
      let es = envelopes_of ((row, envelope) ∷ rest) in
      let k = Keeps-post cloud Accepted row_at server es s in
      IsGood-answered bound s₀ (record s { world = (post cloud es s.world).1 }) p row envelope rest
        (Keeps-trans cloud Accepted row_at before k) ready made (post cloud es s.world).0
        (post-Accepted cloud Accepted server es s.world)
