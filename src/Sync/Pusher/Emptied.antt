-- ===== src/Sync/Pusher/Emptied.antt =====
-- `drain` of app/sync/pusher.py on a good day: somebody is signed in, every row can be built, and the
-- server takes what it is sent.
use mathlib.Core.Option.{some-injective}
use pos.Prelude.{
  ℕ, zero, suc, ◌<◌, ◌≡◌, ◌⊎◌, inl, inr, refl, sym, ap, ◌∙◌, true, false, List, [], ◌∷◌, Option,
  some, ok, Text, arith,
}
use pos.Cart.{is_nil}
use pos.Sync.Backoff.{seconds, reset}
use pos.Sync.Outbox.{OutboxRow, Envelope, Outbox, mark_synced, backlog, next_pending}
use pos.Sync.Pusher.{
  Reply, failed, responded, Cloud, DrainResult, PushError, raise_for, post, post_with, build_row,
  build_all, ids_of, batch_size,
}
use pos.Sync.Pusher.Drain.{
  Sync, Progress, start, finished, Next, returns, again, send_batch, drop_unbuildable, drain_round,
  drain_loop, drain,
}
use pos.Sync.Pusher.Server.{Server}
use pos.Sync.Pusher.Drained.{first_built}
use pos.Sync.Pusher.Safety.{IsHealthy, drain-IsHealthy}

-- What a good day has: a token, and a status below 400 for every request.
pub record IsObliging {W : Type 0} (cloud : Cloud W) : Type 0 where
  pub signed_in :
      (w : W) → (token : Text) × (cloud.token_provider w ≡ some token) × (is_nil token ≡ false)
  pub answers :
      (token : Text) (envelopes : List Envelope) (w : W)
      → (status : ℕ) × (detail : Text) × ((cloud.send token envelopes w).0
          ≡ responded status detail)
        × (status < 400)
  pub builds :
      (entity entity_id op : Text) (client_seq : ℕ)
      → (envelope : Envelope) × (cloud.build entity entity_id op client_seq ≡ ok envelope)

raise_for-low :
    (status : ℕ) (detail : Text) → status < 400 → raise_for (responded status detail) ≡ ok tt
unfolding raise_for
raise_for-low status detail low = ground arith

mark_synced-failures :
    (ids : List ℕ) (at : ℕ) (o : Outbox) → (mark_synced ids at o).failures ≡ o.failures
unfolding mark_synced
mark_synced-failures [] at o = refl
mark_synced-failures (i ∷ ids) at o = refl

module _ {W : Type 0} (cloud : Cloud W) (obliging : IsObliging cloud) where
  post-ok : (envelopes : List Envelope) (w : W) → (post cloud envelopes w).0 ≡ ok tt
  unfolding post_with
  post-ok envelopes w =
      let (token, here, filled) = obliging.signed_in w in
      let (status, detail, sent, low) = obliging.answers token envelopes w in
      rw (here, filled, sent) (raise_for-low status detail low)

  build_all-none_left : (rows : List OutboxRow) → (build_all cloud rows).1 ≡ []
  unfolding build_all
  build_all-none_left [] = refl
  build_all-none_left (row ∷ rows) =
      let (envelope, made) = obliging.builds row.entity row.entity_id row.op row.client_seq in
      rw made (build_all-none_left rows)

  -- A round sets nothing aside, and ends the drain only when nothing waits.
  data Calm (p : Progress) (s : Sync W) : Next W → Type 0 where
    goes_on :
        (p' : Progress) (s' : Sync W)
        → p'.quarantined ≡ p.quarantined
        → s'.outbox.failures ≡ s.outbox.failures
        → Calm p s (again p' s')
    ends : Calm p s (returns (finished p) (record s { backoff = reset s.backoff }))

  send_batch-Calm :
      (e : OutboxRow × Envelope) (rest : List (OutboxRow × Envelope)) (p : Progress) (s : Sync W)
      → Calm p s (send_batch cloud (e ∷ rest) p s)
  unfolding send_batch
  send_batch-Calm e rest p s =
      rw (post-ok (pos.Sync.Pusher.envelopes_of (e ∷ rest)) s.world)
        (goes_on _ _ (omega arith) (mark_synced-failures _ _ s.outbox))

  round-Calm :
      (batch : List OutboxRow) (p : Progress) (s : Sync W) → Calm p s (drain_round cloud batch p s)
  unfolding drain_round drop_unbuildable
  round-Calm [] p s = ends
  round-Calm (row ∷ batch) p s =
      let left = build_all-none_left (row ∷ batch) in
      let (envelope, rest, e) = first_built cloud row batch left in
      rw (left, e) (send_batch-Calm (row, envelope) rest p s)

  abbrev IsCalm : DrainResult → Progress → Sync W → Sync W → Type 0
  IsCalm r p s s' =
      (r.stopped_early ≡ false)
      × (r.quarantined ≡ p.quarantined)
      × (s'.outbox.failures ≡ s.outbox.failures)
      × (seconds s'.backoff ≡ 0)

  loop-Calm :
      (fuel : ℕ) (p : Progress) (s s' : Sync W) (r : DrainResult)
      → drain_loop cloud fuel p s ≡ some (r, s')
      → IsCalm r p s s'
  unfolding drain_loop reset
  loop-Calm zero p s s' r h = cc
  loop-Calm (suc fuel) p s s' r h =
      after (λ p' t. loop-Calm fuel p' t s' r)
        (drain_round cloud (next_pending batch_size s.outbox) p s)
        (round-Calm (next_pending batch_size s.outbox) p s) h
    where
      after :
          ((p' : Progress) (t : Sync W)
            → drain_loop cloud fuel p' t ≡ some (r, s')
            → IsCalm r p' t s')
          → (n : Next W) → Calm p s n
          → ◌≡◌ {A = Option (DrainResult × Sync W)}
              (elim n [ returns r₁ t ↦ some (r₁, t) | again p' t ↦ drain_loop cloud fuel p' t ])
              (some (r, s'))
          → IsCalm r p s s'
      after below _ (goes_on p' s₁ q f) e = let (a, b, c, d) = below p' s₁ e in (a, b ∙ q, c ∙ f, d)
      after below _ ends e =
          let same =
            some-injective (finished p, record s { backoff = reset s.backoff }) (r, s') e in
          (
            sym (ap (λ q. q.0.stopped_early) same),
            sym (ap (λ q. q.0.quarantined) same),
            sym (ap (λ q. q.1.outbox.failures) same),
            sym (ap (λ q. seconds q.1.backoff) same),
          )

  -- On a day when somebody is signed in, every row can be built, and the server takes and keeps what it
  -- is sent, a drain of a queue in good order returns, nothing waits after it, nothing was set aside,
  -- the backoff is over, and the queue is in good order: every row was accepted or was set aside before.
  pub drain-empties :
      (Accepted : Envelope → W → Type 0)
      → Server cloud Accepted
      → (s : Sync W) → IsHealthy cloud Accepted s
      → (r : DrainResult) × (s' : Sync W) × (drain cloud s ≡ some (r, s'))
        × (r.stopped_early ≡ false)
        × (r.quarantined ≡ 0)
        × (backlog s'.outbox ≡ 0)
        × (s'.outbox.failures ≡ s.outbox.failures)
        × (seconds s'.backoff ≡ 0)
        × IsHealthy cloud Accepted s'
  drain-empties Accepted server s healthy =
      let (r, s', done, k, h, e) = drain-IsHealthy cloud Accepted server s healthy in
      let (on, none_aside, same, calm) =
        loop-Calm (suc (suc (backlog s.outbox))) start s s' r done in
      (r, s', done, on, none_aside, nothing_left r (backlog s'.outbox) on e, same, calm, h)
    where
      nothing_left :
          (r : DrainResult) (n : ℕ)
          → r.stopped_early ≡ false
          → (r.stopped_early ≡ true) ⊎ (n ≡ 0)
          → n ≡ 0
      nothing_left r n on (inl early) = cc
      nothing_left r n on (inr e) = e
