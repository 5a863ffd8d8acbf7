-- ===== src/Sync/Pusher/Drained.antt =====
-- `drain` of app/sync/pusher.py from its call to its return.
use pos.Prelude.{
  ℕ, zero, suc, ◌<◌, ◌≡◌, inl, inr, refl, false, List, [], ◌∷◌, length, map, keep, take, All,
  Option, some, Result-cases, Text, arith,
}
use pos.Sync.Outbox.{OutboxRow, Entry, Envelope, Outbox, is_pending, row_of, backlog, next_pending}
use pos.Sync.Outbox.Entries.{pointer, keys, HasPending, next_pending-HasPending, next_pending-All}
use pos.Sync.Outbox.Waiting.{waiting-quarantine_lt}
use pos.Sync.Pusher.{Cloud, DrainResult, build_all, build_row, batch_size}
use pos.Sync.Pusher.Drain.{
  Sync, Progress, Next, returns, again, send_batch, drop_unbuildable, drain_round, drain_loop,
}
use pos.Sync.Pusher.Server.{Server}
use pos.Sync.Pusher.Books.{
  Keeps, Keeps-refl, Keeps-trans, IsMade, IsKnown, Keeps-quarantine, build_all-IsMade,
  build_all-All,
}
use pos.Sync.Pusher.Rounds.{measure, Good}
use pos.Sync.Pusher.Ends.{IsGood-send_batch}

-- Without a row that cannot be built, the batch that is sent begins with the first row.
pub first_built :
    {W : Type 0} (cloud : Cloud W) (row : OutboxRow) (batch : List OutboxRow)
    → (build_all cloud (row ∷ batch)).1 ≡ []
    → (envelope : Envelope) × (rest : List (OutboxRow × Envelope)) × ((build_all cloud
          (row ∷ batch)).0
        ≡ (row, envelope) ∷ rest)
unfolding build_all
first_built cloud row batch h = elim (Result-cases (build_row cloud row)) [
  | inl (reason, e) ↦ cc (let h' = rw e at h in h')
  | inr (envelope, e) ↦ (envelope, (build_all cloud batch).0, rw e refl)
]

nothing_waits : (n : ℕ) (o : Outbox) → next_pending (suc n) o ≡ [] → backlog o ≡ 0
unfolding next_pending backlog
nothing_waits n o h = empty (keep is_pending o.entries) h
  where
    empty : (entries : List Entry) → take (suc n) (map row_of entries) ≡ [] → length entries ≡ 0
    empty [] h = refl
    empty (e ∷ entries) h = cc

module _ {W : Type 0} (cloud : Cloud W) (Accepted : Envelope → W → Type 0) (row_at : ℕ → OutboxRow)
    (server : Server cloud Accepted) where
  built-Good :
      (row : OutboxRow) (p : Progress) (s : Sync W) (made : List (OutboxRow × Envelope))
      (unbuildable : List (OutboxRow × Text))
      → HasPending row.id s.outbox.entries
      → All (IsMade cloud Accepted row_at) made
      → All (λ e. HasPending e.0.id s.outbox.entries) unbuildable
      → (unbuildable ≡ []
          → (envelope : Envelope) × (rest : List (OutboxRow × Envelope)) × (made
              ≡ (row, envelope) ∷ rest))
      → Good cloud Accepted row_at (measure p s) s (
          send_batch cloud made
            (drop_unbuildable cloud unbuildable p s).0
            (drop_unbuildable cloud unbuildable p s).1)
  unfolding drop_unbuildable send_batch
  built-Good row p s [] [] w m f g = let (a, b, c) = g refl in cc
  built-Good row p s ((row', envelope) ∷ rest) [] w m f g =
      let (a, b, c) = g refl in
      let same : row' ≡ row = cc in
      IsGood-send_batch cloud Accepted row_at server (measure p s) s s p row' envelope rest
        (Keeps-refl cloud Accepted row_at s) (inr (omega arith, rw same w)) m
  built-Good row p s [] (u ∷ us) w m f g =
      let k = Keeps-quarantine cloud Accepted row_at _ _ _ [] s in
      (
        k,
        omega (
          arith,
          waiting-quarantine_lt u.0 (map (λ e. e.0) us) _ (cloud.utcnow s.world) [] s.outbox f.0,
        ),
      )
  built-Good row p s ((row', envelope) ∷ rest) (u ∷ us) w m f g =
      IsGood-send_batch cloud Accepted row_at server (measure p s) s _ _ row' envelope rest
        (Keeps-quarantine cloud Accepted row_at _ _ _ [] s)
        (inl (
          omega (
            arith,
            waiting-quarantine_lt u.0 (map (λ e. e.0) us) _ (cloud.utcnow s.world) [] s.outbox f.0,
          )))
        m

  round-Good :
      (batch : List OutboxRow) (p : Progress) (s : Sync W)
      → (batch ≡ [] → backlog s.outbox ≡ 0)
      → All (λ r. HasPending r.id s.outbox.entries) batch
      → All (IsKnown cloud Accepted row_at) batch
      → Good cloud Accepted row_at (measure p s) s (drain_round cloud batch p s)
  unfolding drain_round
  round-Good [] p s done w k = (
    record {
      same_keys = refl;
      fewer = omega arith;
      same_next = refl;
      logged = λ h. h;
      books = λ h. h;
    },
    λ _. done refl,
  )
  round-Good (row ∷ batch) p s done w k =
      built-Good row p s (build_all cloud (row ∷ batch)).0 (build_all cloud (row ∷ batch)).1 w.0
        (build_all-IsMade cloud Accepted row_at (row ∷ batch) k)
        (build_all-All cloud Accepted row_at (λ r. HasPending r.id s.outbox.entries) (row ∷ batch)
          w).1
        (first_built cloud row batch)

  -- With more fuel than rows that wait, and one for the refresh, the loop returns.
  pub drain_loop-Keeps :
      (fuel : ℕ) (p : Progress) (s : Sync W)
      → measure p s < fuel
      → All (λ k. k.1 ≡ pointer (row_at k.0)) (keys s.outbox)
      → (r : DrainResult) × (s' : Sync W) × (drain_loop cloud fuel p s ≡ some (r, s'))
        × Keeps cloud Accepted row_at s s'
        × ((r.stopped_early ≡ false) → backlog s'.outbox ≡ 0)
  unfolding drain_loop
  drain_loop-Keeps zero p s low known = elim low [ ]
  drain_loop-Keeps (suc fuel) p s low known =
      go (drain_round cloud (next_pending batch_size s.outbox) p s)
        (round-Good (next_pending batch_size s.outbox) p s (nothing_waits 199 s.outbox)
          (next_pending-HasPending batch_size s.outbox)
          (next_pending-All (λ k. k.1 ≡ pointer (row_at k.0)) batch_size s.outbox known))
        (drain_loop-Keeps fuel)
    where
      go :
          (next : Next W)
          → Good cloud Accepted row_at (measure p s) s next
          → ((p' : Progress) (s' : Sync W)
              → measure p' s' < fuel
              → All (λ k. k.1 ≡ pointer (row_at k.0)) (keys s'.outbox)
              → (r : DrainResult) × (t : Sync W) × (drain_loop cloud fuel p' s' ≡ some (r, t))
                × Keeps cloud Accepted row_at s' t
                × ((r.stopped_early ≡ false) → backlog t.outbox ≡ 0))
          → (r : DrainResult) × (t : Sync W) × (elim next as (λ _. Option (DrainResult × Sync W)) [
            | returns r' u ↦ some (r', u)
            | again p' u ↦ drain_loop cloud fuel p' u
          ]
              ≡ some (r, t))
            × Keeps cloud Accepted row_at s t
            × ((r.stopped_early ≡ false) → backlog t.outbox ≡ 0)
      go (returns r t) (k, e) later = (r, t, refl, k, e)
      go (again p' s') (k, less) later =
          let (r, t, same, k', e) = later p' s' (omega arith) (rw (k.same_keys) known) in
          (r, t, same, Keeps-trans cloud Accepted row_at k k', e)
