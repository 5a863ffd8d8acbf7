-- ===== src/Sync/Pusher/Rounds.antt =====
-- One round of `drain` of app/sync/pusher.py: it keeps the books, and if the loop goes on then a row
-- less waits, or the one refresh was spent.
use pos.Prelude.{
  ℕ, ◌+◌, ◌≤◌, ◌<◌, ◌≡◌, ◌⊎◌, inl, inr, Bool, Bool-cases, true, false, List, [], ◌∷◌, All,
  Result-cases, ok, err-ne-ok, Text, arith,
}
use pos.Sync.Outbox.{OutboxRow, Envelope, mark_synced, backlog}
use pos.Sync.Outbox.Entries.{HasPending}
use pos.Sync.Outbox.Waiting.{waiting-mark_synced_lt, waiting-quarantine_lt}
use pos.Sync.Pusher.{is_permanent, message, Cloud, rows_of, post}
use pos.Sync.Pusher.Drain.{Sync, Progress, Next, returns, again, isolate, set_aside}
use pos.Sync.Pusher.Server.{Server, post-Accepted, post_with_keeps}
use pos.Sync.Pusher.Books.{
  Delivered, Keeps, Keeps-refl, Keeps-trans, IsMade, Keeps-mark_synced, Keeps-set_aside,
  Keeps-world,
}

-- One refresh is left for a drain that has not made it.
abbrev pub slack : Bool → ℕ
slack true = 0
slack false = 1

abbrev pub measure : {W : Type 0} → Progress → Sync W → ℕ
measure p s = backlog s.outbox + slack p.refreshed

module _ {W : Type 0} (cloud : Cloud W) (Accepted : Envelope → W → Type 0)
    (row_at : ℕ → OutboxRow) where
  -- How a round from `s` ends.
  abbrev pub Good : ℕ → Sync W → Next W → Type 0
  Good bound s (returns r s') =
      Keeps cloud Accepted row_at s s' × ((r.stopped_early ≡ false) → backlog s'.outbox ≡ 0)
  Good bound s (again p' s') = Keeps cloud Accepted row_at s s' × (measure p' s' < bound)

  module _ (server : Server cloud Accepted) where
    abbrev pub K : Sync W → Sync W → Type 0
    K = Keeps cloud Accepted row_at

    pub Keeps-post :
        (envelopes : List Envelope) (s : Sync W)
        → K s (record s { world = (post cloud envelopes s.world).1 })
    Keeps-post envelopes s = Keeps-world cloud Accepted row_at s _ (λ e a.
        post_with_keeps cloud Accepted server (cloud.token_provider s.world) envelopes e s.world a)

    pub isolate-Keeps :
        (envelopes : List (OutboxRow × Envelope)) (sent bad : ℕ) (s : Sync W)
        → All (IsMade cloud Accepted row_at) envelopes
        → K s (isolate cloud envelopes sent bad s).1
    unfolding isolate
    isolate-Keeps [] sent bad s m = Keeps-refl cloud Accepted row_at s
    isolate-Keeps ((row, envelope) ∷ rest) sent bad s (m, ms) =
        elim (Result-cases (post cloud (envelope ∷ []) s.world).0) [
          | inl (e, h) ↦ (elim (Bool-cases (is_permanent e)) [
            | inl perm ↦
                let s₁ : Sync W = record s { world = (post cloud (envelope ∷ []) s.world).1 } in
                rw (h, isolate, perm)
                  (Keeps-trans cloud Accepted row_at (Keeps-post (envelope ∷ []) s) (
                    Keeps-trans cloud Accepted row_at
                      (Keeps-set_aside cloud Accepted row_at ((row, envelope) ∷ []) (message e) s₁)
                      (isolate-Keeps rest sent (bad + 1) _ ms)))
            | inr temp ↦ rw (h, isolate, temp) (Keeps-post (envelope ∷ []) s)
          ])
          | inr (done, h) ↦
              let s₁ : Sync W = record s { world = (post cloud (envelope ∷ []) s.world).1 } in
              let given : Delivered cloud Accepted row_at s₁.world row.id =
                (envelope, m, (post-Accepted cloud Accepted server (envelope ∷ []) s.world h).0) in
              rw (h, isolate)
                (Keeps-trans cloud Accepted row_at (Keeps-post (envelope ∷ []) s) (
                  Keeps-trans cloud Accepted row_at
                    (Keeps-mark_synced cloud Accepted row_at (row.id ∷ []) _ s₁ (given, tt))
                    (isolate-Keeps rest (sent + 1) bad _ ms)))
        ]

    pub set_aside-falls :
        (row : OutboxRow) (envelope : Envelope) (rest : List (OutboxRow × Envelope)) (error : Text)
        (s : Sync W)
        → HasPending row.id s.outbox.entries
        → backlog (set_aside cloud ((row, envelope) ∷ rest) error s).outbox < backlog s.outbox
    unfolding set_aside
    set_aside-falls row envelope rest error s waits =
        waiting-quarantine_lt row (rows_of rest) error _ _ s.outbox waits

    -- The first row of a batch no longer waits once the batch was sent row by row.
    pub isolate-falls :
        (row : OutboxRow) (envelope : Envelope) (rest : List (OutboxRow × Envelope)) (s : Sync W)
        {counts : ℕ × ℕ}
        → All (IsMade cloud Accepted row_at) rest
        → (isolate cloud ((row, envelope) ∷ rest) 0 0 s).0 ≡ ok counts
        → HasPending row.id s.outbox.entries
        → backlog (isolate cloud ((row, envelope) ∷ rest) 0 0 s).1.outbox < backlog s.outbox
    unfolding isolate
    isolate-falls row envelope rest s ms done waits =
        elim (Result-cases (post cloud (envelope ∷ []) s.world).0) [
          | inl (e, h) ↦ elim (Bool-cases (is_permanent e)) [
            | inl perm ↦
                let s₁ : Sync W = record s { world = (post cloud (envelope ∷ []) s.world).1 } in
                let s₂ = set_aside cloud ((row, envelope) ∷ []) (message e) s₁ in
                let later : K s₂ _ = isolate-Keeps rest 0 1 s₂ ms in
                rw (h, isolate, perm)
                  (omega (arith, later.fewer, set_aside-falls row envelope [] (message e) s₁ waits))
            | inr temp ↦ err-ne-ok (rw (h, isolate, temp) at done)
          ]
          | inr (u, h) ↦
              let s₁ : Sync W = record s { world = (post cloud (envelope ∷ []) s.world).1 } in
              let s₂ : Sync W = record s₁ {
                outbox = mark_synced (row.id ∷ []) (cloud.utcnow s₁.world) s.outbox;
              } in
              let later : K s₂ _ = isolate-Keeps rest 1 0 s₂ ms in
              rw (h, isolate)
                (omega (
                  arith,
                  later.fewer,
                  waiting-mark_synced_lt row.id [] (cloud.utcnow s₁.world) s.outbox waits,
                ))
        ]

    -- What is known of a batch before it is sent: a row less waits than when the round began, or its
    -- first row waits.
    abbrev pub Ready : ℕ → Progress → Sync W → OutboxRow → Type 0
    Ready bound p s row =
        (measure p s < bound) ⊎ ((measure p s ≤ bound) × HasPending row.id s.outbox.entries)

    pub fall :
        (bound : ℕ) (p : Progress) (s s' : Sync W) (row : OutboxRow)
        → Ready bound p s row
        → K s s'
        → (HasPending row.id s.outbox.entries → backlog s'.outbox < backlog s.outbox)
        → backlog s'.outbox + slack p.refreshed < bound
    fall bound p s s' row (inl low) k f = omega (arith, k.fewer)
    fall bound p s s' row (inr (at, waits)) k f = omega (arith, f waits)
