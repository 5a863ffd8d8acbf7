-- ===== src/Sync/Pusher/Books.antt =====
-- Draining keeps the books of the outbox: `drain` of app/sync/pusher.py ends, loses no row, and
-- takes none for sent that the server has not accepted.
use pos.Prelude.{
  ℕ, ◌≤◌, ◌≡◌, inl, inr, refl, sym, ap, ◌∙◌, List, [], ◌∷◌, map, All, Result-cases, ok, Text, arith,
}
use pos.Sync.Outbox.{OutboxRow, Envelope, mark_synced, record_attempt, quarantine, backlog}
use pos.Sync.Outbox.Entries.{pointer, keys, keys-mark_synced, keys-record_attempt, keys-quarantine}
use pos.Sync.Outbox.Waiting.{waiting-mark_synced, waiting-quarantine, waiting-record_attempt}
use pos.Sync.Outbox.Logged.{
  IsLogged, IsLogged-mark_synced, IsLogged-record_attempt, IsLogged-quarantine, next_id-mark_synced,
  next_id-record_attempt, next_id-quarantine,
}
use pos.Sync.Outbox.Booked.{
  Booked, Booked-mark_synced, Booked-record_attempt, Booked-quarantine, Booked-weaken,
}
use pos.Sync.Pusher.{Cloud, rows_of, ids_of, build_row, build_all}
use pos.Sync.Pusher.Drain.{Sync, set_aside}

module _ {W : Type 0} (cloud : Cloud W) (Accepted : Envelope → W → Type 0)
    (row_at : ℕ → OutboxRow) where
  -- The envelope of the row with this id was accepted.
  abbrev pub Delivered : W → ℕ → Type 0
  Delivered w i =
      (envelope : Envelope) × (build_row cloud (row_at i) ≡ ok envelope) × Accepted envelope w

  -- What a stretch of draining does: every row stays, none comes to wait, and the books are kept.
  pub record Keeps (s s' : Sync W) : Type 0 where
    pub same_keys : keys s'.outbox ≡ keys s.outbox
    pub fewer : backlog s'.outbox ≤ backlog s.outbox
    pub same_next : s'.outbox.next_id ≡ s.outbox.next_id
    pub logged : IsLogged s.outbox → IsLogged s'.outbox
    pub books : Booked (Delivered s.world) s.outbox → Booked (Delivered s'.world) s'.outbox

  pub Keeps-refl : (s : Sync W) → Keeps s s
  Keeps-refl s = record {
    same_keys = refl;
    fewer = omega arith;
    same_next = refl;
    logged = λ h. h;
    books = λ h. h;
  }

  pub Keeps-trans : {s t u : Sync W} → Keeps s t → Keeps t u → Keeps s u
  Keeps-trans a b = record {
    same_keys = b.same_keys ∙ a.same_keys;
    fewer = omega arith;
    same_next = b.same_next ∙ a.same_next;
    logged = λ h. b.logged (a.logged h);
    books = λ h. b.books (a.books h);
  }

  -- The envelope is the one that is built of the row.
  abbrev pub IsMade : OutboxRow × Envelope → Type 0
  IsMade e = build_row cloud (row_at e.0.id) ≡ ok e.1

  abbrev pub IsKnown : OutboxRow → Type 0
  IsKnown row = pointer row ≡ pointer (row_at row.id)

  pub Keeps-mark_synced :
      (ids : List ℕ) (at : ℕ) (s : Sync W)
      → All (Delivered s.world) ids
      → Keeps s (record s { outbox = mark_synced ids at s.outbox })
  Keeps-mark_synced ids at s h = record {
    same_keys = keys-mark_synced ids at s.outbox;
    fewer = waiting-mark_synced ids at s.outbox;
    same_next = next_id-mark_synced ids at s.outbox;
    logged = IsLogged-mark_synced ids at s.outbox;
    books = Booked-mark_synced (Delivered s.world) ids at s.outbox h;
  }

  pub Keeps-record_attempt :
      (ids : List ℕ) (error : Text) (s : Sync W)
      → Keeps s (record s { outbox = record_attempt ids error s.outbox })
  Keeps-record_attempt ids error s = record {
    same_keys = keys-record_attempt ids error s.outbox;
    fewer = waiting-record_attempt ids error s.outbox;
    same_next = next_id-record_attempt ids error s.outbox;
    logged = IsLogged-record_attempt ids error s.outbox;
    books = Booked-record_attempt (Delivered s.world) ids error s.outbox;
  }

  pub Keeps-quarantine :
      (rows : List OutboxRow) (error : Text) (at : ℕ) (envelopes : List (ℕ × Envelope)) (s : Sync W)
      → Keeps s (record s { outbox = quarantine rows error at envelopes s.outbox })
  Keeps-quarantine rows error at envelopes s = record {
    same_keys = keys-quarantine rows error at envelopes s.outbox;
    fewer = waiting-quarantine rows error at envelopes s.outbox;
    same_next = next_id-quarantine rows error at envelopes s.outbox;
    logged = IsLogged-quarantine rows error at envelopes s.outbox;
    books = Booked-quarantine (Delivered s.world) rows error at envelopes s.outbox;
  }

  pub Keeps-set_aside :
      (envelopes : List (OutboxRow × Envelope)) (error : Text) (s : Sync W)
      → Keeps s (set_aside cloud envelopes error s)
  unfolding set_aside
  Keeps-set_aside envelopes error s = Keeps-quarantine (rows_of envelopes) error _ _ s

  -- A world that keeps what was accepted.
  pub Keeps-world :
      (s : Sync W) (w : W)
      → ((e : Envelope) → Accepted e s.world → Accepted e w)
      → Keeps s (record s { world = w })
  Keeps-world s w f = record {
    same_keys = refl;
    fewer = omega arith;
    same_next = refl;
    logged = λ h. h;
    books = Booked-weaken (Delivered s.world) (Delivered w) s.outbox (λ i d. (d.0, d.1, f d.0 d.2));
  }

  pub build_all-IsMade :
      (rows : List OutboxRow) → All IsKnown rows → All IsMade (build_all cloud rows).0
  unfolding build_all
  build_all-IsMade [] h = tt
  build_all-IsMade (row ∷ rows) (k, ks) = elim (Result-cases (build_row cloud row)) [
    | inl (reason, e) ↦ rw e (build_all-IsMade rows ks)
    | inr (envelope, e) ↦
        rw e (sym (ap (λ q. cloud.build q.0 q.1 q.2 q.3) k) ∙ e, build_all-IsMade rows ks)
  ]

  -- Each row is either built or not.
  pub build_all-All :
      (P : OutboxRow → Type 0) (rows : List OutboxRow)
      → All P rows
      → All (λ e. P e.0) (build_all cloud rows).0 × All (λ e. P e.0) (build_all cloud rows).1
  unfolding build_all
  build_all-All P [] h = (tt, tt)
  build_all-All P (row ∷ rows) (p, ps) = elim (Result-cases (build_row cloud row)) [
    | inl (reason, e) ↦ let (a, b) = build_all-All P rows ps in rw e (a, (p, b))
    | inr (envelope, e) ↦ let (a, b) = build_all-All P rows ps in rw e ((p, a), b)
  ]

  pub Delivered-ids :
      (envelopes : List (OutboxRow × Envelope)) (w : W)
      → All IsMade envelopes
      → All (λ e. Accepted e w) (map (λ e. e.1) envelopes)
      → All (Delivered w) (ids_of envelopes)
  Delivered-ids [] w m a = tt
  Delivered-ids ((row, envelope) ∷ envelopes) w (m, ms) (a, as') =
      ((envelope, m, a), Delivered-ids envelopes w ms as')
