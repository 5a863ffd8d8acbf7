-- ===== src/Sync/Outbox/Waiting.antt =====
-- How many rows of the outbox still wait: what its operations make of that number.
use pos.Prelude.{
  ℕ, suc, ◌≤◌, ◌<◌, ◌==◌, ==_iff, ◌≡◌, inl, inr, refl, sym, ap, Bool-cases, true, false, List, [],
  ◌∷◌, ◌++◌, length, keep, Text, arith,
}
use pos.Sync.Outbox.{
  OutboxRow, Entry, Envelope, Outbox, is_pending, update, mark_synced, record_attempt, set_aside,
  quarantine, enqueue, backlog, synced, attempted, refused,
}
use pos.Sync.Outbox.Entries.{HasPending}

abbrev pub waiting : List Entry → ℕ
waiting entries = length (keep is_pending entries)

-- An update after which no row waits that did not wait before.
abbrev pub Quiets : (Entry → Entry) → Type 0
Quiets change = (e : Entry) → is_pending (change e) ≡ true → is_pending e ≡ true

pub waiting-update :
    (ids : List ℕ) (change : Entry → Entry) (entries : List Entry)
    → Quiets change
    → waiting (update ids change entries) ≤ waiting entries
unfolding update
waiting-update ids change [] q = omega arith
waiting-update ids change (e ∷ entries) q = ground (arith, waiting-update ids change entries q, q e)

pub waiting-update_lt :
    (i : ℕ) (ids : List ℕ) (change : Entry → Entry) (entries : List Entry)
    → ((e : Entry) → is_pending (change e) ≡ false)
    → HasPending i entries
    → waiting (update (i ∷ ids) change entries) < waiting entries
unfolding update
waiting-update_lt i ids change [] q h = elim h [ ]
waiting-update_lt i ids change (e ∷ entries) q (inl (p, same)) =
    let rest = waiting-update (i ∷ ids) change entries (λ x h. absurd (ground (arith, q x))) in
    let here : (i == e.row.id) ≡ true = (==_iff i e.row.id).1 (sym same) in
    rw (here, q e, p) (omega (arith, rest))
waiting-update_lt i ids change (e ∷ entries) q (inr later) =
    ground (arith, waiting-update_lt i ids change entries q later, q e)

pub waiting-mark_synced :
    (ids : List ℕ) (at : ℕ) (o : Outbox) → backlog (mark_synced ids at o) ≤ backlog o
unfolding mark_synced backlog
waiting-mark_synced [] at o = omega arith
waiting-mark_synced (i ∷ ids) at o = waiting-update (i ∷ ids) (synced at) o.entries (λ e h. cc)

pub waiting-mark_synced_lt :
    (i : ℕ) (ids : List ℕ) (at : ℕ) (o : Outbox)
    → HasPending i o.entries
    → backlog (mark_synced (i ∷ ids) at o) < backlog o
unfolding mark_synced backlog
waiting-mark_synced_lt i ids at o h = waiting-update_lt i ids (synced at) o.entries (λ e. refl) h

waiting-set_aside :
    (row : OutboxRow) (error : Text) (at : ℕ) (envelopes : List (ℕ × Envelope)) (o : Outbox)
    → backlog (set_aside row error at envelopes o) ≤ backlog o
unfolding set_aside backlog
waiting-set_aside row error at envelopes o =
    waiting-update (row.id ∷ []) (refused at error) o.entries (λ e h. cc)

waiting-set_aside_lt :
    (row : OutboxRow) (error : Text) (at : ℕ) (envelopes : List (ℕ × Envelope)) (o : Outbox)
    → HasPending row.id o.entries
    → backlog (set_aside row error at envelopes o) < backlog o
unfolding set_aside backlog
waiting-set_aside_lt row error at envelopes o h =
    waiting-update_lt row.id [] (refused at error) o.entries (λ e. refl) h

pub waiting-quarantine :
    (rows : List OutboxRow) (error : Text) (at : ℕ) (envelopes : List (ℕ × Envelope)) (o : Outbox)
    → backlog (quarantine rows error at envelopes o) ≤ backlog o
unfolding quarantine
waiting-quarantine [] error at envelopes o = omega arith
waiting-quarantine (row ∷ rows) error at envelopes o = omega (
  arith,
  waiting-quarantine rows error at envelopes (set_aside row error at envelopes o),
  waiting-set_aside row error at envelopes o,
)

pub waiting-quarantine_lt :
    (row : OutboxRow) (rows : List OutboxRow) (error : Text) (at : ℕ)
    (envelopes : List (ℕ × Envelope)) (o : Outbox)
    → HasPending row.id o.entries
    → backlog (quarantine (row ∷ rows) error at envelopes o) < backlog o
unfolding quarantine
waiting-quarantine_lt row rows error at envelopes o h = omega (
  arith,
  waiting-quarantine rows error at envelopes (set_aside row error at envelopes o),
  waiting-set_aside_lt row error at envelopes o h,
)

pub waiting-record_attempt :
    (ids : List ℕ) (error : Text) (o : Outbox) → backlog (record_attempt ids error o) ≤ backlog o
unfolding record_attempt backlog
waiting-record_attempt [] error o = omega arith
waiting-record_attempt (i ∷ ids) error o =
    waiting-update (i ∷ ids) (attempted error) o.entries (λ e h. h)

waiting_last :
    (entries : List Entry) (e : Entry)
    → is_pending e ≡ true
    → waiting (entries ++ e ∷ []) ≡ suc (waiting entries)
waiting_last [] e h = rw h refl
waiting_last (x ∷ entries) e h = elim (Bool-cases (is_pending x)) [
  | inl c ↦ rw c (ap suc (waiting_last entries e h))
  | inr c ↦ rw c (waiting_last entries e h)
]

pub backlog-enqueue :
    (entity entity_id payload : Text) (client_seq created_at : ℕ) (o : Outbox)
    → backlog (enqueue entity entity_id payload client_seq created_at o) ≡ suc (backlog o)
unfolding enqueue backlog
backlog-enqueue entity entity_id payload client_seq created_at o = waiting_last o.entries _ refl
