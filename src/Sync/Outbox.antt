-- ===== src/Sync/Outbox.antt =====
-- app/data/repositories/outbox.py over its two tables, which stand in the order of their ids as
-- AUTOINCREMENT gives them. A `datetime` is a number; a JSON text that is only passed on is a text.
pub mod Entries
pub mod Waiting
pub mod Booked
pub mod Logged
pub mod Retry
use pos.Prelude.{
  ℕ, suc, ◌+◌, ◌==◌, Bool, true, false, ◌&&◌, not, if◌then◌else◌, List, [], ◌∷◌, ◌++◌, length, take,
  any, keep, map, Option, none, some, Text, codes,
}
use mathlib.Core.List.{reverse}
use pos.Cart.{is_none, is_nil}

-- `Envelope` of app/sync/envelope.py, less the schema version, which is one constant.
pub record Envelope : Type 0 where
  pub entity : Text
  pub op : Text
  pub id : Text
  pub client_seq : ℕ
  pub contents : Text

pub record OutboxRow : Type 0 where
  pub id : ℕ
  pub entity : Text
  pub entity_id : Text
  pub op : Text
  pub payload : Text
  pub client_seq : ℕ
  pub created_at : ℕ
  pub attempts : ℕ

-- A row of the table `outbox`: what `OutboxRow.of` reads, and the two columns it does not.
pub record Entry : Type 0 where
  pub row : OutboxRow
  pub last_error : Option Text
  pub synced_at : Option ℕ

-- What is dumped into `payload_json`.
pub data Sent : Type 0 where
  queued : Text → Sent
  built : Envelope → Sent

-- A row of the table `sync_failures`.
pub record Failure : Type 0 where
  pub id : ℕ
  pub outbox_id : Option ℕ
  pub payload_json : Sent
  pub error : Text
  pub failed_at : ℕ
  pub acknowledged : Bool

pub record Outbox : Type 0 where
  pub entries : List Entry
  pub failures : List Failure
  pub next_id : ℕ
  pub next_failure_id : ℕ

-- `WHERE synced_at IS NULL`
abbrev pub is_pending : Entry → Bool
is_pending e = is_none e.synced_at

abbrev pub row_of : Entry → OutboxRow
row_of e = e.row

unfoldable pub next_pending : ℕ → Outbox → List OutboxRow
next_pending limit o = take limit (map row_of (keep is_pending o.entries))

abbrev pub has_id : List ℕ → Entry → Bool
has_id ids e = any (λ i. i == e.row.id) ids

-- `UPDATE outbox SET ... WHERE id IN (...)`
unfoldable pub update : List ℕ → (Entry → Entry) → List Entry → List Entry
update ids change [] = []
update ids change (e ∷ entries) = (if has_id ids e then change e else e) ∷ update ids change entries

abbrev pub synced : ℕ → Entry → Entry
synced at e = record e { synced_at = some at }

unfoldable pub mark_synced : List ℕ → ℕ → Outbox → Outbox
mark_synced [] at o = o
mark_synced (i ∷ ids) at o = record o { entries = update (i ∷ ids) (synced at) o.entries }

abbrev pub attempted : Text → Entry → Entry
attempted error e = record e {
  row = record e.row { attempts = suc e.row.attempts };
  last_error = some (take 500 error);
}

unfoldable pub record_attempt : List ℕ → Text → Outbox → Outbox
record_attempt [] error o = o
record_attempt (i ∷ ids) error o = record o {
  entries = update (i ∷ ids) (attempted error) o.entries;
}

-- `envelopes.get(row.id, row.payload)`
unfoldable pub sent_of : List (ℕ × Envelope) → OutboxRow → Sent
sent_of [] row = queued row.payload
sent_of ((i, envelope) ∷ envelopes) row =
    if i == row.id then built envelope else sent_of envelopes row

abbrev pub refused : ℕ → Text → Entry → Entry
refused at error e = record e { synced_at = some at; last_error = some (take 500 error) }

-- One round of the loop of `quarantine`.
unfoldable pub set_aside : OutboxRow → Text → ℕ → List (ℕ × Envelope) → Outbox → Outbox
set_aside row error at envelopes o =
    let failure : Failure = record {
      id = o.next_failure_id;
      outbox_id = some row.id;
      payload_json = sent_of envelopes row;
      error = take 2000 error;
      failed_at = at;
      acknowledged = false;
    } in
    record o {
      entries = update (row.id ∷ []) (refused at error) o.entries;
      failures = o.failures ++ failure ∷ [];
      next_failure_id = suc o.next_failure_id;
    }

unfoldable pub quarantine : List OutboxRow → Text → ℕ → List (ℕ × Envelope) → Outbox → Outbox
quarantine [] error at envelopes o = o
quarantine (row ∷ rows) error at envelopes o =
    quarantine rows error at envelopes (set_aside row error at envelopes o)

abbrev pub requeued : Entry → Entry
requeued e = record e { row = record e.row { attempts = 0 }; last_error = none; synced_at = none }

-- `UPDATE sync_failures SET acknowledged = 1 WHERE id = ?`
unfoldable pub acknowledge : ℕ → List Failure → List Failure
acknowledge i [] = []
acknowledge i (f ∷ failures) =
    (if f.id == i then record f { acknowledged = true } else f) ∷ acknowledge i failures

-- One round of the loop of `retry_failures`, with the count so far.
unfoldable pub retry_one : Failure → Outbox × ℕ → Outbox × ℕ
retry_one f (o, moved) = elim f.outbox_id [
  | none ↦ (record o { failures = acknowledge f.id o.failures }, moved)
  | some i ↦ (
    record o {
      entries = update (i ∷ []) requeued o.entries;
      failures = acknowledge f.id o.failures;
    },
    moved + 1,
  )
]

unfoldable pub retry_all : List Failure → Outbox × ℕ → Outbox × ℕ
retry_all [] state = state
retry_all (f ∷ failures) state = retry_all failures (retry_one f state)

abbrev pub is_open : Failure → Bool
is_open f = not f.acknowledged

-- The SELECT of `retry_failures`.
abbrev pub chosen : Option (List ℕ) → Failure → Bool
chosen none f = is_open f
chosen (some ids) f = is_open f && any (λ i. i == f.id) ids

unfoldable pub retry_failures : Option (List ℕ) → Outbox → Outbox × ℕ
retry_failures ids o = retry_all (keep (chosen ids) o.failures) (o, 0)

unfoldable pub backlog : Outbox → ℕ
backlog o = length (keep is_pending o.entries)

unfoldable pub first_created : List Entry → Option ℕ
first_created [] = none
first_created (e ∷ entries) = some e.row.created_at

abbrev pub oldest_pending_at : Outbox → Option ℕ
oldest_pending_at o = first_created (keep is_pending o.entries)

abbrev pub unacknowledged_failures : Outbox → ℕ
unacknowledged_failures o = length (keep is_open o.failures)

abbrev pub failures_page : ℕ → Outbox → List Failure
failures_page limit o = take limit (reverse (keep is_open o.failures))

-- `INSERT INTO outbox ... VALUES (entity, ?, 'insert', ?, ?, ?)`, as the repositories queue a record.
unfoldable pub enqueue : Text → Text → Text → ℕ → ℕ → Outbox → Outbox
enqueue entity entity_id payload client_seq created_at o =
    let row : OutboxRow = record {
      id = o.next_id;
      entity = entity;
      entity_id = entity_id;
      op = codes "insert";
      payload = payload;
      client_seq = client_seq;
      created_at = created_at;
      attempts = 0;
    } in
    record o {
      entries = o.entries ++ record { row = row; last_error = none; synced_at = none } ∷ [];
      next_id = suc o.next_id;
    }
