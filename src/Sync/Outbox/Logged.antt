-- ===== src/Sync/Outbox/Logged.antt =====
-- The numbers of the rows and of the failures: each is below the next one that is given out, and no
-- two are the same.
use pos.Prelude.{
  ℕ, suc, ◌<◌, ◌≡◌, ◌≢◌, refl, sym, ap, subst, List, [], ◌∷◌, ◌++◌, map, All, All-append, Apart,
  Text, arith,
}
use pos.Sync.Outbox.{
  OutboxRow, Envelope, Failure, Outbox, mark_synced, record_attempt, set_aside, quarantine,
}
use pos.Sync.Outbox.Entries.{All-weaken}

-- Numbers that were given out below `next`.
abbrev pub IsNumbered : ℕ → List ℕ → Type 0
IsNumbered next ids = All (λ i. i < next) ids × Apart ◌≢◌ ids

abbrev pub failure_ids : List Failure → List ℕ
failure_ids = map (λ f. f.id)

-- The failures are numbered.
abbrev pub IsLogged : Outbox → Type 0
IsLogged o = IsNumbered o.next_failure_id (failure_ids o.failures)

pub IsNumbered-append :
    (next : ℕ) (ids : List ℕ) → IsNumbered next ids → IsNumbered (suc next) (ids ++ next ∷ [])
IsNumbered-append next ids (below, apart) = (
  All-append (λ i. i < suc next) ids (next ∷ [])
      (All-weaken (λ i. i < next) (λ i. i < suc next) ids (λ i h. omega arith) below)
      (omega arith, tt),
  last ids below apart,
)
  where
    last : (ids : List ℕ) → All (λ i. i < next) ids → Apart ◌≢◌ ids → Apart ◌≢◌ (ids ++ next ∷ [])
    last [] b a = (tt, tt)
    last (i ∷ ids) (b, bs) (a, as') =
        (All-append (λ j. i ≢ j) ids (next ∷ []) a ((λ e. omega arith), tt), last ids bs as')

map-append_one :
    (failures : List Failure) (f : Failure)
    → failure_ids (failures ++ f ∷ []) ≡ failure_ids failures ++ f.id ∷ []
map-append_one [] f = refl
map-append_one (g ∷ failures) f = ap (g.id ∷◌) (map-append_one failures f)

IsLogged-set_aside :
    (row : OutboxRow) (error : Text) (at : ℕ) (envelopes : List (ℕ × Envelope)) (o : Outbox)
    → IsLogged o
    → IsLogged (set_aside row error at envelopes o)
unfolding set_aside
IsLogged-set_aside row error at envelopes o h =
    subst (IsNumbered (suc o.next_failure_id)) (sym (map-append_one o.failures _))
      (IsNumbered-append o.next_failure_id (failure_ids o.failures) h)

pub IsLogged-quarantine :
    (rows : List OutboxRow) (error : Text) (at : ℕ) (envelopes : List (ℕ × Envelope)) (o : Outbox)
    → IsLogged o
    → IsLogged (quarantine rows error at envelopes o)
unfolding quarantine
IsLogged-quarantine [] error at envelopes o h = h
IsLogged-quarantine (row ∷ rows) error at envelopes o h =
    IsLogged-quarantine rows error at envelopes (set_aside row error at envelopes o)
      (IsLogged-set_aside row error at envelopes o h)

pub IsLogged-mark_synced :
    (ids : List ℕ) (at : ℕ) (o : Outbox) → IsLogged o → IsLogged (mark_synced ids at o)
unfolding mark_synced
IsLogged-mark_synced [] at o h = h
IsLogged-mark_synced (i ∷ ids) at o h = h

pub IsLogged-record_attempt :
    (ids : List ℕ) (error : Text) (o : Outbox) → IsLogged o → IsLogged (record_attempt ids error o)
unfolding record_attempt
IsLogged-record_attempt [] error o h = h
IsLogged-record_attempt (i ∷ ids) error o h = h

-- The number of the next row is not touched.
pub next_id-quarantine :
    (rows : List OutboxRow) (error : Text) (at : ℕ) (envelopes : List (ℕ × Envelope)) (o : Outbox)
    → (quarantine rows error at envelopes o).next_id ≡ o.next_id
unfolding quarantine set_aside
next_id-quarantine [] error at envelopes o = refl
next_id-quarantine (row ∷ rows) error at envelopes o =
    next_id-quarantine rows error at envelopes (set_aside row error at envelopes o)

pub next_id-mark_synced :
    (ids : List ℕ) (at : ℕ) (o : Outbox) → (mark_synced ids at o).next_id ≡ o.next_id
unfolding mark_synced
next_id-mark_synced [] at o = refl
next_id-mark_synced (i ∷ ids) at o = refl

pub next_id-record_attempt :
    (ids : List ℕ) (error : Text) (o : Outbox) → (record_attempt ids error o).next_id ≡ o.next_id
unfolding record_attempt
next_id-record_attempt [] error o = refl
next_id-record_attempt (i ∷ ids) error o = refl
