-- ===== src/Sync/Outbox/Retry.antt =====
-- `retry_failures` of app/data/repositories/outbox.py: a failure that is acted on waits again.
use pos.Prelude.{
  ℕ, ◌==◌, ==_iff, ◌≡◌, ◌≢◌, ◌⊎◌, inl, inr, refl, sym, subst, ◌∙◌, Bool-cases, true, false, List,
  [], ◌∷◌, any, keep, All, Apart, All-keep_of, Option, Option-cases, some, arith,
}
use pos.Sync.Outbox.{
  OutboxRow, Entry, Failure, Outbox, is_pending, update, requeued, acknowledge, retry_one,
  retry_all, retry_failures, chosen,
}
use pos.Sync.Outbox.Entries.{keys, keys-update, All-update, All-weaken}
use pos.Sync.Outbox.Booked.{HasFailed}
use pos.Sync.Outbox.Logged.{IsNumbered, IsLogged, failure_ids}

-- Failures with the number of `f` are about the row of `f`.
abbrev Matches : List Failure → Failure → Type 0
Matches failures f = All (λ g. g.id ≡ f.id → g.outbox_id ≡ f.outbox_id) failures

Matches-others :
    (failures : List Failure) (f : Failure)
    → All (λ i. f.id ≢ i) (failure_ids failures)
    → Matches failures f
Matches-others [] f h = tt
Matches-others (g ∷ failures) f (h, hs) = (λ e. absurd (h (sym e)), Matches-others failures f hs)

Matches-more :
    (f : Failure) (failures fs : List Failure)
    → All (λ i. f.id ≢ i) (failure_ids fs)
    → All (Matches failures) fs
    → All (Matches (f ∷ failures)) fs
Matches-more f failures [] a h = tt
Matches-more f failures (g ∷ fs) (a, as') (h, hs) =
    ((λ e. absurd (a e), h), Matches-more f failures fs as' hs)

Matches-all :
    (failures : List Failure) → Apart ◌≢◌ (failure_ids failures) → All (Matches failures) failures
Matches-all [] h = tt
Matches-all (f ∷ failures) (h, hs) = (
  (λ e. refl, Matches-others failures f h),
  Matches-more f failures failures h (Matches-all failures hs),
)

acknowledge-Matches :
    (j : ℕ) (failures : List Failure) (f : Failure)
    → Matches failures f
    → Matches (acknowledge j failures) f
unfolding acknowledge
acknowledge-Matches j [] f h = tt
acknowledge-Matches j (g ∷ failures) f (h, hs) = elim (Bool-cases (g.id == j)) [
  | inl e ↦ rw e (h, acknowledge-Matches j failures f hs)
  | inr e ↦ rw e (h, acknowledge-Matches j failures f hs)
]

failure_ids-acknowledge :
    (j : ℕ) (failures : List Failure) → failure_ids (acknowledge j failures) ≡ failure_ids failures
unfolding acknowledge
failure_ids-acknowledge j [] = refl
failure_ids-acknowledge j (g ∷ failures) = elim (Bool-cases (g.id == j)) [
  | inl e ↦ rw (e, failure_ids-acknowledge j failures)
  | inr e ↦ rw (e, failure_ids-acknowledge j failures)
]

-- A row keeps its failures when those of another row are acted on.
HasFailed-acknowledge :
    (i : ℕ) (f : Failure) (failures : List Failure)
    → f.outbox_id ≢ some i
    → Matches failures f
    → HasFailed i failures
    → HasFailed i (acknowledge f.id failures)
unfolding acknowledge
HasFailed-acknowledge i f [] other m h = elim h [ ]
HasFailed-acknowledge i f (g ∷ failures) other (m, ms) (inl (at, open_)) =
    let differs : (g.id == f.id) ≡ false = (elim (Bool-cases (g.id == f.id)) [
      | inl e ↦ absurd (other (sym (m ((==_iff g.id f.id).0 e)) ∙ at))
      | inr e ↦ e
    ]) in
    rw differs (inl (at, open_))
HasFailed-acknowledge i f (g ∷ failures) other (m, ms) (inr h) =
    inr (HasFailed-acknowledge i f failures other ms h)

-- What a retry leaves of the queue: all of its rows and numbers.
pub record Restores (o o' : Outbox) : Type 0 where
  pub same_keys : keys o' ≡ keys o
  pub same_next : o'.next_id ≡ o.next_id
  pub logged : IsLogged o → IsLogged o'

failures-retry_one :
    (f : Failure) (state : Outbox × ℕ)
    → (retry_one f state).0.failures ≡ acknowledge f.id state.0.failures
unfolding retry_one
failures-retry_one f (o, n) = elim (Option-cases f.outbox_id) [
  | inl h ↦ rw h refl
  | inr (i, h) ↦ rw h refl
]

retry_one-Restores : (f : Failure) (state : Outbox × ℕ) → Restores state.0 (retry_one f state).0
unfolding retry_one
retry_one-Restores f (o, n) =
    let same : failure_ids (acknowledge f.id o.failures) ≡ failure_ids o.failures =
      failure_ids-acknowledge f.id o.failures in
    elim (Option-cases f.outbox_id) [
      | inl h ↦ rw h (record {
        same_keys = refl;
        same_next = refl;
        logged = λ l. subst (IsNumbered o.next_failure_id) (sym same) l;
      })
      | inr (i, h) ↦ rw h (record {
        same_keys = keys-update (i ∷ []) requeued o.entries (λ e. refl);
        same_next = refl;
        logged = λ l. subst (IsNumbered o.next_failure_id) (sym same) l;
      })
    ]

pub retry_all-Restores :
    (fs : List Failure) (state : Outbox × ℕ) → Restores state.0 (retry_all fs state).0
unfolding retry_all
retry_all-Restores [] state = record { same_keys = refl; same_next = refl; logged = λ l. l }
retry_all-Restores (f ∷ fs) state =
    let a = retry_one-Restores f state in
    let b = retry_all-Restores fs (retry_one f state) in
    record {
      same_keys = b.same_keys ∙ a.same_keys;
      same_next = b.same_next ∙ a.same_next;
      logged = λ l. b.logged (a.logged l);
    }

-- `Done` is any way in which a row may be done with beside its failures.
module _ (Done : OutboxRow → Type 0) where
  abbrev pub Accounts : List Failure → Entry → Type 0
  Accounts failures e = (is_pending e ≡ true) ⊎ (Done e.row ⊎ HasFailed e.row.id failures)

  Accounts-acknowledge :
      (f : Failure) (failures : List Failure) (e : Entry)
      → f.outbox_id ≢ some e.row.id
      → Matches failures f
      → Accounts failures e
      → Accounts (acknowledge f.id failures) e
  Accounts-acknowledge f failures e other m (inl p) = inl p
  Accounts-acknowledge f failures e other m (inr (inl d)) = inr (inl d)
  Accounts-acknowledge f failures e other m (inr (inr h)) =
      inr (inr (HasFailed-acknowledge e.row.id f failures other m h))

  Accounts-requeue :
      (i : ℕ) (f : Failure) (failures : List Failure) (entries : List Entry)
      → f.outbox_id ≡ some i
      → Matches failures f
      → All (Accounts failures) entries
      → All (Accounts (acknowledge f.id failures)) (update (i ∷ []) requeued entries)
  Accounts-requeue i f failures entries same m h =
      All-update (Accounts failures) (Accounts (acknowledge f.id failures)) (i ∷ []) requeued
        entries (λ e has a. inl refl)
        (λ e has a. Accounts-acknowledge f failures e (λ t. other e has (cc (sym same ∙ t))) m a) h
    where
      other : (e : Entry) → any (λ k. k == e.row.id) (i ∷ []) ≡ false → i ≢ e.row.id
      other e has same = ground (arith, ==_iff i e.row.id)

  retry_one-Accounts :
      (f : Failure) (state : Outbox × ℕ)
      → Matches state.0.failures f
      → All (Accounts state.0.failures) state.0.entries
      → All (Accounts (retry_one f state).0.failures) (retry_one f state).0.entries
  unfolding retry_one
  retry_one-Accounts f (o, n) m h = elim (Option-cases f.outbox_id) [
    | inl none_ ↦ rw none_ (
        All-weaken (Accounts o.failures) (Accounts (acknowledge f.id o.failures)) o.entries
          (λ e a. Accounts-acknowledge f o.failures e (λ t. cc (sym none_ ∙ t)) m a) h)
    | inr (i, some_) ↦ rw some_ (Accounts-requeue i f o.failures o.entries some_ m h)
  ]

  retry_all-Accounts :
      (fs : List Failure) (state : Outbox × ℕ)
      → All (Matches state.0.failures) fs
      → All (Accounts state.0.failures) state.0.entries
      → All (Accounts (retry_all fs state).0.failures) (retry_all fs state).0.entries
  unfolding retry_all
  retry_all-Accounts [] state m h = h
  retry_all-Accounts (f ∷ fs) state (m, ms) h =
      retry_all-Accounts fs (retry_one f state)
        (rw (failures-retry_one f state) (
          All-weaken (Matches state.0.failures) (Matches (acknowledge f.id state.0.failures)) fs
            (λ g. acknowledge-Matches f.id state.0.failures g) ms))
        (retry_one-Accounts f state m h)

  -- Every row of the queue is accounted for after a retry as before it.
  pub retry_failures-Accounts :
      (ids : Option (List ℕ)) (o : Outbox)
      → IsLogged o
      → All (Accounts o.failures) o.entries
      → All (Accounts (retry_failures ids o).0.failures) (retry_failures ids o).0.entries
  unfolding retry_failures
  retry_failures-Accounts ids o (below, apart) h =
      retry_all-Accounts (keep (chosen ids) o.failures) (o, 0)
        (All-keep_of (Matches o.failures) (chosen ids) o.failures (Matches-all o.failures apart)) h

pub retry_failures-Restores :
    (ids : Option (List ℕ)) (o : Outbox) → Restores o (retry_failures ids o).0
unfolding retry_failures
retry_failures-Restores ids o = retry_all-Restores (keep (chosen ids) o.failures) (o, 0)
