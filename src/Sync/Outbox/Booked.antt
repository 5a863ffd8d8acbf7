-- ===== src/Sync/Outbox/Booked.antt =====
-- Where a row of the outbox has got to: it waits, it was delivered, or it stands among the failures
-- for a person to see.
use pos.Prelude.{
  ℕ, ◌==◌, ==_iff, ◌≡◌, ◌⊎◌, inl, inr, refl, ap, subst, Bool-cases, true, false, List, [], ◌∷◌,
  ◌++◌, any, All, some, Text, arith,
}
use pos.Sync.Outbox.{
  OutboxRow, Entry, Envelope, Failure, Outbox, is_pending, mark_synced, record_attempt, set_aside,
  quarantine, synced, attempted, refused,
}
use pos.Sync.Outbox.Entries.{All-weaken, All-update}

-- A failure of this row that nobody has acted on.
abbrev pub HasFailed : ℕ → List Failure → Type 0
HasFailed i [] = ⊥
HasFailed i (f ∷ failures) =
    ((f.outbox_id ≡ some i) × (f.acknowledged ≡ false)) ⊎ HasFailed i failures

pub HasFailed-append :
    (i : ℕ) (failures more : List Failure) → HasFailed i failures → HasFailed i (failures ++ more)
HasFailed-append i [] more h = elim h [ ]
HasFailed-append i (f ∷ failures) more (inl h) = inl h
HasFailed-append i (f ∷ failures) more (inr h) = inr (HasFailed-append i failures more h)

HasFailed-last :
    (i : ℕ) (failures : List Failure) (f : Failure)
    → f.outbox_id ≡ some i
    → f.acknowledged ≡ false
    → HasFailed i (failures ++ f ∷ [])
HasFailed-last i [] f h k = inl (h, k)
HasFailed-last i (g ∷ failures) f h k = inr (HasFailed-last i failures f h k)

All-any : (P : ℕ → Type 0) (ids : List ℕ) (j : ℕ) → All P ids → any (λ i. i == j) ids ≡ true → P j
All-any P [] j h e = cc
All-any P (i ∷ ids) j (p, ps) e = elim (Bool-cases (i == j)) [
  | inl same ↦ subst P ((==_iff i j).0 same) p
  | inr other ↦ All-any P ids j ps (rw other at e)
]

module _ (Delivered : ℕ → Type 0) where
  abbrev pub IsAccounted : List Failure → Entry → Type 0
  IsAccounted failures e =
      (is_pending e ≡ true) ⊎ (Delivered e.row.id ⊎ HasFailed e.row.id failures)

  -- Every row that no longer waits was delivered or has failed.
  abbrev pub Booked : Outbox → Type 0
  Booked o = All (IsAccounted o.failures) o.entries

pub Booked-mark_synced :
    (D : ℕ → Type 0) (ids : List ℕ) (at : ℕ) (o : Outbox)
    → All D ids
    → Booked D o
    → Booked D (mark_synced ids at o)
unfolding mark_synced
Booked-mark_synced D [] at o d h = h
Booked-mark_synced D (i ∷ ids) at o d h =
    All-update (IsAccounted D o.failures) (IsAccounted D o.failures) (i ∷ ids) (synced at) o.entries
      (λ e has p. inr (inl (All-any D (i ∷ ids) e.row.id d has))) (λ e has p. p) h

pub Booked-record_attempt :
    (D : ℕ → Type 0) (ids : List ℕ) (error : Text) (o : Outbox)
    → Booked D o
    → Booked D (record_attempt ids error o)
unfolding record_attempt
Booked-record_attempt D [] error o h = h
Booked-record_attempt D (i ∷ ids) error o h =
    All-update (IsAccounted D o.failures) (IsAccounted D o.failures) (i ∷ ids) (attempted error)
      o.entries (λ e has p. p) (λ e has p. p) h

IsAccounted-append :
    (D : ℕ → Type 0) (failures : List Failure) (f : Failure) (e : Entry)
    → IsAccounted D failures e
    → IsAccounted D (failures ++ f ∷ []) e
IsAccounted-append D failures f e (inl p) = inl p
IsAccounted-append D failures f e (inr (inl d)) = inr (inl d)
IsAccounted-append D failures f e (inr (inr h)) =
    inr (inr (HasFailed-append e.row.id failures (f ∷ []) h))

Booked-set_aside :
    (D : ℕ → Type 0) (row : OutboxRow) (error : Text) (at : ℕ) (envelopes : List (ℕ × Envelope))
    (o : Outbox)
    → Booked D o
    → Booked D (set_aside row error at envelopes o)
unfolding set_aside
Booked-set_aside D row error at envelopes o h =
    All-update (IsAccounted D o.failures) (IsAccounted D _) (row.id ∷ []) (refused at error)
      o.entries
      (λ e has p.
        inr
          (inr (HasFailed-last e.row.id o.failures _ (ap some (single row.id e.row.id has)) refl)))
      (λ e has p. IsAccounted-append D o.failures _ e p) h
  where
    single : (i j : ℕ) → any (λ k. k == j) (i ∷ []) ≡ true → i ≡ j
    single i j e = (==_iff i j).0 (ground arith)

-- A row that is set aside is accounted for by its failure.
pub Booked-quarantine :
    (D : ℕ → Type 0) (rows : List OutboxRow) (error : Text) (at : ℕ)
    (envelopes : List (ℕ × Envelope)) (o : Outbox)
    → Booked D o
    → Booked D (quarantine rows error at envelopes o)
unfolding quarantine
Booked-quarantine D [] error at envelopes o h = h
Booked-quarantine D (row ∷ rows) error at envelopes o h =
    Booked-quarantine D rows error at envelopes (set_aside row error at envelopes o)
      (Booked-set_aside D row error at envelopes o h)

-- What was delivered once stays delivered.
pub Booked-weaken :
    (D D' : ℕ → Type 0) (o : Outbox) → ((i : ℕ) → D i → D' i) → Booked D o → Booked D' o
Booked-weaken D D' o f h =
    All-weaken (IsAccounted D o.failures) (IsAccounted D' o.failures) o.entries each h
  where
    each : (e : Entry) → IsAccounted D o.failures e → IsAccounted D' o.failures e
    each e (inl p) = inl p
    each e (inr (inl d)) = inr (inl (f e.row.id d))
    each e (inr (inr x)) = inr (inr x)
