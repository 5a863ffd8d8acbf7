-- ===== src/Sync/Outbox/Entries.antt =====
-- What the updates of app/data/repositories/outbox.py leave of the rows.
use pos.Prelude.{
  ℕ, suc, zero, ◌≡◌, ◌⊎◌, inl, inr, refl, ap, ◌∙◌, Bool-cases, true, false, List, [], ◌∷◌, ◌++◌,
  take, keep, map, All, Text, codes,
}
use pos.Sync.Outbox.{
  OutboxRow, Entry, Envelope, Outbox, is_pending, row_of, next_pending, has_id, update, mark_synced,
  record_attempt, set_aside, quarantine, enqueue, synced, attempted, refused,
}

-- What a payload is built of.
abbrev pub pointer : OutboxRow → Text × Text × Text × ℕ
pointer r = (r.entity, r.entity_id, r.op, r.client_seq)

abbrev pub key : Entry → ℕ × (Text × Text × Text × ℕ)
key e = (e.row.id, pointer e.row)

-- The rows of the table by their ids, with what each points to.
abbrev pub keys : Outbox → List (ℕ × (Text × Text × Text × ℕ))
keys o = map key o.entries

pub keys-update :
    (ids : List ℕ) (change : Entry → Entry) (entries : List Entry)
    → ((e : Entry) → key (change e) ≡ key e)
    → map key (update ids change entries) ≡ map key entries
unfolding update
keys-update ids change [] same = refl
keys-update ids change (e ∷ entries) same = elim (Bool-cases (has_id ids e)) [
  | inl h ↦ rw (h, same e, keys-update ids change entries same)
  | inr h ↦ rw (h, keys-update ids change entries same)
]

-- What holds of the rows after an update, of those that it changes and of the others.
pub All-update :
    (P Q : Entry → Type 0) (ids : List ℕ) (change : Entry → Entry) (entries : List Entry)
    → ((e : Entry) → has_id ids e ≡ true → P e → Q (change e))
    → ((e : Entry) → has_id ids e ≡ false → P e → Q e)
    → All P entries
    → All Q (update ids change entries)
unfolding update
All-update P Q ids change [] f g h = tt
All-update P Q ids change (e ∷ entries) f g (p, ps) =
    let rest = All-update P Q ids change entries f g ps in
    elim (Bool-cases (has_id ids e)) [ inl h ↦ rw h (f e h p, rest) | inr h ↦ rw h (g e h p, rest) ]

pub keys-mark_synced : (ids : List ℕ) (at : ℕ) (o : Outbox) → keys (mark_synced ids at o) ≡ keys o
unfolding mark_synced
keys-mark_synced [] at o = refl
keys-mark_synced (i ∷ ids) at o = keys-update (i ∷ ids) (synced at) o.entries (λ e. refl)

pub keys-record_attempt :
    (ids : List ℕ) (error : Text) (o : Outbox) → keys (record_attempt ids error o) ≡ keys o
unfolding record_attempt
keys-record_attempt [] error o = refl
keys-record_attempt (i ∷ ids) error o =
    keys-update (i ∷ ids) (attempted error) o.entries (λ e. refl)

pub keys-quarantine :
    (rows : List OutboxRow) (error : Text) (at : ℕ) (envelopes : List (ℕ × Envelope)) (o : Outbox)
    → keys (quarantine rows error at envelopes o) ≡ keys o
unfolding quarantine set_aside
keys-quarantine [] error at envelopes o = refl
keys-quarantine (row ∷ rows) error at envelopes o =
    keys-quarantine rows error at envelopes (set_aside row error at envelopes o)
    ∙ keys-update (row.id ∷ []) (refused at error) o.entries (λ e. refl)

-- Some row of the table with this id waits.
abbrev pub HasPending : ℕ → List Entry → Type 0
HasPending i [] = ⊥
HasPending i (e ∷ entries) = ((is_pending e ≡ true) × (e.row.id ≡ i)) ⊎ HasPending i entries

pub All-weaken {ℓ κ μ} :
    {A : Type ℓ} (P : A → Type κ) (Q : A → Type μ) (xs : List A)
    → ((x : A) → P x → Q x)
    → All P xs
    → All Q xs
All-weaken P Q [] f h = tt
All-weaken P Q (x ∷ xs) f (p, ps) = (f x p, All-weaken P Q xs f ps)

All-take {ℓ κ} : {A : Type ℓ} (P : A → Type κ) (n : ℕ) (xs : List A) → All P xs → All P (take n xs)
All-take P zero xs h = tt
All-take P (suc n) [] h = tt
All-take P (suc n) (x ∷ xs) (p, ps) = (p, All-take P n xs ps)

kept-All :
    (P : OutboxRow → Type 0) (entries : List Entry)
    → All (λ e. is_pending e ≡ true → P e.row) entries
    → All P (map row_of (keep is_pending entries))
kept-All P [] h = tt
kept-All P (e ∷ entries) (p, ps) = elim (Bool-cases (is_pending e)) [
  | inl h ↦ rw h (p h, kept-All P entries ps)
  | inr h ↦ rw h (kept-All P entries ps)
]

each-HasPending :
    (entries : List Entry) → All (λ e. is_pending e ≡ true → HasPending e.row.id entries) entries
each-HasPending [] = tt
each-HasPending (e ∷ entries) = (
  λ h. inl (h, refl),
  All-weaken (λ x. is_pending x ≡ true → HasPending x.row.id entries)
      (λ x. is_pending x ≡ true → HasPending x.row.id (e ∷ entries)) entries (λ x f h. inr (f h))
      (each-HasPending entries),
)

pub next_pending-HasPending :
    (n : ℕ) (o : Outbox) → All (λ r. HasPending r.id o.entries) (next_pending n o)
unfolding next_pending
next_pending-HasPending n o =
    All-take (λ r. HasPending r.id o.entries) n (map row_of (keep is_pending o.entries))
      (kept-All (λ r. HasPending r.id o.entries) o.entries (each-HasPending o.entries))

-- What holds of the keys of a table holds of each row that is next.
pub next_pending-All :
    (P : ℕ × (Text × Text × Text × ℕ) → Type 0) (n : ℕ) (o : Outbox)
    → All P (keys o)
    → All (λ r. P (r.id, pointer r)) (next_pending n o)
unfolding next_pending
next_pending-All P n o h =
    All-take (λ r. P (r.id, pointer r)) n (map row_of (keep is_pending o.entries))
      (kept-All (λ r. P (r.id, pointer r)) o.entries (of_keys o.entries h))
  where
    of_keys :
        (entries : List Entry)
        → All P (map key entries)
        → All (λ e. is_pending e ≡ true → P (e.row.id, pointer e.row)) entries
    of_keys [] h = tt
    of_keys (e ∷ entries) (p, ps) = (λ _. p, of_keys entries ps)

pub keys-append :
    (entries : List Entry) (e : Entry) → map key (entries ++ e ∷ []) ≡ map key entries ++ key e ∷ []
keys-append [] e = refl
keys-append (x ∷ entries) e = ap (key x ∷◌) (keys-append entries e)

pub keys-enqueue :
    (entity entity_id payload : Text) (client_seq created_at : ℕ) (o : Outbox)
    → keys (enqueue entity entity_id payload client_seq created_at o)
      ≡ keys o ++ (o.next_id, (entity, entity_id, codes "insert", client_seq)) ∷ []
unfolding enqueue
keys-enqueue entity entity_id payload client_seq created_at o = keys-append o.entries _
