-- ===== src/Sync/Pusher/Safety.antt =====
-- What `drain` of app/sync/pusher.py promises of the whole queue.
use pos.Prelude.{
  ℕ, suc, ◌<◌, ◌==◌, ==_iff, ◌≡◌, ◌≢◌, ◌⊎◌, inl, inr, refl, sym, ap, ◌∙◌, Bool-cases, true, false,
  if◌then◌else◌, List, [], ◌∷◌, map, All, Apart, some, ok, Text, arith,
}
use pos.Sync.Outbox.{OutboxRow, Entry, Envelope, Failure, Outbox, is_pending, backlog}
use pos.Sync.Outbox.Entries.{pointer, key, keys}
use pos.Sync.Outbox.Booked.{HasFailed, IsAccounted}
use pos.Sync.Outbox.Logged.{IsLogged}
use pos.Sync.Pusher.{Cloud, DrainResult, build_row}
use pos.Sync.Pusher.Drain.{Sync, start, drain}
use pos.Sync.Pusher.Server.{Server}
use pos.Sync.Pusher.Books.{Delivered}
use pos.Sync.Pusher.Drained.{drain_loop-Keeps}

abbrev no_row : OutboxRow
no_row = record {
  id = 0;
  entity = [];
  entity_id = [];
  op = [];
  payload = [];
  client_seq = 0;
  created_at = 0;
  attempts = 0;
}

-- The row with this id.
abbrev row_with : List Entry → ℕ → OutboxRow
row_with [] i = no_row
row_with (e ∷ entries) i = if e.row.id == i then e.row else row_with entries i

-- No two rows have one id.
abbrev pub IsKeyed : Outbox → Type 0
IsKeyed o = Apart (λ a b. a.0 ≢ b.0) (keys o)

skip :
    (e : Entry) (entries : List Entry) (ks : List (ℕ × (Text × Text × Text × ℕ)))
    → All (λ k. e.row.id ≢ k.0) ks
    → All (λ k. k.1 ≡ pointer (row_with entries k.0)) ks
    → All (λ k. k.1 ≡ pointer (row_with (e ∷ entries) k.0)) ks
skip e entries [] a h = tt
skip e entries (k ∷ ks) (a, as') (h, hs) =
    let other : (e.row.id == k.0) ≡ false = ground arith in (rw other h, skip e entries ks as' hs)

row_with-known :
    (entries : List Entry)
    → Apart (λ a b. a.0 ≢ b.0) (map key entries)
    → All (λ k. k.1 ≡ pointer (row_with entries k.0)) (map key entries)
row_with-known [] h = tt
row_with-known (e ∷ entries) (h, hs) =
    let here : (e.row.id == e.row.id) ≡ true = (==_iff e.row.id e.row.id).1 refl in
    (rw here refl, skip e entries (map key entries) h (row_with-known entries hs))

module _ {W : Type 0} (cloud : Cloud W) (Accepted : Envelope → W → Type 0) where
  -- Where an entry has got to: it waits, the server has the envelope that is built of it, or it is a
  -- failure that nobody has acted on.
  abbrev pub Arrived : W → List Failure → Entry → Type 0
  Arrived w failures e =
      (is_pending e ≡ true)
      ⊎ (((envelope : Envelope) × (build_row cloud e.row ≡ ok envelope) × Accepted envelope w)
          ⊎ HasFailed e.row.id failures)

  abbrev pub IsSafe : Sync W → Type 0
  IsSafe s = All (Arrived s.world s.outbox.failures) s.outbox.entries

  module _ (row_at : ℕ → OutboxRow) where
    same_build :
        (r : OutboxRow)
        → pointer r ≡ pointer (row_at r.id)
        → build_row cloud r ≡ build_row cloud (row_at r.id)
    same_build r e = ap (λ q. cloud.build q.0 q.1 q.2 q.3) e

    IsSafe-Booked :
        (w : W) (failures : List Failure) (entries : List Entry)
        → All (λ k. k.1 ≡ pointer (row_at k.0)) (map key entries)
        → All (Arrived w failures) entries
        → All (IsAccounted (Delivered cloud Accepted row_at w) failures) entries
    IsSafe-Booked w failures [] k h = tt
    IsSafe-Booked w failures (e ∷ entries) (k, ks) (inl p, hs) =
        (inl p, IsSafe-Booked w failures entries ks hs)
    IsSafe-Booked w failures (e ∷ entries) (k, ks) (inr (inl (x, b, a)), hs) =
        (inr (inl (x, sym (same_build e.row k) ∙ b, a)), IsSafe-Booked w failures entries ks hs)
    IsSafe-Booked w failures (e ∷ entries) (k, ks) (inr (inr f), hs) =
        (inr (inr f), IsSafe-Booked w failures entries ks hs)

    Booked-IsSafe :
        (w : W) (failures : List Failure) (entries : List Entry)
        → All (λ k. k.1 ≡ pointer (row_at k.0)) (map key entries)
        → All (IsAccounted (Delivered cloud Accepted row_at w) failures) entries
        → All (Arrived w failures) entries
    Booked-IsSafe w failures [] k h = tt
    Booked-IsSafe w failures (e ∷ entries) (k, ks) (inl p, hs) =
        (inl p, Booked-IsSafe w failures entries ks hs)
    Booked-IsSafe w failures (e ∷ entries) (k, ks) (inr (inl (x, b, a)), hs) =
        (inr (inl (x, same_build e.row k ∙ b, a)), Booked-IsSafe w failures entries ks hs)
    Booked-IsSafe w failures (e ∷ entries) (k, ks) (inr (inr f), hs) =
        (inr (inr f), Booked-IsSafe w failures entries ks hs)

  -- A queue in good order: its rows and failures are numbered, and every row has arrived somewhere.
  pub record IsHealthy (s : Sync W) : Type 0 where
    pub numbered : All (λ k. k.0 < s.outbox.next_id) (keys s.outbox)
    pub keyed : IsKeyed s.outbox
    pub logged : IsLogged s.outbox
    pub safe : IsSafe s

  -- With a server that keeps what it accepts, `drain` returns. Every row is still there, in its place,
  -- and points to what it pointed to; a row that no longer waits was accepted by the server or stands
  -- among the failures, if that was so before; and nothing waits unless the drain reports that it
  -- stopped early.
  pub drain-IsHealthy :
      Server cloud Accepted
      → (s : Sync W) → IsHealthy s
      → (r : DrainResult) × (s' : Sync W) × (drain cloud s ≡ some (r, s'))
        × (keys s'.outbox ≡ keys s.outbox)
        × IsHealthy s'
        × ((r.stopped_early ≡ true) ⊎ (backlog s'.outbox ≡ 0))
  drain-IsHealthy server s h =
      let row_at = row_with s.outbox.entries in
      let known = row_with-known s.outbox.entries h.keyed in
      let (r, s', done, k, e) =
        drain_loop-Keeps cloud Accepted row_at server (suc (suc (backlog s.outbox))) start s
          (omega arith) known in
      let healthy : IsHealthy s' = record {
        numbered = rw (k.same_keys, k.same_next) h.numbered;
        keyed = rw (k.same_keys) h.keyed;
        logged = k.logged h.logged;
        safe =
            Booked-IsSafe row_at s'.world s'.outbox.failures s'.outbox.entries
              (rw (k.same_keys) known)
              (k.books
                (IsSafe-Booked row_at s.world s.outbox.failures s.outbox.entries known h.safe));
      } in
      (
        r,
        s',
        done,
        k.same_keys,
        healthy,
        elim (Bool-cases r.stopped_early) [ inl early ↦ inl early | inr late ↦ inr (e late) ],
      )
