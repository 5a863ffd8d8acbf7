-- ===== src/Sync/Pusher/History.antt =====
-- The queue over days: records are queued, drains run, failures are retried, in any order.
use pos.Prelude.{
  ℕ, suc, ◌<◌, ◌≡◌, ◌≢◌, inl, inr, refl, sym, ap, subst, ◌∙◌, List, [], ◌∷◌, ◌++◌, All, All-append,
  Apart, Option, some, Text, codes, ok, arith,
}
use mathlib.Core.List.{append-nil, append_assoc}
use pos.Sync.Outbox.{Entry, Envelope, enqueue, retry_failures}
use pos.Sync.Outbox.Entries.{keys-append, keys, All-weaken}
use pos.Sync.Outbox.Retry.{retry_failures-Restores, retry_failures-Accounts}
use pos.Sync.Pusher.{Cloud, DrainResult, build_row}
use pos.Sync.Pusher.Drain.{Sync, drain}
use pos.Sync.Pusher.Server.{Server}
use pos.Sync.Pusher.Safety.{Arrived, IsHealthy, drain-IsHealthy}

module _ {W : Type 0} (cloud : Cloud W) (Accepted : Envelope → W → Type 0) where
  pub data Step (s : Sync W) : Sync W → Type 0 where
    queues :
        (entity entity_id payload : Text) (client_seq created_at : ℕ)
        → Step s
            (record s { outbox = enqueue entity entity_id payload client_seq created_at s.outbox })
    drains : {t : Sync W} (r : DrainResult) → drain cloud s ≡ some (r, t) → Step s t
    retries :
        (ids : Option (List ℕ)) → Step s (record s { outbox = (retry_failures ids s.outbox).0 })
    -- the server goes on, and keeps what it accepted
    passes :
        (w : W)
        → ((e : Envelope) → Accepted e s.world → Accepted e w)
        → Step s (record s { world = w })

  pub data Reach (s : Sync W) : Sync W → Type 0 where
    here : Reach s s
    next : {t u : Sync W} → Reach s t → Step t u → Reach s u

  -- The rows of `s` are the first rows of `t`, and `t` is in good order.
  pub record Follows (s t : Sync W) : Type 0 where
    pub more : List (ℕ × (Text × Text × Text × ℕ))
    pub same_rows : keys t.outbox ≡ keys s.outbox ++ more
    pub healthy : IsHealthy cloud Accepted t

  Apart-append :
      (top : ℕ) (ks : List (ℕ × (Text × Text × Text × ℕ))) (p : Text × Text × Text × ℕ)
      → All (λ k. k.0 < top) ks
      → Apart (λ a b. a.0 ≢ b.0) ks
      → Apart (λ a b. a.0 ≢ b.0) (ks ++ (top, p) ∷ [])
  Apart-append top [] p b a = (tt, tt)
  Apart-append top (k ∷ ks) p (b, bs) (a, as') = (
    All-append (λ j. k.0 ≢ j.0) ks ((top, p) ∷ []) a ((λ e. omega arith), tt),
    Apart-append top ks p bs as',
  )

  enqueue-Follows :
      (entity entity_id payload : Text) (client_seq created_at : ℕ) (s : Sync W)
      → IsHealthy cloud Accepted s
      → Follows s
          (record s { outbox = enqueue entity entity_id payload client_seq created_at s.outbox })
  unfolding enqueue
  enqueue-Follows entity entity_id payload client_seq created_at s h =
      let ks = keys s.outbox in
      let k : ℕ × (Text × Text × Text × ℕ) =
        (s.outbox.next_id, (entity, entity_id, codes "insert", client_seq)) in
      let grown = keys-append s.outbox.entries _ in
      record {
        more = k ∷ [];
        same_rows = grown;
        healthy = record {
          numbered =
              subst (λ l. All (λ j. j.0 < suc s.outbox.next_id) l) (sym grown)
                (All-append (λ j. j.0 < suc s.outbox.next_id) ks (k ∷ [])
                  (All-weaken (λ j. j.0 < s.outbox.next_id) (λ j. j.0 < suc s.outbox.next_id) ks
                    (λ j b. omega arith) h.numbered)
                  (omega arith, tt));
          keyed =
              subst (λ l. Apart (λ a b. a.0 ≢ b.0) l) (sym grown)
                (Apart-append s.outbox.next_id ks k.1 h.numbered h.keyed);
          logged = h.logged;
          safe =
              All-append (Arrived cloud Accepted s.world s.outbox.failures) s.outbox.entries _
                h.safe (inl refl, tt);
        };
      }

  retry-Follows :
      (ids : Option (List ℕ)) (s : Sync W)
      → IsHealthy cloud Accepted s
      → Follows s (record s { outbox = (retry_failures ids s.outbox).0 })
  retry-Follows ids s h =
      let k = retry_failures-Restores ids s.outbox in
      record {
        more = [];
        same_rows = k.same_keys ∙ sym (append-nil (keys s.outbox));
        healthy = record {
          numbered = rw (k.same_keys, k.same_next) h.numbered;
          keyed = rw (k.same_keys) h.keyed;
          logged = k.logged h.logged;
          safe =
              retry_failures-Accounts
                (λ r. (x : Envelope) × (build_row cloud r ≡ ok x) × Accepted x s.world) ids s.outbox
                h.logged h.safe;
        };
      }

  pass-Follows :
      (w : W) (s : Sync W)
      → ((e : Envelope) → Accepted e s.world → Accepted e w)
      → IsHealthy cloud Accepted s
      → Follows s (record s { world = w })
  pass-Follows w s f h = record {
    more = [];
    same_rows = sym (append-nil (keys s.outbox));
    healthy = record {
      numbered = h.numbered;
      keyed = h.keyed;
      logged = h.logged;
      safe =
          All-weaken (Arrived cloud Accepted s.world s.outbox.failures)
            (Arrived cloud Accepted w s.outbox.failures) s.outbox.entries each h.safe;
    };
  }
    where
      each :
          (e : Entry)
          → Arrived cloud Accepted s.world s.outbox.failures e
          → Arrived cloud Accepted w s.outbox.failures e
      each e (inl p) = inl p
      each e (inr (inl (x, b, a))) = inr (inl (x, b, f x a))
      each e (inr (inr y)) = inr (inr y)

  module _ (server : Server cloud Accepted) where
    Step-Follows : {s t : Sync W} → Step s t → IsHealthy cloud Accepted s → Follows s t
    Step-Follows {s} (queues a b c d e) h = enqueue-Follows a b c d e s h
    Step-Follows {s} {t} (drains r done) h =
        let (r', t', done', same, h', e) = drain-IsHealthy cloud Accepted server s h in
        let equal : t' ≡ t = cc (sym done ∙ done') in
        subst (Follows s) equal
          (record { more = []; same_rows = same ∙ sym (append-nil (keys s.outbox)); healthy = h' })
    Step-Follows {s} (retries ids) h = retry-Follows ids s h
    Step-Follows {s} (passes w f) h = pass-Follows w s f h

    -- However records are queued, drained and retried: no row that was queued is ever gone or points
    -- elsewhere, and every row waits, was accepted by the server, or is a failure that nobody has
    -- acted on yet.
    pub Reach-Follows : {s t : Sync W} → IsHealthy cloud Accepted s → Reach s t → Follows s t
    Reach-Follows {s} h here = record {
      more = [];
      same_rows = sym (append-nil (keys s.outbox));
      healthy = h;
    }
    Reach-Follows {s} h (next r st) =
        let a = Reach-Follows h r in
        let b = Step-Follows st a.healthy in
        record {
          more = a.more ++ b.more;
          same_rows =
              b.same_rows
              ∙ ap (◌++ b.more) a.same_rows
              ∙ append_assoc (keys s.outbox) a.more b.more;
          healthy = b.healthy;
        }
