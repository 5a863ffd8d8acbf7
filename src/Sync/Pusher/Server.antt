-- ===== src/Sync/Pusher/Server.antt =====
-- What the far end of the outbox promises, and what `_build`, `_post` and `_isolate` of
-- app/sync/pusher.py make of the books.
use pos.Prelude.{
  ℕ, ◌<◌, ◌≡◌, inl, inr, refl, Bool-cases, List, All, Option, none, some, ok, err-ne-ok, Text,
  arith,
}
use pos.Cart.{is_nil}
use pos.Sync.Outbox.{Envelope}
use pos.Sync.Pusher.{Outcome, Reply, failed, responded, raise_for, Cloud, post, post_with}

-- What `sync_push` promises: it accepts every item of a request that it answers with a status below
-- 400, and what it has accepted it keeps, whatever is asked of the server later.
pub record Server {W : Type 0} (cloud : Cloud W) (Accepted : Envelope → W → Type 0) : Type 0 where
  pub accepts :
      (token : Text) (envelopes : List Envelope) (w : W) (status : ℕ) (detail : Text)
      → (cloud.send token envelopes w).0 ≡ responded status detail
      → status < 400
      → All (λ e. Accepted e (cloud.send token envelopes w).1) envelopes
  pub keeps :
      (e : Envelope) (token : Text) (envelopes : List Envelope) (w : W)
      → Accepted e w
      → Accepted e (cloud.send token envelopes w).1
  pub renews :
      (e : Envelope) (renew : W → Outcome × W) (w : W)
      → cloud.renew ≡ some renew
      → Accepted e w
      → Accepted e (renew w).1

raise_for-ok :
    (reply : Reply)
    → raise_for reply ≡ ok tt
    → (status : ℕ) × (detail : Text) × (reply ≡ responded status detail) × (status < 400)
unfolding raise_for
raise_for-ok (failed text) h = err-ne-ok h
raise_for-ok (responded status detail) h = (status, detail, refl, ground arith)

module _ {W : Type 0} (cloud : Cloud W) (Accepted : Envelope → W → Type 0)
    (server : Server cloud Accepted) where
  post_with-Accepted :
      (token : Option Text) (envelopes : List Envelope) (w : W)
      → (post_with cloud token envelopes w).0 ≡ ok tt
      → All (λ e. Accepted e (post_with cloud token envelopes w).1) envelopes
  unfolding post_with
  post_with-Accepted none envelopes w h = err-ne-ok h
  post_with-Accepted (some token) envelopes w h = elim (Bool-cases (is_nil token)) [
    | inl e ↦ err-ne-ok (rw e at h)
    | inr e ↦
        let (status, detail, same, low) =
          raise_for-ok (cloud.send token envelopes w).0 (rw e at h) in
        rw e (server.accepts token envelopes w status detail same low)
  ]

  pub post_with_keeps :
      (token : Option Text) (envelopes : List Envelope) (e : Envelope) (w : W)
      → Accepted e w
      → Accepted e (post_with cloud token envelopes w).1
  unfolding post_with
  post_with_keeps none envelopes e w h = h
  post_with_keeps (some token) envelopes e w h = elim (Bool-cases (is_nil token)) [
    | inl c ↦ rw c h
    | inr c ↦ rw c (server.keeps e token envelopes w h)
  ]

  pub post-Accepted :
      (envelopes : List Envelope) (w : W)
      → (post cloud envelopes w).0 ≡ ok tt
      → All (λ e. Accepted e (post cloud envelopes w).1) envelopes
  post-Accepted envelopes w h = post_with-Accepted (cloud.token_provider w) envelopes w h
