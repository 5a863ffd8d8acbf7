-- ===== src/Sync/Backoff/Waits.antt =====
-- The waits of app/sync/backoff.py over a run of failures.
use pos.Prelude.{ℕ, zero, suc, ◌*◌, ◌^◌, ◌≤◌, ◌<◌, ◌≡◌, refl, ◌∙◌, min, arith}
use native.Mathlib.Nat.{pow-suc}
use pos.Sync.Backoff.{Backoff, fail, reset, seconds}

-- So many failures in a row.
abbrev pub fails : ℕ → Backoff → Backoff
fails zero b = b
fails (suc n) b = fail (fails n b)

same_bounds :
    (n : ℕ) (b : Backoff)
    → ((fails n b).first_seconds ≡ b.first_seconds) × ((fails n b).cap_seconds ≡ b.cap_seconds)
unfolding fail
same_bounds zero b = (refl, refl)
same_bounds (suc n) b = same_bounds n b

pow_pos : (n : ℕ) → 0 < 2 ^ n
pow_pos zero = omega arith
pow_pos (suc n) = rw (pow-suc 2 n) (omega (arith, pow_pos n))

fail_first : (b : Backoff) → (fail (reset b)).current ≡ b.first_seconds
unfolding fail reset
fail_first b = refl

fail_next : (b : Backoff) → 0 < b.current → (fail b).current ≡ min (b.current * 2) b.cap_seconds
unfolding fail
fail_next b h = ground arith

reset_cap : (b : Backoff) → (reset b).cap_seconds ≡ b.cap_seconds
unfolding reset
reset_cap b = refl

capped : (a cap : ℕ) → min (min a cap * 2) cap ≡ min (a * 2) cap
capped a cap = omega arith

doubled : (f p cap : ℕ) → min (min (f * p) cap * 2) cap ≡ min (f * (p * 2)) cap
doubled f p cap = let same : f * (p * 2) ≡ f * p * 2 = grind arith in rw same (capped (f * p) cap)

-- After a success the wait doubles with every failure from the first one, up to the cap.
pub seconds-fails :
    (n : ℕ) (b : Backoff)
    → 0 < b.first_seconds
    → b.first_seconds ≤ b.cap_seconds
    → seconds (fails (suc n) (reset b)) ≡ min (b.first_seconds * 2 ^ n) b.cap_seconds
seconds-fails zero b p q = fail_first b ∙ omega arith
seconds-fails (suc n) b p q =
    let ih = seconds-fails n b p q in
    let c : ℕ = 2 ^ n in
    let pos : 0 < b.first_seconds * 2 ^ n = grind (arith, pow_pos n) in
    let was : 0 < (fails (suc n) (reset b)).current = omega arith in
    let cap : (fails (suc n) (reset b)).cap_seconds ≡ b.cap_seconds =
      (same_bounds (suc n) (reset b)).1 ∙ reset_cap b in
    fail_next (fails (suc n) (reset b)) was
    ∙ rw (ih, cap, pow-suc 2 n) (doubled b.first_seconds (2 ^ n) b.cap_seconds)
