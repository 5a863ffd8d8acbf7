-- ===== src/Tests/Queue.antt =====
-- A queue of two records and a server that keeps whatever it is sent.
use pos.Prelude.{
  ℕ, ◌+◌, ◌≡◌, ◌⊎◌, inl, refl, ◌≤◌, true, false, List, [], ◌∷◌, ◌++◌, All, none, some, ok, Text,
  codes, arith,
}
use mathlib.Core.List.{Memᴰ}
use mathlib.Core.List.Memᴰ as Memᴰ
use pos.Sync.Backoff.{default_backoff, seconds, reset}
use pos.Sync.Backoff.Waits.{fails}
use pos.Sync.Outbox.{Envelope, Entry, Outbox, backlog, oldest_pending_at}
use pos.Sync.Outbox.Entries.{keys}
use pos.Sync.Pusher.{Outcome, Reply, responded, Cloud, DrainResult}
use pos.Sync.Pusher.Drain.{Sync, drain}
use pos.Sync.Pusher.Server.{Server}
use pos.Sync.Pusher.Safety.{IsHealthy, drain-IsHealthy}
use pos.Sync.Pusher.Emptied.{IsObliging, drain-empties}
use pos.Sync.Pusher.History.{Step, Reach, Follows, Reach-Follows}
use pos.Sync.Engine.{SyncStatus, Pass, cycle, next_wait}
use pos.Sync.Engine.Passes.{cycle-clear, Wait, next_wait_lem}

-- The world is what the server has.
abbrev attic : Cloud (List Envelope)
attic = record {
  token_provider = λ w. some (codes "token");
  send = λ token envelopes w. (responded 200 [], envelopes ++ w);
  renew = none;
  utcnow = λ w. 700;
  build = λ entity entity_id op client_seq.
      ok (record {
        entity = entity;
        op = op;
        id = entity_id;
        client_seq = client_seq;
        contents = [];
      });
}

abbrev IsKept : Envelope → List Envelope → Type 0
IsKept e w = Memᴰ e w

all-IsKept : (envelopes w : List Envelope) → All (λ e. IsKept e (envelopes ++ w)) envelopes
all-IsKept [] w = tt
all-IsKept (x ∷ envelopes) w =
    (Memᴰ.head refl, later x (envelopes ++ w) envelopes (all-IsKept envelopes w))
  where
    later :
        (x : Envelope) (kept es : List Envelope)
        → All (λ e. IsKept e kept) es
        → All (λ e. IsKept e (x ∷ kept)) es
    later x kept [] h = tt
    later x kept (e ∷ es) (a, h) = (Memᴰ.tail a, later x kept es h)

attic-Server : Server attic IsKept
attic-Server = record {
  accepts = λ token envelopes w status detail e low. all-IsKept envelopes w;
  keeps = λ e token envelopes w h. Memᴰ.append_right envelopes h;
  renews = λ e renew w e' h. cc e';
}

abbrev entry : ℕ → Text → Entry
entry n sale = record {
  row = record {
    id = n;
    entity = codes "sale";
    entity_id = sale;
    op = codes "insert";
    payload = [];
    client_seq = n;
    created_at = 100 + n;
    attempts = 0;
  };
  last_error = none;
  synced_at = none;
}

abbrev two_waiting : Sync (List Envelope)
two_waiting = record {
  outbox = record {
    entries = entry 1 (codes "a") ∷ entry 2 (codes "b") ∷ [];
    failures = [];
    next_id = 3;
    next_failure_id = 1;
  };
  backoff = default_backoff;
  world = [];
}

two_waiting-IsHealthy : IsHealthy attic IsKept two_waiting
two_waiting-IsHealthy = record {
  numbered = (omega arith, (omega arith, tt));
  keyed = (((λ e. omega arith), tt), (tt, tt));
  logged = (tt, tt);
  safe = (inl refl, (inl refl, tt));
}

drain-IsHealthy_example :
    (r : DrainResult) × (s : Sync (List Envelope)) × (drain attic two_waiting ≡ some (r, s))
    × (keys s.outbox ≡ keys two_waiting.outbox)
    × IsHealthy attic IsKept s
    × ((r.stopped_early ≡ true) ⊎ (backlog s.outbox ≡ 0))
drain-IsHealthy_example =
    drain-IsHealthy attic IsKept attic-Server two_waiting two_waiting-IsHealthy

attic-IsObliging : IsObliging attic
attic-IsObliging = record {
  signed_in = λ w. (codes "token", refl, refl);
  answers = λ token envelopes w. (200, [], refl, omega arith);
  builds = λ entity entity_id op client_seq. (_, refl);
}

drain-empties_example :
    (r : DrainResult) × (s : Sync (List Envelope)) × (drain attic two_waiting ≡ some (r, s))
    × (r.stopped_early ≡ false)
    × (r.quarantined ≡ 0)
    × (backlog s.outbox ≡ 0)
    × (s.outbox.failures ≡ two_waiting.outbox.failures)
    × (seconds s.backoff ≡ 0)
    × IsHealthy attic IsKept s
drain-empties_example =
    drain-empties attic attic-IsObliging IsKept attic-Server two_waiting two_waiting-IsHealthy

abbrev both_sent : DrainResult
both_sent = record { pushed = 2; quarantined = 0; batches = 1; stopped_early = false; error = none }

abbrev all_sent : Sync (List Envelope)
all_sent = record two_waiting {
  outbox = record two_waiting.outbox {
    entries =
        record (entry 1 (codes "a")) { synced_at = some 700 }
        ∷ record (entry 2 (codes "b")) { synced_at = some 700 }
        ∷ [];
  };
  world =
      record {
        entity = codes "sale";
        op = codes "insert";
        id = codes "a";
        client_seq = 1;
        contents = [];
      }
      ∷ record {
        entity = codes "sale";
        op = codes "insert";
        id = codes "b";
        client_seq = 2;
        contents = [];
      }
      ∷ [];
}

drain_two : drain attic two_waiting ≡ some (both_sent, all_sent)
unfolding pos.Sync.Pusher.Drain.drain_loop pos.Sync.Pusher.Drain.drain_round
    pos.Sync.Outbox.next_pending pos.Sync.Pusher.Drain.send_batch pos.Sync.Pusher.build_all
    pos.Sync.Pusher.post_with pos.Sync.Pusher.raise_for pos.Sync.Outbox.mark_synced
    pos.Sync.Outbox.update pos.Sync.Pusher.Drain.drop_unbuildable reset
drain_two = refl

Reach-Follows_example : Follows attic IsKept two_waiting all_sent
Reach-Follows_example =
    Reach-Follows attic IsKept attic-Server two_waiting-IsHealthy
      (Reach.next Reach.here (Step.drains both_sent drain_two))

abbrev unsure : SyncStatus
unsure = record {
  online = false;
  backlog = 2;
  oldest_pending_at = none;
  failures = 0;
  last_push_at = none;
  last_pull_at = none;
  last_error = none;
  needs_update = false;
  needs_signin = true;
}

abbrev good_pass : Pass
good_pass = record {
  renewal = some Outcome.refreshed;
  drains = λ o. (ok both_sent, all_sent.outbox);
  pulls = λ o. (ok tt, o);
  pushed_at = 700;
  pulled_at = 701;
}

cycle-clear_example :
    let st = (cycle good_pass (unsure, two_waiting.outbox)).1.0 in
    (st.online ≡ false) ⊎ (st.backlog ≡ 0)
cycle-clear_example =
    cycle-clear attic IsKept attic-Server two_waiting all_sent both_sent good_pass unsure
      two_waiting-IsHealthy drain_two refl refl

-- The register that showed two records that wait shows none.
cycle-good :
    let st = (cycle good_pass (unsure, two_waiting.outbox)).1.0 in
    (st.online ≡ true) × (st.backlog ≡ 0)
unfolding cycle pos.Sync.Engine.refresh pos.Sync.Engine.push pos.Sync.Engine.pull backlog
cycle-good = (refl, refl)

next_wait_lem_example :
    let b = fails 12 (reset default_backoff) in
    (next_wait (some both_sent) b (some 7) ≤ 300)
    × Wait b (some both_sent) (some 7) (next_wait (some both_sent) b (some 7))
next_wait_lem_example = next_wait_lem 12 (some both_sent) (some 7)
