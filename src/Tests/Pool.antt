-- ===== src/Tests/Pool.antt =====
-- internal/lb/upstream.go, with two backends of one pool.
use cadish.Lb.Health.{new_health_fsm}
use cadish.Lb.Pool.{
  round_robin, Backend, FetchError, at_capacity, answered, status_of, eligible, fetch_one,
  record_outcome, pick_least_conn, least_conn_from, pick_round_robin, round_robin_from, turn,
  at_turn,
}
use cadish.Lb.Pool.Fetch.{Pool, FetchEnd, Request, Settings, fetch}
use cadish.Lb.Pool.Fetch.Ends.{fetch_ends}
use cadish.Lb.Pool.Passive.{closed, fails, record_all, streak, fetch_one_balanced, ejects_lem}
use cadish.Lb.Pool.Selection.{IsLeast, NoneIn, pick_round_robin_lem, pick_least_conn_lem}
use cadish.Prelude.Int.{pos, ◌+ℤ◌}
use cadish.Prelude.{
  ℕ, suc, ◌+◌, ◌%◌, ◌<◌, get_elem?, ◌≤◌, ◌≡◌, ◌⊎◌, refl, Bool, true, false, not, List, [], ◌∷◌,
  Option, none, some, All, if◌then◌else◌, arith,
}
use cadish.Time.{Time, before}

abbrev new_backend : Backend
new_backend = record {
  id = "10.0.0.1:80";
  base_url = "http://10.0.0.1:80";
  inflight = 0;
  sem = 0;
  fsm = new_health_fsm (pos 1) (pos 1) true;
  consec_fail = 0;
  eject_until = pos 0;
}

abbrev busy_backend : Backend
busy_backend = record new_backend { id = "10.0.0.2:80"; inflight = 3; sem = 3 }

abbrev anyone : Backend → Bool
anyone b = true

least_is_new : pick_least_conn anyone (busy_backend ∷ new_backend ∷ []) ≡ some new_backend
unfolding pick_least_conn least_conn_from
least_is_new = refl

turns : (pick_round_robin anyone (busy_backend ∷ new_backend ∷ []) 5).1 ≡ some new_backend
unfolding pick_round_robin round_robin_from turn at_turn
turns = refl

pick_least_conn_lem_example :
    ((pick_least_conn anyone (busy_backend ∷ new_backend ∷ []) ≡ none)
      × All (λ b. anyone b ≡ false) (busy_backend ∷ new_backend ∷ []))
    ⊎ ((b : Backend) × (pick_least_conn anyone (busy_backend ∷ new_backend ∷ []) ≡ some b)
        × (anyone b ≡ true)
        × IsLeast anyone b.inflight (busy_backend ∷ new_backend ∷ []))
pick_least_conn_lem_example = pick_least_conn_lem anyone (busy_backend ∷ new_backend ∷ [])

pick_round_robin_lem_example :
    ((pick_round_robin anyone (busy_backend ∷ new_backend ∷ []) 5 ≡ (6, none))
      × All (λ b. anyone b ≡ false) (busy_backend ∷ new_backend ∷ []))
    ⊎ ((b : Backend) × (j : ℕ) × (pick_round_robin anyone (busy_backend ∷ new_backend ∷ []) 5
          ≡ (6, some b))
        × (j < 2)
        × (get_elem? (busy_backend ∷ new_backend ∷ []) ((5 + j) % 2) ≡ some b)
        × (anyone b ≡ true)
        × NoneIn anyone (busy_backend ∷ new_backend ∷ []) j 5)
pick_round_robin_lem_example =
    pick_round_robin_lem anyone (busy_backend ∷ new_backend ∷ []) 5 (omega arith) (omega arith)

fetch_one_balanced_example :
    ((busy_backend.sem ≡ 4)
      × (fetch_one 4 5 (pos 100) (pos 30) none busy_backend ≡ (busy_backend, some at_capacity)))
    ⊎ (((fetch_one 4 5 (pos 100) (pos 30) none busy_backend).1 ≡ none)
        × ((fetch_one 4 5 (pos 100) (pos 30) none busy_backend).0.sem ≤ 4)
        × ((closed 4 none (fetch_one 4 5 (pos 100) (pos 30) none busy_backend).0).sem ≡ 3)
        × ((closed 4 none (fetch_one 4 5 (pos 100) (pos 30) none busy_backend).0).inflight ≡ 3))
fetch_one_balanced_example =
    fetch_one_balanced 4 5 (pos 100) (pos 30) none busy_backend (omega arith) (omega arith)

-- Two bad gateways after a response.
abbrev outcomes : List (Time × Option FetchError)
outcomes = (pos 1, none) ∷ (pos 2, some (answered 502)) ∷ []

two_in_a_row : 2 ≤ suc (streak 0 outcomes)
unfolding streak status_of
two_in_a_row = omega arith

bad_gateway : fails (some (answered 502)) ≡ true
unfolding status_of
bad_gateway = refl

ejects_lem_example :
    eligible (pos 10) (
      record_outcome 2
        (pos 3)
        (pos 30)
        (some (answered 502))
        (record_all 2 (pos 30) outcomes new_backend))
    ≡ (if new_backend.fsm.up then not (before (pos 10) (pos 3 +ℤ pos 30)) else false)
ejects_lem_example =
    ejects_lem 2 (pos 3) (pos 10) (pos 30) outcomes (answered 502) new_backend bad_gateway
      two_in_a_row

abbrev two_backends : Pool
two_backends = record {
  backends = new_backend ∷ record new_backend { id = "10.0.0.2:80" } ∷ [];
  ring = record { points = []; owner = []; ids = [] };
  rr = 0;
}

abbrev plain_get : Request
plain_get = record {
  policy = round_robin;
  routing = none;
  key = "/";
  exclude = "";
  has_body = false;
}

abbrev settings : Settings
settings = record { max_conns = 4; threshold = 5; eject = pos 30 }

-- Every origin answers with a 503.
fetch_ends_example :
    (r : Pool × FetchEnd) × (fetch
        (λ k. 7)
        settings
        (λ n. false)
        (λ n. pos 100)
        (λ n b. some (answered 503))
        3
        plain_get
        0
        []
        none
        two_backends
      ≡ some r)
fetch_ends_example =
    fetch_ends (λ k. 7) settings (λ n. false) (λ n. pos 100) (λ n b. some (answered 503)) plain_get
      two_backends
