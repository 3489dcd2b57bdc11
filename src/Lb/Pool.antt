-- ===== src/Lb/Pool.antt =====
-- The backends of a pool: internal/lb/upstream.go. A method is a step of the backend that it locks. The
-- origin's answer is an argument; an error is known by the status that `origin.StatusOf` gives for it. The
-- pool's own count of requests, the sum of the backends', is left out. A response is released once, when its body is closed.
pub mod Selection
pub mod Passive
pub mod Fetch
use cadish.Lb.Health.{HealthFsm}
use cadish.Lb.Ring
use cadish.Lb.Ring.{Ring}
use cadish.Prelude.Int.{ℤ, ◌+ℤ◌}
use cadish.Prelude.{
  ℕ, zero, suc, ◌+◌, ◌-◌, ◌%◌, Bool, true, false, not, ◌&&◌, ◌||◌, List, [], ◌∷◌, Option, none,
  some, String, str_eq, ltb, leb, ◌==◌, if◌then◌else◌, length, get_elem?,
}
use cadish.Time.{Time, Duration, zero_time, before, half_words}

-- `sem` counts the slots that are taken; it is not used when `max_conns` is 0.
pub record Backend : Type 0 where
  pub id : String
  pub base_url : String
  pub inflight : ℕ
  pub sem : ℕ
  pub fsm : HealthFsm
  pub consec_fail : ℕ
  pub eject_until : Time

-- `errAtCapacity`, or an error of the origin with its status (0 for none).
pub data FetchError : Type 0 where
  at_capacity : FetchError
  answered : ℕ → FetchError

unfoldable pub status_of : FetchError → ℕ
status_of at_capacity = 0
status_of (answered st) = st

abbrev pub is_server_failure : ℕ → Bool
is_server_failure st = st == 0 || (leb 500 st && leb st 599)

unfoldable pub retriable : FetchError → Bool
unfolding status_of
retriable at_capacity = true
retriable (answered st) = is_server_failure (status_of (answered st))

unfoldable pub eligible : Time → Backend → Bool
eligible now b = if b.fsm.up then not (before now b.eject_until) else false

unfoldable pub under_cap : ℕ → Backend → Bool
under_cap max b = max == 0 || ltb b.inflight max

unfoldable pub passive_success : Backend → Backend
passive_success b = record b { consec_fail = 0; eject_until = zero_time }

unfoldable pub passive_failure : ℕ → Time → Duration → Backend → Backend
passive_failure threshold now dur b =
    let n = b.consec_fail + 1 in
    record b {
      consec_fail = n;
      eject_until = if leb threshold n then now +ℤ dur else b.eject_until;
    }

-- `recordOutcome`; no error is `none`.
unfoldable pub record_outcome : ℕ → Time → Duration → Option FetchError → Backend → Backend
unfolding passive_success passive_failure status_of
record_outcome threshold now dur none b = passive_success b
record_outcome threshold now dur (some e) b =
    if is_server_failure (status_of e)
    then passive_failure threshold now dur b
    else passive_success b

-- `release`, once for each acquisition.
unfoldable pub release : ℕ → Backend → Backend
release max b = record b { inflight = b.inflight - 1; sem = if max == 0 then b.sem else b.sem - 1 }

-- `fetchOne`: `outcome` is the error of the backend's origin, `none` for a response. A response keeps the
-- capacity until its body is closed.
unfoldable pub fetch_one :
    ℕ → ℕ → Time → Duration → Option FetchError → Backend → Backend × Option FetchError
unfolding release record_outcome
fetch_one max threshold now dur outcome b =
    if not (max == 0) && leb max b.sem
    then (b, some at_capacity)
    else let held = record b {
      inflight = b.inflight + 1;
      sem = if max == 0 then b.sem else b.sem + 1;
    } in
      elim outcome [
        | some e ↦ (record_outcome threshold now dur (some e) (release max held), some e)
        | none ↦ (record_outcome threshold now dur none held, none)
      ]

-- The predicate of `pick`: not excluded, not tried, eligible, and under the cap.
unfoldable pub pickable : String → (String → Bool) → Time → ℕ → Backend → Bool
unfolding eligible under_cap
pickable excl tried now max b =
    if not (str_eq excl "") && str_eq b.base_url excl
    then false
    else not (tried b.id) && eligible now b && under_cap max b

-- The loop of `pickRoundRobin`: k backends are left, from the i-th after the cursor on.
-- `(start+i)%n`, where `start` is the cursor as an int. A negative remainder is no index.
unfoldable pub turn : ℕ → ℕ → Option ℕ
turn n v =
    let bits = v % (half_words + half_words) in
    if ltb bits half_words
    then some (bits % n)
    else if (half_words + half_words - bits) % n == 0
    then some 0
    else none

-- The backend of a turn. With `none`, also for the rest of the loop, the source faults.
unfoldable pub at_turn : List Backend → ℕ → Option Backend
unfolding turn
at_turn bs v = elim (turn (length bs) v) [ none ↦ none | some p ↦ get_elem? bs p ]

unfoldable pub round_robin_from : (Backend → Bool) → List Backend → ℕ → ℕ → Option Backend
unfolding at_turn
round_robin_from ok bs zero i = none
round_robin_from ok bs (suc k) i = elim (at_turn bs i) [
  | none ↦ none
  | some b ↦ elim (ok b) [ true ↦ some b | false ↦ round_robin_from ok bs k (suc i) ]
]

-- `pickRoundRobin`: the cursor, a uint64, moves on by one.
unfoldable pub pick_round_robin : (Backend → Bool) → List Backend → ℕ → ℕ × Option Backend
unfolding round_robin_from
pick_round_robin ok bs rr =
    ((rr + 1) % (half_words + half_words), round_robin_from ok bs (length bs) rr)

-- The loop of `pickLeastConn`, with the best backend so far.
unfoldable pub least_conn_from : (Backend → Bool) → Option Backend → List Backend → Option Backend
least_conn_from ok best [] = best
least_conn_from ok best (b ∷ bs) =
    let better : Bool = (elim best [ none ↦ true | some c ↦ ltb b.inflight c.inflight ]) in
    least_conn_from ok (if ok b && better then some b else best) bs

unfoldable pub pick_least_conn : (Backend → Bool) → List Backend → Option Backend
unfolding least_conn_from
pick_least_conn ok bs = least_conn_from ok none bs

-- `byID[id]`
unfoldable pub by_id : String → List Backend → Option Backend
by_id id [] = none
by_id id (b ∷ bs) = if str_eq b.id id then some b else by_id id bs

abbrev pub accepts : (Backend → Bool) → List Backend → String → Bool
accepts ok bs id = elim (by_id id bs) [ none ↦ false | some b ↦ ok b ]

unfoldable pub pick_ring :
    (String → ℕ) → (Backend → Bool) → List Backend → Ring → String → Option Backend
unfolding by_id
pick_ring ring_hash ok bs r key = elim (Ring.lookup ring_hash key (accepts ok bs) r) [
  | none ↦ none
  | some id ↦ by_id id bs
]

pub data Policy : Type 0 where
  round_robin least_conn sticky shard_url shard_key shard_other : Policy

-- The key that the policy routes on: that of the context for the sticky policy and for shards by key, that
-- of the request for shards by URL.
unfoldable pub policy_key : Policy → Option String → String → Option String
policy_key sticky routing req_key = routing
policy_key shard_url routing req_key = some req_key
policy_key shard_key routing req_key = routing
policy_key round_robin routing req_key = none
policy_key least_conn routing req_key = none
policy_key shard_other routing req_key = none

-- A policy without a key falls back to round-robin.
unfoldable pub pick_by_policy :
    (String → ℕ)
    → Policy
    → (Backend → Bool)
    → List Backend
    → Ring
    → Option String
    → String
    → ℕ
    → ℕ × Option Backend
unfolding pick_round_robin pick_least_conn pick_ring policy_key
pick_by_policy ring_hash least_conn ok bs r routing req_key rr = (rr, pick_least_conn ok bs)
pick_by_policy ring_hash policy ok bs r routing req_key rr =
    elim (policy_key policy routing req_key) [
      | some key ↦ (rr, pick_ring ring_hash ok bs r key)
      | none ↦ pick_round_robin ok bs rr
    ]

-- `pick`, with the cursor: an empty pool does not move it.
unfoldable pub pick :
    (String → ℕ)
    → Policy
    → (Backend → Bool)
    → List Backend
    → Ring
    → Option String
    → String
    → ℕ
    → ℕ × Option Backend
unfolding pick_by_policy
pick ring_hash policy ok bs r routing req_key rr =
    if length bs == 0
    then (rr, none)
    else pick_by_policy ring_hash policy ok bs r routing req_key rr
