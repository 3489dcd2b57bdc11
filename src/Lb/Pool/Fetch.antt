-- ===== src/Lb/Pool/Fetch.antt =====
-- `Upstream.Fetch`: the failover over a pool, for one request. The instants, the cancellation and the answers
-- of the origins are arguments, by the number of the attempt.
pub mod Picked
pub mod Ends
use cadish.Lb.Pool.{
  Backend, FetchError, retriable, record_outcome, release, fetch_one, pickable, Policy, pick,
  passive_success, passive_failure, least_conn_from, pick_least_conn, round_robin_from,
  pick_round_robin, by_id, pick_ring, pick_by_policy, policy_key, round_robin, least_conn, sticky,
  shard_url, shard_key, shard_other,
}
use cadish.Lb.Ring.{Ring, contains_string}
use cadish.Prelude.{
  ℕ, zero, suc, ◌+◌, ◌≤◌, ◌<◌, ◌≡◌, ◌≢◌, ◌⊎◌, inl, inr, refl, sym, ap, ◌∙◌, Bool, true, false, not,
  ◌&&◌, List, [], ◌∷◌, Option, none, some, String, str_eq, eq_iff, if◌then◌else◌, get_elem?, arith,
  Bool-cases, Option-cases,
}
use cadish.Time.{Time, Duration}

pub record Pool : Type 0 where
  pub backends : List Backend
  pub ring : Ring
  pub rr : ℕ

-- A response of a backend, the error of the last attempt, `ErrNoBackend`, or the context's error.
pub data FetchEnd : Type 0 where
  served : String → FetchEnd
  failed : FetchError → FetchEnd
  no_backend cancelled : FetchEnd

pub record Request : Type 0 where
  pub policy : Policy
  pub routing : Option String
  pub key : String
  pub exclude : String
  pub has_body : Bool

pub record Settings : Type 0 where
  pub max_conns : ℕ
  pub threshold : ℕ
  pub eject : Duration

abbrev pub last_or : FetchEnd → Option FetchError → FetchEnd
last_or other none = other
last_or other (some e) = failed e

-- A backend changes where it is: the pool holds it by reference.
unfoldable pub update : Backend → List Backend → List Backend
update b [] = []
update b (c ∷ bs) = let rest = update b bs in if str_eq c.id b.id then b ∷ rest else c ∷ rest

-- How many backends have not been tried.
unfoldable pub untried : List String → List Backend → ℕ
untried tried [] = 0
untried tried (b ∷ bs) = (if contains_string tried b.id then 0 else 1) + untried tried bs

abbrev pub HasBackend : Backend → List Backend → Type 0
HasBackend b [] = ⊥
HasBackend b (c ∷ bs) = (b ≡ c) ⊎ HasBackend b bs

module _ (ring_hash : String → ℕ) (cfg : Settings) (is_cancelled : ℕ → Bool) (clock : ℕ → Time)
    (answer : ℕ → Backend → Option FetchError) where
  abbrev pub next_pick : Request → ℕ → List String → Pool → ℕ × Option Backend
  next_pick q n tried s =
      pick ring_hash q.policy (pickable q.exclude (contains_string tried) (clock n) cfg.max_conns)
        s.backends s.ring q.routing q.key s.rr

  unfoldable pub fetch :
      ℕ → Request → ℕ → List String → Option FetchError → Pool → Option (Pool × FetchEnd)
  unfolding update
  fetch zero q n tried last s = none
  fetch (suc fuel) q n tried last s = elim (is_cancelled n) [
    | true ↦ some (s, last_or cancelled last)
    | false ↦
        let (rr, picked) = next_pick q n tried s in
        elim picked [
          | none ↦ some (record s { rr = rr }, last_or no_backend last)
          | some b ↦
              let (b', err) =
                fetch_one cfg.max_conns cfg.threshold (clock n) cfg.eject (answer n b) b in
              let s' : Pool = record s { rr = rr; backends = update b' s.backends } in
              elim err [
                | none ↦ some (s', served b.id)
                | some e ↦ elim (retriable e && not q.has_body) [
                  | false ↦ some (s', failed e)
                  | true ↦ fetch fuel q (suc n) (b.id ∷ tried) (some e) s'
                ]
              ]
        ]
  ]
