-- ===== src/Lb/Pool/Fetch/Picked.antt =====
-- What `pick` gives: a backend of the pool, and one that its predicate accepts.
use cadish.Lb.Pool.Fetch.{HasBackend}
use cadish.Lb.Pool.{
  Backend, Policy, pick, least_conn_from, pick_least_conn, round_robin_from, pick_round_robin, turn,
  at_turn, by_id, accepts, pick_ring, pick_by_policy, policy_key, round_robin, least_conn, sticky,
  shard_url, shard_key, shard_other,
}
use cadish.Lb.Ring
use cadish.Lb.Ring.{Ring, contains_string, walk, lookup, owner_at}
use cadish.Prelude.{
  ℕ, zero, suc, ◌≡◌, ◌⊎◌, inl, inr, sym, ap, ◌∙◌, Bool, true, ◌&&◌, List, [], ◌∷◌, ◌++◌, Option,
  none, some, String, str_eq, ltb, ◌==◌, length, get_elem?, arith, Bool-cases, Option-cases,
}

HasBackend-at :
    (b : Backend) (bs : List Backend) (p : ℕ) → get_elem? bs p ≡ some b → HasBackend b bs
HasBackend-at b [] p h = absurd (ground arith)
HasBackend-at b (c ∷ bs) zero h = inl (ground arith)
HasBackend-at b (c ∷ bs) (suc p) h = inr (HasBackend-at b bs p h)

HasBackend-turn :
    (b : Backend) (bs : List Backend) (v : ℕ) → at_turn bs v ≡ some b → HasBackend b bs
unfolding at_turn
HasBackend-turn b bs v h = elim (Option-cases (turn (length bs) v)) [
  | inl e ↦ absurd (ground (arith, e, h))
  | inr (p, e) ↦ HasBackend-at b bs p (ground (arith, e, h))
]

HasBackend-by_id :
    (b : Backend) (id : String) (bs : List Backend) → by_id id bs ≡ some b → HasBackend b bs
unfolding by_id
HasBackend-by_id b id [] h = absurd (ground arith)
HasBackend-by_id b id (c ∷ bs) h = elim (Bool-cases (str_eq c.id id)) [
  | inl same ↦ inl (ground arith)
  | inr other ↦ inr (HasBackend-by_id b id bs (ground arith))
]

-- A backend of the pool that the predicate accepts.
abbrev pub Picked : (Backend → Bool) → List Backend → Backend → Type 0
Picked ok bs b = HasBackend b bs × (ok b ≡ true)

Picked-round_robin :
    (ok : Backend → Bool) (bs : List Backend) (k i : ℕ) (b : Backend)
    → round_robin_from ok bs k i ≡ some b
    → Picked ok bs b
unfolding round_robin_from
Picked-round_robin ok bs zero i b h = absurd (ground arith)
Picked-round_robin ok bs (suc k) i b h = elim (Option-cases (at_turn bs i)) [
  | inl e ↦ absurd (ground arith)
  | inr (c, e) ↦ elim (Bool-cases (ok c)) [
    | inl good ↦
        let same : c ≡ b = ground arith in
        (HasBackend-turn b bs i (e ∙ ap some same), sym (ap ok same) ∙ good)
    | inr bad ↦ Picked-round_robin ok bs k (suc i) b (ground arith)
  ]
]

Picked-least_conn :
    (ok : Backend → Bool) (best : Option Backend) (bs : List Backend) (b : Backend)
    → least_conn_from ok best bs ≡ some b
    → (best ≡ some b) ⊎ Picked ok bs b
unfolding least_conn_from
Picked-least_conn ok best [] b h = inl h
Picked-least_conn ok none (c ∷ bs) b h = elim (Bool-cases (ok c)) [
  | inl good ↦ elim (Picked-least_conn ok (some c) bs b (ground arith)) [
    | inl e ↦ let same : c ≡ b = ground arith in inr (inl (sym same), sym (ap ok same) ∙ good)
    | inr (here, g) ↦ inr (inr here, g)
  ]
  | inr bad ↦ elim (Picked-least_conn ok none bs b (ground arith)) [
    | inl e ↦ inl e
    | inr (here, g) ↦ inr (inr here, g)
  ]
]
Picked-least_conn ok (some a) (c ∷ bs) b h = elim (Bool-cases (ok c && ltb c.inflight a.inflight)) [
  | inl better ↦ elim (Picked-least_conn ok (some c) bs b (ground arith)) [
    | inl e ↦
        let same : c ≡ b = ground arith in
        let good : ok c ≡ true = ground arith in inr (inl (sym same), sym (ap ok same) ∙ good)
    | inr (here, g) ↦ inr (inr here, g)
  ]
  | inr worse ↦ elim (Picked-least_conn ok (some a) bs b (ground arith)) [
    | inl e ↦ inl e
    | inr (here, g) ↦ inr (inr here, g)
  ]
]

walk_sound :
    (e : String → Bool) (r : Ring) (idx k i : ℕ) (seen : List String) (id : String)
    → walk e r idx k i seen ≡ some id
    → e id ≡ true
unfolding walk
walk_sound e r idx zero i seen id h = absurd (ground arith)
walk_sound e r idx (suc k) i seen id h =
    let o = owner_at r idx i in
    elim (Bool-cases (ltb (length seen) (length r.ids))) [
      | inr full ↦ absurd (ground arith)
      | inl room ↦ elim (Bool-cases (contains_string seen o)) [
        | inl old ↦ walk_sound e r idx k (suc i) seen id (ground arith)
        | inr new ↦ elim (Bool-cases (e o)) [
          | inl good ↦ let same : o ≡ id = ground arith in sym (ap e same) ∙ good
          | inr bad ↦ walk_sound e r idx k (suc i) (seen ++ (o ∷ [])) id (ground arith)
        ]
      ]
    ]

Picked-ring :
    (ring_hash : String → ℕ) (ok : Backend → Bool) (bs : List Backend) (r : Ring) (key : String)
    (b : Backend)
    → pick_ring ring_hash ok bs r key ≡ some b
    → Picked ok bs b
unfolding pick_ring lookup
Picked-ring ring_hash ok bs r key b h =
    elim (Option-cases (Ring.lookup ring_hash key (accepts ok bs) r)) [
      | inl e ↦ absurd (ground arith)
      | inr (id, e) ↦ elim (Bool-cases (length r.points == 0)) [
        | inl empty ↦ absurd (ground arith)
        | inr some_ ↦
            let found : by_id id bs ≡ some b = ground arith in
            let good : accepts ok bs id ≡ true =
              walk_sound (accepts ok bs) r (Ring.start (ring_hash key) r) (length r.points) 0 [] id
                (ground arith) in
            (HasBackend-by_id b id bs found, ground arith)
      ]
    ]

Picked-turn :
    (ok : Backend → Bool) (bs : List Backend) (rr : ℕ) (b : Backend)
    → (pick_round_robin ok bs rr).1 ≡ some b
    → Picked ok bs b
unfolding pick_round_robin
Picked-turn ok bs rr b h = Picked-round_robin ok bs (length bs) rr b h

Picked-least :
    (ok : Backend → Bool) (bs : List Backend) (b : Backend)
    → pick_least_conn ok bs ≡ some b
    → Picked ok bs b
unfolding pick_least_conn
Picked-least ok bs b h = elim (Picked-least_conn ok none bs b h) [
  | inl e ↦ absurd (ground arith)
  | inr p ↦ p
]

Picked-policy :
    (ring_hash : String → ℕ) (p : Policy) (ok : Backend → Bool) (bs : List Backend) (r : Ring)
    (routing : Option String) (key : String) (rr : ℕ) (b : Backend)
    → (pick_by_policy ring_hash p ok bs r routing key rr).1 ≡ some b
    → Picked ok bs b
unfolding pick_by_policy policy_key
Picked-policy ring_hash least_conn ok bs r routing key rr b h = Picked-least ok bs b h
Picked-policy ring_hash round_robin ok bs r routing key rr b h = Picked-turn ok bs rr b h
Picked-policy ring_hash shard_other ok bs r routing key rr b h = Picked-turn ok bs rr b h
Picked-policy ring_hash shard_url ok bs r routing key rr b h = Picked-ring ring_hash ok bs r key b h
Picked-policy ring_hash sticky ok bs r none key rr b h = Picked-turn ok bs rr b h
Picked-policy ring_hash sticky ok bs r (some k) key rr b h = Picked-ring ring_hash ok bs r k b h
Picked-policy ring_hash shard_key ok bs r none key rr b h = Picked-turn ok bs rr b h
Picked-policy ring_hash shard_key ok bs r (some k) key rr b h = Picked-ring ring_hash ok bs r k b h

pub Picked-pick :
    (ring_hash : String → ℕ) (p : Policy) (ok : Backend → Bool) (bs : List Backend) (r : Ring)
    (routing : Option String) (key : String) (rr : ℕ) (b : Backend)
    → (pick ring_hash p ok bs r routing key rr).1 ≡ some b
    → Picked ok bs b
unfolding pick
Picked-pick ring_hash p ok bs r routing key rr b h = elim (Bool-cases (length bs == 0)) [
  | inl empty ↦ absurd (ground arith)
  | inr some_ ↦ Picked-policy ring_hash p ok bs r routing key rr b (ground arith)
]
