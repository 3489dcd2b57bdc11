-- ===== src/Lb/Pool/Fetch/Ends.antt =====
-- The rounds of the failover loop: each tries a backend that was not tried.
use cadish.Lb.Pool.Fetch.Picked.{Picked-pick}
use cadish.Lb.Pool.Fetch.{
  Pool, FetchEnd, served, failed, no_backend, cancelled, Request, Settings, last_or, update,
  untried, HasBackend, next_pick, fetch,
}
use cadish.Lb.Pool.{Backend, FetchError, retriable, fetch_one, pickable}
use cadish.Lb.Ring.{contains_string}
use cadish.Prelude.{
  ℕ, zero, suc, ◌≤◌, ◌<◌, ◌≡◌, inl, inr, refl, sym, ap, ◌∙◌, Bool, true, false, not, ◌&&◌, List, [],
  ◌∷◌, Option, none, some, String, str_eq, eq_iff, length, arith, Bool-cases, Option-cases,
}
use cadish.Time.{Time}

untried_mono :
    (x : String) (tried : List String) (bs : List Backend)
    → untried (x ∷ tried) bs ≤ untried tried bs
unfolding untried contains_string
untried_mono x tried [] = omega arith
untried_mono x tried (b ∷ bs) = ground (arith, untried_mono x tried bs)

untried_less :
    (b : Backend) (tried : List String) (bs : List Backend)
    → HasBackend b bs
    → contains_string tried b.id ≡ false
    → untried (b.id ∷ tried) bs < untried tried bs
unfolding untried contains_string
untried_less b tried [] h new = elim h [ ]
untried_less b tried (c ∷ bs) (inl e) new =
    let same : b.id ≡ c.id = ap (λ x. x.id) e in
    let fresh : contains_string tried c.id ≡ false = sym (ap (contains_string tried) same) ∙ new in
    ground (arith, eq_iff b.id c.id, untried_mono b.id tried bs)
untried_less b tried (c ∷ bs) (inr h) new = ground (arith, untried_less b tried bs h new)

untried-update :
    (b : Backend) (tried : List String) (bs : List Backend)
    → untried tried (update b bs) ≡ untried tried bs
unfolding untried update
untried-update b tried [] = refl
untried-update b tried (c ∷ bs) = elim (Bool-cases (str_eq c.id b.id)) [
  | inl e ↦
      let same : c.id ≡ b.id = ground (arith, eq_iff c.id b.id) in
      let told : contains_string tried c.id ≡ contains_string tried b.id =
        ap (contains_string tried) same in
      ground (arith, untried-update b tried bs)
  | inr e ↦ ground (arith, untried-update b tried bs)
]

pickable_new :
    (excl : String) (tried : String → Bool) (now : Time) (max : ℕ) (b : Backend)
    → pickable excl tried now max b ≡ true
    → tried b.id ≡ false
unfolding pickable
pickable_new excl tried now max b h = ground arith

module _ (ring_hash : String → ℕ) (cfg : Settings) (is_cancelled : ℕ → Bool) (clock : ℕ → Time)
    (answer : ℕ → Backend → Option FetchError) where
  -- A round leaves fewer backends untried.
  fewer :
      (q : Request) (n : ℕ) (tried : List String) (s : Pool) (fuel : ℕ) (b b' : Backend)
      → (next_pick ring_hash cfg is_cancelled clock answer q n tried s).1 ≡ some b
      → untried tried s.backends < suc fuel
      → untried (b.id ∷ tried) (update b' s.backends) < fuel
  fewer q n tried s fuel b b' e h =
      let (here, good) =
        Picked-pick ring_hash q.policy
          (pickable q.exclude (contains_string tried) (clock n) cfg.max_conns) s.backends s.ring
          q.routing q.key s.rr b e in
      omega (
        arith,
        untried-update b' (b.id ∷ tried) s.backends,
        untried_less b tried s.backends here
            (pickable_new q.exclude (contains_string tried) (clock n) cfg.max_conns b good),
      )

  -- With more fuel than there are backends that were not tried, the loop ends: whatever the policy, the
  -- origins' answers, the instants and the cancellation.
  fetch_ends_from :
      (fuel : ℕ) (q : Request) (n : ℕ) (tried : List String) (last : Option FetchError) (s : Pool)
      → untried tried s.backends < fuel
      → (r : Pool × FetchEnd) × (fetch ring_hash cfg is_cancelled clock answer fuel q n tried last s
          ≡ some r)
  unfolding fetch
  fetch_ends_from zero q n tried last s h = absurd (omega arith)
  fetch_ends_from (suc fuel) q n tried last s h =
      let p = next_pick ring_hash cfg is_cancelled clock answer q n tried s in
      elim (Bool-cases (is_cancelled n)) [
        | inl stop ↦ ((s, last_or cancelled last), ground arith)
        | inr on ↦ elim (Option-cases p.1) [
          | inl e ↦ ((record s { rr = p.0 }, last_or no_backend last), ground arith)
          | inr (b, e) ↦
              let f = fetch_one cfg.max_conns cfg.threshold (clock n) cfg.eject (answer n b) b in
              let s' : Pool = (record s { rr = p.0; backends = update f.0 s.backends }) in
              elim (Option-cases f.1) [
                | inl ok ↦ ((s', served b.id), ground arith)
                | inr (x, bad) ↦ elim (Bool-cases (retriable x && not q.has_body)) [
                  | inr final ↦ ((s', failed x), ground arith)
                  | inl again ↦
                      let (r, ends) =
                        fetch_ends_from fuel q (suc n) (b.id ∷ tried) (some x) s'
                          (fewer q n tried s fuel b f.0 e h) in
                      (r, ground arith)
                ]
              ]
        ]
      ]

untried-le : (bs : List Backend) → untried [] bs ≤ length bs
unfolding untried contains_string
untried-le [] = omega arith
untried-le (b ∷ bs) = omega (arith, untried-le bs)

-- `Fetch` ends, with one round for each backend of the pool and one more: whatever the policy, the hash, the
-- cancellation, the instants and the answers of the origins.
pub fetch_ends :
    (ring_hash : String → ℕ) (cfg : Settings) (is_cancelled : ℕ → Bool) (clock : ℕ → Time)
    (answer : ℕ → Backend → Option FetchError) (q : Request) (s : Pool)
    → (r : Pool × FetchEnd) × (fetch ring_hash cfg is_cancelled clock answer
          (suc (length s.backends))
          q
          0
          []
          none
          s
        ≡ some r)
fetch_ends ring_hash cfg is_cancelled clock answer q s =
    fetch_ends_from ring_hash cfg is_cancelled clock answer (suc (length s.backends)) q 0 [] none s
      (omega (arith, untried-le s.backends))
