-- ===== src/Server/Coalesce/Ending.antt =====
-- A winner that finishes: its call, its key and its waiters. internal/server/coalesce.go.
use cadish.Prelude.Dict.{Dict, lookup, has, erase, lookup-erase, has-erase, has-lookup}
use cadish.Prelude.{
  ℕ, ◌+◌, ◌<◌, ◌≡◌, inl, inr, refl, ap, ◌∙◌, Bool, true, false, List, ◌∷◌, ◌++◌, none, some, String,
  str_eq, eq_iff, ◌==◌, if◌then◌else◌, arith, Bool-cases, is_some,
}
use cadish.Server.Coalesce.Invariant.{
  Named, Waited, IsSound, Named-append, append-Named, Named-kept, fetching-append, running-append,
  fetching-cons, running-cons, Waited-mono,
}
use cadish.Server.Coalesce.Steps.{World, fetching, running}
use cadish.Server.Coalesce.{FetchCall, Coalescer, write_call, points_at, finish_pointed, finish}

points_at-lookup :
    (key : String) (call : ℕ) (m : Dict ℕ) → lookup key m ≡ some call → points_at key call m ≡ true
unfolding points_at
points_at-lookup key call m e =
    ap (λ o. elim o [ none ↦ false | some c ↦ c == call ]) e ∙ ground arith

finish-pointed :
    (key : String) (call : ℕ) (succeeded : Bool) (c : Coalescer)
    → finish key call succeeded c ≡ finish_pointed (points_at key call c.calls) key call succeeded c
unfolding finish
finish-pointed key call succeeded c = refl

ended-Waited :
    (c call allocated : ℕ) (f : FetchCall) (heap : ℕ → FetchCall) (us vs : List (String × ℕ))
    → f.finished ≡ true
    → running c us ≡ (if call == c then 1 else 0) + running c vs
    → Waited heap allocated us c
    → Waited (write_call call f heap) allocated vs c
ended-Waited c call allocated f heap us vs e r (lt, inl d) = (lt, inl (ground arith))
ended-Waited c call allocated f heap us vs e r (lt, inr d) =
    (lt, elim (Bool-cases (call == c)) [ inl o ↦ inl (ground arith) | inr o ↦ inr (ground arith) ])

-- One winner taken out of the list.
module _ (key : String) (call : ℕ) (before after : List (String × ℕ)) where
  abbrev pub all_winners : List (String × ℕ)
  all_winners = before ++ ((key, call) ∷ after)

  fetching-out :
      (q : String)
      → fetching q all_winners ≡ (if str_eq key q then 1 else 0) + fetching q (before ++ after)
  fetching-out q = omega (
    arith,
    fetching-append q before ((key, call) ∷ after),
    fetching-append q before after,
    fetching-cons q key call after,
  )

  running-out :
      (d : ℕ) → running d all_winners ≡ (if call == d then 1 else 0) + running d (before ++ after)
  running-out d = omega (
    arith,
    running-append d before ((key, call) ∷ after),
    running-append d before after,
    running-cons d key call after,
  )

  Named-out :
      (m : Dict ℕ) → Named m all_winners → (lookup key m ≡ some call) × Named m (before ++ after)
  Named-out m n =
      let (a, b) = Named-append m before ((key, call) ∷ after) n in
      unfold Named in (b.0, append-Named m before after a b.1)

  -- The state in which that winner is there.
  module _ (table : Coalescer) (waiters : List ℕ) where
    abbrev pub busy : World
    busy = record { table = table; winners = all_winners; waiters = waiters }

    abbrev pub ended : Bool → World
    ended succeeded = record {
      table = record table {
        calls = erase key table.calls;
        heap = write_call call (record { finished = true; succeeded = succeeded }) table.heap;
      };
      winners = before ++ after;
      waiters = waiters;
    }

    pub call_open : IsSound busy → ((table.heap call).finished ≡ false) × (call < table.allocated)
    call_open s = s.live call (ground (arith, running-out call))

    pub finish-busy :
        (succeeded : Bool)
        → IsSound busy
        → finish key call succeeded table ≡ some (ended succeeded).table
    finish-busy succeeded s =
        let (e, n) = Named-out table.calls s.named in
        let (f, lt) = call_open s in
        finish-pointed key call succeeded table
        ∙ rw (points_at-lookup key call table.calls e, f) refl

    pub ended-IsSound : (succeeded : Bool) → IsSound busy → IsSound (ended succeeded)
    ended-IsSound succeeded s =
        let (e, n) = Named-out table.calls s.named in
        let known : has key table.calls ≡ true = has-lookup key table.calls ∙ ap is_some e in
        let none_left : fetching key (before ++ after) ≡ 0 =
          ground (arith, fetching-out key, s.counted key, known, eq_iff key key) in
        record {
          counted = λ q. ground (
            arith,
            fetching-out q,
            has-erase key q table.calls,
            s.counted q,
            none_left,
            eq_iff key q,
          );
          named =
              Named-kept table.calls (erase key table.calls) (before ++ after) key
                (λ q h. ground (arith, lookup-erase key q table.calls, eq_iff q key, eq_iff key q))
                none_left n;
          single = λ d. ground (arith, running-out d, s.single d);
          live = λ d h. (
            ground (arith, running-out d, s.single d, s.live d, h),
            ground (arith, running-out d, s.live d, h),
          );
          waited =
              Waited-mono table.heap (ended succeeded).table.heap table.allocated table.allocated
                all_winners (before ++ after) waiters
                (λ c q.
                  ended-Waited c call table.allocated
                    (record { finished = true; succeeded = succeeded }) table.heap all_winners
                    (before ++ after) refl (running-out c) q)
                s.waited;
        }
