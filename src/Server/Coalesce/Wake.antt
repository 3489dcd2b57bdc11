-- ===== src/Server/Coalesce/Wake.antt =====
-- What the interleavings keep: internal/server/coalesce.go under serveMiss of handler.go.
use mathlib.Core.Path.{subst}
use cadish.Prelude.Dict.{lookup}
use cadish.Prelude.{
  ℕ, ◌≤◌, ◌≡◌, ◌⊎◌, inl, inr, refl, sym, ap, ◌∙◌, Bool, true, List, [], ◌∷◌, ◌++◌, Option, none,
  some, String, ◌==◌, All, arith, Bool-cases,
}
use cadish.Server.Coalesce.Ending.{busy, ended, finish-busy, ended-IsSound}
use cadish.Server.Coalesce.Invariant.{
  Waited, IsSound, All-append, All-split, new_world-IsSound, join-IsSound, win-IsSound,
}
use cadish.Server.Coalesce.Steps.{
  World, take_part, arrive, Reached, started, arrived, finished, gone, fetching, running,
}
use cadish.Server.Coalesce.{Coalescer, enter_found, enter, finish}

arrive_found :
    (key : String) (w : World) (o : Option ℕ)
    → IsSound w
    → lookup key w.table.calls ≡ o
    → IsSound (take_part key (enter_found o key w.table) w)
arrive_found key w none s e = win-IsSound key w s e
arrive_found key w (some c) s e = join-IsSound key w c s e

arrive-IsSound : (key : String) (w : World) → IsSound w → IsSound (arrive key w)
unfolding enter
arrive-IsSound key w s = arrive_found key w (lookup key w.table.calls) s refl

-- A winner of a reached state, brought to the front.
split-IsSound :
    (w : World) (key : String) (call : ℕ) (before after : List (String × ℕ))
    → IsSound w
    → w.winners ≡ before ++ ((key, call) ∷ after)
    → IsSound (busy key call before after w.table w.waiters)
split-IsSound w key call before after s e = subst (λ ws. IsSound (record w { winners = ws })) e s

some-eq : {A : Type 0} {a b : A} → some a ≡ some b → a ≡ b
some-eq e = cc

finished-IsSound :
    (w : World) (c : Coalescer) (before after : List (String × ℕ)) (key : String) (call : ℕ)
    (succeeded : Bool)
    → IsSound w
    → w.winners ≡ before ++ ((key, call) ∷ after)
    → finish key call succeeded w.table ≡ some c
    → IsSound (record { table = c; winners = before ++ after; waiters = w.waiters })
finished-IsSound w c before after key call succeeded s e f =
    let b : IsSound (busy key call before after w.table w.waiters) =
      split-IsSound w key call before after s e in
    let k : (ended key call before after w.table w.waiters succeeded).table ≡ c =
      some-eq (sym (finish-busy key call before after w.table w.waiters succeeded b) ∙ f) in
    subst (λ t. IsSound (record { table = t; winners = before ++ after; waiters = w.waiters })) k
      (ended-IsSound key call before after w.table w.waiters succeeded b)

gone-IsSound :
    (w : World) (before after : List ℕ) (call : ℕ)
    → IsSound w
    → w.waiters ≡ before ++ (call ∷ after)
    → IsSound (record { table = w.table; winners = w.winners; waiters = before ++ after })
gone-IsSound w before after call s e =
    let P : ℕ → Type 0 = Waited w.table.heap w.table.allocated w.winners in
    let (l, r) = All-split P before (call ∷ after) (subst (All P) e s.waited) in
    record {
      counted = s.counted;
      named = s.named;
      single = s.single;
      live = s.live;
      waited = All-append P before after l r.1;
    }

Reached-IsSound : (w : World) → Reached w → IsSound w
Reached-IsSound _ started = new_world-IsSound
Reached-IsSound _ (arrived w key r) = arrive-IsSound key w (Reached-IsSound w r)
Reached-IsSound _ (finished w c before after key call succeeded r e f) =
    finished-IsSound w c before after key call succeeded (Reached-IsSound w r) e f
Reached-IsSound _ (gone w before after call r e) =
    gone-IsSound w before after call (Reached-IsSound w r) e

-- However the requests for a key interleave, at most one of them fetches it from the origin as a winner.
pub fetching-le : (w : World) (key : String) → Reached w → fetching key w.winners ≤ 1
fetching-le w key r = let s : IsSound w = Reached-IsSound w r in ground (arith, s.counted key)

-- A winner of a reached state can finish with any result: `finish` does not fault, its call is then
-- done with that result, the key is free again, and the other keys' calls are as they were.
pub finish-Reached :
    (w : World) (key : String) (call : ℕ) (before after : List (String × ℕ)) (succeeded : Bool)
    → Reached w
    → w.winners ≡ before ++ ((key, call) ∷ after)
    → finish key call succeeded w.table
      ≡ some (ended key call before after w.table w.waiters succeeded).table
finish-Reached w key call before after succeeded r e =
    finish-busy key call before after w.table w.waiters succeeded
      (split-IsSound w key call before after (Reached-IsSound w r) e)

-- A call that is running has a winner in the list.
running-split :
    (c : ℕ) (ws : List (String × ℕ))
    → 1 ≤ running c ws
    → (key : String) × (before : List (String × ℕ)) × (after : List (String × ℕ)) × (ws
        ≡ before ++ ((key, c) ∷ after))
unfolding running
running-split c [] h = absurd (omega (arith, h))
running-split c ((k, d) ∷ ws) h = elim (Bool-cases (d == c)) [
  | inl e ↦ let same : d ≡ c = ground arith in (k, [], ws, ap (λ x. (k, x) ∷ ws) same)
  | inr e ↦
      let (key, before, after, f) = running-split c ws (ground arith) in
      (key, (k, d) ∷ before, after, ap (λ l. (k, d) ∷ l) f)
]

-- A call that one winner can finish, with either result, so that whoever waits for it goes on and sees
-- that result.
pub record WakesBy (w : World) (c : ℕ) (key : String) (before after : List (String × ℕ))
    : Type 0 where
  pub its_winner : w.winners ≡ before ++ ((key, c) ∷ after)
  pub wakes :
      (succeeded : Bool)
      → (t : Coalescer) × (finish key c succeeded w.table ≡ some t)
        × ((t.heap c).finished ≡ true)
        × ((t.heap c).succeeded ≡ succeeded)

abbrev pub CanWake : World → ℕ → Type 0
CanWake w c =
    (key : String) × (before : List (String × ℕ)) × (after : List (String × ℕ)) × WakesBy w c key
      before after

waiting-CanWake :
    (w : World) (c : ℕ)
    → Reached w
    → Waited w.table.heap w.table.allocated w.winners c
    → ((w.table.heap c).finished ≡ true) ⊎ CanWake w c
waiting-CanWake w c r (lt, inl d) = inl d
waiting-CanWake w c r (lt, inr n) =
    let (key, before, after, e) = running-split c w.winners n in
    inr (
      key,
      before,
      after,
      record {
        its_winner = e;
        wakes = λ ok. (_, finish-Reached w key c before after ok r e, ground arith, ground arith);
      },
    )

-- No request waits for a call that nobody will finish: in every reached state, the call of a waiter is
-- done already, or a winner runs it whose `finish` does not fault and closes it with its result.
pub waiter-CanWake :
    (w : World) (c : ℕ) (before after : List ℕ)
    → Reached w
    → w.waiters ≡ before ++ (c ∷ after)
    → ((w.table.heap c).finished ≡ true) ⊎ CanWake w c
waiter-CanWake w c before after r e =
    let s : IsSound w = Reached-IsSound w r in
    let P : ℕ → Type 0 = Waited w.table.heap w.table.allocated w.winners in
    let (l, m) = All-split P before (c ∷ after) (subst (All P) e s.waited) in
    waiting-CanWake w c r m.0
