-- ===== src/Server/Coalesce/Invariant.antt =====
-- What holds between the coalescer and the requests that use it: internal/server/coalesce.go.
use cadish.Prelude.Dict.{Dict, lookup, has, insert, lookup-insert, has-insert, has-lookup}
use cadish.Prelude.{
  ℕ, suc, ◌+◌, ◌≤◌, ◌<◌, ◌≡◌, ◌⊎◌, inl, inr, refl, ap, ◌∙◌, true, false, List, [], ◌∷◌, ◌++◌, none,
  some, String, str_eq, eq_iff, leb, ◌==◌, if◌then◌else◌, All, arith, Bool-cases, is_some,
}
use cadish.Server.Coalesce.Steps.{World, new_world, take_part, fetching, running}
use cadish.Server.Coalesce.{FetchCall, new_call, write_call, enter_found}

pub fetching-append :
    (k : String) (xs ys : List (String × ℕ)) → fetching k (xs ++ ys) ≡ fetching k xs + fetching k ys
unfolding fetching
fetching-append k [] ys = ground arith
fetching-append k ((j, c) ∷ xs) ys = ground (arith, fetching-append k xs ys)

pub running-append :
    (d : ℕ) (xs ys : List (String × ℕ)) → running d (xs ++ ys) ≡ running d xs + running d ys
unfolding running
running-append d [] ys = ground arith
running-append d ((j, c) ∷ xs) ys = ground (arith, running-append d xs ys)

-- Each winner is the one that the map names for its key.
unfoldable pub Named : Dict ℕ → List (String × ℕ) → Type 0
Named m [] = Unit
Named m ((k, c) ∷ ws) = (lookup k m ≡ some c) × Named m ws

-- A waiter's call is done, or a winner runs it.
abbrev pub Waited : (ℕ → FetchCall) → ℕ → List (String × ℕ) → ℕ → Type 0
Waited heap allocated ws c = (c < allocated) × (((heap c).finished ≡ true) ⊎ (1 ≤ running c ws))

pub record IsSound (w : World) : Type 0 where
  pub counted : (k : String) → fetching k w.winners ≡ (if has k w.table.calls then 1 else 0)
  pub named : Named w.table.calls w.winners
  pub single : (c : ℕ) → running c w.winners ≤ 1
  pub live :
      (c : ℕ)
      → 1 ≤ running c w.winners
      → ((w.table.heap c).finished ≡ false) × (c < w.table.allocated)
  pub waited : All (Waited w.table.heap w.table.allocated w.winners) w.waiters

-- A key that a winner fetches for has its call under way.
running-Named :
    (k : String) (c : ℕ) (m : Dict ℕ) (ws : List (String × ℕ))
    → Named m ws
    → lookup k m ≡ some c
    → 1 ≤ fetching k ws
    → 1 ≤ running c ws
unfolding Named fetching running
running-Named k c m [] n e h = h
running-Named k c m ((j, d) ∷ ws) (p, n) e h =
    ground (arith, eq_iff j k, running-Named k c m ws n e)

pub Named-kept :
    (m p : Dict ℕ) (ws : List (String × ℕ)) (k : String)
    → ((q : String) → str_eq q k ≡ false → lookup q p ≡ lookup q m)
    → fetching k ws ≡ 0
    → Named m ws
    → Named p ws
unfolding Named fetching
Named-kept m p [] k h z n = tt
Named-kept m p ((j, c) ∷ ws) k h z (e, n) =
    (h j (ground arith) ∙ e, Named-kept m p ws k h (ground arith) n)

pub Named-append :
    (m : Dict ℕ) (xs ys : List (String × ℕ)) → Named m (xs ++ ys) → Named m xs × Named m ys
unfolding Named
Named-append m [] ys n = (tt, n)
Named-append m ((k, c) ∷ xs) ys (e, n) = let (a, b) = Named-append m xs ys n in ((e, a), b)

pub append-Named :
    (m : Dict ℕ) (xs ys : List (String × ℕ)) → Named m xs → Named m ys → Named m (xs ++ ys)
unfolding Named
append-Named m [] ys a b = b
append-Named m ((k, c) ∷ xs) ys (e, a) b = (e, append-Named m xs ys a b)

pub Waited-mono :
    (h g : ℕ → FetchCall) (m n : ℕ) (us vs : List (String × ℕ)) (cs : List ℕ)
    → ((c : ℕ) → Waited h m us c → Waited g n vs c)
    → All (Waited h m us) cs
    → All (Waited g n vs) cs
Waited-mono h g m n us vs [] f a = tt
Waited-mono h g m n us vs (c ∷ cs) f (p, a) = (f c p, Waited-mono h g m n us vs cs f a)

pub All-append : (P : ℕ → Type 0) (xs ys : List ℕ) → All P xs → All P ys → All P (xs ++ ys)
All-append P [] ys a b = b
All-append P (x ∷ xs) ys (p, a) b = (p, All-append P xs ys a b)

pub All-split : (P : ℕ → Type 0) (xs ys : List ℕ) → All P (xs ++ ys) → All P xs × All P ys
All-split P [] ys a = (tt, a)
All-split P (x ∷ xs) ys (p, a) = let (l, r) = All-split P xs ys a in ((p, l), r)

pub new_world-IsSound : IsSound new_world
unfolding Named running fetching
new_world-IsSound = record {
  counted = λ k. unfold has in refl;
  named = tt;
  single = λ c. omega arith;
  live = λ c h. absurd (omega (arith, h));
  waited = tt;
}

-- A request for a key that is under way waits for its call.
pub join-IsSound :
    (key : String) (w : World) (c : ℕ)
    → IsSound w
    → lookup key w.table.calls ≡ some c
    → IsSound (take_part key (enter_found (some c) key w.table) w)
join-IsSound key w c s e =
    let known : has key w.table.calls ≡ true = has-lookup key w.table.calls ∙ ap is_some e in
    let n : fetching key w.winners ≡ 1 = s.counted key ∙ rw known refl in
    let r : 1 ≤ running c w.winners =
      running-Named key c w.table.calls w.winners s.named e (omega (arith, n)) in
    record {
      counted = s.counted;
      named = s.named;
      single = s.single;
      live = s.live;
      waited = (((s.live c r).1, inr r), s.waited);
    }

pub fetching-cons :
    (k j : String) (c : ℕ) (ws : List (String × ℕ))
    → fetching k ((j, c) ∷ ws) ≡ (if str_eq j k then 1 else 0) + fetching k ws
unfolding fetching
fetching-cons k j c ws = refl

pub running-cons :
    (d : ℕ) (j : String) (c : ℕ) (ws : List (String × ℕ))
    → running d ((j, c) ∷ ws) ≡ (if c == d then 1 else 0) + running d ws
unfolding running
running-cons d j c ws = refl

insert-Named :
    (k : String) (c : ℕ) (m : Dict ℕ) (ws : List (String × ℕ))
    → fetching k ws ≡ 0
    → Named m ws
    → Named (insert k c m) ((k, c) ∷ ws)
unfolding Named
insert-Named k c m ws z n = (
  ground (arith, lookup-insert k k c m, eq_iff k k),
  Named-kept m (insert k c m) ws k
      (λ q h. ground (arith, lookup-insert k q c m, eq_iff q k, eq_iff k q)) z n,
)

-- A call that is not given out yet has no winner.
none_running : (w : World) (c : ℕ) → IsSound w → w.table.allocated ≤ c → running c w.winners ≡ 0
none_running w c s h = elim (Bool-cases (leb 1 (running c w.winners))) [
  | inl l ↦ let (f, lt) = s.live c (ground arith) in absurd (omega (arith, h, lt))
  | inr l ↦ ground arith
]

waited-win :
    (key : String) (c next : ℕ) (heap : ℕ → FetchCall) (ws : List (String × ℕ))
    → c < next
    → ((heap c).finished ≡ true) ⊎ (1 ≤ running c ws)
    → ((write_call next new_call heap c).finished ≡ true) ⊎ (1 ≤ running c ((key, next) ∷ ws))
waited-win key c next heap ws h (inl f) = inl (ground arith)
waited-win key c next heap ws h (inr r) = inr (ground (arith, running-cons c key next ws))

-- A request for a free key becomes its winner.
pub win-IsSound :
    (key : String) (w : World)
    → IsSound w
    → lookup key w.table.calls ≡ none
    → IsSound (take_part key (enter_found none key w.table) w)
win-IsSound key w s e =
    let free : has key w.table.calls ≡ false = has-lookup key w.table.calls ∙ ap is_some e in
    let n : fetching key w.winners ≡ 0 = s.counted key ∙ rw free refl in
    let next : ℕ = w.table.allocated in
    record {
      counted = λ k. ground (
        arith,
        fetching-cons k key next w.winners,
        has-insert key k next w.table.calls,
        s.counted k,
        n,
        eq_iff key k,
      );
      named = insert-Named key next w.table.calls w.winners n s.named;
      single = λ c. ground (
        arith,
        running-cons c key next w.winners,
        s.single c,
        none_running w next s (omega arith),
      );
      live = λ c h. (
        ground (arith, running-cons c key next w.winners, h, s.live c),
        ground (arith, running-cons c key next w.winners, h, s.live c),
      );
      waited =
          Waited-mono w.table.heap (write_call next new_call w.table.heap) next (suc next) w.winners
            ((key, next) ∷ w.winners) w.waiters
            (λ c q. (omega (arith, q.0), waited-win key c next w.table.heap w.winners q.0 q.1))
            s.waited;
    }
