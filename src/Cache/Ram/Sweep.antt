-- ===== src/Cache/Ram/Sweep.antt =====
-- The CLOCK loop of `commit`: each round keeps the invariant and shortens the rest of the loop.
use cadish.Cache.Ring.{
  contains, back, contains-back-none, contains-remove, remove-IsRing, contains-back,
  drop_back-remove, length-remove,
}
use cadish.Cache.Ram.{RamEntry, RamShard, sweep_back, make_room}
use cadish.Prelude.Dict.{
  Dict, lookup, has, total, total_none, weight_at, lookup-erase, has-erase, lookup-insert,
  has-insert, has-lookup, erase-IsDistinct, insert-IsDistinct, total-erase,
}
use cadish.Prelude.{
  ℕ, zero, suc, ◌+◌, ◌≤◌, ◌<◌, ◌≡◌, refl, true, false, [], ◌∷◌, Option, none, some, String, eq_iff,
  leb, length, arith, ◌∙◌, inl, inr, Bool-cases, Option-cases,
}
use cadish.Cache.Ram.Invariant.{body_size, ref_count, Agrees, total-insert}

abbrev pub measure : RamShard → ℕ
measure s = length s.lru + total ref_count s.items

pub total-ref_count-le : (m : Dict RamEntry) → total ref_count m ≤ length m
unfolding total
total-ref_count-le [] = omega arith
total-ref_count-le ((k, e) ∷ m) = ground (arith, total-ref_count-le m)

has_of_back : {k : String} (s : RamShard) → Agrees s → back s.lru ≡ some k → has k s.items ≡ true
has_of_back {k} s a h = ground (arith, contains-back k s.lru h, a.same k)

-- A round that grants a second chance.
spare-Agrees :
    (k : String) (e : RamEntry) (s : RamShard)
    → Agrees s
    → lookup k s.items ≡ some e
    → e.ref ≡ true
    → Agrees (sweep_back k s)
unfolding sweep_back
spare-Agrees k e s a found held =
    rw (found, sweep_back)
      (rw held (record {
        distinct = insert-IsDistinct k (record e { ref = false }) s.items a.distinct;
        ring =
            unfold contains in
            (
              ground (arith, contains-remove k k s.lru a.ring, eq_iff k k),
              remove-IsRing k s.lru a.ring,
            );
        same = λ q.
            unfold contains in
            ground (
              arith,
              contains-remove k q s.lru a.ring,
              has-insert k q (record e { ref = false }) s.items,
              a.same q,
            );
        counted =
            unfold weight_at in
            ground (
              arith,
              total-insert body_size k (record e { ref = false }) s.items a.distinct,
              a.counted,
            );
      }))

-- A round that reclaims the entry.
reclaim-Agrees :
    (k : String) (e : RamEntry) (s : RamShard)
    → Agrees s
    → back s.lru ≡ some k
    → lookup k s.items ≡ some e
    → e.ref ≡ false
    → Agrees (sweep_back k s)
unfolding sweep_back
reclaim-Agrees k e s a last found idle =
    rw (found, sweep_back)
      (rw idle (record {
        distinct = erase-IsDistinct k s.items a.distinct;
        ring = rw (drop_back-remove k s.lru a.ring last) (remove-IsRing k s.lru a.ring);
        same = λ q. ground (
          arith,
          drop_back-remove k s.lru a.ring last,
          contains-remove k q s.lru a.ring,
          has-erase k q s.items,
          a.same q,
        );
        counted =
            unfold weight_at in
            ground (arith, total-erase body_size k s.items a.distinct, a.counted);
      }))

-- What may become of the entry of a key that is not stored anew: it stays, but for its reference
-- bit, or it goes.
abbrev pub Survives : Option RamEntry → Option RamEntry → Type 0
Survives old none = Unit
Survives none (some e') = ⊥
Survives (some e) (some e') = (e'.meta ≡ e.meta) × (e'.body ≡ e.body)

pub Survives-refl : (o : Option RamEntry) → Survives o o
Survives-refl none = tt
Survives-refl (some e) = (refl, refl)

pub Survives-trans : (o p q : Option RamEntry) → Survives o p → Survives p q → Survives o q
Survives-trans o p none h k = tt
Survives-trans o none (some e) h k = absurd k
Survives-trans none (some d) (some e) h k = absurd h
Survives-trans (some c) (some d) (some e) h k = (k.0 ∙ h.0, k.1 ∙ h.1)

-- A round of the loop, from `s` to `t`.
record Round (s t : RamShard) : Type 0 where
  agrees : Agrees t
  shrinks : measure t < measure s
  same_cap : t.max_bytes ≡ s.max_bytes
  survives : (q : String) → Survives (lookup q s.items) (lookup q t.items)

sweep_back-Survives :
    (k : String) (s : RamShard) (q : String)
    → Survives (lookup q s.items) (lookup q (sweep_back k s).items)
unfolding sweep_back
sweep_back-Survives k s q = elim (Option-cases (lookup k s.items)) [
  | inl e ↦ rw (e, sweep_back) (Survives-refl (lookup q s.items))
  | inr (v, e) ↦ ground (
    arith,
    eq_iff k q,
    lookup-insert k q (record v { ref = false }) s.items,
    lookup-erase k q s.items,
    Survives-refl (lookup q s.items),
  )
]

sweep_back-measure :
    (k : String) (e : RamEntry) (s : RamShard)
    → Agrees s
    → back s.lru ≡ some k
    → lookup k s.items ≡ some e
    → measure (sweep_back k s) < measure s
unfolding sweep_back weight_at
sweep_back-measure k e s a last found = ground (
  arith,
  drop_back-remove k s.lru a.ring last,
  length-remove k s.lru (contains-back k s.lru last),
  total-insert ref_count k (record e { ref = false }) s.items a.distinct,
  total-erase ref_count k s.items a.distinct,
)

sweep_back-Round :
    (k : String) (s : RamShard) → Agrees s → back s.lru ≡ some k → Round s (sweep_back k s)
sweep_back-Round k s a last = elim (Option-cases (lookup k s.items)) [
  | inl e ↦ absurd (ground (arith, has_of_back s a last, has-lookup k s.items))
  | inr (v, e) ↦ record {
    agrees = elim (Bool-cases v.ref) [
      | inl held ↦ spare-Agrees k v s a e held
      | inr idle ↦ reclaim-Agrees k v s a last e idle
    ];
    shrinks = sweep_back-measure k v s a last e;
    same_cap = unfold sweep_back in ground arith;
    survives = sweep_back-Survives k s;
  }
]

total-empty : (s : RamShard) → Agrees s → back s.lru ≡ none → s.cur_bytes ≡ 0
total-empty s a h = omega (
  arith,
  total_none body_size s.items (λ q. ground (arith, a.same q, contains-back-none q s.lru h)),
  a.counted,
)

-- What the loop hands on.
pub record Roomy (size : ℕ) (s t : RamShard) : Type 0 where
  pub agrees : Agrees t
  pub fits : t.cur_bytes + size ≤ t.max_bytes
  pub same_cap : t.max_bytes ≡ s.max_bytes
  pub survives : (q : String) → Survives (lookup q s.items) (lookup q t.items)

-- With fuel above the measure the loop ends by its test.
pub make_room-Roomy :
    (fuel size : ℕ) (s : RamShard)
    → Agrees s
    → measure s < fuel
    → size ≤ s.max_bytes
    → (t : RamShard) × (make_room fuel size s ≡ some t) × Roomy size s t
unfolding make_room
make_room-Roomy zero size s a enough small = absurd (omega arith)
make_room-Roomy (suc fuel) size s a enough small =
    elim (Bool-cases (leb (s.cur_bytes + size) s.max_bytes)) [
      | inl fits ↦ (
        s,
        ground arith,
        record {
          agrees = a;
          fits = ground arith;
          same_cap = refl;
          survives = λ q. Survives-refl (lookup q s.items);
        },
      )
      | inr over ↦ elim (Option-cases (back s.lru)) [
        | inl last ↦ absurd (ground (arith, total-empty s a last))
        | inr (k, last) ↦
            let r = sweep_back-Round k s a last in
            let (t, ended, room) =
              make_room-Roomy fuel size (sweep_back k s) r.agrees (omega (arith, r.shrinks))
                (omega (arith, r.same_cap)) in
            (
              t,
              ground (arith, ended),
              record {
                agrees = room.agrees;
                fits = room.fits;
                same_cap = room.same_cap ∙ r.same_cap;
                survives = λ q.
                    Survives-trans (lookup q s.items) (lookup q (sweep_back k s).items)
                      (lookup q t.items) (r.survives q) (room.survives q);
              },
            )
      ]
    ]
