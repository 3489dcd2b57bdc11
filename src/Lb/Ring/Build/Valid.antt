-- ===== src/Lb/Ring/Build/Valid.antt =====
-- The ring that newRing of internal/lb/ring.go builds, placement by placement.
use cadish.Cache.Ring.{contains, IsRing}
use cadish.Lb.Ring.Build.Nudge.{nudge-ends}
use cadish.Lb.Ring.Build.Shares.{
  NoRepeat, Increasing, All-snoc, All-map, NoRepeat-place, share_of, share_of-place,
  sort_points-All, share_of-sort_points, sort_points-Increasing,
}
use cadish.Lb.Ring.Build.{
  words, taken, place, place_all, insert_point, sort_points, rounds_of, hashes, add_ids, new_ring,
}
use cadish.Lb.Ring.Pigeonhole.{contains_string_lem, contains-append, append-IsRing}
use cadish.Lb.Ring.Walk.{IsValid}
use cadish.Lb.Ring.{Ring, owner_of, contains_string}
use cadish.Prelude.Int.{ℤ}
use cadish.Prelude.{
  ℕ, zero, suc, ◌+◌, ◌*◌, ◌≤◌, ◌<◌, ◌≡◌, refl, sym, ap, ◌∙◌, true, false, List, [], ◌∷◌, ◌++◌, none,
  some, String, eq_iff, ◌==◌, length, length-append, if◌then◌else◌, All, arith, inl, inr,
  Bool-cases, str_eq, ◌||◌,
}

-- Between two placements: the owners of taken points are backends, and every point is taken.
record Built (r : Ring) : Type 0 where
  distinct : IsRing r.ids
  owners : (p : ℕ) → taken p r.owner ≡ true → contains (owner_of p r.owner) r.ids ≡ true
  placed : All (λ p. taken p r.owner ≡ true) r.points
  counted : length r.points ≡ length r.owner
  unrepeated : NoRepeat r.points

-- What a placement makes.
record Grown (id : String) (n : ℕ) (r s : Ring) : Type 0 where
  built : Built s
  same_ids : s.ids ≡ r.ids
  grown : length s.points ≡ length r.points + n
  given :
      (q : String)
      → share_of q s.points s.owner ≡ share_of q r.points r.owner + (if str_eq id q then n else 0)

taken-cons :
    (p q : ℕ) (id : String) (m : List (ℕ × String))
    → taken q ((p, id) ∷ m) ≡ (if p == q then true else taken q m)
unfolding taken
taken-cons p q id m = refl

owner_of-cons :
    (p q : ℕ) (id : String) (m : List (ℕ × String))
    → owner_of q ((p, id) ∷ m) ≡ (if p == q then id else owner_of q m)
unfolding owner_of
owner_of-cons p q id m = refl

added-Built :
    (id : String) (p : ℕ) (r : Ring)
    → Built r
    → contains id r.ids ≡ true
    → taken p r.owner ≡ false
    → Built (record r { points = r.points ++ (p ∷ []); owner = (p, id) ∷ r.owner })
added-Built id p r b h free = record {
  distinct = b.distinct;
  owners = λ q t.
      ground (arith, owner_of-cons p q id r.owner, taken-cons p q id r.owner, t, b.owners q, h);
  placed =
      All-snoc (λ q. taken q ((p, id) ∷ r.owner) ≡ true) r.points p
        (All-map (λ q. taken q r.owner ≡ true) (λ q. taken q ((p, id) ∷ r.owner) ≡ true) r.points
          (λ q t. ground (arith, taken-cons p q id r.owner, t)) b.placed)
        (ground (arith, taken-cons p p id r.owner));
  counted = omega (arith, length-append r.points (p ∷ []), b.counted);
  unrepeated = NoRepeat-place p r.points r.owner free b.placed b.unrepeated;
}

place-Grown :
    (id : String) (h : ℕ) (r : Ring)
    → Built r
    → contains id r.ids ≡ true
    → h < words
    → length r.points < words
    → (s : Ring) × (place id h r ≡ some s) × Grown id 1 r s
unfolding place
place-Grown id h r b k a c =
    let (p, e, free) = nudge-ends h r.owner a (omega (arith, c, b.counted)) in
    (
      record r { points = r.points ++ (p ∷ []); owner = (p, id) ∷ r.owner },
      ground (arith, e),
      record {
        built = added-Built id p r b k free;
        same_ids = refl;
        grown = length-append r.points (p ∷ []);
        given = λ q. share_of-place q id p r.points r.owner free b.placed;
      },
    )

place_all-step :
    (id : String) (h : ℕ) (hs : List ℕ) (r t : Ring)
    → place id h r ≡ some t
    → place_all id (h ∷ hs) r ≡ place_all id hs t
unfolding place_all
place_all-step id h hs r t e = ap (λ o. elim o [ none ↦ none | some s ↦ place_all id hs s ]) e

place_all-Grown :
    (id : String) (hs : List ℕ) (r : Ring)
    → Built r
    → contains id r.ids ≡ true
    → All (λ h. h < words) hs
    → length r.points + length hs ≤ words
    → (s : Ring) × (place_all id hs r ≡ some s) × Grown id (length hs) r s
place_all-Grown id [] r b k a c = (
  r,
  (unfold place_all in refl),
  record { built = b; same_ids = refl; grown = omega arith; given = λ q. ground arith },
)
place_all-Grown id (h ∷ hs) r b k (l, a) c =
    let (t, e, g) = place-Grown id h r b k l (omega (arith, c)) in
    let (s, f, i) =
      place_all-Grown id hs t g.built (rw g.same_ids k) a (omega (arith, c, g.grown)) in
    (
      s,
      place_all-step id h hs r t e ∙ f,
      record {
        built = i.built;
        same_ids = i.same_ids ∙ g.same_ids;
        grown = omega (arith, i.grown, g.grown);
        given = λ q. ground (arith, i.given q, g.given q);
      },
    )

length-insert_point : (p : ℕ) (ps : List ℕ) → length (insert_point p ps) ≡ suc (length ps)
unfolding insert_point
length-insert_point p [] = refl
length-insert_point p (q ∷ qs) = ground (arith, length-insert_point p qs)

length-sort_points : (ps : List ℕ) → length (sort_points ps) ≡ length ps
unfolding sort_points
length-sort_points [] = refl
length-sort_points (p ∷ ps) =
    omega (arith, length-insert_point p (sort_points ps), length-sort_points ps)

-- The names that the ring has, after an id that it had and after a new one.
known_names :
    (q id : String) (ids : List String) (r s : Ring)
    → contains_string r.ids id ≡ true
    → contains q s.ids ≡ (contains q r.ids || contains q ids)
    → contains q s.ids ≡ (contains q r.ids || contains q (id ∷ ids))
unfolding contains
known_names q id ids r s e h = ground (arith, e, h, contains_string_lem r.ids id, eq_iff id q)

new_names :
    (q id : String) (ids : List String) (r t s : Ring)
    → t.ids ≡ r.ids ++ (id ∷ [])
    → contains q s.ids ≡ (contains q t.ids || contains q ids)
    → contains q s.ids ≡ (contains q r.ids || contains q (id ∷ ids))
unfolding contains
new_names q id ids r t s e h =
    h ∙ ap (λ l. contains q l || contains q ids) e ∙ ground (arith, contains-append q id r.ids)

new_share :
    (rounds : ℕ) (q id : String) (r t : Ring)
    → contains_string r.ids id ≡ false
    → share_of q r.points r.owner ≡ (if contains q r.ids then rounds * 4 else 0)
    → t.ids ≡ r.ids ++ (id ∷ [])
    → share_of q t.points t.owner
      ≡ share_of q r.points r.owner + (if str_eq id q then rounds * 4 else 0)
    → share_of q t.points t.owner ≡ (if contains q t.ids then rounds * 4 else 0)
new_share rounds q id r t e h j g =
    let has : contains q t.ids ≡ (if contains q r.ids then true else str_eq id q) =
      ap (contains q) j ∙ contains-append q id r.ids in
    ground (arith, e, h, g, has, contains_string_lem r.ids id, eq_iff id q)

-- A backend that joins.
joined-Built :
    (id : String) (r : Ring)
    → Built r
    → contains_string r.ids id ≡ false
    → Built (record r { ids = r.ids ++ (id ∷ []) })
joined-Built id r b e = record {
  distinct = append-IsRing id r.ids b.distinct (sym (contains_string_lem r.ids id) ∙ e);
  owners = λ p t. ground (arith, contains-append (owner_of p r.owner) id r.ids, b.owners p t);
  placed = b.placed;
  counted = b.counted;
  unrepeated = b.unrepeated;
}

share : (n k : ℕ) → suc n * k ≡ n * k + k
share n k = omega arith

-- Every backend has its points.
record Full (rounds : ℕ) (r : Ring) : Type 0 where
  built : Built r
  full : length r.points ≡ length r.ids * (rounds * 4)
  shares : (q : String) → share_of q r.points r.owner ≡ (if contains q r.ids then rounds * 4 else 0)

abbrev empty_ring : Ring
empty_ring = record { points = []; owner = []; ids = [] }

empty-Full : {rounds : ℕ} → Full rounds empty_ring
unfolding taken share_of contains
empty-Full {rounds} = record {
  built = record {
    distinct = tt;
    owners = λ p t. absurd (nothing p t);
    placed = tt;
    counted = refl;
    unrepeated = tt;
  };
  full = omega arith;
  shares = λ q. no_share q;
}
  where
    no_share : (q : String) → 0 ≡ (if contains q [] then rounds * 4 else 0)
    no_share q = unfold contains in refl

    nothing : (p : ℕ) → taken p [] ≡ true → ⊥
    nothing p t = cc

module _ (word : String → ℕ → ℕ → ℕ) (word-lt : (id : String) (i j : ℕ) → word id i j < words) where
  hashes-lt : (id : String) (i n : ℕ) → All (λ h. h < words) (hashes word id i n)
  unfolding hashes
  hashes-lt id i zero = tt
  hashes-lt id i (suc n) =
      (word-lt id i 0, (word-lt id i 1, (word-lt id i 2, (word-lt id i 3, hashes-lt id (suc i) n))))

  length-hashes : (id : String) (i n : ℕ) → length (hashes word id i n) ≡ n * 4
  unfolding hashes
  length-hashes id i zero = refl
  length-hashes id i (suc n) = omega (arith, length-hashes id (suc i) n)

  add_ids-known :
      (rounds : ℕ) (id : String) (ids : List String) (r : Ring)
      → contains_string r.ids id ≡ true
      → add_ids word rounds (id ∷ ids) r ≡ add_ids word rounds ids r
  unfolding add_ids
  add_ids-known rounds id ids r e = ground (arith, e)

  add_ids-new :
      (rounds : ℕ) (id : String) (ids : List String) (r s : Ring)
      → contains_string r.ids id ≡ false
      → place_all id (hashes word id 0 rounds) (record r { ids = r.ids ++ (id ∷ []) }) ≡ some s
      → add_ids word rounds (id ∷ ids) r ≡ add_ids word rounds ids s
  unfolding add_ids
  add_ids-new rounds id ids r s e p = ground (arith, e, p)

  add_ids-Full :
      (rounds : ℕ) (ids : List String) (r : Ring)
      → Full rounds r
      → length r.points + length ids * (rounds * 4) ≤ words
      → (s : Ring) × (add_ids word rounds ids r ≡ some s)
        × Full rounds s
        × ((q : String) → contains q s.ids ≡ (contains q r.ids || contains q ids))
  add_ids-Full rounds [] r b c =
      (r, (unfold add_ids in refl), b, λ q. unfold contains in ground arith)
  add_ids-Full rounds (id ∷ ids) r b c = elim (Bool-cases (contains_string r.ids id)) [
    | inl e ↦
        let (s, f, g, named) =
          add_ids-Full rounds ids r b (omega (arith, c, share (length ids) (rounds * 4))) in
        (s, add_ids-known rounds id ids r e ∙ f, g, λ q. known_names q id ids r s e (named q))
    | inr e ↦
        let j : Ring = record r { ids = r.ids ++ (id ∷ []) } in
        let (t, p, g) =
          place_all-Grown id (hashes word id 0 rounds) j (joined-Built id r b.built e)
            (ground (arith, contains-append id id r.ids, eq_iff id id)) (hashes-lt id 0 rounds)
            (omega (arith, c, share (length ids) (rounds * 4), length-hashes id 0 rounds)) in
        let (s, f, i, named) =
          add_ids-Full rounds ids t
            (record {
              built = g.built;
              full = ground (
                arith,
                g.grown,
                b.full,
                g.same_ids,
                length-append r.ids (id ∷ []),
                length-hashes id 0 rounds,
                share (length r.ids) (rounds * 4),
              );
              shares = λ q. new_share rounds q id r t e (b.shares q) g.same_ids (
                  g.given q
                  ∙ ap (λ n. share_of q r.points r.owner + (if str_eq id q then n else 0))
                      (length-hashes id 0 rounds));
            })
            (omega
              (arith, c, g.grown, share (length ids) (rounds * 4), length-hashes id 0 rounds)) in
        (
          s,
          add_ids-new rounds id ids r t e p ∙ f,
          i,
          λ q. new_names q id ids r t s g.same_ids (named q),
        )
  ]

  sorted-IsValid :
      (rounds : ℕ) (r : Ring) → Full rounds r → IsValid (record r { points = sort_points r.points })
  sorted-IsValid rounds r f = record {
    distinct = f.built.distinct;
    owned =
        sort_points-All (λ p. contains (owner_of p r.owner) r.ids ≡ true) r.points
          (All-map (λ p. taken p r.owner ≡ true) (λ p. contains (owner_of p r.owner) r.ids ≡ true)
            r.points (λ p t. f.built.owners p t) f.built.placed);
  }

  -- With digest words of 32 bits, and fewer points asked for than there are, `newRing` ends, whatever the
  -- collisions: every search for a free point ends. The ring is valid, its points strictly increase, its
  -- backends are those that were given, each once, and each of them owns all of its points, four for each
  -- digest; there are no other points.
  pub new_ring-IsValid :
      (replicas : ℤ) (ids : List String)
      → length ids * (rounds_of replicas * 4) ≤ words
      → (r : Ring) × (new_ring word replicas ids ≡ some r)
        × IsValid r
        × Increasing r.points
        × ((q : String) → contains q r.ids ≡ contains q ids)
        × ((q : String)
            → share_of q r.points r.owner ≡ (if contains q ids then rounds_of replicas * 4 else 0))
        × (length r.points ≡ length r.ids * (rounds_of replicas * 4))
  unfolding new_ring contains
  new_ring-IsValid replicas ids h =
      let (r, e, f, named) =
        add_ids-Full (rounds_of replicas) ids empty_ring empty-Full (omega (arith, h)) in
      (
        record r { points = sort_points r.points },
        ap
            (λ o. elim o [
              | none ↦ none
              | some s ↦ some (record s { points = sort_points s.points })
            ])
            e,
        sorted-IsValid (rounds_of replicas) r f,
        sort_points-Increasing r.points f.built.unrepeated,
        named,
        λ q.
            share_of-sort_points q r.points r.owner
            ∙ f.shares q
            ∙ ap (λ b. if b then rounds_of replicas * 4 else 0) (named q),
        length-sort_points r.points ∙ f.full,
      )
