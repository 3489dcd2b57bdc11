-- ===== src/Cache/Tier.antt =====
-- internal/cache/cache.go: the interface `Tier`, as operations on a state with the laws that the
-- router relies on. A write is a whole one: `Writer`, the writes of the body, and `Commit`.
use cadish.Cache.Meta.{ObjectMeta}
use cadish.Prelude.Int.{pos}
use cadish.Prelude.{
  ℕ, ◌≡◌, ◌≢◌, ◌⊎◌, List, Option, none, some, String, str_eq, if◌then◌else◌, length,
}

-- What a reader gets: the metadata and the body.
abbrev pub Object : Type 0
Object = ObjectMeta × List ℕ

-- An object as a tier stores it: with the size of its body.
abbrev pub stored_object : ObjectMeta → List ℕ → Object
stored_object meta body = (record meta { size = pos (length body) }, body)

-- How a whole write ends: `Commit` returns nil and `Stored` is true, nil and false, or an error.
pub data Outcome : Type 0 where
  stored discarded failed : Outcome

-- What a key may read after some other object was written: the same, or nothing.
abbrev pub Kept : Option Object → Option Object → Type 0
Kept old new = (new ≡ none) ⊎ (new ≡ old)

pub record Tier : Type 1 where
  pub State : Type 0
  pub get : String → State → State × Option Object
  pub store : ObjectMeta → List ℕ → State → Option (State × Outcome)
  pub delete : String → State → State
  pub reset : State → State
  pub IsValid : State → Type 0
  pub get-IsValid : (k : String) (s : State) → IsValid s → IsValid (get k s).0
  pub get_get : (k q : String) (s : State) → IsValid s → Kept (get q s).1 (get q (get k s).0).1
  pub store-IsValid :
      (m : ObjectMeta) (b : List ℕ) (s : State)
      → IsValid s
      → (t : State) × (o : Outcome) × (store m b s ≡ some (t, o)) × IsValid t
  pub get-store_stored :
      (m : ObjectMeta) (b : List ℕ) (s t : State)
      → IsValid s
      → store m b s ≡ some (t, stored)
      → (get m.key t).1 ≡ some (stored_object m b)
  pub get-store_discarded :
      (m : ObjectMeta) (b : List ℕ) (s t : State) (q : String)
      → IsValid s
      → store m b s ≡ some (t, discarded)
      → (get q t).1 ≡ (get q s).1
  pub get-store_failed :
      (m : ObjectMeta) (b : List ℕ) (s t : State) (q : String)
      → IsValid s
      → store m b s ≡ some (t, failed)
      → Kept (get q s).1 (get q t).1
  pub get-store_ne :
      (m : ObjectMeta) (b : List ℕ) (s t : State) (o : Outcome) (q : String)
      → IsValid s
      → store m b s ≡ some (t, o)
      → q ≢ m.key
      → Kept (get q s).1 (get q t).1
  pub delete-IsValid : (k : String) (s : State) → IsValid s → IsValid (delete k s)
  pub get-delete :
      (k q : String) (s : State)
      → IsValid s
      → (get q (delete k s)).1 ≡ (if str_eq k q then none else (get q s).1)
  pub reset-IsValid : (s : State) → IsValid s → IsValid (reset s)
  pub get-reset : (q : String) (s : State) → IsValid s → (get q (reset s)).1 ≡ none
