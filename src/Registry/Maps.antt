-- ===== src/Registry/Maps.antt =====
-- registry.go: lemmas on the maps.
use rho_llm.Base.{
  ◌≡◌, refl, Text, text_eq, text_eq_iff, Bool, true, false, ◌&&◌, not, some, List, [], ◌∷◌, ◌++◌,
  arith, member, member-append, Unique, if◌then◌else◌, Bool-cases, inl, inr,
}
use rho_llm.Registry.{lookup, put, listed, delete_id}

module _ {A : Type 0} where
  -- Every value passes the test.
  unfoldable pub every : (A → Bool) → List (Text × A) → Bool
  every f [] = true
  every f ((k, v) ∷ rows) = f v && every f rows

  pub lookup-every :
      (f : A → Bool) (k : Text) (v : A) (rows : List (Text × A))
      → every f rows ≡ true
      → lookup k rows ≡ some v
      → f v ≡ true
  unfolding every lookup
  lookup-every f k v [] h e = cc
  lookup-every f k v ((j, w) ∷ rows) h e = ground (arith, lookup-every f k v rows)

  pub lookup-put :
      (k j : Text) (v : A) (rows : List (Text × A))
      → lookup k (put j v rows) ≡ (if text_eq j k then some v else lookup k rows)
  unfolding lookup put
  lookup-put k j v [] = refl
  lookup-put k j v ((i, w) ∷ rows) =
      ground (arith, lookup-put k j v rows, text_eq_iff i j, text_eq_iff j k, text_eq_iff i k)

pub listed-put :
    (p q : Text) (ids : List Text) (rows : List (Text × List Text))
    → listed p (put q ids rows) ≡ (if text_eq q p then ids else listed p rows)
unfolding listed
listed-put p q ids rows = ground (arith, lookup-put p q ids rows)

pub member-delete_id :
    (x id : Text) (ss : List Text)
    → member x (delete_id id ss) ≡ (not (text_eq x id) && member x ss)
unfolding member delete_id
member-delete_id x id [] = ground arith
member-delete_id x id (s ∷ ss) =
    ground (arith, member-delete_id x id ss, text_eq_iff s id, text_eq_iff x id, text_eq_iff x s)

pub Unique-delete_id : (id : Text) (ss : List Text) → Unique ss → Unique (delete_id id ss)
unfolding delete_id
Unique-delete_id id [] u = tt
Unique-delete_id id (s ∷ ss) u = elim (Bool-cases (text_eq s id)) [
  | inl p ↦ rw p (Unique-delete_id id ss u.1)
  | inr p ↦ rw p (ground (arith, member-delete_id s id ss, u.0), Unique-delete_id id ss u.1)
]

pub Unique-append :
    (id : Text) (ss : List Text) → Unique ss → member id ss ≡ false → Unique (ss ++ (id ∷ []))
unfolding member
Unique-append id [] u h = (refl, tt)
Unique-append id (s ∷ ss) u h = (
  ground (arith, member-append s ss (id ∷ []), u.0, text_eq_iff s id, text_eq_iff id s),
  Unique-append id ss u.1 (ground arith),
)

-- No ID stands twice, as a test.
unfoldable pub all_unique : List Text → Bool
all_unique [] = true
all_unique (s ∷ ss) = not (member s ss) && all_unique ss

pub all_unique-Unique : (ss : List Text) → all_unique ss ≡ true → Unique ss
unfolding all_unique
all_unique-Unique [] h = tt
all_unique-Unique (s ∷ ss) h = (ground arith, all_unique-Unique ss (ground arith))

-- Every ID passes the test.
unfoldable pub all_ids : (Text → Bool) → List Text → Bool
all_ids f [] = true
all_ids f (s ∷ ss) = f s && all_ids f ss

pub member-all_ids :
    (f : Text → Bool) (x : Text) (ss : List Text)
    → all_ids f ss ≡ true
    → member x ss ≡ true
    → f x ≡ true
unfolding all_ids member
member-all_ids f x [] h m = cc
member-all_ids f x (s ∷ ss) h m = ground (arith, member-all_ids f x ss, text_eq_iff x s)
