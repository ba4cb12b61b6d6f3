-- ===== src/FailureInjection/RuleMap.antt =====
-- JavaScript's `Map` with texts for keys: the entries in the order of insertion.
use order_orchestrator.Base.{
  String, Option, none, some, List, [], ◌∷◌, ◌≡◌, refl, ◌≢◌, str_eq, eq_iff, arith, if◌then◌else◌,
}

module _ {ℓ} {V : Type ℓ} where
  abbrev pub get : String → List (String × V) → Option V
  get k [] = none
  get k ((j, v) ∷ m) = if str_eq j k then some v else get k m

  abbrev pub set : String → V → List (String × V) → List (String × V)
  set k v [] = (k, v) ∷ []
  set k v ((j, u) ∷ m) = if str_eq j k then (k, v) ∷ m else (j, u) ∷ set k v m

  abbrev pub delete : String → List (String × V) → List (String × V)
  delete k [] = []
  delete k ((j, u) ∷ m) = if str_eq j k then delete k m else (j, u) ∷ delete k m

  pub get-set_self : (k : String) (v : V) (m : List (String × V)) → get k (set k v m) ≡ some v
  get-set_self k v [] = ground (arith, eq_iff k k)
  get-set_self k v ((j, u) ∷ m) = ground (arith, eq_iff j k, eq_iff k k, get-set_self k v m)

  pub get-set_other :
      (i k : String) (v : V) (m : List (String × V)) → i ≢ k → get i (set k v m) ≡ get i m
  get-set_other i k v [] h = ground (arith, eq_iff k i)
  get-set_other i k v ((j, u) ∷ m) h =
      ground (arith, eq_iff j k, eq_iff k i, eq_iff j i, get-set_other i k v m h)

  pub get-delete_self : (k : String) (m : List (String × V)) → get k (delete k m) ≡ none
  get-delete_self k [] = refl
  get-delete_self k ((j, u) ∷ m) = ground (arith, get-delete_self k m)

  pub get-delete_other :
      (i k : String) (m : List (String × V)) → i ≢ k → get i (delete k m) ≡ get i m
  get-delete_other i k [] h = refl
  get-delete_other i k ((j, u) ∷ m) h =
      ground (arith, eq_iff j k, eq_iff j i, get-delete_other i k m h)
