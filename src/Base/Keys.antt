-- ===== src/Base/Keys.antt =====
-- Lists of rows whose keys differ.
use Prim.Native.Nat.{ℕ, zero, suc}
use Prim.Native.String.{String}
use mathlib.Core.Path.{◌≡◌, refl, sym, ap, subst, ◌∙◌}
use mathlib.Core.Bool.{Bool}
use mathlib.Core.Logic.{◌≢◌, inl, inr}
use mathlib.Core.Option.{some}
use mathlib.Core.List.{List, [], ◌∷◌, Permᴰ}
use native.Mathlib.Omega.{arith}
use text.Mathlib.TextEquality.{eq_iff}
use order_orchestrator.Base.Tests.{Bool-cases}
use order_orchestrator.Base.Lists.{All, take}
use order_orchestrator.Base.Rows.{first, filter, has_key, remove_key}
use order_orchestrator.Base.Sorting.{All-perm, All-take}

module _ {E : Type 0} where
  pub All-filter_of : (P : E → Type 0) (p : E → Bool) (xs : List E) → All P xs → All P (filter p xs)
  All-filter_of P p [] h = tt
  All-filter_of P p (x ∷ xs) (q, h) = elim (Bool-cases (p x)) [
    | inl passes ↦ rw passes (q, All-filter_of P p xs h)
    | inr fails ↦ rw fails (All-filter_of P p xs h)
  ]

module _ {E : Type 0} (key : E → String) where
  abbrev pub Distinct : List E → Type 0
  Distinct [] = Unit
  Distinct (x ∷ xs) = All (λ y. key y ≢ key x) xs × Distinct xs

  pub Distinct-filter : (p : E → Bool) (xs : List E) → Distinct xs → Distinct (filter p xs)
  Distinct-filter p [] h = tt
  Distinct-filter p (x ∷ xs) (apart, h) = elim (Bool-cases (p x)) [
    | inl passes ↦ rw passes (All-filter_of (λ y. key y ≢ key x) p xs apart, Distinct-filter p xs h)
    | inr fails ↦ rw fails (Distinct-filter p xs h)
  ]

  pub Distinct-take : (n : ℕ) (xs : List E) → Distinct xs → Distinct (take n xs)
  Distinct-take zero xs h = tt
  Distinct-take (suc n) [] h = tt
  Distinct-take (suc n) (x ∷ xs) (apart, h) =
      (All-take (λ y. key y ≢ key x) n xs apart, Distinct-take n xs h)

  pub Distinct-perm : (xs ys : List E) → Permᴰ xs ys → Distinct ys → Distinct xs
  Distinct-perm [] [] Permᴰ.nil h = tt
  Distinct-perm (x ∷ xs) (y ∷ ys) (Permᴰ.cons e d) (apart, h) =
      rw e (All-perm (λ z. key z ≢ key y) xs ys d apart, Distinct-perm xs ys d h)
  Distinct-perm (x ∷ y ∷ xs) (a ∷ b ∷ ys) (Permᴰ.swap e f) ((ne, apart), (apart', h)) =
      subst (λ l. Distinct l) (ap (λ z. z ∷ a ∷ xs) (sym e) ∙ ap (λ z. x ∷ z ∷ xs) (sym f))
        (((λ q. ne (sym q)), apart'), (apart, h))
  Distinct-perm xs zs (Permᴰ.trans {l₂ = ys} d f) h =
      Distinct-perm xs ys d (Distinct-perm ys zs f h)

  -- A removal leaves the rows under other keys.
  pub first-remove_key :
      (j k : String) (xs : List E)
      → j ≢ k
      → first (has_key key j) (remove_key key k xs) ≡ first (has_key key j) xs
  first-remove_key j k [] ne = refl
  first-remove_key j k (x ∷ xs) ne =
      ground (arith, eq_iff (key x) k, eq_iff (key x) j, first-remove_key j k xs ne)

  others_first :
      (x : E) (xs ys : List E)
      → All (λ y. key y ≢ key x) ys
      → All (λ y. first (has_key key (key y)) xs ≡ some y) ys
      → All (λ y. first (has_key key (key y)) (x ∷ xs) ≡ some y) ys
  others_first x xs [] apart h = tt
  others_first x xs (y ∷ ys) (ne, apart) (here, h) =
      (ground (arith, eq_iff (key x) (key y)), others_first x xs ys apart h)

  -- Where the keys differ, each row is the one under its key.
  pub Distinct-first :
      (xs : List E) → Distinct xs → All (λ x. first (has_key key (key x)) xs ≡ some x) xs
  Distinct-first [] h = tt
  Distinct-first (x ∷ xs) (apart, h) =
      (ground (arith, eq_iff (key x) (key x)), others_first x xs xs apart (Distinct-first xs h))
