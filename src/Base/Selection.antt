-- ===== src/Base/Selection.antt =====
-- What a query with `ORDER BY` and `LIMIT` leaves out: rows behind those that it selects, and only
-- where the limit is reached.
use Prim.Native.Nat.{ℕ, zero, suc, ◌≤◌}
use mathlib.Core.Path.{◌≡◌, refl, sym, subst, ap}
use mathlib.Core.Bool.{Bool, true}
use mathlib.Core.Logic.{◌⊎◌, inl, inr}
use mathlib.Core.Option.{some}
use mathlib.Core.List.{List, [], ◌∷◌, ◌++◌, Permᴰ}
use native.Mathlib.Omega.{arith}
use order_orchestrator.Base.Lists.{All, take, drop, length, length-take}
use order_orchestrator.Base.Rows.{filter}
use order_orchestrator.Base.Sorting.{Sort, in_order, IsSorted, Selects, IsSorted-take}

-- Tests that agree keep the same elements.
pub filter_agree :
    {A : Type 0} (p q : A → Bool)
    → ((x : A) → p x ≡ q x)
    → (xs : List A) → filter p xs ≡ filter q xs
filter_agree p q h [] = refl
filter_agree p q h (x ∷ xs) = rw (h x, filter_agree p q h xs) refl

module _ {E : Type 0} where
  -- The selected rows and the rows that are left out.
  pub record SelectsFirst (s : Sort E) (rows : List E) (n : ℕ) (l : List E) : Type 0 where
    pub rest : List E
    pub all_rows : Permᴰ (l ++ rest) rows
    pub in_front : All (λ x. All (λ y. in_order s x y ≡ true) rest) l
    pub ordered : IsSorted s l
    pub few : length l ≤ n
    pub rest_beyond : (rest ≡ []) ⊎ (length l ≡ n)

  take-append-drop : (n : ℕ) (xs : List E) → take n xs ++ drop n xs ≡ xs
  take-append-drop zero xs = refl
  take-append-drop (suc n) [] = refl
  take-append-drop (suc n) (x ∷ xs) = ap (λ l. x ∷ l) (take-append-drop n xs)

  All-drop : (P : E → Type 0) (n : ℕ) (xs : List E) → All P xs → All P (drop n xs)
  All-drop P zero xs h = h
  All-drop P (suc n) [] h = tt
  All-drop P (suc n) (x ∷ xs) (p, h) = All-drop P n xs h

  taken_in_front :
      (s : Sort E) (n : ℕ) (xs : List E)
      → IsSorted s xs
      → All (λ x. All (λ y. in_order s x y ≡ true) (drop n xs)) (take n xs)
  taken_in_front s zero xs h = tt
  taken_in_front s (suc n) [] h = tt
  taken_in_front s (suc n) (x ∷ xs) (below, h) =
      (All-drop (λ y. in_order s x y ≡ true) n xs below, taken_in_front s n xs h)

  all_taken : (n : ℕ) (xs : List E) → (drop n xs ≡ []) ⊎ (length (take n xs) ≡ n)
  all_taken zero xs = inr refl
  all_taken (suc n) [] = inl refl
  all_taken (suc n) (x ∷ xs) = elim (all_taken n xs) [
    | inl none_left ↦ inl none_left
    | inr reached ↦ inr (omega (arith, reached))
  ]

  pub Selects-SelectsFirst :
      (s : Sort E) (rows : List E) (n : ℕ) (l : List E)
      → Selects s rows 0 (some n) l
      → SelectsFirst s rows n l
  Selects-SelectsFirst s rows n l h =
      let a = h.arranged in
      subst (SelectsFirst s rows n) (sym h.selected) (record {
        rest = drop n a;
        all_rows = subst (λ x. Permᴰ x rows) (sym (take-append-drop n a)) h.same_rows;
        in_front = taken_in_front s n a h.ordered;
        ordered = IsSorted-take s n a h.ordered;
        few = length-take n a;
        rest_beyond = all_taken n a;
      })
