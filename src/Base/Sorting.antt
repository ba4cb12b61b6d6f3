-- ===== src/Base/Sorting.antt =====
-- The order of a query's rows, and the rows that it selects: `ORDER BY`, `OFFSET` and `LIMIT`.
use Prim.Native.Nat.{ℕ, zero, suc, ◌≤◌, ◌<◌}
use mathlib.Core.Path.{◌≡◌, refl, sym, subst, ap}
use mathlib.Core.Bool.{Bool, true, false}
use mathlib.Core.Logic.{inl, inr}
use mathlib.Core.Option.{Option, none, some}
use mathlib.Core.List.{List, [], ◌∷◌, Permᴰ}
use mathlib.Core.List.Permᴰ as Permᴰ
use native.Mathlib.Omega.{arith}
use order_orchestrator.Base.Tests.{leb, if◌then◌else◌, Bool-cases}
use order_orchestrator.Base.Lists.{All, take, drop, length, length-take}
use order_orchestrator.Base.Rows.{filter}

-- `ORDER BY` a column, upwards or downwards, or no order.
pub data Sort (E : Type 0) : Type 0 where
  unsorted : Sort E
  ascending : (E → ℕ) → Sort E
  descending : (E → ℕ) → Sort E

-- TypeORM leaves a limit of 0 out.
abbrev pub IsLimit : Option ℕ → Type 0
IsLimit none = Unit
IsLimit (some n) = 0 < n

module _ {E : Type 0} where
  -- Whether the first row may stand before the second one.
  abbrev pub in_order : Sort E → E → E → Bool
  in_order Sort.unsorted x y = true
  in_order (Sort.ascending key) x y = leb (key x) (key y)
  in_order (Sort.descending key) x y = leb (key y) (key x)

  abbrev pub IsSorted : Sort E → List E → Type 0
  IsSorted s [] = Unit
  IsSorted s (x ∷ xs) = All (λ y. in_order s x y ≡ true) xs × IsSorted s xs

  in_order_trans :
      (s : Sort E) (x y z : E)
      → in_order s x y ≡ true
      → in_order s y z ≡ true
      → in_order s x z ≡ true
  in_order_trans Sort.unsorted x y z h k = refl
  in_order_trans (Sort.ascending key) x y z h k = ground arith
  in_order_trans (Sort.descending key) x y z h k = ground arith

  in_order_total : (s : Sort E) (x y : E) → in_order s x y ≡ false → in_order s y x ≡ true
  in_order_total Sort.unsorted x y h = refl
  in_order_total (Sort.ascending key) x y h = ground arith
  in_order_total (Sort.descending key) x y h = ground arith

  abbrev insert : Sort E → E → List E → List E
  insert s x [] = x ∷ []
  insert s x (y ∷ ys) = if in_order s x y then x ∷ y ∷ ys else y ∷ insert s x ys

  abbrev pub sorted : Sort E → List E → List E
  sorted s [] = []
  sorted s (x ∷ xs) = insert s x (sorted s xs)

  pub All-imp : {P Q : E → Type 0} (xs : List E) → ((y : E) → P y → Q y) → All P xs → All Q xs
  All-imp [] f h = tt
  All-imp (x ∷ xs) f (p, h) = (f x p, All-imp xs f h)

  All-insert :
      (P : E → Type 0) (s : Sort E) (x : E) (ys : List E) → P x → All P ys → All P (insert s x ys)
  All-insert P s x [] p h = (p, tt)
  All-insert P s x (y ∷ ys) p (q, h) = elim (Bool-cases (in_order s x y)) [
    | inl before ↦ rw before (p, (q, h))
    | inr behind ↦ rw behind (q, All-insert P s x ys p h)
  ]

  insert-IsSorted : (s : Sort E) (x : E) (ys : List E) → IsSorted s ys → IsSorted s (insert s x ys)
  insert-IsSorted s x [] h = (tt, tt)
  insert-IsSorted s x (y ∷ ys) (below, h) = elim (Bool-cases (in_order s x y)) [
    | inl before ↦
        rw before ((before, All-imp ys (λ z k. in_order_trans s x y z before k) below), (below, h))
    | inr behind ↦ rw behind (
      All-insert (λ z. in_order s y z ≡ true) s x ys (in_order_total s x y behind) below,
      insert-IsSorted s x ys h,
    )
  ]

  pub sorted-IsSorted : (s : Sort E) (xs : List E) → IsSorted s (sorted s xs)
  sorted-IsSorted s [] = tt
  sorted-IsSorted s (x ∷ xs) = insert-IsSorted s x (sorted s xs) (sorted-IsSorted s xs)

  insert_perm : (s : Sort E) (x : E) (ys : List E) → Permᴰ (insert s x ys) (x ∷ ys)
  insert_perm s x [] = Permᴰ.refl (x ∷ [])
  insert_perm s x (y ∷ ys) = elim (Bool-cases (in_order s x y)) [
    | inl before ↦ rw before (Permᴰ.refl (x ∷ y ∷ ys))
    | inr behind ↦
        rw behind (Permᴰ.trans (Permᴰ.cons refl (insert_perm s x ys)) (Permᴰ.swap refl refl))
  ]

  pub sorted_perm : (s : Sort E) (xs : List E) → Permᴰ (sorted s xs) xs
  sorted_perm s [] = Permᴰ.nil
  sorted_perm s (x ∷ xs) =
      Permᴰ.trans (insert_perm s x (sorted s xs)) (Permᴰ.cons refl (sorted_perm s xs))

  pub All-perm : (P : E → Type 0) (xs ys : List E) → Permᴰ xs ys → All P ys → All P xs
  All-perm P [] [] Permᴰ.nil h = tt
  All-perm P (x ∷ xs) (y ∷ ys) (Permᴰ.cons e d) (p, h) = (subst P (sym e) p, All-perm P xs ys d h)
  All-perm P (x ∷ y ∷ xs) (a ∷ b ∷ ys) (Permᴰ.swap e f) (p, (q, h)) =
      (subst P (sym e) q, (subst P (sym f) p, h))
  All-perm P xs zs (Permᴰ.trans {l₂ = ys} d f) h = All-perm P xs ys d (All-perm P ys zs f h)

  -- `LIMIT`, if there is one
  abbrev pub limited : Option ℕ → List E → List E
  limited none xs = xs
  limited (some n) xs = take n xs

  -- The result of a query: these rows, in some arrangement that has the order, without the first
  -- `skip` of them and up to the limit.
  pub record Selects (s : Sort E) (rows : List E) (skip : ℕ) (limit : Option ℕ) (result : List E)
      : Type 0 where
    pub arranged : List E
    pub same_rows : Permᴰ arranged rows
    pub ordered : IsSorted s arranged
    pub selected : result ≡ limited limit (drop skip arranged)

  pub All-take : (P : E → Type 0) (n : ℕ) (xs : List E) → All P xs → All P (take n xs)
  All-take P zero xs h = tt
  All-take P (suc n) [] h = tt
  All-take P (suc n) (x ∷ xs) (p, h) = (p, All-take P n xs h)

  pub IsSorted-take : (s : Sort E) (n : ℕ) (xs : List E) → IsSorted s xs → IsSorted s (take n xs)
  IsSorted-take s zero xs h = tt
  IsSorted-take s (suc n) [] h = tt
  IsSorted-take s (suc n) (x ∷ xs) (below, h) =
      (All-take (λ y. in_order s x y ≡ true) n xs below, IsSorted-take s n xs h)

  take_all : (n : ℕ) (xs : List E) → length xs ≤ n → take n xs ≡ xs
  take_all zero [] h = refl
  take_all zero (x ∷ xs) h = absurd (omega arith)
  take_all (suc n) [] h = refl
  take_all (suc n) (x ∷ xs) h = ap (λ l. x ∷ l) (take_all n xs (omega arith))

  length-perm : (xs ys : List E) → Permᴰ xs ys → length xs ≡ length ys
  length-perm [] [] Permᴰ.nil = refl
  length-perm (x ∷ xs) (y ∷ ys) (Permᴰ.cons e d) = omega (arith, length-perm xs ys d)
  length-perm (x ∷ y ∷ xs) (a ∷ b ∷ ys) (Permᴰ.swap e f) = refl
  length-perm xs zs (Permᴰ.trans {l₂ = ys} d f) =
      omega (arith, length-perm xs ys d, length-perm ys zs f)

  pub All-filter : (p : E → Bool) (xs : List E) → All (λ x. p x ≡ true) (filter p xs)
  All-filter p [] = tt
  All-filter p (x ∷ xs) = elim (Bool-cases (p x)) [
    | inl passes ↦ rw passes (passes, All-filter p xs)
    | inr fails ↦ rw fails (All-filter p xs)
  ]

  -- What a query for the first `n` rows selects: rows that meet its condition, in its order, no
  -- more than `n` of them, and all of them if there are no more.
  pub Selects-first :
      (s : Sort E) (p : E → Bool) (rows : List E) (n : ℕ) (l : List E)
      → Selects s (filter p rows) 0 (some n) l
      → All (λ x. p x ≡ true) l
        × IsSorted s l
        × (length l ≤ n)
        × (length (filter p rows) ≤ n → Permᴰ l (filter p rows))
  Selects-first s p rows n l h =
      let a = h.arranged in
      rw h.selected (
        All-take (λ x. p x ≡ true) n a
            (All-perm (λ x. p x ≡ true) a (filter p rows) h.same_rows (All-filter p rows)),
        IsSorted-take s n a h.ordered,
        length-take n a,
        λ few.
            rw
              (take_all n a
                (subst (λ k. k ≤ n) (sym (length-perm a (filter p rows) h.same_rows)) few))
              h.same_rows,
      )
