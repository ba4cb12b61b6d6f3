-- ===== src/Base/Rows.antt =====
-- Lists of rows: the first row that meets a condition, and the replacement of a row by key.
use mathlib.Core.Path.{◌≡◌, refl}
use mathlib.Core.Logic.{◌≢◌}
use mathlib.Core.Bool.{Bool, true}
use mathlib.Core.Option.{Option, none, some}
use mathlib.Core.List.{List, [], ◌∷◌, ◌++◌}
use native.Mathlib.Omega.{arith}
use Prim.Native.String.{String}
use text.Mathlib.TextEquality.{eq_iff}
use order_orchestrator.Base.Tests.{if◌then◌else◌}
use order_orchestrator.Base.Text.{str_eq}

module _ {ℓ} {A : Type ℓ} where
  abbrev pub first : (A → Bool) → List A → Option A
  first p [] = none
  first p (x ∷ xs) = if p x then some x else first p xs

  abbrev pub filter : (A → Bool) → List A → List A
  filter p [] = []
  filter p (x ∷ xs) = if p x then x ∷ filter p xs else filter p xs

  -- `UPDATE … SET … WHERE …`
  abbrev pub update_rows : (A → Bool) → (A → A) → List A → List A
  update_rows p f [] = []
  update_rows p f (x ∷ xs) = (if p x then f x else x) ∷ update_rows p f xs

  pub filter-append :
      (p : A → Bool) (xs ys : List A) → filter p (xs ++ ys) ≡ filter p xs ++ filter p ys
  filter-append p [] ys = refl
  filter-append p (x ∷ xs) ys = ground (arith, filter-append p xs ys)

  pub first-append_some :
      (p : A → Bool) (xs ys : List A) (x : A) → first p xs ≡ some x → first p (xs ++ ys) ≡ some x
  first-append_some p [] ys x h = cc
  first-append_some p (y ∷ xs) ys x h = ground (arith, first-append_some p xs ys x)

  pub first-append_none :
      (p : A → Bool) (xs ys : List A) → first p xs ≡ none → first p (xs ++ ys) ≡ first p ys
  first-append_none p [] ys h = refl
  first-append_none p (y ∷ xs) ys h = ground (arith, first-append_none p xs ys)

  pub first_passes : (p : A → Bool) (xs : List A) (x : A) → first p xs ≡ some x → p x ≡ true
  first_passes p [] x h = cc
  first_passes p (y ∷ xs) x h = ground (arith, first_passes p xs x)

-- Rows that have a key, and the conditions on it.
module _ {ℓ} {A : Type ℓ} (key : A → String) where
  abbrev pub has_key : String → A → Bool
  has_key k x = str_eq (key x) k

  -- `UPDATE … WHERE key = …`
  abbrev pub replace : A → List A → List A
  replace e [] = []
  replace e (x ∷ xs) = (if str_eq (key x) (key e) then e else x) ∷ replace e xs

  -- `DELETE … WHERE key = …`
  abbrev pub remove_key : String → List A → List A
  remove_key k [] = []
  remove_key k (x ∷ xs) = if str_eq (key x) k then remove_key k xs else x ∷ remove_key k xs

  pub first_key : (k : String) (xs : List A) {x : A} → first (has_key k) xs ≡ some x → key x ≡ k
  first_key k xs {x} h = (eq_iff (key x) k).0 (first_passes (has_key k) xs x h)

  pub first-replace_self :
      (e : A) (xs : List A) (x : A) (k : String)
      → key e ≡ k
      → first (has_key k) xs ≡ some x
      → first (has_key k) (replace e xs) ≡ some e
  first-replace_self e [] x k q h = cc
  first-replace_self e (y ∷ xs) x k q h = ground (
    arith,
    eq_iff (key y) (key e),
    eq_iff (key y) k,
    eq_iff (key e) k,
    first-replace_self e xs x k q,
  )

  pub first-replace_other :
      (e : A) (xs : List A) (k : String)
      → key e ≢ k
      → first (has_key k) (replace e xs) ≡ first (has_key k) xs
  first-replace_other e [] k h = refl
  first-replace_other e (y ∷ xs) k h = ground (
    arith,
    eq_iff (key y) (key e),
    eq_iff (key y) k,
    eq_iff (key e) k,
    first-replace_other e xs k h,
  )

  -- A row is found under its own key once it has been added.
  pub first-append_self :
      (e : A) (xs : List A) (k : String)
      → key e ≡ k
      → first (has_key k) xs ≡ none
      → first (has_key k) (xs ++ e ∷ []) ≡ some e
  first-append_self e [] k q h = ground (arith, eq_iff (key e) k)
  first-append_self e (y ∷ xs) k q h = ground (arith, first-append_self e xs k q)

  pub first-append_other :
      (e : A) (xs : List A) (k : String)
      → key e ≢ k
      → first (has_key k) (xs ++ e ∷ []) ≡ first (has_key k) xs
  first-append_other e [] k h = ground (arith, eq_iff (key e) k)
  first-append_other e (y ∷ xs) k h = ground (arith, first-append_other e xs k h)

  -- What has been added under a fresh key, and removed, leaves nothing.
  pub remove_key-append :
      (k : String) (xs : List A) (x : A)
      → first (has_key k) xs ≡ none
      → key x ≡ k
      → remove_key k (xs ++ x ∷ []) ≡ xs
  remove_key-append k [] x h q = ground (arith, eq_iff (key x) k)
  remove_key-append k (y ∷ xs) x h q = ground (arith, remove_key-append k xs x)
