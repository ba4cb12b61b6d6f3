-- ===== src/Platform/Memory/Ids.antt =====
-- An id that no row has: longer than every id in the list.
use Prim.Native.String.{count}
use text.Mathlib.TextLemmas.{length-append as count-append}
use order_orchestrator.Base.{
  ◌≤◌, String, ◌≡◌, refl, ap, none, List, [], ◌∷◌, first, has_key, arith, text_append, eq_iff,
  str_eq, Bool-cases, inl, inr,
}

module _ {E : Type 0} (key : E → String) where
  abbrev pub fresh_id : List E → String
  fresh_id [] = "#"
  fresh_id (x ∷ xs) = text_append (key x) (fresh_id xs)

  fresh_id_long : (xs : List E) → 1 ≤ count (fresh_id xs)
  fresh_id_long [] = omega arith
  fresh_id_long (x ∷ xs) = omega (arith, fresh_id_long xs, count-append (key x) (fresh_id xs))

  absent_of_long :
      (xs : List E) (k : String) → count (fresh_id xs) ≤ count k → first (has_key key k) xs ≡ none
  absent_of_long [] k h = refl
  absent_of_long (x ∷ xs) k h = elim (Bool-cases (str_eq (key x) k)) [
    | inl same ↦ absurd (
        omega (
          arith,
          fresh_id_long xs,
          count-append (key x) (fresh_id xs),
          ap count ((eq_iff (key x) k).0 same),
        ))
    | inr other ↦ rw other (absent_of_long xs k (omega (arith, count-append (key x) (fresh_id xs))))
  ]

  pub fresh_id_fresh : (xs : List E) → first (has_key key (fresh_id xs)) xs ≡ none
  fresh_id_fresh xs = absent_of_long xs (fresh_id xs) (omega arith)
