-- ===== src/Outbox/Claim.antt =====
-- The claim of an event, `UPDATE … WHERE id = :id AND status = PENDING`, on the rows of the outbox.
use order_orchestrator.Base.{
  ℕ, suc, String, some, List, [], ◌∷◌, ◌≡◌, ◌≢◌, refl, ◌∙◌, ap, true, false, ◌==◌, arith, str_eq,
  eq_iff, first, filter, update_rows, has_key, length, inl, inr, Bool-cases,
}
use order_orchestrator.Entities.{OutboxEvent, OutboxEventStatus}
use order_orchestrator.Outbox.{is_claimable, claimed}

abbrev pub IsPending : OutboxEvent → Type 0
IsPending e = e.status ≡ OutboxEventStatus.pending

abbrev pub claim : String → List OutboxEvent → List OutboxEvent
claim id xs = update_rows (is_claimable id) claimed xs

-- The rows that the claim of `id` changes.
abbrev pub claimable : String → List OutboxEvent → List OutboxEvent
claimable id xs = filter (is_claimable id) xs

is_claimable_lem :
    (id : String) (x : OutboxEvent) → str_eq x.id id ≡ true → IsPending x → is_claimable id x ≡ true
is_claimable_lem id x same p = rw (same, p) refl

suc_nonzero : (n : ℕ) → (suc n == 0) ≡ false
suc_nonzero n = ground arith

some_inj : {x y : OutboxEvent} → some x ≡ some y → x ≡ y
some_inj h = cc

pub first-claim_self :
    (id : String) (xs : List OutboxEvent) (e : OutboxEvent)
    → first (has_key (λ x. x.id) id) xs ≡ some e
    → IsPending e
    → first (has_key (λ x. x.id) id) (claim id xs) ≡ some (claimed e)
first-claim_self id [] e h p = cc
first-claim_self id (x ∷ xs) e h p = elim (Bool-cases (str_eq x.id id)) [
  | inl here ↦
      let same : x ≡ e = some_inj (rw here at h) in
      rw (is_claimable_lem id x here (ap (λ y. y.status) same ∙ p), here)
        (ap (λ y. some (claimed y)) same)
  | inr there ↦ rw (there, there) (first-claim_self id xs e (rw there at h) p)
]

pub first-claim_other :
    (id j : String) (xs : List OutboxEvent)
    → j ≢ id
    → first (has_key (λ x. x.id) j) (claim id xs) ≡ first (has_key (λ x. x.id) j) xs
first-claim_other id j [] ne = refl
first-claim_other id j (x ∷ xs) ne =
    ground (arith, eq_iff x.id id, eq_iff x.id j, first-claim_other id j xs ne)

pub claimable_found :
    (id : String) (xs : List OutboxEvent) (e : OutboxEvent)
    → first (has_key (λ x. x.id) id) xs ≡ some e
    → IsPending e
    → (length (claimable id xs) == 0) ≡ false
claimable_found id [] e h p = cc
claimable_found id (x ∷ xs) e h p = elim (Bool-cases (str_eq x.id id)) [
  | inl here ↦
      let same : x ≡ e = some_inj (rw here at h) in
      rw (is_claimable_lem id x here (ap (λ y. y.status) same ∙ p))
        (suc_nonzero (length (claimable id xs)))
  | inr there ↦ rw there (claimable_found id xs e (rw there at h) p)
]

-- Where no row can be claimed, the claim changes none.
pub claim_nothing :
    (id : String) (xs : List OutboxEvent)
    → (length (claimable id xs) == 0) ≡ true
    → claim id xs ≡ xs
claim_nothing id [] h = refl
claim_nothing id (x ∷ xs) h = ground (arith, claim_nothing id xs)

-- What has been claimed cannot be claimed again.
pub claimable-claim : (id : String) (xs : List OutboxEvent) → claimable id (claim id xs) ≡ []
claimable-claim id [] = refl
claimable-claim id (x ∷ xs) = ground (arith, claimable-claim id xs)
