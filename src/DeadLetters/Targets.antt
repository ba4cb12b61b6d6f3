-- ===== src/DeadLetters/Targets.antt =====
-- The dead letters that `reprocessDlqBatch` takes (`select_targets`).
use mathlib.Core.List.{append-nil}
use order_orchestrator.Base.{
  ℕ, ◌≤◌, String, Option, some, none, List, [], ◌∷◌, ◌++◌, ◌≡◌, refl, sym, subst, ◌⊎◌, arith, Bool,
  true, ◌||◌, length, any, All, All-take, All-perm, All-filter_of, filter, filter_agree, str_eq,
  Sort, Selects, Selects-SelectsFirst, limited, Permᴰ, Distinct, Distinct-filter, Distinct-perm,
  Distinct-take, Distinct-first,
}
use order_orchestrator.Entities.{DeadLetterEvent}
use order_orchestrator.Platform.{Platform}
use order_orchestrator.Platform.Laws.{IsPlatform}
use order_orchestrator.Exceptions.{ok}
use order_orchestrator.World.{World}
use order_orchestrator.World.Reads.{dead_letters, dead_letter_of}
use order_orchestrator.World.QueueLaws.{find_dead_letters_run}
use order_orchestrator.DeadLetters.{has_type, has_id_of, select_targets}

abbrev pub letter_id : DeadLetterEvent → String
letter_id d = d.id

-- Whether a request asks for a dead letter: for its id, if it names ids, and for its type, if it
-- names a type but no ids. An empty type is none.
abbrev pub is_asked : List String → Option String → DeadLetterEvent → Bool
is_asked [] none d = true
is_asked [] (some t) d = str_eq t "" || str_eq d.event_type t
is_asked (id ∷ ids) event_type d = any (λ i. str_eq d.id i) (id ∷ ids)

-- With ids none is left; without, there are 100 of them at the most, and some are left only then.
abbrev pub IsBounded : List String → List DeadLetterEvent → List DeadLetterEvent → Type 0
IsBounded [] l left = (length l ≤ 100) × ((left ≡ []) ⊎ (length l ≡ 100))
IsBounded (id ∷ ids) l left = left ≡ []

pub record IsChosen {P : Platform} (ids : List String) (event_type : Option String) (w : World P)
    (l : List DeadLetterEvent) : Type 0 where
  pub left : List DeadLetterEvent
  pub just_the_asked : Permᴰ (l ++ left) (filter (is_asked ids event_type) (dead_letters w))
  pub bounded : IsBounded ids l left

-- Each of the dead letters is the one under its id, and their ids differ.
abbrev pub AreThere : {P : Platform} → World P → List DeadLetterEvent → Type 0
AreThere w ds = All (λ d. dead_letter_of w d.id ≡ some d) ds × Distinct letter_id ds

has_type-is_asked :
    (event_type : Option String) (d : DeadLetterEvent)
    → has_type event_type d ≡ is_asked [] event_type d
has_type-is_asked none d = refl
has_type-is_asked (some t) d = ground arith

has_id_of-any :
    (ids : List String) (d : DeadLetterEvent) → has_id_of ids d ≡ any (λ i. str_eq d.id i) ids
has_id_of-any [] d = refl
has_id_of-any (id ∷ ids) d = ground (arith, has_id_of-any ids d)

module _ {P : Platform} (lawful : IsPlatform P) where
  limited-AreThere :
      (limit : Option ℕ) (w : World P) (a : List DeadLetterEvent)
      → AreThere w a
      → AreThere w (limited limit a)
  limited-AreThere none w a h = h
  limited-AreThere (some n) w a (there, apart) =
      (All-take (λ d. dead_letter_of w d.id ≡ some d) n a there, Distinct-take letter_id n a apart)

  -- The dead letters that a query selects are there, with ids that differ if the ids of all differ.
  Selects-AreThere :
      (p : DeadLetterEvent → Bool) (limit : Option ℕ) (w : World P) (l : List DeadLetterEvent)
      → Distinct letter_id (dead_letters w)
      → Selects Sort.unsorted (filter p (dead_letters w)) 0 limit l
      → AreThere w l
  Selects-AreThere p limit w l distinct s =
      let rows = filter p (dead_letters w) in
      let a = s.arranged in
      let there : All (λ d. dead_letter_of w d.id ≡ some d) a =
        All-perm _ a rows s.same_rows (
          All-filter_of _ p (dead_letters w)
            (Distinct-first letter_id (dead_letters w) distinct)) in
      let apart : Distinct letter_id a =
        Distinct-perm letter_id a rows s.same_rows
          (Distinct-filter letter_id p (dead_letters w) distinct) in
      rw s.selected (limited-AreThere limit w a (there, apart))

  pub select_targets_run :
      (ids : List String) (event_type : Option String) (w : World P)
      → (l : List DeadLetterEvent) × (select_targets P ids event_type w ≡ (ok l, w))
        × IsChosen ids event_type w l
        × (Distinct letter_id (dead_letters w) → AreThere w l)
  unfolding select_targets
  select_targets_run [] event_type w =
      let p = has_type event_type in
      let (l, runs, s) =
        find_dead_letters_run lawful w p Sort.unsorted 0 (some 100) (omega arith) in
      let f = Selects-SelectsFirst Sort.unsorted (filter p (dead_letters w)) 100 l s in
      let asked = filter_agree p (is_asked [] event_type) (has_type-is_asked event_type) in
      (
        l,
        runs,
        record {
          left = f.rest;
          just_the_asked = subst (Permᴰ (l ++ f.rest)) (asked (dead_letters w)) f.all_rows;
          bounded = (f.few, f.rest_beyond);
        },
        λ h. Selects-AreThere p (some 100) w l h s,
      )
  select_targets_run (id ∷ ids) event_type w =
      let p = has_id_of (id ∷ ids) in
      let (l, runs, s) = find_dead_letters_run lawful w p Sort.unsorted 0 none tt in
      let asked = filter_agree p (is_asked (id ∷ ids) event_type) (has_id_of-any (id ∷ ids)) in
      let rows = filter p (dead_letters w) in
      (
        l,
        runs,
        record {
          left = [];
          just_the_asked =
              subst (λ x. Permᴰ x (filter (is_asked (id ∷ ids) event_type) (dead_letters w)))
                (sym (append-nil l))
                (subst (Permᴰ l) (asked (dead_letters w))
                  (subst (λ x. Permᴰ x rows) (sym s.selected) s.same_rows));
          bounded = refl;
        },
        λ h. Selects-AreThere p none w l h s,
      )
