-- ===== src/DeadLetters/Returns.antt =====
-- Dead letters that are there, taken one behind the other: all of them return to the outbox.
use order_orchestrator.Base.{
  String, Option, some, none, List, [], ◌∷◌, ◌≡◌, ◌≢◌, refl, sym, ap, subst, ◌∙◌, ◌⊎◌, inl, inr,
  Bool-cases, str_eq, eq_iff, arith, map, All, All-imp, first, has_key, remove_key,
  first-remove_key, first-append_some,
}
use order_orchestrator.Entities.{OutboxEvent, OutboxEventStatus, DeadLetterEvent, event_row}
use order_orchestrator.Platform.{Platform}
use order_orchestrator.Exceptions.{Result, ok, err}
use order_orchestrator.World.{World}
use order_orchestrator.World.Reads.{events, event_of, dead_letters, dead_letter_of}
use order_orchestrator.DeadLetters.{ReprocessDetail, restored_event}
use order_orchestrator.DeadLetters.Reprocess.{ReprocessEnd, recreated_event}
use order_orchestrator.DeadLetters.Loop.{passed_entry, count_in, Reprocessed}
use order_orchestrator.DeadLetters.Targets.{letter_id, AreThere}

-- What is left of the dead letters without these ones.
abbrev pub without : List DeadLetterEvent → List DeadLetterEvent → List DeadLetterEvent
without [] letters = letters
without (d ∷ ds) letters = without ds (remove_key letter_id d.id letters)

-- An event that was there is pending, with no failure counted and nothing to wait for.
abbrev pub Restores : Option OutboxEvent → Option OutboxEvent → Type 0
Restores none after = Unit
Restores (some e) after =
    after
    ≡ some (record e {
      status = OutboxEventStatus.pending;
      retry_count = 0;
      last_error = none;
      next_retry_at = none;
    })

-- An event is as it was, or restored.
abbrev IsSameOrBack : {P : Platform} → String → OutboxEvent → World P → Type 0
IsSameOrBack j e w = (event_of w j ≡ some e) ⊎ (event_of w j ≡ some (restored_event e))

abbrev restored_option : Option OutboxEvent → Option OutboxEvent
restored_option none = none
restored_option (some e) = some (restored_event e)

-- What the following calls leave of an event that a call has restored.
stays_restored :
    (before between after : Option OutboxEvent)
    → Restores before between
    → ((f : OutboxEvent) → between ≡ some f → (after ≡ some f) ⊎ (after ≡ some (restored_event f)))
    → Restores before after
stays_restored none between after h on = tt
stays_restored (some e) between after h on = elim (on (restored_event e) h) [
  | inl stays ↦ stays
  | inr again ↦ again
]

-- A source that is still to come is as it was, or restored already.
restored_before :
    (before between after : Option OutboxEvent)
    → ((f : OutboxEvent)
        → before ≡ some f
        → (between ≡ some f) ⊎ (between ≡ some (restored_event f)))
    → Restores between after
    → Restores before after
restored_before none between after on h = tt
restored_before (some e) between after on h = elim (on e refl) [
  | inl same ↦ subst (λ o. Restores o after) same h
  | inr back ↦ subst (λ o. Restores o after) back h
]

module _ {P : Platform} where
  -- The same dead letter has the same source.
  at_source :
      (c d : DeadLetterEvent) (w w' : World P)
      → dead_letter_of w d.id ≡ some c
      → dead_letter_of w d.id ≡ some d
      → Restores (event_of w c.source_event_id) (event_of w' c.source_event_id)
      → Restores (event_of w d.source_event_id) (event_of w' d.source_event_id)
  at_source c d w w' found there h =
      let same : c ≡ d = ap (λ o. elim o [ none ↦ c | some y ↦ y ]) (sym found ∙ there) in
      subst (λ y. Restores (event_of w y.source_event_id) (event_of w' y.source_event_id)) same h

  -- One call of `reprocessDlqEvent`, as the next ones see it.
  one_returns :
      (d : DeadLetterEvent) (w : World P) (r : Result (Unit {0})) (w' : World P)
      → ReprocessEnd d.id w r w'
      → dead_letter_of w d.id ≡ some d
      → (r ≡ ok tt)
        × (dead_letters w' ≡ remove_key letter_id d.id (dead_letters w))
        × Restores (event_of w d.source_event_id) (event_of w' d.source_event_id)
  one_returns d w r w' (ReprocessEnd.missing absent ended same) there =
      absurd (cc (sym absent ∙ there))
  one_returns d w r w' (ReprocessEnd.restored c e found source ended row others letters) there =
      (ended, letters, at_source c d w w' found there (rw source row))
  one_returns d w r w' (ReprocessEnd.recreated c n t found gone ended fresh row letters) there =
      (ended, letters, at_source c d w w' found there (rw gone tt))

  call_keeps :
      (id : String) (w : World P) (r : Result (Unit {0})) (w' : World P) (j : String)
      (e : OutboxEvent)
      → ReprocessEnd id w r w'
      → event_of w j ≡ some e
      → IsSameOrBack j e w'
  call_keeps id w r w' j e (ReprocessEnd.missing absent ended same) h =
      inl (ap (λ v. event_of v j) same ∙ h)
  call_keeps id w r w' j e (ReprocessEnd.restored d f found source ended row others letters) h =
      elim (Bool-cases (str_eq j d.source_event_id)) [
        | inl same ↦
            let q = (eq_iff j d.source_event_id).0 same in
            let at : event_of w d.source_event_id ≡ some e = ap (event_of w) (sym q) ∙ h in
            subst (λ k. IsSameOrBack k e w') (sym q)
              (inr (row ∙ ap restored_option (sym source ∙ at)))
        | inr other ↦ inl (others j e (ground (arith, eq_iff j d.source_event_id)) h)
      ]
  call_keeps id w r w' j e (ReprocessEnd.recreated d n t found gone ended fresh rows letters) h =
      inl (
        ap (first (has_key (λ x. x.id) j)) rows
        ∙ first-append_some (has_key (λ x. x.id) j) (events w)
            (event_row n t (recreated_event d) ∷ []) e h)

  keeps_again :
      (j : String) (e : OutboxEvent) (v w' : World P)
      → IsSameOrBack j e v
      → ((f : OutboxEvent) → event_of v j ≡ some f → IsSameOrBack j f w')
      → IsSameOrBack j e w'
  keeps_again j e v w' (inl same) on = on e same
  keeps_again j e v w' (inr back) on = elim (on (restored_event e) back) [
    | inl stays ↦ inr stays
    | inr again ↦ inr again
  ]

  loop_keeps :
      {ds : List DeadLetterEvent} {es : List ReprocessDetail} {w w' : World P} (j : String)
      (e : OutboxEvent)
      → Reprocessed w ds es w'
      → event_of w j ≡ some e
      → IsSameOrBack j e w'
  loop_keeps j e (Reprocessed.finished w) h = inl h
  loop_keeps j e (Reprocessed.passed d {w = w} {u = u} {w' = w'} ended rest) h =
      keeps_again j e (count_in "success" u) w' (call_keeps d.id w _ u j e ended h)
        (λ f k. loop_keeps j f rest k)
  loop_keeps j e (Reprocessed.threw d x {w = w} {u = u} {w' = w'} ended rest) h =
      keeps_again j e (count_in "failed" u) w' (call_keeps d.id w _ u j e ended h)
        (λ f k. loop_keeps j f rest k)

  rest_there :
      (d : DeadLetterEvent) (ds : List DeadLetterEvent) (w v : World P)
      → dead_letters v ≡ remove_key letter_id d.id (dead_letters w)
      → All (λ e. e.id ≢ d.id) ds
      → All (λ e. dead_letter_of w e.id ≡ some e) ds
      → All (λ e. dead_letter_of v e.id ≡ some e) ds
  rest_there d [] w v h apart there = tt
  rest_there d (e ∷ ds) w v h (ne, apart) (found, there) = (
    ap (first (has_key letter_id e.id)) h
        ∙ first-remove_key letter_id e.id d.id (dead_letters w) ne
        ∙ found,
    rest_there d ds w v h apart there,
  )

  -- All targets return: each of them has an entry of success, their dead letters are gone, and
  -- their sources are pending again.
  pub loop_returns :
      {ds : List DeadLetterEvent} {es : List ReprocessDetail} {w w' : World P}
      → Reprocessed w ds es w'
      → AreThere w ds
      → (es ≡ map (λ d. passed_entry d.id) ds)
        × (dead_letters w' ≡ without ds (dead_letters w))
        × All (λ d. Restores (event_of w d.source_event_id) (event_of w' d.source_event_id)) ds
  loop_returns (Reprocessed.finished w) h = (refl, refl, tt)
  loop_returns (Reprocessed.threw d x {w = w} {u = u} ended rest)
        ((here, there), (apart, distinct)) =
      absurd (cc ((one_returns d w (err x) u ended here).0))
  loop_returns (Reprocessed.passed d {ds = ds} {w = w} {u = u} {w' = w'} ended rest)
        ((here, there), (apart, distinct)) =
      let (returns, gone, back) = one_returns d w (ok tt) u ended here in
      let v = count_in "success" u in
      let (entries, letters, others) =
        loop_returns rest (rest_there d ds w v gone apart there, distinct) in
      let s = d.source_event_id in
      (
        ap (λ l. passed_entry d.id ∷ l) entries,
        letters ∙ ap (without ds) gone,
        (
          stays_restored (event_of w s) (event_of v s) (event_of w' s) back
              (λ f k. loop_keeps s f rest k),
          All-imp ds
              (λ e k.
                restored_before (event_of w e.source_event_id) (event_of v e.source_event_id)
                  (event_of w' e.source_event_id)
                  (λ f found. call_keeps d.id w (ok tt) u e.source_event_id f ended found) k)
              others,
        ),
      )
