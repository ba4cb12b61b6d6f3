-- ===== src/Uuid/Order.antt =====
-- The ids of one process grow: a later millisecond, or the same one with a larger number.
use order_orchestrator.Base.{
  ℕ, zero, suc, ◌+◌, ◌%◌, ◌≤◌, ◌<◌, ◌≡◌, refl, subst, some, leb, ◌==◌, ◌⊎◌, inl, inr, arith,
  Bool-cases, leb→le,
}
use order_orchestrator.Platform.{Platform}
use order_orchestrator.Platform.Laws.{IsPlatform}
use order_orchestrator.Host.{Host, date_now}
use order_orchestrator.Uuid.{
  random_sequence, read_past, start_sequence, next_sequence, next_timestamp_and_sequence,
}

module _ (P : Platform) where
  -- With enough fuel the wait ends at a later time.
  read_past_reaches :
      (fuel last k : ℕ) (h : Host)
      → k < fuel
      → last < P.now (h.clock_reads + k)
      → last < (read_past P fuel last h).0
  unfolding read_past
  read_past_reaches zero last k h few later = absurd (omega arith)
  read_past_reaches (suc fuel) last zero h few later =
      let same : h.clock_reads + 0 ≡ h.clock_reads = omega arith in
      let now_later : last < P.now h.clock_reads = subst (λ n. last < P.now n) same later in
      elim (Bool-cases (leb (P.now h.clock_reads) last)) [
        | inl early ↦ absurd (omega (arith, leb→le (P.now h.clock_reads) last early))
        | inr late ↦ rw (late, read_past) now_later
      ]
  read_past_reaches (suc fuel) last (suc k) h few later =
      let same : h.clock_reads + suc k ≡ suc h.clock_reads + k = omega arith in
      elim (Bool-cases (leb (P.now h.clock_reads) last)) [
        | inl early ↦
            rw (early, read_past)
              (read_past_reaches fuel last k (date_now P h).1 (omega arith)
                (subst (λ n. last < P.now n) same later))
        | inr late ↦ rw (late, read_past) (ground arith)
      ]

-- The order of the pairs of time and number.
abbrev pub IsBefore : ℕ × ℕ → ℕ × ℕ → Type 0
IsBefore (t, s) (t', s') = (t < t') ⊎ ((t ≡ t') × (s < s'))

module _ {P : Platform} (lawful : IsPlatform P) where
  sequence_small : (h : Host) → (random_sequence P h).0 < 4096
  unfolding random_sequence
  sequence_small h = omega arith

  -- Whatever the clock says, the number has 12 bits.
  pub next_sequence_small : (h : Host) → (next_timestamp_and_sequence P h).0.1 < 4096
  unfolding next_timestamp_and_sequence next_sequence start_sequence random_sequence
  next_sequence_small h = ground arith

  waits : (h : Host) (last : ℕ) → last < (read_past P (P.patience h.clock_reads last) last h).0
  waits h last =
      let (k, few, later) = lawful.clock_passes h.clock_reads last in
      read_past_reaches P (P.patience h.clock_reads last) last k h few later

  -- If the clock has not gone back since the last id, the next id has a later time, or the same time
  -- and a larger number; and the generator remembers it as the last one.
  pub next_timestamp_and_sequence_increases :
      (h : Host) (last : ℕ)
      → h.last_timestamp_ms ≡ some last
      → h.sequence < 4096
      → last ≤ P.now h.clock_reads
      → let (x, h') = next_timestamp_and_sequence P h in
        IsBefore (last, h.sequence) x × (h'.last_timestamp_ms ≡ some x.0) × (h'.sequence ≡ x.1)
  unfolding next_timestamp_and_sequence next_sequence start_sequence
  next_timestamp_and_sequence_increases h last known small forward =
      let t = P.now h.clock_reads in
      let v : Host = record h { clock_reads = suc h.clock_reads; last_timestamp_ms = some last } in
      let later = waits v (P.now h.clock_reads) in
      elim (Bool-cases (t == last)) [
        | inl same ↦
            rw (known, same)
              (elim (Bool-cases ((h.sequence + 1) % 4096 == 0)) [
                | inl spent ↦ rw spent (inl (omega arith), refl, refl)
                | inr left ↦ rw left (ground arith, ground arith, refl)
              ])
        | inr other ↦ rw (known, other) (ground arith, refl, refl)
      ]
