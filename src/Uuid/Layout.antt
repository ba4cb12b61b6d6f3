-- ===== src/Uuid/Layout.antt =====
-- What the 16 bytes of an id say, read back as RFC 9562 lays them out.
use order_orchestrator.Base.{
  ℕ, zero, suc, ◌+◌, ◌*◌, ◌/◌, ◌%◌, ◌^◌, ◌≤◌, ◌<◌, ◌≡◌, refl, List, [], ◌∷◌, arith, length, drop,
  All,
}
use order_orchestrator.Platform.Laws.{IsByte}
use order_orchestrator.Uuid.{uuid_bytes}

-- `unix_ts_ms`, the first 48 bits
abbrev pub timestamp_of : List ℕ → ℕ
timestamp_of (a ∷ b ∷ c ∷ d ∷ e ∷ f ∷ bytes) =
    ((((a * 256 + b) * 256 + c) * 256 + d) * 256 + e) * 256 + f
timestamp_of _ = 0

-- `ver`, the next 4 bits
abbrev pub version_of : List ℕ → ℕ
version_of (a ∷ b ∷ c ∷ d ∷ e ∷ f ∷ g ∷ bytes) = g / 16
version_of _ = 0

-- `rand_a`, the next 12 bits
abbrev pub sequence_of : List ℕ → ℕ
sequence_of (a ∷ b ∷ c ∷ d ∷ e ∷ f ∷ g ∷ h ∷ bytes) = (g % 16) * 256 + h
sequence_of _ = 0

-- `var`, the next 2 bits
abbrev pub variant_of : List ℕ → ℕ
variant_of (a ∷ b ∷ c ∷ d ∷ e ∷ f ∷ g ∷ h ∷ i ∷ bytes) = i / 64
variant_of _ = 0

drop_cons : (n : ℕ) (xs : List ℕ) → n < length xs → (b : ℕ) × (drop n xs ≡ b ∷ drop (suc n) xs)
drop_cons n [] h = absurd (omega arith)
drop_cons zero (x ∷ xs) h = (x, refl)
drop_cons (suc n) (x ∷ xs) h = drop_cons n xs (omega arith)

timestamp_back :
    (t : ℕ)
    → t < 2 ^ 48
    → ((((((t / 2 ^ 40) % 256) * 256 + (t / 2 ^ 32) % 256) * 256 + (t / 2 ^ 24) % 256) * 256
                + (t / 2 ^ 16) % 256)
              * 256
            + (t / 2 ^ 8) % 256)
          * 256
        + t % 256
      ≡ t
timestamp_back t h = omega arith

length-drop : (n : ℕ) (xs : List ℕ) → n ≤ length xs → length (drop n xs) + n ≡ length xs
length-drop zero xs h = omega arith
length-drop (suc n) [] h = absurd (omega arith)
length-drop (suc n) (x ∷ xs) h = omega (arith, length-drop n xs (omega arith))

All-drop : (n : ℕ) (xs : List ℕ) → All IsByte xs → All IsByte (drop n xs)
All-drop zero xs h = h
All-drop (suc n) [] h = tt
All-drop (suc n) (x ∷ xs) h = All-drop n xs h.1

-- An id of a 48-bit time, a 12-bit number and 16 random bytes is 16 bytes; read back, they say the
-- time, version 7, the number and the variant 2, and the last 7 of them are random ones.
pub uuid_bytes_lem :
    (t s : ℕ) (bytes : List ℕ)
    → t < 2 ^ 48
    → s < 4096
    → length bytes ≡ 16
    → All IsByte bytes
    → let u = uuid_bytes t s bytes in
      (length u ≡ 16)
      × All IsByte u
      × (timestamp_of u ≡ t)
      × (version_of u ≡ 7)
      × (sequence_of u ≡ s)
      × (variant_of u ≡ 2)
      × (drop 9 u ≡ drop 9 bytes)
uuid_bytes_lem t s bytes small short full are_bytes =
    let (b, split) = drop_cons 8 bytes (omega arith) in
    let rest = length-drop 9 bytes (omega arith) in
    rw split (
      omega arith,
      (
        omega arith,
        (
          omega arith,
          (
            omega arith,
            (
              omega arith,
              (
                omega arith,
                (
                  omega arith,
                  (omega arith, (omega arith, (omega arith, All-drop 9 bytes are_bytes))),
                ),
              ),
            ),
          ),
        ),
      ),
      timestamp_back t small,
      omega arith,
      omega arith,
      omega arith,
      refl,
    )
