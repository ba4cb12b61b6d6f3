-- ===== src/Uuid.antt =====
-- The generator of ids, version 7 of RFC 9562 (src/common/utils/uuidv7.util.ts). The bit operations
-- are written with division and remainder: `x & 0xff` is `x % 256`, `x >> 8` is `x / 256`, and `|`
-- of numbers that share no bit is `+`.
pub mod Order
pub mod Layout
use order_orchestrator.Base.{
  ℕ, zero, suc, ◌+◌, ◌*◌, ◌/◌, ◌%◌, ◌^◌, ◌-◌, String, Option, none, some, List, [], ◌∷◌, ◌++◌, Bool,
  true, false, leb, ◌==◌, if◌then◌else◌, take, drop, text_append,
}
use Prim.Native.String.{slice}
use order_orchestrator.Platform.{Platform}
use order_orchestrator.Host.{Host, date_now, random_bytes}

-- `timestampMs === lastTimestampMs`
abbrev pub is_last : ℕ → Option ℕ → Bool
is_last t none = false
is_last t (some last) = t == last

-- `buffer.readUInt16BE(0)`; both calls have two bytes.
abbrev pub read_uint16_be : List ℕ → ℕ
read_uint16_be (a ∷ b ∷ bytes) = a * 256 + b
read_uint16_be (a ∷ []) = 0
read_uint16_be [] = 0

module _ (P : Platform) where
  -- `randomBytes(2).readUInt16BE(0) & 0x0fff`
  unfoldable pub random_sequence : Host → ℕ × Host
  random_sequence h = let (bytes, h') = random_bytes P 2 h in (read_uint16_be bytes % 4096, h')

  -- `do { timestampMs = Date.now() } while (timestampMs <= lastTimestampMs)`, with at most one more
  -- reading than the fuel says.
  unfoldable pub read_past : ℕ → ℕ → Host → ℕ × Host
  read_past zero last h = date_now P h
  read_past (suc fuel) last h =
      let (t, h') = date_now P h in
      elim (leb t last) [ true ↦ read_past fuel last h' | false ↦ (t, h') ]

  -- A new millisecond starts at a random number.
  unfoldable pub start_sequence : ℕ → Host → (ℕ × ℕ) × Host
  start_sequence t h =
      let (s, h') = random_sequence h in
      ((t, s), record h' { last_timestamp_ms = some t; sequence = s })

  -- The rest of `nextTimestampAndSequence` within the last millisecond.
  unfoldable pub next_sequence : ℕ → Host → (ℕ × ℕ) × Host
  next_sequence t h =
      let s = (h.sequence + 1) % 4096 in
      let (t', h') = read_past (P.patience h.clock_reads t) t h in
      if s == 0 then start_sequence t' h' else ((t, s), record h { sequence = s })

  unfoldable pub next_timestamp_and_sequence : Host → (ℕ × ℕ) × Host
  next_timestamp_and_sequence h =
      let (t, h') = date_now P h in
      if is_last t h.last_timestamp_ms then next_sequence t h' else start_sequence t h'

-- `bytes[i] = Number((timestamp >> shift) & 0xffn)`, for i from 0 to 5
abbrev pub timestamp_bytes : ℕ → List ℕ
timestamp_bytes t =
    ((t / 2 ^ 40) % 256)
    ∷ ((t / 2 ^ 32) % 256)
    ∷ ((t / 2 ^ 24) % 256)
    ∷ ((t / 2 ^ 16) % 256)
    ∷ ((t / 2 ^ 8) % 256)
    ∷ (t % 256)
    ∷ []

-- `(bytes[8] & 0x3f) | 0x80` of the ninth byte on
abbrev pub mark_variant : List ℕ → List ℕ
mark_variant [] = []
mark_variant (b ∷ bytes) = (128 + b % 64) ∷ bytes

-- The 16 bytes of an id, from the 16 random bytes.
abbrev pub uuid_bytes : ℕ → ℕ → List ℕ → List ℕ
uuid_bytes t s bytes =
    timestamp_bytes t ++ (112 + (s / 256) % 16) ∷ (s % 256) ∷ mark_variant (drop 8 bytes)

hex_digit : ℕ → String
hex_digit d = slice "0123456789abcdef" d (d + 1)

-- `bytes.toString('hex')`
unfoldable pub hex : List ℕ → String
unfolding hex_digit
hex [] = ""
hex (b ∷ bytes) = text_append (hex_digit (b / 16)) (text_append (hex_digit (b % 16)) (hex bytes))

-- `${hex.slice(0, 8)}-${hex.slice(8, 12)}-…`
unfoldable pub uuid_text : List ℕ → String
uuid_text bytes =
    let digits = hex bytes in
    text_append (slice digits 0 8) (
      text_append "-" (
        text_append (slice digits 8 12) (
          text_append "-" (
            text_append (slice digits 12 16) (
              text_append "-"
                (text_append (slice digits 16 20) (text_append "-" (slice digits 20 32))))))))

unfoldable pub generate_uuid_v7 : (P : Platform) → Host → String × Host
generate_uuid_v7 P h =
    let ((t, s), h₁) = next_timestamp_and_sequence P h in
    let (bytes, h₂) = random_bytes P 16 h₁ in (uuid_text (uuid_bytes t s bytes), h₂)
