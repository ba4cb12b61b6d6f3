-- ===== src/DateText.antt =====
-- Times as texts: what `toISOString()` gives (src/orders/outbox-processor.service.ts) and what a
-- `datetime` column holds, for the years from 1970 to 9999.
use order_orchestrator.Base.{ℕ, ◌/◌, ◌%◌, Bool, true, false, ltb, ◌||◌, not, if◌then◌else◌}

abbrev pub ms_per_day : ℕ
ms_per_day = 86_400_000

-- The text `YYYY-MM-DD`, a character, `HH:MM:SS.mmm`, and a `Z` or nothing. The date and the time
-- have fixed widths, with leading zeros, so they stand for the day since 1970 and the millisecond
-- of the day, whose order is that of the texts.
pub record DateText : Type 0 where
  pub date : ℕ
  -- the code of the character
  pub separator : ℕ
  pub time : ℕ
  pub zulu : Bool

-- Whether a text comes before another one or equals it, by the first character that differs.
abbrev pub text_leb : DateText → DateText → Bool
text_leb a b =
    if ltb a.date b.date
    then true
    else if ltb b.date a.date
    then false
    else if ltb a.separator b.separator
    then true
    else if ltb b.separator a.separator
    then false
    else if ltb a.time b.time
    then true
    else if ltb b.time a.time
    then false
    else not a.zulu || b.zulu

-- `toISOString()`: a `T`, and a `Z` at the end.
abbrev pub to_iso_string : ℕ → DateText
to_iso_string t = record {
  date = t / ms_per_day;
  separator = 84;
  time = t % ms_per_day;
  zulu = true;
}
