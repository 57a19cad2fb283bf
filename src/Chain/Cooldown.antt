-- ===== src/Chain/Cooldown.antt =====
-- The suspension of a node that answers 429 (cooldown, parseRetryAfter and suspendedSeconds of
-- internal/chain/ratelimit.go). Times and durations are nanoseconds.
use trc.Base.{
  ℕ, ◌+◌, ◌-◌, ◌*◌, ◌%◌, ◌^◌, [], ◌∷◌, List, Option, none, some, Text, codes, is_empty, trim_space,
  is_digit, ℤ, pos, negsuc, atoi, ltb, ◌==◌, if◌then◌else◌,
}

abbrev pub second : ℕ
second = 1000000000

abbrev pub max_retry_after : ℕ
max_retry_after = 120 * second

abbrev default_retry_after : ℕ
default_retry_after = 5 * second

-- The number of an int64 with those bits.
unfoldable signed_64 : ℕ → ℤ
signed_64 n = if ltb n (2 ^ 63) then pos n else negsuc (2 ^ 64 - 1 - n)

-- `time.Duration(secs) * time.Second`, an int64 that may wrap.
unfoldable duration_of : ℕ → ℤ
unfolding signed_64
duration_of secs = signed_64 (secs * second % 2 ^ 64)

-- The rest of the text behind the prefix.
unfoldable strip_prefix : Text → Text → Option Text
strip_prefix [] s = some s
strip_prefix (p ∷ ps) [] = none
strip_prefix (p ∷ ps) (c ∷ s) = if p == c then strip_prefix ps s else none

-- The text behind the first occurrence of the marker.
unfoldable behind : Text → Text → Option Text
unfolding strip_prefix
behind marker [] = strip_prefix marker []
behind marker (c ∷ s) = elim (strip_prefix marker (c ∷ s)) [
  | some rest ↦ some rest
  | none ↦ behind marker s
]

unfoldable leading_digits : Text → Text
leading_digits [] = []
leading_digits (c ∷ s) = if is_digit c then c ∷ leading_digits s else []

-- A number that strconv.Atoi reads and that is positive.
unfoldable positive_int : Text → Option ℕ
unfolding atoi
positive_int digits = elim (atoi digits) [
  | some (pos n) ↦ if n == 0 then none else some n
  | some (negsuc n) ↦ none
  | none ↦ none
]

-- suspendedSeconds.
unfoldable pub suspended_seconds : Text → Option ℕ
unfolding behind leading_digits positive_int
suspended_seconds body = elim (behind (codes "suspended for ") body) [
  | none ↦ none
  | some rest ↦ positive_int (leading_digits (trim_space rest))
]

-- The answer of a node: the Retry-After header, empty where there is none, the body, and how long
-- from now the header's HTTP date is (http.ParseTime and time.Until), where it is one.
pub record Refusal : Type 0 where
  pub at : ℕ
  pub header : Text
  pub http_date : Option ℤ
  pub body : Text

abbrev from_body : Text → ℤ
from_body body = elim (suspended_seconds body) [
  | some secs ↦ duration_of secs
  | none ↦ pos default_retry_after
]

abbrev from_date : Option ℤ → Text → ℤ
from_date none body = from_body body
from_date (some (negsuc d)) body = from_body body
from_date (some (pos d)) body = if d == 0 then from_body body else pos d

-- parseRetryAfter.
unfoldable pub parse_retry_after : Refusal → ℤ
unfolding positive_int suspended_seconds duration_of
parse_retry_after r =
    let header = trim_space r.header in
    if is_empty header then from_body r.body else elim (positive_int header) [
      | some secs ↦ duration_of secs
      | none ↦ from_date r.http_date r.body
    ]

-- The duration that `set` adds to the time.
unfoldable pub held : ℤ → ℕ
held (negsuc d) = default_retry_after
held (pos d) =
    if d == 0 then default_retry_after else if ltb max_retry_after d then max_retry_after else d

-- cooldown.set, on `until`.
unfoldable pub set_cooldown : ℕ → ℤ → ℕ → ℕ
unfolding held
set_cooldown now d until = if ltb until (now + held d) then now + held d else until

-- The suspension after a list of refusals, the first one first.
unfoldable pub refused : List Refusal → ℕ → ℕ
unfolding set_cooldown parse_retry_after
refused [] until = until
refused (r ∷ rs) until = refused rs (set_cooldown r.at (parse_retry_after r) until)
