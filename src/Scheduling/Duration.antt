-- ===== src/Scheduling/Duration.antt =====
-- `ParseISO8601Duration` of services/scheduling/internal/rotation/rotation.go. A text is the list of
-- its bytes; a `time.Duration` is kept as the 64-bit pattern of its nanoseconds, so a pattern from
-- 2^63 on is a negative duration.
pub mod Laws
pub mod RoundTrip
use sreon_call.Prelude.{
  ℕ, zero, suc, ◌+◌, ◌-◌, ◌*◌, ◌%◌, ◌^◌, List, [], ◌∷◌, Bool, true, false, ◌&&◌, ◌||◌, Option, none,
  some, not, ltb, leb, ◌==◌, if◌then◌else◌, length, Result, ok, err, ◌>>=◌,
}

-- `stuck` is no error of the code: it says that the loop's fuel ran out.
pub data DurationError : Type 0 where
  bad_prefix unexpected_char out_of_range invalid_unit not_positive stuck : DurationError

abbrev pub minute : ℕ
minute = 60_000_000_000

abbrev pub hour : ℕ
hour = 3_600_000_000_000

abbrev pub second : ℕ
second = 1_000_000_000

abbrev pub int64_sign : ℕ
int64_sign = 2 ^ 63

abbrev pub int64_mod : ℕ
int64_mod = 2 ^ 64

-- The largest `time.Duration`.
abbrev pub max_duration : ℕ
max_duration = 2 ^ 63 - 1

abbrev pub is_digit : ℕ → Bool
is_digit c = leb b'0' c && leb c b'9'

-- `s[:i]` and `s[i:]` after `for i < len(s) && (s[i] >= '0' && s[i] <= '9') { i++ }`.
unfoldable pub take_digits : List ℕ → List ℕ
take_digits [] = []
take_digits (c ∷ s) = let rest = take_digits s in if is_digit c then c ∷ rest else []

unfoldable pub drop_digits : List ℕ → List ℕ
drop_digits [] = []
drop_digits (c ∷ s) = let rest = drop_digits s in if is_digit c then rest else c ∷ s

unfoldable pub value_from : ℕ → List ℕ → ℕ
value_from acc [] = acc
value_from acc (c ∷ s) = value_from (acc * 10 + (c - b'0')) s

-- `strconv.Atoi` on a text of digits.
unfoldable pub atoi : List ℕ → Result DurationError ℕ
unfolding value_from
atoi ds = let n = value_from 0 ds in if ltb n int64_sign then ok n else err out_of_range

-- The nanoseconds of a unit, by the cases of the `switch`.
unfoldable pub unit_of : Bool → ℕ → Option ℕ
unit_of in_time unit =
    if not in_time && unit == b'W'
    then some (7 * 24 * hour)
    else if not in_time && unit == b'D'
    then some (24 * hour)
    else if in_time && unit == b'H'
    then some hour
    else if in_time && unit == b'M'
    then some minute
    else if in_time && unit == b'S'
    then some second
    else none

-- `total += time.Duration(n) * …`, with the wrap-around of `int64`.
unfoldable pub add_component : Bool → ℕ → ℕ → ℕ → Result DurationError ℕ
unfolding unit_of
add_component in_time unit n total = elim (unit_of in_time unit) [
  | none ↦ err invalid_unit
  | some u ↦ ok ((total + n * u) % int64_mod)
]

-- One number with its unit; the rest of the text and the new total.
unfoldable pub component : List ℕ → List ℕ → Bool → ℕ → Result DurationError (List ℕ × ℕ)
component [] rest in_time total = err unexpected_char
component (d ∷ ds) [] in_time total = err unexpected_char
component (d ∷ ds) (unit ∷ rest) in_time total = do
  n ← atoi (d ∷ ds)
  t ← add_component in_time unit n total
  ok (rest, t)

-- The loop `for len(s) > 0`.
unfoldable pub parse_loop : ℕ → List ℕ → Bool → ℕ → Result DurationError ℕ
parse_loop zero s in_time total = err stuck
parse_loop (suc fuel) [] in_time total = ok total
parse_loop (suc fuel) (c ∷ s) in_time total =
    let after_t = parse_loop fuel s true total in
    let after_component =
      component (take_digits (c ∷ s)) (drop_digits (c ∷ s)) in_time total >>= λ r.
      parse_loop fuel r.0 in_time r.1 in
    if c == b'T' then after_t else after_component

-- `total <= 0`, on the pattern.
unfoldable pub check_positive : ℕ → Result DurationError ℕ
check_positive total = if total == 0 || leb int64_sign total then err not_positive else ok total

unfoldable pub parse_iso8601_duration : List ℕ → Result DurationError ℕ
parse_iso8601_duration [] = err bad_prefix
parse_iso8601_duration (c ∷ s) =
    if c == b'P' then parse_loop (suc (length s)) s false 0 >>= check_positive else err bad_prefix
