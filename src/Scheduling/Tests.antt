-- ===== src/Scheduling/Tests.antt =====
-- Runs of the rotation code (services/scheduling/internal/rotation/rotation.go) at concrete inputs,
-- and the theorems applied there.
use sreon_call.Prelude.{
  ℕ, ◌+◌, ◌*◌, ◌/◌, ◌≡◌, ◌≢◌, ◌≤◌, ◌<◌, refl, String, List, [], ◌∷◌, ◌++◌, false, true, none, arith,
  ok, err, Any, All, ◌⊎◌, inl, inr,
}
use sreon_call.Scheduling.Duration.{
  hour, minute, max_duration, int64_sign, stuck as no_fuel, take_digits, drop_digits, component,
  parse_loop, check_positive, parse_iso8601_duration, atoi, add_component, value_from, unit_of,
}
use sreon_call.Scheduling.Duration.Laws.{parse-ne-stuck, parse_bounds}
use sreon_call.Scheduling.Duration.RoundTrip.{Part, IsPart, render, total_of, parse-render}
use sreon_call.Scheduling.Rotation.{
  Schedule, Override, Shift, TimeLib, stuck, epoch, elapsed_since, shift_duration_of, member_of,
  shift_at, from_rotation, on_call_at, base_shift, base_shifts,
}
use sreon_call.Scheduling.Rotation.OnCall.{Holds, on_call_at_lem, from_rotation_lem}
use sreon_call.Scheduling.Rotation.Shifts.{Covers}
use sreon_call.Scheduling.Rotation.Endless.{base_shifts_endless, base_shifts_inverted}
use sreon_call.Scheduling.Overrides.{clamp_start, clamp_end, apply_overrides}
use sreon_call.Scheduling.Overrides.Cover.{apply_overrides-Covers}
use sreon_call.Scheduling.Overrides.Repeats.{override_count, overlap_count, apply_overrides_repeats}
use sreon_call.Scheduling.Generate.{generate_shifts}
use sreon_call.Scheduling.Generate.Agree.{generate_shifts_agree}

-- Time in UTC, with every start date taken as a midnight.
abbrev pub utc_only : TimeLib
utc_only = record {
  Location = Unit {0};
  utc = tt;
  trim_space = λ s. s;
  load_location = λ s. none;
  start_of_day = λ t loc. t;
}

abbrev pub pt12h : List ℕ
pt12h = b'P' ∷ b'T' ∷ b'1' ∷ b'2' ∷ b'H' ∷ []

pub pt12h_parsed : parse_iso8601_duration pt12h ≡ ok (12 * hour)
unfolding parse_iso8601_duration parse_loop component take_digits drop_digits atoi add_component
    check_positive
pt12h_parsed = refl

abbrev pub pair : Schedule
pair = record {
  id = "s1";
  tenant_id = "acme";
  name = "primary";
  timezone = "UTC";
  rotation = "ann" ∷ "bob" ∷ [];
  shift_duration = pt12h;
  start_date = 100;
  created_at = 0;
  updated_at = 0;
}

abbrev pub cover : ℕ → ℕ → Override
cover a b = record {
  id = "o1";
  schedule_id = "s1";
  tenant_id = "acme";
  user_id = "eve";
  start_at = a;
  end_at = b;
  created_at = 0;
}

abbrev shift : String → ℕ → ℕ → Shift
shift u a b = record { user_id = u; start_at = a; end_at = b; is_override = false }

pub pair_duration : shift_duration_of pair ≡ ok (12 * hour)
unfolding shift_duration_of parse_iso8601_duration parse_loop component take_digits drop_digits atoi
    add_component check_positive
pair_duration = refl

parse_bounds_example : (0 < 12 * hour) × (12 * hour < int64_sign)
parse_bounds_example = parse_bounds pt12h (12 * hour) pt12h_parsed

parse-ne-stuck_example : parse_iso8601_duration pt12h ≢ err no_fuel
parse-ne-stuck_example = parse-ne-stuck pt12h

abbrev one_day : Part
one_day = record { digits = b'1' ∷ []; unit = b'D'; nanos = 24 * hour }

abbrev half_hour : Part
half_hour = record { digits = b'3' ∷ b'0' ∷ []; unit = b'M'; nanos = minute }

one_day-IsPart : IsPart false one_day
unfolding value_from unit_of
one_day-IsPart = record {
  are_digits = (refl, tt);
  some_digit = λ e. cc;
  in_range = omega arith;
  has_unit = refl;
}

half_hour-IsPart : IsPart true half_hour
unfolding value_from unit_of
half_hour-IsPart = record {
  are_digits = (refl, (refl, tt));
  some_digit = λ e. cc;
  in_range = omega arith;
  has_unit = refl;
}

one_day-half_hour : total_of (one_day ∷ []) + total_of (half_hour ∷ []) ≡ 24 * hour + 30 * minute
unfolding value_from
one_day-half_hour = refl

parse-render_example :
    parse_iso8601_duration (b'P' ∷ (render (one_day ∷ []) ++ (b'T' ∷ render (half_hour ∷ []))))
    ≡ ok (total_of (one_day ∷ []) + total_of (half_hour ∷ []))
parse-render_example =
    parse-render (one_day ∷ []) (half_hour ∷ []) (one_day-IsPart, tt) (half_hour-IsPart, tt)
      (omega (arith, one_day-half_hour)) (omega (arith, one_day-half_hour))

-- The first override that holds the instant 7 is that of "eve".
on_call_at_example :
    Any
      (λ o.
        Holds o 7
        × (on_call_at utc_only pair (cover 5 9 ∷ []) 7 ≡ ok (o.user_id, o.start_at, o.end_at)))
      (cover 5 9 ∷ [])
    ⊎ (All (λ o. ¬ Holds o 7) (cover 5 9 ∷ [])
        × (on_call_at utc_only pair (cover 5 9 ∷ []) 7 ≡ from_rotation utc_only pair 7))
on_call_at_example =
    on_call_at_lem utc_only pair (cover 5 9 ∷ []) 7 (on_call_at utc_only pair (cover 5 9 ∷ []) 7)
      refl

pair-epoch : epoch utc_only pair ≡ 100
unfolding epoch
pair-epoch = refl

abbrev noon : ℕ
noon = 43_200_000_000_100

from_rotation_example :
    (r : String × ℕ × ℕ) × (from_rotation utc_only pair noon ≡ ok r)
    × (r.1 ≤ noon)
    × (noon < r.2)
    × (r.2 ≡ r.1 + 12 * hour)
    × ((at' : ℕ)
        → r.1 ≤ at'
        → at' < r.2
        → at' ≤ epoch utc_only pair + max_duration
        → from_rotation utc_only pair at' ≡ ok r)
from_rotation_example =
    from_rotation_lem utc_only pair noon (12 * hour) (omega arith) pair_duration
      (omega (arith, pair-epoch)) (omega (arith, pair-epoch))

generate_shifts_example :
    (l : List Shift) × (generate_shifts utc_only pair (cover 200 300 ∷ []) 100 1000 ≡ ok l)
    × ((t : ℕ)
        → 100 ≤ t
        → t < 1000
        → (q : String × ℕ × ℕ) × (on_call_at utc_only pair (cover 200 300 ∷ []) t ≡ ok q)
          × Any (Covers t) l
          × All (λ x. Covers t x → x.user_id ≡ q.0) l)
generate_shifts_example =
    generate_shifts_agree utc_only pair (cover 200 300 ∷ []) 100 1000 (12 * hour) (omega arith)
      pair_duration (omega (arith, pair-epoch)) (omega (arith, pair-epoch)) (omega arith, tt, tt)

-- The rotation's own shifts of two rounds.
two_rounds :
    base_shifts 5 ("ann" ∷ "bob" ∷ []) 100 50 190 100
    ≡ ok (shift "ann" 100 150 ∷ shift "bob" 150 190 ∷ [])
unfolding base_shifts base_shift shift_at member_of elapsed_since
two_rounds = refl

apply_overrides-Covers_example :
    Any (Covers 160) (
      apply_overrides (shift "ann" 100 150 ∷ shift "bob" 150 190 ∷ []) (cover 140 170 ∷ []) 100 190)
apply_overrides-Covers_example =
    apply_overrides-Covers (shift "ann" 100 150 ∷ shift "bob" 150 190 ∷ []) (cover 140 170 ∷ []) 100
      190 160 (inr (inl (omega arith)))

apply_overrides_repeats_example :
    override_count (
      apply_overrides (shift "ann" 100 150 ∷ shift "bob" 150 190 ∷ []) (cover 140 170 ∷ []) 100 190)
    ≡ overlap_count 100 190 (cover 140 170) (shift "ann" 100 150 ∷ shift "bob" 150 190 ∷ [])
apply_overrides_repeats_example =
    apply_overrides_repeats (shift "ann" 100 150 ∷ shift "bob" 150 190 ∷ []) (cover 140 170) 100 190

listed_twice :
    overlap_count 100 190 (cover 140 170) (shift "ann" 100 150 ∷ shift "bob" 150 190 ∷ []) ≡ 2
unfolding clamp_start clamp_end
listed_twice = refl

abbrev far : ℕ
far = 100 + max_duration

one_member : member_of ("ann" ∷ []) (max_duration / (12 * hour)) ≡ ok "ann"
unfolding member_of
one_member = refl

base_shifts_endless_example :
    base_shifts 1000 ("ann" ∷ []) 100 (12 * hour) (far + 24 * hour) far ≡ err stuck
base_shifts_endless_example =
    base_shifts_endless 1000 ("ann" ∷ []) 100 (12 * hour) (far + 24 * hour) far "ann" (omega arith)
      (omega arith) (omega arith) (omega arith) one_member

first_member : member_of ("ann" ∷ []) 0 ≡ ok "ann"
unfolding member_of
first_member = refl

base_shifts_inverted_example :
    base_shifts 3 ("ann" ∷ []) 100 50 20 10 ≡ ok (shift "ann" 100 20 ∷ [])
base_shifts_inverted_example =
    base_shifts_inverted 1 ("ann" ∷ []) 100 50 20 10 "ann" (omega arith) (omega arith) (omega arith)
      first_member
