-- ===== src/Scheduling/Duration/Laws.antt =====
-- Laws of `ParseISO8601Duration` (services/scheduling/internal/rotation/rotation.go).
use sreon_call.Prelude.{
  ℕ, zero, suc, ◌≤◌, ◌<◌, ◌≡◌, ◌≢◌, List, [], ◌∷◌, Bool, true, false, arith, length, ok, err,
  bind-eq-ok, bind-eq-err, Bool-cases, ◌==◌, inl, inr,
}
use sreon_call.Scheduling.Duration.{
  stuck, int64_sign, take_digits, drop_digits, atoi, add_component, component, parse_loop,
  check_positive, parse_iso8601_duration,
}

length-drop_digits : (s : List ℕ) → length (drop_digits s) ≤ length s
unfolding drop_digits
length-drop_digits [] = omega arith
length-drop_digits (c ∷ s) = ground (arith, length-drop_digits s)

-- What a component leaves is shorter than the text after the digits.
length-component :
    (ds rest : List ℕ) (t : Bool) (total : ℕ) (r : List ℕ × ℕ)
    → component ds rest t total ≡ ok r
    → length r.0 < length rest
unfolding component
length-component [] rest t total r h = cc
length-component (d ∷ ds) [] t total r h = cc
length-component (d ∷ ds) (u ∷ rest) t total r h = ground arith

atoi-ne-stuck : (ds : List ℕ) → atoi ds ≢ err stuck
unfolding atoi
atoi-ne-stuck ds h = ground arith

add_component-ne-stuck : (t : Bool) (u n total : ℕ) → add_component t u n total ≢ err stuck
unfolding add_component
add_component-ne-stuck t u n total h = ground arith

component-ne-stuck :
    (ds rest : List ℕ) (t : Bool) (total : ℕ) → component ds rest t total ≢ err stuck
unfolding component
component-ne-stuck [] rest t total h = cc
component-ne-stuck (d ∷ ds) [] t total h = cc
component-ne-stuck (d ∷ ds) (u ∷ rest) t total h = elim (bind-eq-err (atoi (d ∷ ds)) _ h) [
  | inl e ↦ atoi-ne-stuck (d ∷ ds) e
  | inr (n, _, k) ↦ elim (bind-eq-err (add_component t u n total) _ k) [
    | inl e ↦ add_component-ne-stuck t u n total e
    | inr (_, _, e) ↦ cc
  ]
]

parse_loop-ne-stuck :
    (fuel : ℕ) (s : List ℕ) (t : Bool) (total : ℕ)
    → length s < fuel
    → parse_loop fuel s t total ≢ err stuck
unfolding parse_loop
parse_loop-ne-stuck zero s t total h e = elim h [ ]
parse_loop-ne-stuck (suc fuel) [] t total h e = cc
parse_loop-ne-stuck (suc fuel) (c ∷ s) t total h e = elim (Bool-cases (c == b'T')) [
  | inl is_t ↦ parse_loop-ne-stuck fuel s true total (omega arith) (rw is_t at e)
  | inr other ↦
      elim (bind-eq-err (component (take_digits (c ∷ s)) (drop_digits (c ∷ s)) t total) _
        (rw other at e)) [
          | inl k ↦ component-ne-stuck (take_digits (c ∷ s)) (drop_digits (c ∷ s)) t total k
          | inr (r, m, k) ↦
              parse_loop-ne-stuck fuel r.0 t r.1
                (omega (
                  arith,
                  length-component (take_digits (c ∷ s)) (drop_digits (c ∷ s)) t total r m,
                  length-drop_digits (c ∷ s),
                ))
                k
        ]
]

check_positive-ne-stuck : (total : ℕ) → check_positive total ≢ err stuck
unfolding check_positive
check_positive-ne-stuck total h = ground arith

-- The parser ends on every text: its fuel, the length of the text, never runs out.
pub parse-ne-stuck : (s : List ℕ) → parse_iso8601_duration s ≢ err stuck
unfolding parse_iso8601_duration
parse-ne-stuck [] h = cc
parse-ne-stuck (c ∷ s) h = elim (Bool-cases (c == b'P')) [
  | inr other ↦ cc (rw other at h)
  | inl is_p ↦ elim (bind-eq-err (parse_loop (suc (length s)) s false 0) _ (rw is_p at h)) [
    | inl e ↦ parse_loop-ne-stuck (suc (length s)) s false 0 (omega arith) e
    | inr (t, _, e) ↦ check_positive-ne-stuck t e
  ]
]

check_positive_bounds : (total d : ℕ) → check_positive total ≡ ok d → (0 < d) × (d < int64_sign)
unfolding check_positive
check_positive_bounds total d h = ground arith

-- An accepted duration is positive and fits `int64`.
pub parse_bounds :
    (s : List ℕ) (d : ℕ) → parse_iso8601_duration s ≡ ok d → (0 < d) × (d < int64_sign)
unfolding parse_iso8601_duration
parse_bounds [] d h = cc
parse_bounds (c ∷ s) d h = elim (Bool-cases (c == b'P')) [
  | inr other ↦ cc (rw other at h)
  | inl is_p ↦
      let (t, _, e) =
        bind-eq-ok (parse_loop (suc (length s)) s false 0) check_positive (rw is_p at h) in
      check_positive_bounds t d e
]
