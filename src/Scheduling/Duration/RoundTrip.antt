-- ===== src/Scheduling/Duration/RoundTrip.antt =====
-- Durations written out and parsed again (services/scheduling/internal/rotation/rotation.go).
use mathlib.Core.List.{append_assoc, append-nil}
use sreon_call.Prelude.{
  ℕ, zero, suc, ◌+◌, ◌*◌, ◌%◌, ◌<◌, ◌≡◌, ◌≢◌, refl, ap, ◌∙◌, sym, List, [], ◌∷◌, ◌++◌, Bool, true,
  false, arith, length, length-append, ok, ◌==◌, All, some,
}
use sreon_call.Scheduling.Duration.{
  int64_sign, int64_mod, is_digit, take_digits, drop_digits, value_from, atoi, unit_of,
  add_component, component, parse_loop, check_positive, parse_iso8601_duration,
}

-- One component of a text: the digits, the unit's letter and the unit's nanoseconds.
pub record Part : Type 0 where
  pub digits : List ℕ
  pub unit : ℕ
  pub nanos : ℕ

pub record IsPart (in_time : Bool) (p : Part) : Type 0 where
  pub are_digits : All (λ c. is_digit c ≡ true) p.digits
  pub some_digit : p.digits ≢ []
  pub in_range : value_from 0 p.digits < int64_sign
  pub has_unit : unit_of in_time p.unit ≡ some p.nanos

abbrev pub render : List Part → List ℕ
render [] = []
render (p ∷ ps) = p.digits ++ (p.unit ∷ render ps)

-- What the parts stand for, as a number of nanoseconds with no bound.
abbrev pub total_of : List Part → ℕ
total_of [] = 0
total_of (p ∷ ps) = value_from 0 p.digits * p.nanos + total_of ps

take_digits-append :
    (ds : List ℕ) (u : ℕ) (rest : List ℕ)
    → All (λ c. is_digit c ≡ true) ds
    → is_digit u ≡ false
    → take_digits (ds ++ (u ∷ rest)) ≡ ds
unfolding take_digits
take_digits-append [] u rest h k = rw k
take_digits-append (d ∷ ds) u rest h k =
    rw h.0 (ap (λ l. d ∷ l) (take_digits-append ds u rest h.1 k))

drop_digits-append :
    (ds : List ℕ) (u : ℕ) (rest : List ℕ)
    → All (λ c. is_digit c ≡ true) ds
    → is_digit u ≡ false
    → drop_digits (ds ++ (u ∷ rest)) ≡ u ∷ rest
unfolding drop_digits
drop_digits-append [] u rest h k = rw k
drop_digits-append (d ∷ ds) u rest h k = rw h.0 (drop_digits-append ds u rest h.1 k)

unit_not_digit : (t : Bool) (u n : ℕ) → unit_of t u ≡ some n → is_digit u ≡ false
unfolding unit_of
unit_not_digit t u n h = ground arith

digit_not_t : (d : ℕ) → is_digit d ≡ true → (d == b'T') ≡ false
digit_not_t d h = ground arith

atoi_in_range : (ds : List ℕ) → value_from 0 ds < int64_sign → atoi ds ≡ ok (value_from 0 ds)
unfolding atoi
atoi_in_range ds h = ground arith

add_component_known :
    (t : Bool) (u k n total : ℕ)
    → unit_of t u ≡ some k
    → add_component t u n total ≡ ok ((total + n * k) % int64_mod)
unfolding add_component
add_component_known t u k n total h = rw (h, add_component)

component-part :
    (t : Bool) (d : ℕ) (ds : List ℕ) (u n : ℕ) (rest : List ℕ) (total : ℕ)
    → value_from 0 (d ∷ ds) < int64_sign
    → unit_of t u ≡ some n
    → component (d ∷ ds) (u ∷ rest) t total
      ≡ ok (rest, (total + value_from 0 (d ∷ ds) * n) % int64_mod)
unfolding component
component-part t d ds u n rest total lt hu =
    rw (atoi_in_range (d ∷ ds) lt) (rw (add_component_known t u n (value_from 0 (d ∷ ds)) total hu))

-- One part is read by one round of the loop.
parse_loop-part :
    (fuel : ℕ) (t : Bool) (d : ℕ) (ds : List ℕ) (u n : ℕ) (rest : List ℕ) (total : ℕ)
    → All (λ c. is_digit c ≡ true) (d ∷ ds)
    → value_from 0 (d ∷ ds) < int64_sign
    → unit_of t u ≡ some n
    → parse_loop (suc fuel) (d ∷ (ds ++ (u ∷ rest))) t total
      ≡ parse_loop fuel rest t ((total + value_from 0 (d ∷ ds) * n) % int64_mod)
unfolding parse_loop
parse_loop-part fuel t d ds u n rest total hd lt hu = rw (digit_not_t d hd.0) (
    rw (take_digits-append (d ∷ ds) u rest hd (unit_not_digit t u n hu)) (
      rw (drop_digits-append (d ∷ ds) u rest hd (unit_not_digit t u n hu))
        (rw (component-part t d ds u n rest total lt hu))))

-- The same for digits that are not taken apart.
parse_loop-digits :
    (fuel : ℕ) (t : Bool) (ds : List ℕ) (u n : ℕ) (rest : List ℕ) (total : ℕ)
    → ds ≢ []
    → All (λ c. is_digit c ≡ true) ds
    → value_from 0 ds < int64_sign
    → unit_of t u ≡ some n
    → parse_loop (suc fuel) (ds ++ (u ∷ rest)) t total
      ≡ parse_loop fuel rest t ((total + value_from 0 ds * n) % int64_mod)
parse_loop-digits fuel t [] u n rest total h hd lt hu = absurd (h refl)
parse_loop-digits fuel t (d ∷ ds) u n rest total h hd lt hu =
    parse_loop-part fuel t d ds u n rest total hd lt hu

sum_mod :
    (total a b : ℕ) → ((total + a) % int64_mod + b) % int64_mod ≡ (total + (a + b)) % int64_mod
sum_mod total a b = omega arith

-- Each round of the loop takes one part, and leaves enough fuel for the rest of the text.
parse_loop-render :
    (fuel : ℕ) (t : Bool) (ps : List Part) (rest : List ℕ) (total : ℕ)
    → total < int64_mod
    → All (IsPart t) ps
    → length (render ps ++ rest) < fuel
    → (k : ℕ) × (length rest < k)
      × (parse_loop fuel (render ps ++ rest) t total
          ≡ parse_loop k rest t ((total + total_of ps) % int64_mod))
parse_loop-render fuel t [] rest total small hp hf =
    (fuel, hf, ap (parse_loop fuel rest t) (omega arith))
parse_loop-render zero t (p ∷ ps) rest total small hp hf = elim hf [ ]
parse_loop-render (suc fuel) t (p ∷ ps) rest total small (hd, hp) hf =
    let now : ℕ = (total + value_from 0 p.digits * p.nanos) % int64_mod in
    let split : (p.digits ++ (p.unit ∷ render ps)) ++ rest
        ≡ p.digits ++ (p.unit ∷ (render ps ++ rest)) =
      append_assoc p.digits (p.unit ∷ render ps) rest in
    let (k, enough, e) =
      parse_loop-render fuel t ps rest now (omega arith) hp
        (omega (arith, ap length split, length-append p.digits (p.unit ∷ (render ps ++ rest)))) in
    (
      k,
      enough,
      rw split (
            parse_loop-digits fuel t p.digits p.unit p.nanos (render ps ++ rest) total hd.some_digit
              hd.are_digits hd.in_range hd.has_unit)
          ∙ e
          ∙ ap (parse_loop k rest t)
              (sum_mod total (value_from 0 p.digits * p.nanos) (total_of ps)),
    )

parse_loop-times :
    (fuel : ℕ) (t : Bool) (ps : List Part) (total : ℕ)
    → total < int64_mod
    → All (IsPart t) ps
    → length (render ps) < fuel
    → parse_loop fuel (render ps) t total ≡ ok ((total + total_of ps) % int64_mod)
parse_loop-times fuel t ps total small hp hf =
    let (k, enough, e) =
      parse_loop-render fuel t ps [] total small hp (omega (arith, length-append (render ps) [])) in
    ap (λ s. parse_loop fuel s t total) (sym (append-nil (render ps)))
    ∙ e
    ∙ at_end k ((total + total_of ps) % int64_mod) enough
  where
    at_end : (k n : ℕ) → 0 < k → parse_loop k [] t n ≡ ok n
    at_end zero n h = elim h [ ]
    at_end (suc k) n h = unfold parse_loop in refl

parse_loop-t :
    (k : ℕ) (ps : List Part) (total : ℕ)
    → total < int64_mod
    → All (IsPart true) ps
    → length (b'T' ∷ render ps) < k
    → parse_loop k (b'T' ∷ render ps) false total ≡ ok ((total + total_of ps) % int64_mod)
unfolding parse_loop
parse_loop-t zero ps total small hp h = elim h [ ]
parse_loop-t (suc k) ps total small hp h = parse_loop-times k true ps total small hp (omega arith)

check_positive_known : (n : ℕ) → 0 < n → n < int64_sign → check_positive n ≡ ok n
unfolding check_positive
check_positive_known n pos lt = ground arith

-- A text of parts for days, then `T` and parts for hours, minutes and seconds, is parsed to the sum
-- of its parts, if each number fits `int64` and the sum is positive and fits `int64`.
pub parse-render :
    (dates times : List Part)
    → All (IsPart false) dates
    → All (IsPart true) times
    → 0 < total_of dates + total_of times
    → total_of dates + total_of times < int64_sign
    → parse_iso8601_duration (b'P' ∷ (render dates ++ (b'T' ∷ render times)))
      ≡ ok (total_of dates + total_of times)
unfolding parse_iso8601_duration
parse-render dates times hd ht pos lt =
    let s : List ℕ = render dates ++ (b'T' ∷ render times) in
    let (k, enough, e) =
      parse_loop-render (suc (length s)) false dates (b'T' ∷ render times) 0 (omega arith) hd
        (omega arith) in
    let all : parse_loop (suc (length s)) s false 0 ≡ ok (total_of dates + total_of times) =
      e
      ∙ parse_loop-t k times ((0 + total_of dates) % int64_mod) (omega arith) ht enough
      ∙ ap ok (omega arith) in
    rw all (check_positive_known (total_of dates + total_of times) pos lt)
