-- ===== src/Led/Timing.antt =====
-- How long an LED of CBUSLED stays as it is.
use cbuspico_lib.Common.{
  ℕ, ◌≤◌, ◌<◌, ◌≡◌, refl, ap, ◌∙◌, Bool, true, false, not, List, [], ◌∷◌, arith, if◌then◌else◌,
  sub32,
}
use cbuspico_lib.Led.{Led, still, run, pulse}

-- Calls of `run` with the clock at the given times.
unfoldable pub run_all : Led → List ℕ → Led
run_all l [] = l
run_all l (t ∷ ts) = run_all (run l (still t)).0 ts

abbrev pub AllWithin : ℕ → ℕ → List ℕ → Type 0
AllWithin start duration [] = Unit {0}
AllWithin start duration (t ∷ ts) = (sub32 t start < duration) × AllWithin start duration ts

-- What a call of `run` leaves alone while a pulse is on.
run_pulsing :
    (l : Led) (t : ℕ)
    → l.is_blinking ≡ false
    → l.is_pulsing ≡ true
    → sub32 t l.pulse_start < l.pulse_duration
    → (run l (still t)).0 ≡ l
unfolding run
run_pulsing l t b p h = ground arith

run_all_pulsing :
    (l : Led) (ts : List ℕ)
    → l.is_blinking ≡ false
    → l.is_pulsing ≡ true
    → AllWithin l.pulse_start l.pulse_duration ts
    → run_all l ts ≡ l
unfolding run_all
run_all_pulsing l [] b p h = refl
run_all_pulsing l (t ∷ ts) b p h = rw (run_pulsing l t b p h.0) (run_all_pulsing l ts b p h.1)

run_expired :
    (l : Led) (t : ℕ)
    → l.is_blinking ≡ false
    → l.is_pulsing ≡ true
    → l.pulse_duration ≤ sub32 t l.pulse_start
    → ((run l (still t)).0.state ≡ false) × ((run l (still t)).0.is_pulsing ≡ false)
unfolding run
run_expired l t b p h = ground arith

-- The duration that a pulse takes from the settings.
abbrev pub duration_of : Led → Bool → ℕ
duration_of l short = if short then l.ms_pulse_short_duration else l.ms_pulse_long_duration

-- A pulse on a steady LED: it stays lit through every call of `run` before its duration has passed,
-- and the first call after that turns the LED off and ends the pulse.
pub run_all-pulse :
    (l : Led) (short : Bool) (now : ℕ) (ts : List ℕ) (t : ℕ)
    → l.is_blinking ≡ false
    → 0 < duration_of l short
    → AllWithin now (duration_of l short) ts
    → duration_of l short ≤ sub32 t now
    → let lit = run_all (pulse l short now (still now)).0 ts in
      let ended = (run lit (still t)).0 in
      (lit.state ≡ true) × (ended.state ≡ false) × (ended.is_pulsing ≡ false)
unfolding pulse
run_all-pulse l short now ts t b pos within after =
    let lit : Led = record l {
      pulse_duration = duration_of l short;
      is_pulsing = true;
      state = true;
      pulse_start = now;
    } in
    let first = run_pulsing lit now b refl (omega arith) in
    let later = run_all_pulsing lit ts b refl within in
    let (dark, over) = run_expired lit t b refl after in rw (first, later) (refl, dark, over)

-- What a call of `run` does to a blinking LED.
run_waiting :
    (l : Led) (t : ℕ)
    → l.is_blinking ≡ true
    → l.is_pulsing ≡ false
    → sub32 t l.last_time < l.ms_blink_duration
    → (run l (still t)).0 ≡ l
unfolding run
run_waiting l t b p h = ground arith

run_all_waiting :
    (l : Led) (ts : List ℕ)
    → l.is_blinking ≡ true
    → l.is_pulsing ≡ false
    → AllWithin l.last_time l.ms_blink_duration ts
    → run_all l ts ≡ l
unfolding run_all
run_all_waiting l [] b p h = refl
run_all_waiting l (t ∷ ts) b p h = rw (run_waiting l t b p h.0) (run_all_waiting l ts b p h.1)

not-not : (b : Bool) → not (not b) ≡ b
not-not true = refl
not-not false = refl

abbrev toggled : Led → ℕ → Led
toggled l t = record l { state = not l.state; last_time = t }

run_due :
    (l : Led) (t : ℕ)
    → l.is_blinking ≡ true
    → l.is_pulsing ≡ false
    → l.ms_blink_duration ≤ sub32 t l.last_time
    → (run l (still t)).0 ≡ toggled l t
unfolding run
run_due l t b p h = ground arith

half :
    (l : Led) (ts : List ℕ) (t : ℕ)
    → l.is_blinking ≡ true
    → l.is_pulsing ≡ false
    → AllWithin l.last_time l.ms_blink_duration ts
    → l.ms_blink_duration ≤ sub32 t l.last_time
    → (run (run_all l ts) (still t)).0 ≡ toggled l t
half l ts t b p within due = rw (run_all_waiting l ts b p within) (run_due l t b p due)

-- A period of a blinking LED with no pulse, over any calls of `run`: while less than the blink duration has passed since
-- its last change nothing changes, the first call after that inverts the LED, and after the next such stretch the
-- LED is as it was at first, but for the time of its last change.
pub run_all-period :
    (l : Led) (ts : List ℕ) (t : ℕ) (us : List ℕ) (u : ℕ)
    → l.is_blinking ≡ true
    → l.is_pulsing ≡ false
    → AllWithin l.last_time l.ms_blink_duration ts
    → l.ms_blink_duration ≤ sub32 t l.last_time
    → AllWithin t l.ms_blink_duration us
    → l.ms_blink_duration ≤ sub32 u t
    → let changed = (run (run_all l ts) (still t)).0 in
      (run_all l ts ≡ l)
      × (changed.state ≡ not l.state)
      × (run_all changed us ≡ changed)
      × ((run (run_all changed us) (still u)).0 ≡ record l { last_time = u })
run_all-period l ts t us u b p before due between due2 = rw (half l ts t b p before due) (
  run_all_waiting l ts b p before,
  refl,
  run_all_waiting (toggled l t) us b p between,
  half (toggled l t) us u b p between due2
      ∙ ap (λ x. record l { state = x; last_time = u }) (not-not l.state),
)
