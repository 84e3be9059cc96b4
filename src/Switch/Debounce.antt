-- ===== src/Switch/Debounce.antt =====
-- What the debouncing of CBUSSwitch guarantees over a sequence of calls of `run`.
use cbuspico_lib.Common.{
  ℕ, ◌≤◌, ◌<◌, ◌≡◌, refl, ◌∙◌, Bool, true, List, [], ◌∷◌, arith, if◌then◌else◌, same, sub32,
}
use cbuspico_lib.Switch.{Switch, Reads, run}

-- One call with the clock standing still during it.
abbrev pub at_time : Bool → ℕ → Reads
at_time level t = record {
  level = level;
  edge_time = t;
  test_time = t;
  duration_time = t;
  change_time = t;
}

unfoldable pub run_all : Switch → List (Bool × ℕ) → Switch
run_all s [] = s
run_all s ((level, t) ∷ rest) = run_all (run s (at_time level t)) rest

-- The start of the stretch of equal levels that the sample at `t` belongs to.
abbrev pub stretch : Bool → ℕ → Bool → ℕ → ℕ
stretch last start level t = if same level last then start else t

-- No stretch of equal levels lasts for the debounce time.
abbrev pub IsBouncing : ℕ → Bool → ℕ → List (Bool × ℕ) → Type 0
IsBouncing d last start [] = Unit {0}
IsBouncing d last start ((level, t) ∷ rest) =
    (sub32 t (stretch last start level t) < d)
    × IsBouncing d level (stretch last start level t) rest

-- What a call leaves alone, and the edge that it keeps track of.
run_frame :
    (s : Switch) (level : Bool) (t : ℕ)
    → s.configured ≡ true
    → let s' = run s (at_time level t) in
      (s'.configured ≡ true)
      × (s'.debounce_duration ≡ s.debounce_duration)
      × (s'.last_state ≡ level)
      × (s'.debounce_start_time ≡ stretch s.last_state s.debounce_start_time level t)
      × (s'.pressed_state ≡ s.pressed_state)
unfolding run
run_frame s level t c = ground arith

run_quiet :
    (s : Switch) (level : Bool) (t : ℕ)
    → s.configured ≡ true
    → sub32 t (stretch s.last_state s.debounce_start_time level t) < s.debounce_duration
    → let s' = run s (at_time level t) in
      (s'.active_state ≡ s.active_state) × (s'.last_state_change_time ≡ s.last_state_change_time)
unfolding run
run_quiet s level t c h = ground arith

run_accepts :
    (s : Switch) (x : Bool) (t : ℕ)
    → s.configured ≡ true
    → s.last_state ≡ x
    → s.debounce_duration ≤ sub32 t s.debounce_start_time
    → (run s (at_time x t)).active_state ≡ x
unfolding run
run_accepts s x t c l h = ground arith

-- While the pin bounces, the state of a configured switch does not change.
pub run_all-bouncing :
    (s : Switch) (samples : List (Bool × ℕ))
    → s.configured ≡ true
    → IsBouncing s.debounce_duration s.last_state s.debounce_start_time samples
    → let s' = run_all s samples in
      (s'.active_state ≡ s.active_state) × (s'.last_state_change_time ≡ s.last_state_change_time)
unfolding run_all
run_all-bouncing s [] c b = (refl, refl)
run_all-bouncing s ((level, t) ∷ rest) c b =
    let s' = run s (at_time level t) in
    let (conf, dur, last, start, _) = run_frame s level t c in
    let (kept, since) = run_quiet s level t c b.0 in
    let (kept', since') = run_all-bouncing s' rest conf (rw (dur, last, start) b.1) in
    (kept' ∙ kept, since' ∙ since)

abbrev pub AllAt : Bool → List (Bool × ℕ) → Type 0
AllAt x [] = Unit {0}
AllAt x ((level, t) ∷ rest) = (level ≡ x) × AllAt x rest

-- A level that has lasted for the debounce time is the state: from a call that read `x`, through any
-- calls that read `x`, a further one at a time `t` at which the debounce time has passed since the edge
-- leaves the switch in the state `x`.
pub run_all-settles :
    (s : Switch) (x : Bool) (samples : List (Bool × ℕ)) (t : ℕ)
    → s.configured ≡ true
    → s.last_state ≡ x
    → AllAt x samples
    → s.debounce_duration ≤ sub32 t s.debounce_start_time
    → (run (run_all s samples) (at_time x t)).active_state ≡ x
unfolding run_all
run_all-settles s x [] t c l a h = run_accepts s x t c l h
run_all-settles s x ((level, u) ∷ rest) t c l a h =
    let s' = run s (at_time level u) in
    let (conf, dur, last, start, _) = run_frame s level u c in
    let same_stretch : s'.debounce_start_time ≡ s.debounce_start_time = ground arith in
    run_all-settles s' x rest t conf (last ∙ a.0) a.1 (rw (dur, same_stretch) h)
