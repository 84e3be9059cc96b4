-- ===== src/Switch.antt =====
-- CBUSSwitch.cpp and CBUSSwitch.h: a push button with debouncing. What SystemTick::GetMilli and gpio_get
-- return during a call are arguments of the call, one for each read of the clock.
pub mod Debounce
mod Tests
use cbuspico_lib.Common.{ℕ, Bool, true, false, not, leb, if◌then◌else◌, same, sub32}

pub record Switch : Type 0 where
  pub configured : Bool
  pub pin : ℕ
  pub pressed_state : Bool
  pub current_state : Bool
  pub last_state : Bool
  pub active_state : Bool
  pub state_changed : Bool
  pub debounce_start_time : ℕ
  pub last_state_change_time : ℕ
  pub last_state_duration : ℕ
  pub prev_release_time : ℕ
  pub prev_state_duration : ℕ
  pub debounce_duration : ℕ

abbrev pub default_debounce_ms : ℕ
default_debounce_ms = 20

abbrev pub new_switch : Switch
new_switch = record {
  configured = false;
  pin = 0;
  pressed_state = false;
  current_state = true;
  last_state = false;
  active_state = true;
  state_changed = false;
  debounce_start_time = 0;
  last_state_change_time = 0;
  last_state_duration = 0;
  prev_release_time = 0;
  prev_state_duration = 0;
  debounce_duration = default_debounce_ms;
}

-- The level of the pin, or high while there is no pin.
abbrev pub read_pin : Switch → Bool → Bool
read_pin s level = if s.configured then level else true

unfoldable pub reset : Switch → Switch
reset s = record s {
  last_state = not s.pressed_state;
  state_changed = false;
  last_state_change_time = 0;
  last_state_duration = 0;
  prev_release_time = 0;
  prev_state_duration = 0;
}

-- The pull on the pin goes to the hardware; the state that counts as off is its level.
unfoldable pub set_pin : Switch → ℕ → Bool → Bool → Switch
unfolding reset
set_pin s pin pressed_state level =
    let assigned = record s {
      pin = pin;
      pressed_state = pressed_state;
      active_state = not pressed_state;
      configured = true;
    } in
    let cleared = reset assigned in record cleared { current_state = read_pin cleared level }

-- What one call of `run` reads: the pin, and the clock at up to four places.
pub record Reads : Type 0 where
  pub level : Bool
  pub edge_time : ℕ
  pub test_time : ℕ
  pub duration_time : ℕ
  pub change_time : ℕ

-- The state differs from the one that counts: accept it.
abbrev pub accept : Switch → Reads → Switch
accept s r =
    let changed = record s {
      active_state = s.current_state;
      prev_state_duration = s.last_state_duration;
      last_state_duration = sub32 r.duration_time s.last_state_change_time;
      last_state_change_time = r.change_time;
      state_changed = true;
    } in
    if same s.current_state s.pressed_state
    then changed
    else record changed { prev_release_time = r.change_time }

-- The pin is read; an edge restarts the debounce time.
abbrev pub sample : Switch → Reads → Switch
sample s r =
    let current = read_pin s r.level in
    record s {
      current_state = current;
      debounce_start_time =
          if same current s.last_state then s.debounce_start_time else r.edge_time;
    }

-- The level has lasted: it becomes the state, or the state has not changed.
abbrev pub settle : Switch → Reads → Switch
settle s r =
    if leb s.debounce_duration (sub32 r.test_time s.debounce_start_time)
    then (if same s.current_state s.active_state
        then record s { state_changed = false }
        else accept s r)
    else s

unfoldable pub run : Switch → Reads → Switch
run s r =
    let settled = settle (sample s r) r in record settled { last_state = settled.current_state }

unfoldable pub is_pressed : Switch → Bool
is_pressed s = same s.active_state s.pressed_state

unfoldable pub get_current_state_duration : Switch → ℕ → ℕ
get_current_state_duration s now = sub32 now s.last_state_change_time

unfoldable pub reset_current_duration : Switch → ℕ → Switch
reset_current_duration s now = record s { last_state_change_time = now }

unfoldable pub set_debounce_duration : Switch → ℕ → Switch
set_debounce_duration s duration = record s { debounce_duration = duration }
