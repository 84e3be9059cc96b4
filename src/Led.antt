-- ===== src/Led.antt =====
-- CBUSLED.cpp and CBUSLED.h: an indicator that is steady, blinks or pulses. The clock that a call reads
-- is an argument, one for each read; what gpio_put writes is the second part of the result.
pub mod Timing
mod Tests
use cbuspico_lib.Common.{
  ℕ, Bool, true, false, ◌&&◌, not, Option, none, some, leb, if◌then◌else◌, sub32,
}

pub record Led : Type 0 where
  pub configured : Bool
  pub pin : ℕ
  pub state : Bool
  pub is_blinking : Bool
  pub is_pulsing : Bool
  pub last_time : ℕ
  pub pulse_start : ℕ
  pub pulse_duration : ℕ
  pub ms_blink_duration : ℕ
  pub ms_pulse_short_duration : ℕ
  pub ms_pulse_long_duration : ℕ

abbrev pub new_led : Led
new_led = record {
  configured = false;
  pin = 0;
  state = false;
  is_blinking = false;
  is_pulsing = false;
  last_time = 0;
  pulse_start = 0;
  pulse_duration = 0;
  ms_blink_duration = 500;
  ms_pulse_short_duration = 100;
  ms_pulse_long_duration = 500;
}

-- A pin and the level that is put on it, if there is a pin.
abbrev pub Output : Type 0
Output = Option (ℕ × Bool)

unfoldable pub set_pin : Led → ℕ → Led × Output
set_pin l pin = (record l { pin = pin; configured = true }, some (pin, false))

unfoldable pub on : Led → Led
on l = record l { state = true; is_blinking = false }

unfoldable pub off : Led → Led
off l = record l { state = false; is_blinking = false }

unfoldable pub toggle : Led → Led
toggle l = record l { state = not l.state }

unfoldable pub blink : Led → Led
blink l = record l { is_blinking = true }

-- The clock as one call of `run` reads it.
pub record Reads : Type 0 where
  pub blink_test : ℕ
  pub blink_time : ℕ
  pub pulse_test : ℕ

abbrev pub still : ℕ → Reads
still t = record { blink_test = t; blink_time = t; pulse_test = t }

abbrev pub write : Led → Output
write l = if l.configured then some (l.pin, l.state) else none

-- The blinking part of `run`.
unfoldable pub run_blink : Led → Reads → Led
unfolding toggle
run_blink l r =
    if l.is_blinking && leb l.ms_blink_duration (sub32 r.blink_test l.last_time)
    then (let toggled = toggle l in record toggled { last_time = r.blink_time })
    else l

-- The pulse part of `run`.
unfoldable pub run_pulse : Led → Reads → Led
run_pulse l r =
    if l.is_pulsing && leb l.pulse_duration (sub32 r.pulse_test l.pulse_start)
    then record l { is_pulsing = false; state = false }
    else l

unfoldable pub run : Led → Reads → Led × Output
unfolding run_blink run_pulse
run l r = let l' = run_pulse (run_blink l r) r in (l', write l')

-- `now` is the clock at the start of the pulse; `run` reads it anew.
unfoldable pub pulse : Led → Bool → ℕ → Reads → Led × Output
pulse l short now r =
    run
      (record l {
        pulse_duration = if short then l.ms_pulse_short_duration else l.ms_pulse_long_duration;
        is_pulsing = true;
        state = true;
        pulse_start = now;
      })
      r

unfoldable pub set_blink_rate : Led → ℕ → Led
set_blink_rate l ms = record l { ms_blink_duration = ms }

unfoldable pub set_short_pulse_duration : Led → ℕ → Led
set_short_pulse_duration l ms = record l { ms_pulse_short_duration = ms }

unfoldable pub set_long_pulse_duration : Led → ℕ → Led
set_long_pulse_duration l ms = record l { ms_pulse_long_duration = ms }
