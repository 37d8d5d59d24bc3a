-- ===== src/Scenarios/Clocks.antt =====
-- A timer that ticks once and is stopped.
use eavesdrop.Prelude.{◌≡◌, ◌≤◌, ◌⊎◌, refl, true, false, some, length, string_eq}
use eavesdrop.Go.{idle, closed, close_channel}
use eavesdrop.Timer.{Timer, stop}
use eavesdrop.Timer.Ticking.{Clock, new_clock, take_tick, Step, Reach, stop_is_safe}

abbrev ticked : Clock
ticked = take_tick true 5 new_clock

abbrev stopped : Clock
stopped = record ticked { timer = record { stop_ch = closed; stopped = true } }

stop_is_safe_example :
    ((t : Timer) × (stop stopped.timer ≡ some t) × (stop t ≡ some t))
    × (length stopped.received ≤ stopped.ticks)
    × ((stopped.timer.stopped ≡ false) × (stopped.running ≡ true) × (stopped.ch ≡ idle)
        ⊎ (stopped.timer.stopped ≡ true)
          × ((d : Clock) × Reach stopped d × (d.running ≡ false) × (d.ch ≡ closed)))
unfolding stop close_channel take_tick new_clock
stop_is_safe_example = stop_is_safe stopped (
    Reach.then (Reach.then Reach.here (Step.tick true 5 refl refl))
      (Step.call_stop (record { stop_ch = closed; stopped = true }) refl))
