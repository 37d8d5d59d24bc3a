-- ===== src/Timer.antt =====
-- ocr/timer.go. The ticking goroutine is left out: only what `Stop` does to its channels is modelled.
pub mod Ticking
use eavesdrop.Prelude.{Bool, true, false, Option, none, some, if◌then◌else◌}
use eavesdrop.Go.{Channel, nil_channel, listened, close_channel}

-- `Timer`: `stopCh` and `stopped`.
pub record Timer : Type 0 where
  pub stop_ch : Channel
  pub stopped : Bool

-- `NewTimer`: its goroutine receives from `stopCh`.
abbrev pub new_timer : Timer
new_timer = record { stop_ch = listened; stopped = false }

-- `&Timer{}`
abbrev pub zero_timer : Timer
zero_timer = record { stop_ch = nil_channel; stopped = false }

-- `Stop`; `none` is a panic.
unfoldable pub stop : Timer → Option Timer
unfolding close_channel
stop t = if t.stopped then some t else elim (close_channel t.stop_ch) [
  | none ↦ none
  | some ch ↦ some (record { stop_ch = ch; stopped = true })
]
