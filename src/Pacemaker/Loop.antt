-- ===== src/Pacemaker/Loop.antt =====
-- The goroutine that `Start` of ocr/pacemaker.go begins with: what its `select` may receive next. A
-- receive from a nil channel never comes; what `quitCh` ends is the goroutine only.
use eavesdrop.Prelude.{◌≢◌, [], ◌∷◌, ◌++◌}
use eavesdrop.Go.{nil_channel}
use eavesdrop.Go.States.{reached}
use eavesdrop.Reporter.Lifecycle.{QueueItem}
use eavesdrop.Pacemaker.{Pacemaker, send_new_epoch_msg}

-- `p.recEvents.Add(event)`
unfoldable pub add_event : QueueItem → Pacemaker → Pacemaker
add_event event p = record p { rec_events = p.rec_events ++ event ∷ [] }

-- An event of a job, a tick of `TimerResend`, or one of `TimerProgress`, for which there is no code.
pub data Step (p : Pacemaker) : Pacemaker → Type 0 where
  receive_event : (event : QueueItem) → Step p (add_event event p)
  resend : p.timers.resend_ch ≢ nil_channel → Step p (reached (send_new_epoch_msg p))
  no_progress : p.timers.progress_ch ≢ nil_channel → Step p p
