-- ===== src/Timer/Ticking.antt =====
-- The goroutine of `NewTimer`, among the ticks of its ticker, its subscribers and the calls of `Stop`:
-- ocr/timer.go.
use eavesdrop.Prelude.{
  ℕ, ◌+◌, ◌≤◌, ◌≡◌, ◌⊎◌, inl, inr, refl, subst, length-append, Bool, true, false, Option, none,
  some, List, [], ◌∷◌, ◌++◌, if◌then◌else◌, arith, length,
}
use eavesdrop.Go.{Channel, idle, listened, closed, close_channel}
use eavesdrop.Timer.{Timer, new_timer, stop}

-- The timer with its goroutine. `ch` is its channel, `received` the times that subscribers got from it, and
-- `ticks` the ticks that the goroutine took.
pub record Clock : Type 0 where
  pub timer : Timer
  pub ticking : Bool
  pub ch : Channel
  pub received : List ℕ
  pub ticks : ℕ
  pub running : Bool

-- `NewTimer`
unfoldable pub new_clock : Clock
new_clock = record {
  timer = new_timer;
  ticking = true;
  ch = idle;
  received = [];
  ticks = 0;
  running = true;
}

-- `case t := <-tmer.ticker.C`, where a subscriber waits at the channel or none does.
unfoldable pub take_tick : Bool → ℕ → Clock → Clock
take_tick waiting t c = record c {
  received = if waiting then c.received ++ t ∷ [] else c.received;
  ticks = c.ticks + 1;
}

-- `case <-tmer.stopCh`; the second close would panic.
unfoldable pub take_stop : Clock → Option Clock
unfolding close_channel
take_stop c = elim (close_channel c.ch) [
  | none ↦ none
  | some ch ↦ some (record c { ticking = false; ch = ch; running = false })
]

-- What may happen next.
pub data Step (c : Clock) : Clock → Type 0 where
  tick :
      (waiting : Bool) (t : ℕ)
      → c.running ≡ true
      → c.ticking ≡ true
      → Step c (take_tick waiting t c)
  quit : (d : Clock) → c.running ≡ true → c.timer.stop_ch ≡ closed → take_stop c ≡ some d → Step c d
  call_stop : (t : Timer) → stop c.timer ≡ some t → Step c (record c { timer = t })

pub data Reach (c : Clock) : Clock → Type 0 where
  here : Reach c c
  then : {d e : Clock} → Reach c d → Step d e → Reach c e

-- `Stop` was called or not.
abbrev Closes : Timer → Type 0
Closes t = (t.stopped ≡ false) × (t.stop_ch ≡ listened) ⊎ (t.stopped ≡ true) × (t.stop_ch ≡ closed)

-- The ticker and the channel of times last as long as the goroutine, which ends after `Stop` only.
abbrev Lasts : Clock → Type 0
Lasts c =
    (c.running ≡ true) × (c.ticking ≡ true) × (c.ch ≡ idle)
    ⊎ (c.running ≡ false) × (c.ticking ≡ false) × (c.ch ≡ closed) × (c.timer.stopped ≡ true)

record IsOrderly (c : Clock) : Type 0 where
  closes : Closes c.timer
  lasts : Lasts c
  fewer : length c.received ≤ c.ticks

stop-Closes :
    (t : Timer)
    → Closes t
    → (u : Timer) × (stop t ≡ some u)
      × (stop u ≡ some u)
      × (u.stopped ≡ true)
      × (u.stop_ch ≡ closed)
unfolding stop close_channel
stop-Closes t (inl (open_yet, ch)) =
    (record { stop_ch = closed; stopped = true }, ground arith, refl, refl, refl)
stop-Closes t (inr (stopped, ch)) = (t, ground arith, ground arith, stopped, ch)

abbrev quit_clock : Clock → Clock
quit_clock c = record c { ticking = false; ch = closed; running = false }

take_stop-Lasts : (c : Clock) → c.running ≡ true → Lasts c → take_stop c ≡ some (quit_clock c)
unfolding take_stop close_channel
take_stop-Lasts c r (inl (running, ticking, ch)) = ground arith
take_stop-Lasts c r (inr (ended, _, _, _)) = absurd (cc)

length-take_tick :
    (waiting : Bool) (t : ℕ) (c : Clock)
    → length c.received ≤ c.ticks
    → length (take_tick waiting t c).received ≤ (take_tick waiting t c).ticks
unfolding take_tick
length-take_tick true t c le = omega (arith, length-append c.received (t ∷ []))
length-take_tick false t c le = omega arith

Step-IsOrderly : {c d : Clock} → Step c d → IsOrderly c → IsOrderly d
unfolding take_tick
Step-IsOrderly {c} (Step.tick waiting t r k) h = record {
  closes = h.closes;
  lasts = h.lasts;
  fewer = length-take_tick waiting t c h.fewer;
}
Step-IsOrderly {c} (Step.quit d r s e) h =
    let same : quit_clock c ≡ d = cc (take_stop-Lasts c r h.lasts, e) in
    subst IsOrderly same (record {
      closes = h.closes;
      lasts = inr (refl, refl, refl, ground (arith, h.closes));
      fewer = h.fewer;
    })
Step-IsOrderly {c} (Step.call_stop t e) h =
    let (u, done, _, stopped, ch) = stop-Closes c.timer h.closes in
    let same : u ≡ t = cc (done, e) in
    subst (λ t. IsOrderly (record c { timer = t })) same
      (record {
        closes = inr (stopped, ch);
        lasts = ground (arith, h.lasts, stopped);
        fewer = h.fewer;
      })

Reach-IsOrderly : {c d : Clock} → Reach c d → IsOrderly c → IsOrderly d
Reach-IsOrderly Reach.here h = h
Reach-IsOrderly (Reach.then steps step) h = Step-IsOrderly step (Reach-IsOrderly steps h)

new_clock-IsOrderly : IsOrderly new_clock
unfolding new_clock
new_clock-IsOrderly = record {
  closes = inl (refl, refl);
  lasts = inl (refl, refl, refl);
  fewer = omega arith;
}

-- What has become of the timer.
abbrev Outlives : Clock → Type 0
Outlives c =
    (c.timer.stopped ≡ false) × (c.running ≡ true) × (c.ch ≡ idle)
    ⊎ (c.timer.stopped ≡ true) × ((d : Clock) × Reach c d × (d.running ≡ false) × (d.ch ≡ closed))

outlives_lem : (c : Clock) → Closes c.timer → Lasts c → Outlives c
outlives_lem c (inl (open_yet, _)) (inl (running, _, ch)) = inl (open_yet, running, ch)
outlives_lem c (inl (open_yet, _)) (inr (_, _, _, stopped)) = absurd (cc)
outlives_lem c (inr (stopped, stop_ch)) (inl lasts) = inr (
  stopped,
  (
    quit_clock c,
    Reach.then Reach.here
        (Step.quit (quit_clock c) lasts.0 stop_ch (take_stop-Lasts c lasts.0 (inl lasts))),
    refl,
    refl,
  ),
)
outlives_lem c (inr (stopped, _)) (inr (ended, _, ch, _)) =
    inr (stopped, (c, Reach.here, ended, ch))

-- Of a timer that was new, after any ticks, calls of Stop and steps of its goroutine in any order: Stop
-- does not panic, and once more changes nothing; subscribers have received at most as many times as
-- the goroutine took ticks; and either Stop was never called, the goroutine runs and the channel of
-- times is open, or it was called, and steps lead to where the goroutine has ended and the channel is
-- closed.
pub stop_is_safe :
    (c : Clock)
    → Reach new_clock c
    → ((t : Timer) × (stop c.timer ≡ some t) × (stop t ≡ some t))
      × (length c.received ≤ c.ticks)
      × ((c.timer.stopped ≡ false) × (c.running ≡ true) × (c.ch ≡ idle)
          ⊎ (c.timer.stopped ≡ true)
            × ((d : Clock) × Reach c d × (d.running ≡ false) × (d.ch ≡ closed)))
stop_is_safe c steps =
    let h = Reach-IsOrderly steps new_clock-IsOrderly in
    let (t, done, again, _, _) = stop-Closes c.timer h.closes in
    ((t, done, again), h.fewer, outlives_lem c h.closes h.lasts)
