-- ===== src/Example/Answered.antt =====
-- What the callback sends once the cloud has answered.
use csae.Prelude.{
  ℕ, ◌≡◌, sym, ◌∙◌, append-nil, append_assoc, true, false, List, [], ◌∷◌, ◌++◌, map, arith,
}
use csae.Packer.{state}
use csae.Message.InhRes.{Cloud2VehInhRes}
use csae.Util.Timer
use csae.Util.Timer.{Answers}
use csae.Example.{ControllerCallback, stop_inh, reset_count, send, report}
use csae.Example.Timers.{answered, inh_due, state_due, step, run}
use csae.Example.Silence.{Tick, inh_tick, state_tick, event}

-- The times of the reports.
abbrev pub report_times : List Tick → List ℕ
report_times [] = []
report_times (inh_tick t a b ∷ ticks) = report_times ticks
report_times (state_tick t ∷ ticks) = t ∷ report_times ticks

-- Only the reports are left.
record IsAnswered (c : ControllerCallback) : Type 0 where
  inh_stopped : c.inh_timer.stopped ≡ true
  state_stopped : c.state_timer.stopped ≡ false

stays-IsAnswered :
    (tick : Tick) (c : ControllerCallback)
    → IsAnswered c
    → IsAnswered (step (event tick) c)
      × ((step (event tick) c).sent
          ≡ c.sent ++ map (λ t. state (report t)) (report_times (tick ∷ [])))
unfolding step send
stays-IsAnswered (inh_tick t a b) c w = (ground arith, ground (arith, append-nil c.sent))
stays-IsAnswered (state_tick t) c w = (ground arith, ground arith)

run-IsAnswered :
    (ticks : List Tick) (c : ControllerCallback)
    → IsAnswered c
    → (run (map event ticks) c).sent ≡ c.sent ++ map (λ t. state (report t)) (report_times ticks)
unfolding run
run-IsAnswered [] c w = sym (append-nil c.sent)
run-IsAnswered (inh_tick t a b ∷ ticks) c w =
    let (w', sent) = stays-IsAnswered (inh_tick t a b) c w in
    run-IsAnswered ticks (step (inh_due t a b) c) w' ∙ rw (sent, append-nil)
run-IsAnswered (state_tick t ∷ ticks) c w =
    let (w', sent) = stays-IsAnswered (state_tick t) c w in
    run-IsAnswered ticks (step (state_due t) c) w' ∙ rw (sent, append_assoc)

answer :
    (a : Answers) (m : Cloud2VehInhRes) (c : ControllerCallback)
    → c.state_timer.stopped ≡ false
    → IsAnswered (step (answered a m) c) × ((step (answered a m) c).sent ≡ c.sent)
unfolding step stop_inh reset_count Timer.stop
answer a m c runs = ground arith

-- Over an object whose timer of the reports runs: after an answer of the cloud, whatever its result
-- is, and any calls of the two timers, what was sent behind the messages before is one report for
-- each call of that timer, at its time, and no announcement.
pub answered-reports :
    (a : Answers) (m : Cloud2VehInhRes) (c : ControllerCallback) (ticks : List Tick)
    → c.state_timer.stopped ≡ false
    → (run (answered a m ∷ map event ticks) c).sent
      ≡ c.sent ++ map (λ t. state (report t)) (report_times ticks)
unfolding run
answered-reports a m c ticks runs =
    let (w, sent) = answer a m c runs in run-IsAnswered ticks (step (answered a m) c) w ∙ rw sent
