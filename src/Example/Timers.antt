-- ===== src/Example/Timers.antt =====
-- The two timers and the count of the callback, over all orders of its calls.
use csae.Prelude.{
  ℕ, ◌+◌, ◌≤◌, ◌≡◌, refl, Bool, true, false, some, List, [], ◌∷◌, arith, if◌then◌else◌,
}
use csae.Message.InhRes.{Cloud2VehInhRes}
use csae.Util.Timer
use csae.Util.Timer.{Timer, Kernel, Answers}
use csae.Util.Socket.{connected, lost}
use csae.Example.{
  ControllerCallback, new_callback, start_inh, start_state, stop_inh, stop_state, reset_count, send,
  on_up_connect_state, on_inh_res, on_inh_timer, on_state_timer, destroy,
}

-- What calls the object: the controller, for a connection that is made or lost and for an answer,
-- and the two timers at a time. Each comes with the kernel's answers to the calls that it makes.
pub data Event : Type 0 where
  connect : Answers → Answers → Event
  disconnect : Answers → Answers → Event
  answered : Answers → Cloud2VehInhRes → Event
  inh_due : ℕ → Answers → Answers → Event
  state_due : ℕ → Event

-- A timer that is stopped does not call.
unfoldable pub step : Event → ControllerCallback → ControllerCallback
unfolding on_up_connect_state on_inh_res on_inh_timer on_state_timer
step (connect a b) c = on_up_connect_state connected a b c
step (disconnect a b) c = on_up_connect_state lost a b c
step (answered a m) c = on_inh_res a m c
step (inh_due t a b) c = if c.inh_timer.stopped then c else on_inh_timer t a b c
step (state_due t) c = if c.state_timer.stopped then c else on_state_timer t c

unfoldable pub run : List Event → ControllerCallback → ControllerCallback
unfolding step
run [] c = c
run (e ∷ events) c = run events (step e c)

-- Each call of the kernel succeeds.
pub record IsGranted (a : Answers) : Type 0 where
  pub id : ℕ
  pub created : a.created ≡ some id
  pub armed : a.armed ≡ true
  pub deleted : a.deleted ≡ true

abbrev pub Granted : Event → Type 0
Granted (connect a b) = IsGranted a × IsGranted b
Granted (disconnect a b) = IsGranted a × IsGranted b
Granted (answered a m) = IsGranted a
Granted (inh_due t a b) = IsGranted a × IsGranted b
Granted (state_due t) = Unit {0}

-- A connection is made only after the one before it was lost, as the socket's client tells it;
-- `up` is whether there is one.
abbrev pub IsOrderly : Bool → List Event → Type 0
IsOrderly up [] = Unit {0}
IsOrderly up (connect a b ∷ events) = (up ≡ false) × Granted (connect a b) × IsOrderly true events
IsOrderly up (disconnect a b ∷ events) = Granted (disconnect a b) × IsOrderly false events
IsOrderly up (e ∷ events) = Granted e × IsOrderly up events

abbrev pub running : Timer → ℕ
running t = if t.stopped then 0 else 1

-- `others` timers of the kernel are not the object's.
pub record IsKept (others : ℕ) (up : Bool) (c : ControllerCallback) : Type 0 where
  pub few : c.inh_count ≤ 3
  pub counted : c.kernel.live ≡ others + running c.inh_timer + running c.state_timer
  pub quiet : up ≡ false → (c.inh_timer.stopped ≡ true) × (c.state_timer.stopped ≡ true)

connect-IsKept :
    (others : ℕ) (a b : Answers) (c : ControllerCallback)
    → IsGranted a
    → IsGranted b
    → IsKept others false c
    → IsKept others true (step (connect a b) c)
unfolding step start_inh start_state Timer.start
connect-IsKept others a b c ga gb k = let both = k.quiet refl in ground arith

disconnect-IsKept :
    (others : ℕ) (up : Bool) (a b : Answers) (c : ControllerCallback)
    → IsGranted a
    → IsGranted b
    → IsKept others up c
    → IsKept others false (step (disconnect a b) c)
unfolding step stop_inh stop_state reset_count Timer.stop
disconnect-IsKept others up a b c ga gb k = ground arith

answered-IsKept :
    (others : ℕ) (up : Bool) (a : Answers) (m : Cloud2VehInhRes) (c : ControllerCallback)
    → IsGranted a
    → IsKept others up c
    → IsKept others up (step (answered a m) c)
unfolding step stop_inh reset_count Timer.stop
answered-IsKept others up a m c ga k = ground arith

inh_due-IsKept :
    (others : ℕ) (up : Bool) (t : ℕ) (a b : Answers) (c : ControllerCallback)
    → IsGranted a
    → IsGranted b
    → IsKept others up c
    → IsKept others up (step (inh_due t a b) c)
unfolding step stop_inh stop_state reset_count send Timer.stop
inh_due-IsKept others up t a b c ga gb k = ground arith

state_due-IsKept :
    (others : ℕ) (up : Bool) (t : ℕ) (c : ControllerCallback)
    → IsKept others up c
    → IsKept others up (step (state_due t) c)
unfolding step send
state_due-IsKept others up t c k = ground arith

run-IsKept :
    (others : ℕ) (up : Bool) (events : List Event) (c : ControllerCallback)
    → IsOrderly up events
    → IsKept others up c
    → (up' : Bool) × IsKept others up' (run events c)
unfolding run
run-IsKept others up [] c o k = (up, k)
run-IsKept others up (connect a b ∷ events) c (down, g, o) k =
    run-IsKept others true events (step (connect a b) c) o
      (connect-IsKept others a b c g.0 g.1 (rw down at k))
run-IsKept others up (disconnect a b ∷ events) c (g, o) k =
    run-IsKept others false events (step (disconnect a b) c) o
      (disconnect-IsKept others up a b c g.0 g.1 k)
run-IsKept others up (answered a m ∷ events) c (g, o) k =
    run-IsKept others up events (step (answered a m) c) o (answered-IsKept others up a m c g k)
run-IsKept others up (inh_due t a b ∷ events) c (g, o) k =
    run-IsKept others up events (step (inh_due t a b) c) o
      (inh_due-IsKept others up t a b c g.0 g.1 k)
run-IsKept others up (state_due t ∷ events) c (g, o) k =
    run-IsKept others up events (step (state_due t) c) o (state_due-IsKept others up t c k)

new_callback-IsKept :
    (state_timer inh_timer : Timer) (kernel : Kernel)
    → IsKept kernel.live false (new_callback state_timer inh_timer kernel)
unfolding new_callback
new_callback-IsKept state_timer inh_timer kernel = record {
  few = omega arith;
  counted = omega arith;
  quiet = λ e. (refl, refl);
}

destroy_lem :
    (others : ℕ) (up : Bool) (a b : Answers) (c : ControllerCallback)
    → IsGranted a
    → IsGranted b
    → IsKept others up c
    → (destroy a b c).kernel.live ≡ others
unfolding destroy Timer.stop
destroy_lem others up a b c ga gb k = ground arith

-- Whatever calls the callback of the example, in any order in which a connection is made only after
-- the one before it was lost, and as long as the calls of the kernel succeed: its count is three at
-- most, it has two timers in the kernel at most, and none once it is destroyed.
pub run-destroy :
    (state_timer inh_timer : Timer) (kernel : Kernel) (events : List Event) (a b : Answers)
    → IsOrderly false events
    → IsGranted a
    → IsGranted b
    → let c = run events (new_callback state_timer inh_timer kernel) in
      (c.inh_count ≤ 3)
      × (c.kernel.live ≤ kernel.live + 2)
      × ((destroy a b c).kernel.live ≡ kernel.live)
run-destroy state_timer inh_timer kernel events a b o ga gb =
    let c = new_callback state_timer inh_timer kernel in
    let (up, k) =
      run-IsKept kernel.live false events c o (new_callback-IsKept state_timer inh_timer kernel) in
    (k.few, ground (arith, k.counted), destroy_lem kernel.live up a b (run events c) ga gb k)
