-- ===== src/Example.antt =====
-- examples/main.cc: the callback of a vehicle, which announces the vehicle on a new connection until
-- the cloud answers, and reports its state every three seconds.
pub mod Timers
pub mod Silence
pub mod Answered
pub mod Messages
use csae.Prelude.{ℕ, ◌+◌, ◌*◌, Bool, true, false, List, [], ◌∷◌, ◌++◌, leb, if◌then◌else◌}
use csae.Message.Print.{utf8}
use csae.Message.Header.{MessageHeader, ctrl_priority_7}
use csae.Message.Inh.{Veh2CloudInh, new_inh}
use csae.Message.InhRes.{Cloud2VehInhRes}
use csae.Message.State.{Position, Position2D, Veh2CloudState, new_state}
use csae.Packer.{AnyMessage, inh, state}
use csae.Util.Timer
use csae.Util.Timer.{Timer, Kernel, Answers}
use csae.Util.Socket.{ConnectState, closed, connected, lost}
use csae.Controller.Receive.{Callback}

abbrev pub comm_type_4g : ℕ
comm_type_4g = 0

abbrev pub time_sync_gnss : ℕ
time_sync_gnss = 2

abbrev pub gnss_type_gcj02 : ℕ
gnss_type_gcj02 = 0

-- The members, the kernel's side of the two timers, and the messages that were given to
-- `controller_.send(msg, UP_CHANNEL)`.
pub record ControllerCallback : Type 0 where
  pub state_timer : Timer
  pub inh_timer : Timer
  pub inh_count : ℕ
  pub kernel : Kernel
  pub sent : List AnyMessage

-- The two handlers of the timers, as numbers.
abbrev pub inh_handler : ℕ
inh_handler = 1

abbrev pub state_handler : ℕ
state_handler = 2

-- What the constructor makes.
unfoldable pub new_callback : Timer → Timer → Kernel → ControllerCallback
new_callback state_timer inh_timer kernel = record {
  state_timer = record state_timer { stopped = true };
  inh_timer = record inh_timer { stopped = true };
  inh_count = 0;
  kernel = kernel;
  sent = [];
}

unfoldable pub start_inh : Answers → ControllerCallback → ControllerCallback
start_inh a c =
    let r = Timer.start 1000 inh_handler true a c.inh_timer c.kernel in
    record c { inh_timer = r.0; kernel = r.1 }

unfoldable pub start_state : Answers → ControllerCallback → ControllerCallback
start_state a c =
    let r = Timer.start 3000 state_handler true a c.state_timer c.kernel in
    record c { state_timer = r.0; kernel = r.1 }

unfoldable pub stop_inh : Answers → ControllerCallback → ControllerCallback
stop_inh a c =
    let r = Timer.stop a c.inh_timer c.kernel in record c { inh_timer = r.0; kernel = r.1 }

unfoldable pub stop_state : Answers → ControllerCallback → ControllerCallback
stop_state a c =
    let r = Timer.stop a c.state_timer c.kernel in record c { state_timer = r.0; kernel = r.1 }

unfoldable pub reset_count : ControllerCallback → ControllerCallback
reset_count c = record c { inh_count = 0 }

unfoldable pub send : AnyMessage → ControllerCallback → ControllerCallback
send m c = record c { sent = c.sent ++ (m ∷ []) }

-- ~ControllerCallback.
unfoldable pub destroy : Answers → Answers → ControllerCallback → ControllerCallback
unfolding stop_state stop_inh
destroy a b c = stop_inh b (stop_state a c)

unfoldable pub on_up_connect_state :
    ConnectState → Answers → Answers → ControllerCallback → ControllerCallback
unfolding start_inh start_state stop_state stop_inh reset_count
on_up_connect_state connected a b c = start_state b (start_inh a c)
on_up_connect_state closed a b c = reset_count (stop_inh b (stop_state a c))
on_up_connect_state lost a b c = reset_count (stop_inh b (stop_state a c))

-- It logs only.
unfoldable pub on_down_connect_state : ConnectState → ControllerCallback → ControllerCallback
on_down_connect_state _ c = c

-- `on_message` for a CLOUD2VEH_INH_RES, whatever its result says.
unfoldable pub on_inh_res : Answers → Cloud2VehInhRes → ControllerCallback → ControllerCallback
unfolding stop_inh reset_count
on_inh_res a m c = reset_count (stop_inh a c)

-- The announcement at a time.
unfoldable pub announcement : ℕ → Veh2CloudInh
unfolding new_inh
announcement timestamp =
    new_inh 0x01 timestamp ctrl_priority_7 (utf8 "Q1001") (utf8 "sw_v1.0") (utf8 "hw_v1.0")
      (utf8 "ad_v1.0") comm_type_4g 15 time_sync_gnss gnss_type_gcj02 (utf8 "VEH2CLOUD_INH")

-- The report at a time.
unfoldable pub report : ℕ → Veh2CloudState
unfolding new_state
report timestamp =
    new_state 0x01 timestamp ctrl_priority_7 (utf8 "Q1001") (1 ∷ []) timestamp 4000
      (record { longitude = 90; latitude = 90; elevation = 700 }) 100000 31 200000 4100 500 400 300
      200 500 3000 50000 1 500 20000 1000 1 (record { longitude = 80; latitude = 80 }) []

-- The handler of `inh_timer_`. The third announcement without an answer is the last one.
unfoldable pub on_inh_timer : ℕ → Answers → Answers → ControllerCallback → ControllerCallback
unfolding stop_inh reset_count stop_state send announcement
on_inh_timer timestamp a b c =
    if leb 3 c.inh_count
    then stop_state b (reset_count (stop_inh a c))
    else let c' = send (inh (announcement timestamp)) c in
      record c' { inh_count = c'.inh_count + 1 }

-- The handler of `state_timer_`.
unfoldable pub on_state_timer : ℕ → ControllerCallback → ControllerCallback
unfolding send report
on_state_timer timestamp c = send (state (report timestamp)) c

-- The object as the controller's callback; the methods that it does not override do nothing.
unfoldable pub callback : Answers → Answers → Callback ControllerCallback
unfolding on_up_connect_state on_down_connect_state on_inh_res
callback a b = record {
  on_up_connect_state = λ s c. on_up_connect_state s a b c;
  on_down_connect_state = on_down_connect_state;
  on_header = λ m c. c;
  on_inh = λ m c. c;
  on_inh_res = λ m c. on_inh_res a m c;
  on_state = λ m c. c;
}
