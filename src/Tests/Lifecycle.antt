-- ===== src/Tests/Lifecycle.antt =====
-- Timers, clients and a controller's channels, on concrete states.
use csae.Prelude.{
  ℕ, ◌≡◌, refl, true, false, none, some, List, [], ◌∷◌, ◌++◌, arith, ok, fault, bind, if◌then◌else◌,
}
use csae.Util.Timer
use csae.Util.Timer.{Timer, Kernel, TimerSpec, IsPeriod, IsFirst, start-armed}
use csae.Util.Socket.{
  closed, connected, lost, Client, Answers, port_text, made_socket, made_timer, open_client,
}
use csae.Util.Socket.States.{listens, Alternates, last, listens-Alternates}
use csae.Util.Socket.Close.{IsReleased, close-open_client}
use csae.Controller.Lifecycle.{
  Link, Controller, Stopping, up_channel, down_channel, start_channel, stop, look_up, retry_up,
}
use csae.Controller.Lifecycle.Threads.{IsWhole, Ends, starts, perform, perform-Returns}
use csae.Controller.Lifecycle.Restart.{
  IsGranted, client_to, reconnecting, lost_link, Loses, retry_up-reconnects, retry_up-running,
}
use csae.Controller.Lifecycle.End.{ending, IsEnded, stop-IsEnded}

abbrev kernel : Kernel
kernel = record { live = 0; armed = none }

abbrev granted : Timer.Answers
granted = record { created = some 7; armed = true; deleted = true }

-- Threads that end when they are joined.
abbrev stopping : Stopping
stopping = record { timer = granted; recv_ends = true; send_ends = true }

stopping-Ends : Ends stopping
stopping-Ends = record { recv = refl; send = refl }

abbrev idle : Timer
idle = record { stopped = true; timer = 0; handler = 0 }

-- The heartbeat's ten seconds.
start-armed_example :
    (spec : TimerSpec) × (some (Timer.timer_spec 10000 true) ≡ some spec)
    × IsPeriod 10000 spec.interval_sec spec.interval_nsec
    × IsFirst true 10000 spec.value_sec spec.value_nsec
unfolding Timer.start
start-armed_example =
    start-armed 10000 1 true granted idle (record { stopped = false; timer = 7; handler = 1 })
      kernel (record { live = 1; armed = some (Timer.timer_spec 10000 true) }) (omega arith) refl

abbrev fresh : Client
fresh = record { endpoint = []; sockfd = none; state = closed; timer = 0; has_callback = true }

-- Established twice, in TCP_CLOSE_WAIT, unknown, and established.
listens-Alternates_example :
    Alternates closed (listens (1 ∷ 1 ∷ 8 ∷ 12 ∷ 1 ∷ []) fresh).1
    × ((listens (1 ∷ 1 ∷ 8 ∷ 12 ∷ 1 ∷ []) fresh).0.state
        ≡ last closed (listens (1 ∷ 1 ∷ 8 ∷ 12 ∷ 1 ∷ []) fresh).1)
listens-Alternates_example = listens-Alternates (1 ∷ 1 ∷ 8 ∷ 12 ∷ 1 ∷ []) fresh

listens_run : (listens (1 ∷ 1 ∷ 8 ∷ 12 ∷ 1 ∷ []) fresh).1 ≡ connected ∷ lost ∷ connected ∷ []
unfolding listens
listens_run = refl

abbrev answers : Answers
answers = record {
  socket = some 3;
  inet_pton = true;
  connect = true;
  timer_create = some 5;
  timer_settime = true;
}

-- "::1"
abbrev addr : List ℕ
addr = 58 ∷ 58 ∷ 49 ∷ []

-- At port 80.
abbrev opened : Client
opened = record {
  endpoint = addr ++ (58 ∷ 56 ∷ 48 ∷ []);
  sockfd = some 3;
  state = closed;
  timer = 5;
  has_callback = true;
}

close-open_client_example : IsReleased true opened (made_socket 3 ∷ made_timer 5 ∷ [])
unfolding open_client
close-open_client_example =
    close-open_client addr 80 true answers fresh opened (made_socket 3 ∷ made_timer 5 ∷ []) refl
      refl

abbrev new_link : Link
new_link = record {
  stopped = true;
  addr = [];
  port = 0;
  client = fresh;
  recv_thread = false;
  send_thread = false;
  deeds = [];
}

abbrev up_link : Link
up_link = record {
  stopped = false;
  addr = addr;
  port = 80;
  client = record opened { state = connected };
  recv_thread = true;
  send_thread = true;
  deeds = [];
}

new_link-IsWhole : IsWhole new_link
unfolding port_text
new_link-IsWhole = record { recv_is = refl; send_is = refl; short = refl }

up_link-IsWhole : IsWhole up_link
unfolding port_text
up_link-IsWhole = record { recv_is = refl; send_is = refl; short = refl }

abbrev controller : Controller ℕ
controller = record {
  callback = none;
  up = up_link;
  down = new_link;
  heartbeat = idle;
  timers = kernel;
  retries_up = 0;
  retries_down = 0;
  outside = 0;
}

perform-Returns_example :
    (c' : Controller ℕ) × (perform (starts addr 81 down_channel answers) controller ≡ ok c')
    × IsWhole c'.up
    × IsWhole c'.down
unfolding port_text
perform-Returns_example =
    perform-Returns (starts addr 81 down_channel answers) controller up_link-IsWhole
      new_link-IsWhole (refl, λ e. absurd (omega arith), λ e. refl)

stop-IsEnded_example :
    (c' : Controller ℕ) × (stop stopping stopping controller ≡ ok c')
    × IsEnded up_link c'.up
    × IsEnded new_link c'.down
    × (c'.heartbeat ≡ (if true then idle else (Timer.stop granted idle kernel).0))
    × (stop stopping stopping c' ≡ ok c')
stop-IsEnded_example =
    stop-IsEnded stopping stopping controller stopping-Ends stopping-Ends up_link-IsWhole
      new_link-IsWhole

-- TCP_CLOSE_WAIT
controller-Loses : Loses 8 controller
controller-Loses = record {
  whole = up_link-IsWhole;
  runs = refl;
  is_connected = refl;
  has_callback = refl;
  known = omega arith;
  not_established = λ e. absurd (omega arith);
}

answers-IsGranted : IsGranted 3 5 answers
answers-IsGranted = record {
  socket_is = refl;
  address = refl;
  connects = refl;
  timer_is = refl;
  arms = refl;
}

retry_up-reconnects_example :
    (c' : Controller ℕ) × (bind (look_up 8 stopping controller) (retry_up answers) ≡ ok c')
    × IsWhole c'.up
    × (c'.up.stopped ≡ false)
    × (c'.up.addr ≡ addr)
    × (c'.up.port ≡ 80)
    × (c'.up.client ≡ client_to addr 80 3 5)
    × (c'.up.deeds ≡ ([] ++ ending (lost_link up_link).client) ++ reconnecting 3 5)
    × (c'.retries_up ≡ 0)
retry_up-reconnects_example =
    retry_up-reconnects 8 stopping answers 3 5 controller stopping-Ends answers-IsGranted
      controller-Loses

retry_up-running_example :
    (c' : Controller ℕ) × (bind
        (look_up 8 stopping controller)
        (start_channel addr 82 up_channel answers)
      ≡ ok c')
    × (c'.retries_up ≡ 1)
    × (retry_up answers c' ≡ fault)
unfolding port_text
retry_up-running_example =
    retry_up-running 8 stopping addr 82 answers answers controller stopping-Ends controller-Loses
      refl
