-- ===== src/Controller/Lifecycle.antt =====
-- src/controller.cc: starting, stopping and reconnecting the two channels. A `fault` is also the end
-- of the program by std::terminate, when a std::thread that can still be joined is assigned to, or
-- one that cannot be joined is joined, and a join that waits for ever.
pub mod Threads
pub mod Restart
pub mod End
use csae.Prelude.{
  ℕ, ◌+◌, ◌-◌, Bool, true, false, not, ◌&&◌, ◌||◌, Option, none, some, List, [], ◌∷◌, ◌++◌, map,
  ◌==◌, if◌then◌else◌, Run, ok, fault, bind,
}
use csae.Util.Socket.{
  ConnectState, closed, connected, lost, Client, Answers, Call, set_connect_state_callback,
  open_client, close, listen,
}
use csae.Util.Timer
use csae.Util.Timer.{Timer, Kernel}
use csae.Controller.Receive.{Callback, call}

-- What is done to a channel, in order.
pub data Deed : Type 0 where
  kernel : Call → Deed
  set_stopped : Bool → Deed
  made_recv : Deed
  made_send : Deed
  joined_recv : Deed
  notified : Deed  -- the queue's `notify`
  joined_send : Deed

-- The members of one channel, and what was done to it. A thread is whether it can be joined.
pub record Link : Type 0 where
  pub stopped : Bool
  pub addr : List ℕ
  pub port : ℕ
  pub client : Client
  pub recv_thread : Bool
  pub send_thread : Bool
  pub deeds : List Deed

-- `retries_up` and `retries_down` count the detached threads that sleep before they start a channel
-- again. `outside` is what the callback's methods change, `timers` the kernel's side of
-- `heartbeat`.
pub record Controller (S : Type 0) : Type 0 where
  pub callback : Option (Callback S)
  pub up : Link
  pub down : Link
  pub heartbeat : Timer
  pub timers : Kernel
  pub retries_up : ℕ
  pub retries_down : ℕ
  pub outside : S

abbrev pub up_channel : ℕ
up_channel = 0

abbrev pub down_channel : ℕ
down_channel = 1

unfoldable pub set_callback : {S : Type 0} → Option (Callback S) → Controller S → Controller S
set_callback callback c = record c { callback = callback }

-- What a `stop` meets: what the kernel answers to the heartbeat, and whether the two threads of the
-- channel end, the receive thread after the flag is set, and the send thread after the `notify` too.
pub record Stopping : Type 0 where
  pub timer : Timer.Answers
  pub recv_ends : Bool
  pub send_ends : Bool

-- One branch of `start(_addr, _port, _ch)`. The result of `open` is not looked at.
unfoldable pub start_link : List ℕ → ℕ → Answers → Link → Run Link
unfolding set_connect_state_callback
start_link addr port a l =
    bind (open_client addr port true a (set_connect_state_callback true l.client)) (λ r.
      if l.recv_thread || l.send_thread
      then fault
      else ok (record {
        stopped = false;
        addr = addr;
        port = port;
        client = r.0;
        recv_thread = true;
        send_thread = true;
        deeds = l.deeds ++ (map kernel r.2 ++ (set_stopped false ∷ made_recv ∷ made_send ∷ []));
      }))

-- One branch of `stop(_ch)`.
unfoldable pub stop_link : Stopping → Link → Run Link
unfolding close
stop_link t l =
    if l.stopped
    then ok l
    else if l.recv_thread && t.recv_ends && l.send_thread && t.send_ends
    then ok (record l {
      stopped = true;
      client = (close l.client).0;
      recv_thread = false;
      send_thread = false;
      deeds =
          l.deeds
          ++ (set_stopped true
              ∷ joined_recv
              ∷ notified
              ∷ joined_send
              ∷ map kernel (close l.client).1);
    })
    else fault

unfoldable pub start_channel :
    {S : Type 0} → List ℕ → ℕ → ℕ → Answers → Controller S → Run (Controller S)
start_channel addr port ch a c =
    if ch == up_channel
    then bind (start_link addr port a c.up) (λ l. ok (record c { up = l }))
    else if ch == down_channel
    then bind (start_link addr port a c.down) (λ l. ok (record c { down = l }))
    else ok c

-- `start` of both channels.
unfoldable pub start :
    {S : Type 0} → List ℕ → ℕ → List ℕ → ℕ → Answers → Answers → Controller S → Run (Controller S)
unfolding start_channel
start up_addr up_port down_addr down_port a b c =
    bind (start_channel up_addr up_port up_channel a c)
      (λ c'. start_channel down_addr down_port down_channel b c')

-- `heartbeat_timer_.stop()`.
abbrev pub stop_heartbeat : {S : Type 0} → Timer.Answers → Controller S → Controller S
stop_heartbeat t c =
    let r = Timer.stop t c.heartbeat c.timers in record c { heartbeat = r.0; timers = r.1 }

unfoldable pub stop_channel : {S : Type 0} → ℕ → Stopping → Controller S → Run (Controller S)
stop_channel ch t c =
    if ch == up_channel
    then bind (stop_link t c.up) (λ l. ok (record c { up = l }))
    else if ch == down_channel
    then (if c.down.stopped
        then ok c
        else bind (stop_link t c.down) (λ l. ok (record (stop_heartbeat t.timer c) { down = l })))
    else ok c

-- `stop` of both channels.
unfoldable pub stop : {S : Type 0} → Stopping → Stopping → Controller S → Run (Controller S)
unfolding stop_channel
stop t u c = bind (stop_channel up_channel t c) (λ c'. stop_channel down_channel u c')

-- The call of the callback at the end of the two methods below.
abbrev pub tell_up : {S : Type 0} → ConnectState → Controller S → Controller S
tell_up state c = record c {
  outside = call c.callback (λ k. k.on_up_connect_state state) c.outside;
}

abbrev pub tell_down : {S : Type 0} → ConnectState → Controller S → Controller S
tell_down state c = record c {
  outside = call c.callback (λ k. k.on_down_connect_state state) c.outside;
}

unfoldable pub on_up_connect_state :
    {S : Type 0} → ConnectState → Stopping → Controller S → Run (Controller S)
unfolding stop_channel
on_up_connect_state connected t c = ok (tell_up connected c)
on_up_connect_state state t c =
    bind (stop_channel up_channel t c)
      (λ c'. ok (tell_up state (record c' { retries_up = c'.retries_up + 1 })))

-- The heartbeat goes off at once and every ten seconds; its handler is the number 0.
unfoldable pub on_down_connect_state :
    {S : Type 0} → ConnectState → Stopping → Controller S → Run (Controller S)
unfolding stop_channel
on_down_connect_state connected t c =
    let r = Timer.start 10000 0 true t.timer c.heartbeat c.timers in
    ok (tell_down connected (record c { heartbeat = r.0; timers = r.1 }))
on_down_connect_state state t c =
    bind (stop_channel down_channel t c)
      (λ c'. ok (tell_down state (record c' { retries_down = c'.retries_down + 1 })))

-- The detached thread after its five seconds.
unfoldable pub retry_up : {S : Type 0} → Answers → Controller S → Run (Controller S)
unfolding start_channel
retry_up a c =
    start_channel c.up.addr c.up.port up_channel a (record c { retries_up = c.retries_up - 1 })

unfoldable pub retry_down : {S : Type 0} → Answers → Controller S → Run (Controller S)
unfolding start_channel
retry_down a c =
    start_channel c.down.addr c.down.port down_channel a
      (record c { retries_down = c.retries_down - 1 })

-- The socket's timer: `listen`, and the callback that `start` has set.
unfoldable pub look_up : {S : Type 0} → ℕ → Stopping → Controller S → Run (Controller S)
unfolding on_up_connect_state
look_up tcp_state t c =
    let (client, called) = listen tcp_state c.up.client in
    let c' = record c { up = record c.up { client = client } } in
    elim called [ none ↦ ok c' | some state ↦ on_up_connect_state state t c' ]

unfoldable pub look_down : {S : Type 0} → ℕ → Stopping → Controller S → Run (Controller S)
unfolding on_down_connect_state
look_down tcp_state t c =
    let (client, called) = listen tcp_state c.down.client in
    let c' = record c { down = record c.down { client = client } } in
    elim called [ none ↦ ok c' | some state ↦ on_down_connect_state state t c' ]
