-- ===== src/Controller/Lifecycle/Restart.antt =====
-- A lost connection, and `start` while a channel runs.
use csae.Prelude.{
  ℕ, ◌+◌, ◌-◌, ◌≤◌, ◌≡◌, ◌≢◌, refl, ap, ◌∙◌, true, false, not, none, some, List, [], ◌∷◌, ◌++◌,
  arith, le→leb, ◌==◌, Run, ok, fault, bind,
}
use csae.Util.Socket.{
  ConnectState, connected, lost, Client, Answers, observe, change_state, listen, open_client,
  open_socket, closed, port_text, made_socket, made_timer, close, set_connect_state_callback,
}
use csae.Controller.Lifecycle.{
  Link, Controller, up_channel, Stopping, Deed, kernel, set_stopped, made_recv, made_send,
  start_link, start_channel, stop_channel, tell_up, on_up_connect_state, retry_up, look_up,
}
use csae.Controller.Lifecycle.Threads.{
  IsShort, IsWhole, Ends, ended, start_link-short, stop_link-ended,
}
use csae.Controller.Lifecycle.End.{ending}

bind-fault : {A B : Type 0} (r : Run A) → bind {B = B} r (λ x. fault) ≡ fault
bind-fault (ok x) = refl
bind-fault fault = refl

start_link-running :
    (addr : List ℕ) (port : ℕ) (a : Answers) (l : Link)
    → l.recv_thread ≡ true
    → start_link addr port a l ≡ fault
unfolding start_link
start_link-running addr port a l r =
    rw r (bind-fault (open_client addr port true a (set_connect_state_callback true l.client)))

-- The kernel gives a socket, connects it, and gives a timer that it arms.
pub record IsGranted (fd id : ℕ) (a : Answers) : Type 0 where
  pub socket_is : a.socket ≡ some fd
  pub address : a.inet_pton ≡ true
  pub connects : a.connect ≡ true
  pub timer_is : a.timer_create ≡ some id
  pub arms : a.timer_settime ≡ true

-- A client of a new connection: the first look at it will tell that it is connected.
abbrev pub client_to : List ℕ → ℕ → ℕ → ℕ → Client
client_to addr port fd id = record {
  endpoint = addr ++ (58 ∷ port_text port);
  sockfd = some fd;
  state = closed;
  timer = id;
  has_callback = true;
}

-- What is done, in order, for a new connection.
abbrev pub reconnecting : ℕ → ℕ → List Deed
reconnecting fd id =
    kernel (made_socket fd)
    ∷ kernel (made_timer id)
    ∷ set_stopped false
    ∷ made_recv
    ∷ made_send
    ∷ []

open_client-granted :
    (addr : List ℕ) (port : ℕ) (a : Answers) (fd id : ℕ) (c : Client)
    → IsGranted fd id a
    → IsShort addr port
    → c.state ≡ closed
    → open_client addr port true a (set_connect_state_callback true c)
      ≡ ok (client_to addr port fd id, true, made_socket fd ∷ made_timer id ∷ [])
unfolding open_client open_socket set_connect_state_callback
open_client-granted addr port a fd id c g short s =
    rw (short, g.socket_is, g.address, g.connects, g.timer_is, g.arms, s)

-- The members of a connected up channel, on a kernel that says that the connection is gone.
pub record Loses {S : Type 0} (tcp_state : ℕ) (c : Controller S) : Type 0 where
  pub whole : IsWhole c.up
  pub runs : c.up.stopped ≡ false
  pub is_connected : c.up.client.state ≡ connected
  pub has_callback : c.up.client.has_callback ≡ true
  pub known : tcp_state ≤ 11
  pub not_established : tcp_state ≢ 1

abbrev pub lost_link : Link → Link
lost_link l = record l { client = record l.client { state = lost } }

observe-lost :
    (tcp_state : ℕ) (before : ConnectState)
    → tcp_state ≤ 11
    → tcp_state ≢ 1
    → observe tcp_state before ≡ some lost
unfolding observe
observe-lost tcp_state before k n =
    let other : (tcp_state == 1) ≡ false = grind arith in rw (le→leb tcp_state 11 k, other)

listen-lost :
    (tcp_state : ℕ) (c : Client)
    → c.state ≡ connected
    → c.has_callback ≡ true
    → tcp_state ≤ 11
    → tcp_state ≢ 1
    → listen tcp_state c ≡ (record c { state = lost }, some lost)
unfolding listen change_state
listen-lost tcp_state c s h k n =
    ap (λ o. elim o [ none ↦ (c, none) | some state ↦ change_state state c ])
      (observe-lost tcp_state c.state k n)
    ∙ rw (s, h)

-- Behind the look that finds the connection lost.
abbrev lost_controller : {S : Type 0} → Controller S → Controller S
lost_controller c =
    tell_up lost (record c { up = ended (lost_link c.up); retries_up = c.retries_up + 1 })

module _ {S : Type 0} where
  look_up-lost :
      (tcp_state : ℕ) (t : Stopping) (c : Controller S)
      → Ends t
      → Loses tcp_state c
      → look_up tcp_state t c ≡ ok (lost_controller c)
  unfolding look_up on_up_connect_state stop_channel
  look_up-lost tcp_state t c j l =
      let whole : IsWhole (lost_link c.up) = record {
        recv_is = l.whole.recv_is;
        send_is = l.whole.send_is;
        short = l.whole.short;
      } in
      let look =
        listen-lost tcp_state c.up.client l.is_connected l.has_callback l.known l.not_established in
      ap
        (λ r.
          let c' = record c { up = record c.up { client = r.0 } } in
          elim r.1 [ none ↦ ok c' | some state ↦ on_up_connect_state state t c' ])
        look
      ∙ rw (stop_link-ended t (lost_link c.up) j whole l.runs)

  start_channel-up :
      (addr : List ℕ) (port : ℕ) (a : Answers) (c : Controller S)
      → IsShort addr port
      → c.up.recv_thread ≡ false
      → c.up.send_thread ≡ false
      → (l : Link) × (start_channel addr port up_channel a c ≡ ok (record c { up = l }))
        × IsWhole l
        × (l.stopped ≡ false)
        × (l.addr ≡ addr)
        × (l.port ≡ port)
  unfolding start_channel
  start_channel-up addr port a c short r s =
      let (l, e, w, s', a', p') = start_link-short addr port a c.up short r s in
      (l, rw e, w, s', a', p')

  -- When the timer finds a connected, running up channel in a known TCP state other than
  -- ESTABLISHED, whose threads end, and nothing comes between that and the retry, and the kernel
  -- grants the new connection: the channel runs again, with both threads, to the same address and
  -- port, and with as many sleeping retries as before. Its client has the new socket and the new
  -- timer. What was done is that the old channel was ended, its timer deleted and its socket shut
  -- down and closed, and then the new socket and timer made, and the flag and the threads.
  pub retry_up-reconnects :
      (tcp_state : ℕ) (t : Stopping) (a : Answers) (fd id : ℕ) (c : Controller S)
      → Ends t
      → IsGranted fd id a
      → Loses tcp_state c
      → (c' : Controller S) × (bind (look_up tcp_state t c) (retry_up a) ≡ ok c')
        × IsWhole c'.up
        × (c'.up.stopped ≡ false)
        × (c'.up.addr ≡ c.up.addr)
        × (c'.up.port ≡ c.up.port)
        × (c'.up.client ≡ client_to c.up.addr c.up.port fd id)
        × (c'.up.deeds ≡ (c.up.deeds ++ ending (lost_link c.up).client) ++ reconnecting fd id)
        × (c'.retries_up ≡ c.retries_up)
  unfolding retry_up start_channel start_link close
  retry_up-reconnects tcp_state t a fd id c j g h =
      let c' = lost_controller c in
      let made =
        open_client-granted c.up.addr c.up.port a fd id c'.up.client g h.whole.short refl in
      let up = record c'.up {
        stopped = false;
        client = client_to c.up.addr c.up.port fd id;
        recv_thread = true;
        send_thread = true;
        deeds = c'.up.deeds ++ reconnecting fd id;
      } in
      (
        record c' { up = up; retries_up = c.retries_up + 1 - 1 },
        rw (look_up-lost tcp_state t c j h, made) refl,
        record { recv_is = refl; send_is = refl; short = h.whole.short },
        refl,
        refl,
        refl,
        refl,
        refl,
        omega arith,
      )

  -- When the timer finds a connected, running up channel in a known TCP state other than
  -- ESTABLISHED, whose threads end, and the program starts that channel with an endpoint that fits its array before
  -- the sleeping retry does, the start returns, and the retry assigns to a thread that can still
  -- be joined, which ends the program.
  pub retry_up-running :
      (tcp_state : ℕ) (t : Stopping) (addr : List ℕ) (port : ℕ) (a b : Answers) (c : Controller S)
      → Ends t
      → Loses tcp_state c
      → IsShort addr port
      → (c' : Controller S) × (bind (look_up tcp_state t c) (start_channel addr port up_channel a)
          ≡ ok c')
        × (c'.retries_up ≡ c.retries_up + 1)
        × (retry_up b c' ≡ fault)
  unfolding retry_up start_channel
  retry_up-running tcp_state t addr port a b c j h short =
      let (l, e, w, s, a', p') = start_channel-up addr port a (lost_controller c) short refl refl in
      (
        record (lost_controller c) { up = l },
        rw (look_up-lost tcp_state t c j h) e,
        refl,
        rw (start_link-running l.addr l.port b l (w.recv_is ∙ ap not s)),
      )
