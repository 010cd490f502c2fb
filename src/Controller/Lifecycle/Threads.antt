-- ===== src/Controller/Lifecycle/Threads.antt =====
-- The threads of a channel exist exactly while it is not stopped.
use csae.Prelude.{
  ℕ, ◌≡◌, refl, ap, ◌∙◌, Bool, true, false, not, Option, none, some, List, [], ◌∷◌, ◌++◌, map,
  arith, length, ltb, ◌==◌, if◌then◌else◌, Bool-cases, inl, inr, Run, ok, fault, bind,
}
use csae.Util.Socket.{
  ConnectState, closed, connected, lost, Client, Answers, Call, port_text,
  set_connect_state_callback, open_client, close, listen,
}
use csae.Controller.Lifecycle.{
  Link, Controller, up_channel, down_channel, Stopping, kernel, set_stopped, made_recv, made_send,
  joined_recv, notified, joined_send, start_link, stop_link, start_channel, stop_heartbeat,
  stop_channel, on_up_connect_state, on_down_connect_state, retry_up, retry_down, look_up,
  look_down,
}

-- "%s:%d" in `endpoint_`.
abbrev pub IsShort : List ℕ → ℕ → Type 0
IsShort addr port = ltb (length (addr ++ (58 ∷ port_text port))) 64 ≡ true

pub record IsWhole (l : Link) : Type 0 where
  pub recv_is : l.recv_thread ≡ not l.stopped
  pub send_is : l.send_thread ≡ not l.stopped
  pub short : IsShort l.addr l.port

-- What the threads around a controller call.
pub data Act : Type 0 where
  starts : List ℕ → ℕ → ℕ → Answers → Act
  stops : ℕ → Stopping → Act
  retries_up : Answers → Act
  retries_down : Answers → Act
  looks_up : ℕ → Stopping → Act
  looks_down : ℕ → Stopping → Act

unfoldable pub perform : {S : Type 0} → Act → Controller S → Run (Controller S)
unfolding start_channel stop_channel retry_up retry_down look_up look_down
perform (starts addr port ch a) c = start_channel addr port ch a c
perform (stops ch t) c = stop_channel ch t c
perform (retries_up a) c = retry_up a c
perform (retries_down a) c = retry_down a c
perform (looks_up tcp_state t) c = look_up tcp_state t c
perform (looks_down tcp_state t) c = look_down tcp_state t c

-- The threads of the channel end when they are joined.
pub record Ends (t : Stopping) : Type 0 where
  pub recv : t.recv_ends ≡ true
  pub send : t.send_ends ≡ true

-- The channel that the act starts is stopped, and its endpoint is short; the threads end that it may
-- join.
abbrev pub IsSafe : {S : Type 0} → Act → Controller S → Type 0
IsSafe (starts addr port ch a) c =
    IsShort addr port
    × (ch ≡ up_channel → c.up.stopped ≡ true)
    × (ch ≡ down_channel → c.down.stopped ≡ true)
IsSafe (retries_up a) c = c.up.stopped ≡ true
IsSafe (retries_down a) c = c.down.stopped ≡ true
IsSafe (stops ch t) c = Ends t
IsSafe (looks_up tcp_state t) c = Ends t
IsSafe (looks_down tcp_state t) c = Ends t

-- A step that returns, with both channels whole.
abbrev Goes : {S : Type 0} → Run (Controller S) → Type 0
Goes {S} r = (c : Controller S) × (r ≡ ok c) × IsWhole c.up × IsWhole c.down

if-ok : {A : Type 0} (b : Bool) (x : A) → b ≡ true → (if b then ok x else fault) ≡ ok x
if-ok b x e = rw e

open_client-short :
    (addr : List ℕ) (port : ℕ) (a : Answers) (c : Client)
    → IsShort addr port
    → (r : Client × Bool × List Call) × (open_client addr port true a c ≡ ok r)
unfolding open_client
open_client-short addr port a c short = (_, if-ok _ _ short)

pub start_link-short :
    (addr : List ℕ) (port : ℕ) (a : Answers) (l : Link)
    → IsShort addr port
    → l.recv_thread ≡ false
    → l.send_thread ≡ false
    → (l' : Link) × (start_link addr port a l ≡ ok l')
      × IsWhole l'
      × (l'.stopped ≡ false)
      × (l'.addr ≡ addr)
      × (l'.port ≡ port)
unfolding start_link
start_link-short addr port a l short r s =
    let (opened, e) =
      open_client-short addr port a (set_connect_state_callback true l.client) short in
    (
      record {
        stopped = false;
        addr = addr;
        port = port;
        client = opened.0;
        recv_thread = true;
        send_thread = true;
        deeds =
            l.deeds ++ (map kernel opened.2 ++ (set_stopped false ∷ made_recv ∷ made_send ∷ []));
      },
      rw (e, r, s),
      record { recv_is = refl; send_is = refl; short = short },
      refl,
      refl,
      refl,
    )

-- A channel behind `stop`.
abbrev pub ended : Link → Link
ended l = record l {
  stopped = true;
  client = (close l.client).0;
  recv_thread = false;
  send_thread = false;
  deeds =
      l.deeds
      ++ (set_stopped true ∷ joined_recv ∷ notified ∷ joined_send ∷ map kernel (close l.client).1);
}

ended-IsWhole : (l : Link) → IsWhole l → IsWhole (ended l)
ended-IsWhole l w = record { recv_is = refl; send_is = refl; short = w.short }

pub stop_link-ended :
    (t : Stopping) (l : Link)
    → Ends t
    → IsWhole l
    → l.stopped ≡ false
    → stop_link t l ≡ ok (ended l)
unfolding stop_link
stop_link-ended t l j w e = rw (e, w.recv_is ∙ ap not e, w.send_is ∙ ap not e, j.recv, j.send)

stop_link-IsWhole :
    (t : Stopping) (l : Link)
    → Ends t
    → IsWhole l
    → (l' : Link) × (stop_link t l ≡ ok l') × IsWhole l'
unfolding stop_link
stop_link-IsWhole t l j w = elim (Bool-cases l.stopped) [
  | inl e ↦ (l, rw e, w)
  | inr e ↦ (ended l, stop_link-ended t l j w e, ended-IsWhole l w)
]

module _ {S : Type 0} where
  stop_channel-Goes :
      (ch : ℕ) (t : Stopping) (c : Controller S)
      → Ends t
      → IsWhole c.up
      → IsWhole c.down
      → Goes (stop_channel ch t c)
  unfolding stop_channel
  stop_channel-Goes ch t c j u d = elim (Bool-cases (ch == up_channel)) [
    | inl e ↦ let (l, g, w) = stop_link-IsWhole t c.up j u in (record c { up = l }, rw (e, g), w, d)
    | inr e ↦ elim (Bool-cases (ch == down_channel)) [
      | inl f ↦ elim (Bool-cases c.down.stopped) [
        | inl s ↦ (c, rw (e, f, s), u, d)
        | inr s ↦
            let (l, g, w) = stop_link-IsWhole t c.down j d in
            (record (stop_heartbeat t.timer c) { down = l }, rw (e, f, g, s), u, w)
      ]
      | inr f ↦ (c, rw (e, f), u, d)
    ]
  ]

  start_channel-Goes :
      (addr : List ℕ) (port ch : ℕ) (a : Answers) (c : Controller S)
      → IsWhole c.up
      → IsWhole c.down
      → IsSafe (starts addr port ch a) c
      → Goes (start_channel addr port ch a c)
  unfolding start_channel
  start_channel-Goes addr port ch a c u d (short, up_is, down_is) =
      elim (Bool-cases (ch == up_channel)) [
        | inl e ↦
            let s = ap not (up_is (ground arith)) in
            let (l, g, w, e', a', p') =
              start_link-short addr port a c.up short (u.recv_is ∙ s) (u.send_is ∙ s) in
            (record c { up = l }, rw (e, g), w, d)
        | inr e ↦ elim (Bool-cases (ch == down_channel)) [
          | inl f ↦
              let s = ap not (down_is (ground arith)) in
              let (l, g, w, e', a', p') =
                start_link-short addr port a c.down short (d.recv_is ∙ s) (d.send_is ∙ s) in
              (record c { down = l }, rw (e, f, g), u, w)
          | inr f ↦ (c, rw (e, f), u, d)
        ]
      ]

  then-Goes :
      (f : Controller S → Controller S) (r : Run (Controller S))
      → ((c : Controller S) → IsWhole c.up → IsWhole (f c).up)
      → ((c : Controller S) → IsWhole c.down → IsWhole (f c).down)
      → Goes r
      → Goes (bind r (λ c. ok (f c)))
  then-Goes f r hu hd (c, e, u, d) = (f c, ap (λ r. bind r (λ c. ok (f c))) e, hu c u, hd c d)

  on_up-Goes :
      (state : ConnectState) (t : Stopping) (c : Controller S)
      → Ends t
      → IsWhole c.up
      → IsWhole c.down
      → Goes (on_up_connect_state state t c)
  unfolding on_up_connect_state
  on_up-Goes connected t c j u d = (_, refl, u, d)
  on_up-Goes closed t c j u d =
      then-Goes _ _ (λ c' w. w) (λ c' w. w) (stop_channel-Goes up_channel t c j u d)
  on_up-Goes lost t c j u d =
      then-Goes _ _ (λ c' w. w) (λ c' w. w) (stop_channel-Goes up_channel t c j u d)

  on_down-Goes :
      (state : ConnectState) (t : Stopping) (c : Controller S)
      → Ends t
      → IsWhole c.up
      → IsWhole c.down
      → Goes (on_down_connect_state state t c)
  unfolding on_down_connect_state
  on_down-Goes connected t c j u d = (_, refl, u, d)
  on_down-Goes closed t c j u d =
      then-Goes _ _ (λ c' w. w) (λ c' w. w) (stop_channel-Goes down_channel t c j u d)
  on_down-Goes lost t c j u d =
      then-Goes _ _ (λ c' w. w) (λ c' w. w) (stop_channel-Goes down_channel t c j u d)

  look-Goes :
      (c : Controller S) (state : Option ConnectState) (f : ConnectState → Run (Controller S))
      → IsWhole c.up
      → IsWhole c.down
      → ((s : ConnectState) → Goes (f s))
      → Goes (elim state [ none ↦ ok c | some s ↦ f s ])
  look-Goes c none f u d h = (c, refl, u, d)
  look-Goes c (some s) f u d h = h s

  -- Over a controller both of whose channels have their two threads exactly while they are not
  -- stopped, and endpoints that fit their array, every start, stop, retry and look of a timer
  -- returns a controller of which that holds again, if a channel that is started (or retried) is
  -- stopped, a new endpoint fits its array, with the sign that a port from 2^31 on has there, and
  -- the threads of a channel that is stopped end.
  pub perform-Returns :
      (act : Act) (c : Controller S)
      → IsWhole c.up
      → IsWhole c.down
      → IsSafe act c
      → (c' : Controller S) × (perform act c ≡ ok c') × IsWhole c'.up × IsWhole c'.down
  unfolding perform retry_up retry_down look_up look_down
  perform-Returns (starts addr port ch a) c u d s = start_channel-Goes addr port ch a c u d s
  perform-Returns (stops ch t) c u d s = stop_channel-Goes ch t c s u d
  perform-Returns (retries_up a) c u d s =
      start_channel-Goes c.up.addr c.up.port up_channel a _ u d
        (u.short, λ e. s, λ e. absurd (omega arith))
  perform-Returns (retries_down a) c u d s =
      start_channel-Goes c.down.addr c.down.port down_channel a _ u d
        (d.short, λ e. absurd (omega arith), λ e. s)
  perform-Returns (looks_up tcp_state t) c u d s =
      look-Goes _ (listen tcp_state c.up.client).1 _
        (record { recv_is = u.recv_is; send_is = u.send_is; short = u.short }) d
        (λ state.
          on_up-Goes state t _ s
            (record { recv_is = u.recv_is; send_is = u.send_is; short = u.short }) d)
  perform-Returns (looks_down tcp_state t) c u d s =
      look-Goes _ (listen tcp_state c.down.client).1 _ u
        (record { recv_is = d.recv_is; send_is = d.send_is; short = d.short })
        (λ state.
          on_down-Goes state t _ s u
            (record { recv_is = d.recv_is; send_is = d.send_is; short = d.short }))
