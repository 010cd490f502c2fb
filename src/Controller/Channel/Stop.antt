-- ===== src/Controller/Channel/Stop.antt =====
-- `Controller::stop` and the send thread: the wake-up that ends it.
use csae.Prelude.{
  ℕ, zero, suc, ◌≡◌, ◌≢◌, refl, ap, ◌∙◌, Bool, true, false, none, some, List, [], ◌∷◌, ◌++◌, All,
  replicate,
}
use mathlib.Core.Path.{subst}
use csae.Packer.{MessageBuffer}
use csae.Util.BlockQueue.{put, take, take_woken}
use csae.Controller.Channel.{
  Item, Phase, checking, taking, waiting, woken, holding, sending, returned, crashed, Channel,
  started, check, wake, take_first, take_front, Event, enqueue, set_stopped, notify, spurious,
  sender, send_step, step, run,
}
use csae.Controller.Channel.Drain.{run-append, rounds, enqueue_all, run-drains}

-- What `stop` does to the channel, and the send thread after it.
abbrev pub stop_events : List Event
stop_events = set_stopped ∷ notify ∷ sender ∷ []

-- A send thread that has sent everything and waits, as it does on an idle channel, reads the front
-- of an empty queue when `stop` sets the flag and notifies.
pub run-stop :
    (messages : List MessageBuffer)
    → run ((enqueue_all messages ++ rounds messages) ++ stop_events) started
      ≡ record { stopped = true; queue = []; phase = crashed; wire = messages }
unfolding run take_woken
run-stop messages =
    run-append (enqueue_all messages ++ rounds messages) stop_events started
    ∙ ap (run stop_events) (run-drains messages)

-- Left alone, a thread that waits goes on waiting.
run-waiting :
    (n : ℕ) (c : Channel)
    → (run (replicate n sender) (record c { phase = waiting })).phase ≡ waiting
unfolding run
run-waiting zero c = refl
run-waiting (suc n) c = run-waiting n c

-- If `stop` sets the flag and notifies between the test of the loop and `take` over an empty queue,
-- the send thread waits, however often it goes on after that.
pub run-lost_wake_up :
    (n : ℕ) (wire : List MessageBuffer)
    → (run
        (set_stopped ∷ notify ∷ replicate (suc n) sender)
        (record { stopped = false; queue = []; phase = taking; wire = wire })).phase
      ≡ waiting
unfolding run take
run-lost_wake_up n wire =
    run-waiting n (record { stopped = true; queue = []; phase = waiting; wire = wire })

-- No wake-up but those that come with an item.
abbrev pub IsOrdinary : Event → Type 0
IsOrdinary (enqueue p) = Unit {0}
IsOrdinary set_stopped = Unit {0}
IsOrdinary notify = ⊥
IsOrdinary spurious = ⊥
IsOrdinary sender = Unit {0}

-- A thread that was woken finds an item.
abbrev IsSound : Phase → List Item → Type 0
IsSound woken queue = (p : Item) × (rest : List Item) × (queue ≡ p ∷ rest)
IsSound crashed queue = ⊥
IsSound _ queue = Unit {0}

check-IsSound : (stopped : Bool) (queue : List Item) → IsSound (check stopped) queue
check-IsSound true queue = tt
check-IsSound false queue = tt

take-IsSound : (queue : List Item) → IsSound (take_first (take queue)) queue
unfolding take
take-IsSound [] = tt
take-IsSound (p ∷ queue) = tt

take_woken-IsSound :
    (queue : List Item) → IsSound woken queue → IsSound (take_front (take_woken queue)) queue
unfolding take_woken
take_woken-IsSound [] (p, rest, e) = cc
take_woken-IsSound (p ∷ queue) s = tt

send_step-IsSound :
    (phase : Phase) (c : Channel)
    → IsSound phase c.queue
    → IsSound (send_step phase c).phase (send_step phase c).queue
unfolding send_step
send_step-IsSound checking c s = check-IsSound c.stopped c.queue
send_step-IsSound taking c s = take-IsSound c.queue
send_step-IsSound waiting c s = tt
send_step-IsSound woken c s = take_woken-IsSound c.queue s
send_step-IsSound (holding none) c s = tt
send_step-IsSound (holding (some p)) c s = tt
send_step-IsSound (sending p) c s = tt
send_step-IsSound returned c s = tt
send_step-IsSound crashed c s = s

put-IsSound :
    (phase : Phase) (p : Item) (queue : List Item)
    → IsSound phase queue
    → IsSound (wake phase) (put p queue)
unfolding put
put-IsSound checking p queue s = tt
put-IsSound taking p queue s = tt
put-IsSound waiting p [] s = (p, [], refl)
put-IsSound waiting p (q ∷ queue) s = (q, queue ++ (p ∷ []), refl)
put-IsSound woken p queue (q, rest, e) = (q, rest ++ (p ∷ []), rw e)
put-IsSound (holding q) p queue s = tt
put-IsSound (sending q) p queue s = tt
put-IsSound returned p queue s = tt
put-IsSound crashed p queue s = s

step-IsSound :
    (e : Event) (c : Channel)
    → IsOrdinary e
    → IsSound c.phase c.queue
    → IsSound (step e c).phase (step e c).queue
unfolding step
step-IsSound (enqueue p) c o s = put-IsSound c.phase p c.queue s
step-IsSound set_stopped c o s = s
step-IsSound notify c o s = elim o [ ]
step-IsSound spurious c o s = elim o [ ]
step-IsSound sender c o s = send_step-IsSound c.phase c s

run-IsSound :
    (events : List Event) (c : Channel)
    → All IsOrdinary events
    → IsSound c.phase c.queue
    → IsSound (run events c).phase (run events c).queue
unfolding run
run-IsSound [] c o s = s
run-IsSound (e ∷ events) c o s = run-IsSound events (step e c) o.1 (step-IsSound e c o.0 s)

-- As long as no wake-up comes but those of `put`, the send thread never reads the front of an empty
-- queue, in any order of puts, steps of the thread and the setting of the flag.
pub run-ne-crashed :
    (events : List Event) → All IsOrdinary events → (run events started).phase ≢ crashed
run-ne-crashed events o e =
    subst (λ phase. IsSound phase (run events started).queue) e (run-IsSound events started o tt)
