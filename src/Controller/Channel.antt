-- ===== src/Controller/Channel.antt =====
-- src/controller.cc: one channel's queue, its send thread and the threads that put and stop. The up
-- and the down channel have the same code. A run is a list of events, in the order in which the
-- threads take the mutex of the queue or touch the flag.
pub mod Fifo
pub mod Drain
pub mod Stop
pub mod Stuck
use csae.Prelude.{Bool, true, false, Option, none, some, List, [], ◌∷◌, ◌++◌, Run, ok, fault}
use csae.Packer.{MessageBuffer}
use csae.Util.BlockQueue.{put, Taken, ready, waits, take, take_woken, pull}

-- std::shared_ptr<MessageBuffer>, null or not.
abbrev pub Item : Type 0
Item = Option MessageBuffer

-- Where the send thread stands in `up_socket_send_thread` (`down_socket_send_thread`).
pub data Phase : Type 0 where
  checking : Phase  -- before `while (!up_stopped_)`
  taking : Phase  -- behind it, before `take`
  waiting : Phase  -- in `take`, for the condition
  woken : Phase  -- in `take`, behind the wait
  holding : Item → Phase  -- `take` has returned
  sending : MessageBuffer → Phase  -- behind `send`, before `pull`
  returned : Phase
  crashed : Phase  -- after undefined behaviour

-- `wire` is what the socket's `send` has been given.
pub record Channel : Type 0 where
  pub stopped : Bool
  pub queue : List Item
  pub phase : Phase
  pub wire : List MessageBuffer

-- When `start` has made the thread.
abbrev pub started : Channel
started = record { stopped = false; queue = []; phase = checking; wire = [] }

-- cond_.notify_all()
abbrev pub wake : Phase → Phase
wake waiting = woken
wake other = other

-- What the front of the queue means to the waking thread.
abbrev pub take_front : Run Item → Phase
take_front (ok p) = holding p
take_front fault = crashed

abbrev pub take_first : Taken Item → Phase
take_first (ready p) = holding p
take_first waits = waiting

-- The test of the loop.
abbrev pub check : Bool → Phase
check true = returned
check false = taking

-- The next step of the send thread. A null pointer is skipped without `pull`.
unfoldable pub send_step : Phase → Channel → Channel
unfolding take take_woken pull
send_step checking c = record c { phase = check c.stopped }
send_step taking c = record c { phase = take_first (take c.queue) }
send_step waiting c = record c { phase = waiting }
send_step woken c = record c { phase = take_front (take_woken c.queue) }
send_step (holding none) c = record c { phase = checking }
send_step (holding (some p)) c = record c { phase = sending p; wire = c.wire ++ (p ∷ []) }
send_step (sending p) c = record c { phase = checking; queue = pull c.queue }
send_step returned c = record c { phase = returned }
send_step crashed c = record c { phase = crashed }

pub data Event : Type 0 where
  enqueue : Item → Event  -- `Controller::send`: put, and the wake-up in it
  set_stopped : Event  -- `up_stopped_ = true` in `stop`
  notify : Event  -- `up_send_queue_.notify()` in `stop`
  spurious : Event  -- a wake-up that nobody asked for
  sender : Event  -- the send thread goes on

unfoldable pub step : Event → Channel → Channel
unfolding send_step put
step (enqueue p) c = record c { queue = put p c.queue; phase = wake c.phase }
step set_stopped c = record c { stopped = true }
step notify c = record c { phase = wake c.phase }
step spurious c = record c { phase = wake c.phase }
step sender c = send_step c.phase c

unfoldable pub run : List Event → Channel → Channel
unfolding step
run [] c = c
run (e ∷ events) c = run events (step e c)

-- What the run puts in the queue, in order.
abbrev pub puts : List Event → List Item
puts [] = []
puts (enqueue p ∷ events) = p ∷ puts events
puts (e ∷ events) = puts events
