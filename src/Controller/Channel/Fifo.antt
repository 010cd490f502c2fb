-- ===== src/Controller/Channel/Fifo.antt =====
-- First in, first out: what the socket is given, against what was put in the queue.
use csae.Prelude.{
  ◌≡◌, refl, ap, ◌∙◌, Bool, true, false, none, some, List, [], ◌∷◌, ◌++◌, append-nil, append_assoc,
  map,
}
use csae.Packer.{MessageBuffer}
use csae.Util.BlockQueue.{put, take, take_woken, pull}
use csae.Controller.Channel.{
  Item, Phase, checking, taking, waiting, woken, holding, sending, returned, crashed, Channel,
  started, check, wake, take_front, take_first, send_step, Event, enqueue, set_stopped, notify,
  spurious, sender, step, run, puts,
}

-- Against the items that have been pulled, the socket has been given one more between `send` and
-- `pull`, and it is then at the front, as is an item that the thread holds.
abbrev Given : Phase → List Item → List MessageBuffer → List MessageBuffer → Type 0
Given (holding p) queue pulled wire = ((rest : List Item) × (queue ≡ p ∷ rest)) × (wire ≡ pulled)
Given (sending p) queue pulled wire =
    ((rest : List Item) × (queue ≡ some p ∷ rest)) × (wire ≡ pulled ++ (p ∷ []))
Given _ queue pulled wire = wire ≡ pulled

record IsFifo (before : List Item) (phase : Phase) (queue : List Item) (wire : List MessageBuffer)
    : Type 0 where
  pulled : List MessageBuffer
  all_there : before ≡ map some pulled ++ queue
  given : Given phase queue pulled wire

abbrev IsFifoChannel : List Item → Channel → Type 0
IsFifoChannel before c = IsFifo before c.phase c.queue c.wire

shift :
    (pulled : List MessageBuffer) (p : MessageBuffer) (queue : List Item)
    → map some pulled ++ (some p ∷ queue) ≡ map some (pulled ++ (p ∷ [])) ++ queue
shift [] p queue = refl
shift (q ∷ pulled) p queue = ap (◌∷◌ (some q)) (shift pulled p queue)

module _ (before : List Item) where
  check-IsFifo :
      (stopped : Bool) {queue : List Item} {wire : List MessageBuffer}
      → IsFifo before checking queue wire
      → IsFifo before (check stopped) queue wire
  check-IsFifo true f = record { pulled = f.pulled; all_there = f.all_there; given = f.given }
  check-IsFifo false f = record { pulled = f.pulled; all_there = f.all_there; given = f.given }

  take-IsFifo :
      (queue : List Item) {wire : List MessageBuffer}
      → IsFifo before taking queue wire
      → IsFifo before (take_first (take queue)) queue wire
  unfolding take
  take-IsFifo [] f = record { pulled = f.pulled; all_there = f.all_there; given = f.given }
  take-IsFifo (p ∷ queue) f = record {
    pulled = f.pulled;
    all_there = f.all_there;
    given = ((queue, refl), f.given);
  }

  take_woken-IsFifo :
      (queue : List Item) {wire : List MessageBuffer}
      → IsFifo before woken queue wire
      → IsFifo before (take_front (take_woken queue)) queue wire
  unfolding take_woken
  take_woken-IsFifo [] f = record { pulled = f.pulled; all_there = f.all_there; given = f.given }
  take_woken-IsFifo (p ∷ queue) f = record {
    pulled = f.pulled;
    all_there = f.all_there;
    given = ((queue, refl), f.given);
  }

  pull-IsFifo :
      (p : MessageBuffer) (queue : List Item) {wire : List MessageBuffer}
      → IsFifo before (sending p) queue wire
      → IsFifo before checking (pull queue) wire
  unfolding pull
  pull-IsFifo p [] f = cc (f.given.0.1)
  pull-IsFifo p (q ∷ queue) {wire} f =
      let tail : queue ≡ f.given.0.0 = cc (f.given.0.1) in
      record {
        pulled = wire;
        all_there =
            f.all_there ∙ rw (f.given.0.1, shift f.pulled p (f.given.0.0), ← f.given.1, ← tail);
        given = refl;
      }

  send_step-IsFifo :
      (phase : Phase) (c : Channel)
      → IsFifo before phase c.queue c.wire
      → IsFifoChannel before (send_step phase c)
  unfolding send_step
  send_step-IsFifo checking c f = check-IsFifo c.stopped f
  send_step-IsFifo taking c f = take-IsFifo c.queue f
  send_step-IsFifo waiting c f = f
  send_step-IsFifo woken c f = take_woken-IsFifo c.queue f
  send_step-IsFifo (holding none) c f = record {
    pulled = f.pulled;
    all_there = f.all_there;
    given = f.given.1;
  }
  send_step-IsFifo (holding (some p)) c f = record {
    pulled = f.pulled;
    all_there = f.all_there;
    given = (f.given.0, rw f.given.1);
  }
  send_step-IsFifo (sending p) c f = pull-IsFifo p c.queue f
  send_step-IsFifo returned c f = f
  send_step-IsFifo crashed c f = f

  -- A wake-up moves nothing.
  wake-IsFifo :
      (phase : Phase) {queue : List Item} {wire : List MessageBuffer}
      → IsFifo before phase queue wire
      → IsFifo before (wake phase) queue wire
  wake-IsFifo checking f = f
  wake-IsFifo taking f = f
  wake-IsFifo waiting f = record { pulled = f.pulled; all_there = f.all_there; given = f.given }
  wake-IsFifo woken f = f
  wake-IsFifo (holding p) f = f
  wake-IsFifo (sending p) f = f
  wake-IsFifo returned f = f
  wake-IsFifo crashed f = f

  put-Given :
      (phase : Phase) (p : Item) (queue : List Item) (pulled wire : List MessageBuffer)
      → Given phase queue pulled wire
      → Given phase (put p queue) pulled wire
  unfolding put
  put-Given checking p queue pulled wire g = g
  put-Given taking p queue pulled wire g = g
  put-Given waiting p queue pulled wire g = g
  put-Given woken p queue pulled wire g = g
  put-Given (holding q) p queue pulled wire ((rest, e), w) = ((rest ++ (p ∷ []), rw e), w)
  put-Given (sending q) p queue pulled wire ((rest, e), w) = ((rest ++ (p ∷ []), rw e), w)
  put-Given returned p queue pulled wire g = g
  put-Given crashed p queue pulled wire g = g

put-IsFifo :
    (before : List Item) (phase : Phase) (p : Item) {queue : List Item} {wire : List MessageBuffer}
    → IsFifo before phase queue wire
    → IsFifo (before ++ (p ∷ [])) phase (put p queue) wire
unfolding put
put-IsFifo before phase p {queue} f = record {
  pulled = f.pulled;
  all_there = rw f.all_there (append_assoc (map some f.pulled) queue (p ∷ []));
  given = put-Given before phase p _ _ _ f.given;
}

-- Each event keeps the order, and adds what it puts.
step-IsFifo :
    (before : List Item) (e : Event) (c : Channel)
    → IsFifoChannel before c
    → IsFifoChannel (before ++ puts (e ∷ [])) (step e c)
unfolding step
step-IsFifo before (enqueue p) c f =
    wake-IsFifo (before ++ (p ∷ [])) c.phase (put-IsFifo before c.phase p f)
step-IsFifo before set_stopped c f = rw append-nil f
step-IsFifo before notify c f = rw append-nil (wake-IsFifo before c.phase f)
step-IsFifo before spurious c f = rw append-nil (wake-IsFifo before c.phase f)
step-IsFifo before sender c f = rw append-nil (send_step-IsFifo before c.phase c f)

puts-cons : (e : Event) (events : List Event) → puts (e ∷ events) ≡ puts (e ∷ []) ++ puts events
puts-cons (enqueue p) events = refl
puts-cons set_stopped events = refl
puts-cons notify events = refl
puts-cons spurious events = refl
puts-cons sender events = refl

run-IsFifo :
    (before : List Item) (events : List Event) (c : Channel)
    → IsFifoChannel before c
    → IsFifoChannel (before ++ puts events) (run events c)
unfolding run
run-IsFifo before [] c f = rw append-nil f
run-IsFifo before (e ∷ events) c f =
    rw (puts-cons e events, ← append_assoc before (puts (e ∷ [])) (puts events))
      (run-IsFifo (before ++ puts (e ∷ [])) events (step e c) (step-IsFifo before e c f))

-- What the socket has been given is the start of what was put.
IsFifo-prefix :
    (before : List Item) (phase : Phase) (queue : List Item) (wire : List MessageBuffer)
    → IsFifo before phase queue wire
    → (rest : List Item) × (before ≡ map some wire ++ rest)
IsFifo-prefix before checking queue wire f = (queue, rw f.given f.all_there)
IsFifo-prefix before taking queue wire f = (queue, rw f.given f.all_there)
IsFifo-prefix before waiting queue wire f = (queue, rw f.given f.all_there)
IsFifo-prefix before woken queue wire f = (queue, rw f.given f.all_there)
IsFifo-prefix before (holding p) queue wire f = (queue, rw f.given.1 f.all_there)
IsFifo-prefix before (sending p) queue wire f =
    (f.given.0.0, f.all_there ∙ rw (f.given.0.1, shift f.pulled p (f.given.0.0), ← f.given.1))
IsFifo-prefix before returned queue wire f = (queue, rw f.given f.all_there)
IsFifo-prefix before crashed queue wire f = (queue, rw f.given f.all_there)

-- Whatever the threads of a channel do after its start, in any order and with any wake-ups, the
-- buffers that were sent are the first ones that were put in the queue, in that order and each
-- once.
pub run-wire :
    (events : List Event)
    → (rest : List Item) × (puts events ≡ map some (run events started).wire ++ rest)
run-wire events =
    IsFifo-prefix (puts events) _ _ _
      (run-IsFifo [] events started (record { pulled = []; all_there = refl; given = refl }))
