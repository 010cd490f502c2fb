-- ===== src/Example/Silence.antt =====
-- When the callback falls silent.
use csae.Prelude.{
  ℕ, suc, ◌+◌, ◌-◌, ◌≤◌, ◌≡◌, refl, ◌∙◌, ap, Bool, true, false, List, [], ◌∷◌, ◌++◌, map, arith,
  leb, ltb, Bool-cases, inl, inr,
}
use Prim.Native.Nat.{min}
use csae.Packer.{AnyMessage, header, inh, inh_res, state, state2}
use csae.Util.Timer
use csae.Util.Timer.{Answers}
use csae.Example.{
  ControllerCallback, start_inh, start_state, stop_inh, stop_state, reset_count, send, announcement,
  report,
}
use csae.Example.Timers.{Event, connect, inh_due, state_due, step, run, IsGranted}

-- What happens while the connection stays and no answer comes: the timers go off.
pub data Tick : Type 0 where
  inh_tick : ℕ → Answers → Answers → Tick
  state_tick : ℕ → Tick

abbrev pub event : Tick → Event
event (inh_tick t a b) = inh_due t a b
event (state_tick t) = state_due t

-- How often the timer of the announcements goes off.
abbrev pub inh_ticks : List Tick → ℕ
inh_ticks [] = 0
inh_ticks (inh_tick t a b ∷ ticks) = suc (inh_ticks ticks)
inh_ticks (state_tick t ∷ ticks) = inh_ticks ticks

-- The announcements among some messages.
unfoldable pub announcements : List AnyMessage → ℕ
announcements [] = 0
announcements (inh m ∷ ms) = suc (announcements ms)
announcements (header m ∷ ms) = announcements ms
announcements (inh_res m ∷ ms) = announcements ms
announcements (state m ∷ ms) = announcements ms
announcements (state2 m ∷ ms) = announcements ms

announcements-append :
    (ms ns : List AnyMessage) → announcements (ms ++ ns) ≡ announcements ms + announcements ns
unfolding announcements
announcements-append [] ns = omega arith
announcements-append (inh m ∷ ms) ns = omega (arith, announcements-append ms ns)
announcements-append (header m ∷ ms) ns = announcements-append ms ns
announcements-append (inh_res m ∷ ms) ns = announcements-append ms ns
announcements-append (state m ∷ ms) ns = announcements-append ms ns
announcements-append (state2 m ∷ ms) ns = announcements-append ms ns

-- Both timers run, or neither.
record Both (stopped : Bool) (c : ControllerCallback) : Type 0 where
  inh_stopped : c.inh_timer.stopped ≡ stopped
  state_stopped : c.state_timer.stopped ≡ stopped

-- One more announcement.
announces :
    (t : ℕ) (a b : Answers) (c : ControllerCallback)
    → Both false c
    → leb 3 c.inh_count ≡ false
    → let d = step (inh_due t a b) c in
      Both false d
      × (d.inh_count ≡ suc c.inh_count)
      × (announcements d.sent ≡ suc (announcements c.sent))
unfolding step send announcements
announces t a b c both more =
    ground (arith, announcements-append c.sent (inh (announcement t) ∷ []))

-- The timers are stopped.
gives_up :
    (t : ℕ) (a b : Answers) (c : ControllerCallback)
    → Both false c
    → leb 3 c.inh_count ≡ true
    → let d = step (inh_due t a b) c in Both true d × (d.sent ≡ c.sent)
unfolding step stop_inh stop_state reset_count Timer.stop
gives_up t a b c both enough = ground arith

reports :
    (t : ℕ) (c : ControllerCallback)
    → Both false c
    → let d = step (state_due t) c in
      Both false d × (d.inh_count ≡ c.inh_count) × (announcements d.sent ≡ announcements c.sent)
unfolding step send announcements
reports t c both = ground (arith, announcements-append c.sent (state (report t) ∷ []))

rests : (tick : Tick) (c : ControllerCallback) → Both true c → step (event tick) c ≡ c
unfolding step
rests (inh_tick t a b) c both = ground arith
rests (state_tick t) c both = ground arith

-- Nothing happens any more.
silent : (ticks : List Tick) (c : ControllerCallback) → Both true c → run (map event ticks) c ≡ c
unfolding run
silent [] c both = refl
silent (tick ∷ ticks) c both = ap (run (map event ticks)) (rests tick c both) ∙ silent ticks c both

-- After `n` calls of the announcing timer, from `c` to `d`.
record Outcome (c d : ControllerCallback) (n : ℕ) : Type 0 where
  announced : announcements d.sent ≡ announcements c.sent + min (3 - c.inh_count) n
  over : Both (ltb (3 - c.inh_count) n) d

run-Outcome :
    (ticks : List Tick) (c : ControllerCallback)
    → Both false c
    → c.inh_count ≤ 3
    → Outcome c (run (map event ticks) c) (inh_ticks ticks)
unfolding run
run-Outcome [] c both few = record { announced = omega arith; over = ground arith }
run-Outcome (inh_tick t a b ∷ ticks) c both few = elim (Bool-cases (leb 3 c.inh_count)) [
  | inl enough ↦
      let (stopped, sent) = gives_up t a b c both enough in
      rw (silent ticks (step (inh_due t a b) c) stopped)
        (record { announced = ground (arith, sent); over = ground (arith, stopped) })
  | inr more ↦
      let (both', count, sent) = announces t a b c both more in
      let rest = run-Outcome ticks (step (inh_due t a b) c) both' (ground (arith, count)) in
      record { announced = ground (arith, rest.announced); over = ground (arith, rest.over) }
]
run-Outcome (state_tick t ∷ ticks) c both few =
    let (both', count, sent) = reports t c both in
    let rest = run-Outcome ticks (step (state_due t) c) both' (omega arith) in
    record { announced = omega (arith, rest.announced); over = rw count at rest.over }

run-append :
    (ticks later : List Tick) (c : ControllerCallback)
    → run (map event (ticks ++ later)) c ≡ run (map event later) (run (map event ticks) c)
unfolding run
run-append [] later c = refl
run-append (tick ∷ ticks) later c = run-append ticks later (step (event tick) c)

-- A new connection, and the timers after it.
module _ (a b : Answers) (c : ControllerCallback) (ga : IsGranted a) (gb : IsGranted b)
    (inh_stopped : c.inh_timer.stopped ≡ true) (state_stopped : c.state_timer.stopped ≡ true)
    (fresh : c.inh_count ≡ 0) where
  connects :
      Both false (step (connect a b) c)
      × ((step (connect a b) c).inh_count ≡ 0)
      × ((step (connect a b) c).sent ≡ c.sent)
  unfolding step start_inh start_state Timer.start
  connects = ground (arith, ga.created, ga.armed, gb.created, gb.armed)

  -- Over an object whose timers are stopped and whose count is 0, if the calls of the kernel
  -- succeed: after a new connection, and whatever number of calls of the two timers in any order,
  -- without an answer and while the connection stays, one announcement was sent for each call of
  -- the announcing timer and three at most, and both timers are stopped exactly if there were more
  -- than three.
  pub connect-announces :
      (ticks : List Tick)
      → let d = run (connect a b ∷ map event ticks) c in
        (announcements d.sent ≡ announcements c.sent + min 3 (inh_ticks ticks))
        × (d.inh_timer.stopped ≡ ltb 3 (inh_ticks ticks))
        × (d.state_timer.stopped ≡ ltb 3 (inh_ticks ticks))
  unfolding run
  connect-announces ticks =
      let (both, count, sent) = connects in
      let o = run-Outcome ticks (step (connect a b) c) both (omega arith) in
      (
        ground (arith, o.announced, count, sent),
        ground (arith, o.over.inh_stopped, count),
        ground (arith, o.over.state_stopped, count),
      )

  -- Over an object whose timers are stopped and whose count is 0, if the calls of the kernel
  -- succeed: after a new connection and four calls of the announcing timer without an answer,
  -- whatever the other timer did between them, nothing changes any more, so that nothing is sent
  -- while that connection stays.
  pub connect-silent :
      (ticks later : List Tick)
      → 4 ≤ inh_ticks ticks
      → run (connect a b ∷ map event (ticks ++ later)) c ≡ run (connect a b ∷ map event ticks) c
  unfolding run
  connect-silent ticks later h =
      let (both, count, sent) = connects in
      let o = run-Outcome ticks (step (connect a b) c) both (omega arith) in
      let d = run (map event ticks) (step (connect a b) c) in
      let many : ltb (3 - (step (connect a b) c).inh_count) (inh_ticks ticks) ≡ true =
        ground (arith, count) in
      run-append ticks later (step (connect a b) c) ∙ silent later d (rw many at o.over)
