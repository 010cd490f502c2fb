-- ===== src/Util/Timer.antt =====
-- include/util/timer.h and src/util/timer.cc: a POSIX timer that calls a handler. The kernel's
-- answers to the calls are arguments.
use csae.Prelude.{
  ℕ, ◌+◌, ◌-◌, ◌*◌, ◌/◌, ◌%◌, ◌^◌, ◌<◌, ◌≡◌, refl, Bool, true, false, Option, none, some, arith,
  if◌then◌else◌,
}

-- struct itimerspec
pub record TimerSpec : Type 0 where
  pub interval_sec : ℕ
  pub interval_nsec : ℕ
  pub value_sec : ℕ
  pub value_nsec : ℕ

-- `handler` and `param` are a number for the pair of pointers. A timer's id is a number.
pub record Timer : Type 0 where
  pub stopped : Bool
  pub timer : ℕ
  pub handler : ℕ

-- The kernel's timers: how many exist, and how the last one was armed.
pub record Kernel : Type 0 where
  pub live : ℕ
  pub armed : Option TimerSpec

-- Whether each call succeeds, and the id of a new timer.
pub record Answers : Type 0 where
  pub created : Option ℕ
  pub armed : Bool
  pub deleted : Bool

-- `(_period % 1000) * 1000 * 1000` is computed in 32 bits.
abbrev pub nanoseconds : ℕ → ℕ
nanoseconds period = (period % 1000 * 1000 * 1000) % 2 ^ 32

abbrev pub timer_spec : ℕ → Bool → TimerSpec
timer_spec period immediately = record {
  interval_sec = period / 1000;
  interval_nsec = nanoseconds period;
  value_sec = if immediately then 0 else period / 1000;
  value_nsec = if immediately then 1 else nanoseconds period;
}

-- The result is `true` for 0 and `false` for -1.
unfoldable pub start : ℕ → ℕ → Bool → Answers → Timer → Kernel → Timer × Kernel × Bool
start period handler immediately a t k =
    let t' = record t { handler = handler } in
    elim a.created [
      | none ↦ (t', k, false)
      | some id ↦
          let t'' = record t' { timer = id } in
          let k' = record k { live = k.live + 1 } in
          if a.armed
          then (
            record t'' { stopped = false },
            record k' { armed = some (timer_spec period immediately) },
            true,
          )
          else (t'', k', false)
    ]

unfoldable pub stop : Answers → Timer → Kernel → Timer × Kernel × Bool
stop a t k =
    if t.stopped
    then (t, k, true)
    else if a.deleted
    then (record t { stopped = true }, record k { live = k.live - 1 }, true)
    else (record t { stopped = true }, k, false)

-- A time of `period` milliseconds, in the range that the kernel takes.
abbrev pub IsPeriod : ℕ → ℕ → ℕ → Type 0
IsPeriod period sec nsec = (nsec < 1000000000) × (sec * 1000000000 + nsec ≡ period * 1000000)

-- The first call of the handler: at once, or after a period.
abbrev pub IsFirst : Bool → ℕ → ℕ → ℕ → Type 0
IsFirst true period sec nsec = (sec ≡ 0) × (nsec ≡ 1)
IsFirst false period sec nsec = IsPeriod period sec nsec

timer_spec-IsFirst :
    (period : ℕ) (immediately : Bool)
    → period < 2 ^ 32
    → IsFirst immediately period
        (timer_spec period immediately).value_sec
        (timer_spec period immediately).value_nsec
timer_spec-IsFirst period true h = (refl, refl)
timer_spec-IsFirst period false h = omega arith

-- For every period of 32 bits, if `start` returns 0, the timer is armed with an interval of exactly
-- that many milliseconds, in seconds and below 10^9 nanoseconds without an overflow, and goes off
-- first after one nanosecond if at once, or after the same time.
pub start-armed :
    (period handler : ℕ) (immediately : Bool) (a : Answers) (t t' : Timer) (k k' : Kernel)
    → period < 2 ^ 32
    → start period handler immediately a t k ≡ (t', k', true)
    → (spec : TimerSpec) × (k'.armed ≡ some spec)
      × IsPeriod period spec.interval_sec spec.interval_nsec
      × IsFirst immediately period spec.value_sec spec.value_nsec
unfolding start
start-armed period handler immediately a t t' k k' h e = (
  timer_spec period immediately,
  ground arith,
  omega arith,
  timer_spec-IsFirst period immediately h,
)
