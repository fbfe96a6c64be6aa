-- ===== src/Server/Guard.antt =====
-- poll.go: `TryBeginPoll`, `EndPoll`, and the loop that starts polls and does not wait for them.
use star_car.Prelude.{
  ℕ, ◌≤◌, ◌≡◌, refl, Bool, true, false, List, [], ◌∷◌, ◌++◌, eqb, length, length-append, arith,
  if◌then◌else◌,
}
use star_car.Time.Parse.{Time}

-- `atomic.CompareAndSwapInt32(&s.pollInFlight, 0, 1)`
unfoldable pub try_begin_poll : ℕ → Bool × ℕ
try_begin_poll flag = if eqb flag 0 then (true, 1) else (false, flag)

-- `atomic.StoreInt32(&s.pollInFlight, 0)`
unfoldable pub end_poll : ℕ → ℕ
end_poll flag = 0

-- The guard, and the polls whose goroutines run.
pub record Loop : Type 0 where
  pub poll_in_flight : ℕ
  pub running : List Time

unfoldable pub start_poll : Time → Bool × ℕ → Loop → Loop
start_poll now (true, flag) l = record { poll_in_flight = flag; running = now ∷ l.running }
start_poll now (false, flag) l = record l { poll_in_flight = flag }

-- One tick of `RunPollLoop`.
unfoldable pub tick : Time → Loop → Loop
unfolding try_begin_poll start_poll
tick now l = start_poll now (try_begin_poll l.poll_in_flight) l

-- What happens next: a tick, or the end of one of the polls that run.
pub data LoopStep : Loop → Loop → Type 0 where
  ticked : (now : Time) (l : Loop) → LoopStep l (tick now l)
  ended :
      (flag : ℕ) (xs ys : List Time) (now : Time)
      → LoopStep
          (record { poll_in_flight = flag; running = xs ++ now ∷ ys })
          (record { poll_in_flight = end_poll flag; running = xs ++ ys })

pub data LoopRuns : Loop → Type 0 where
  idle : LoopRuns (record { poll_in_flight = 0; running = [] })
  then_step : {l m : Loop} → LoopRuns l → LoopStep l m → LoopRuns m

-- The guard is the number of polls that run, which is at most one.
abbrev pub IsGuarded : Loop → Type 0
IsGuarded l = (l.poll_in_flight ≡ length l.running) × (length l.running ≤ 1)

start-IsGuarded :
    (now : Time) (l : Loop)
    → IsGuarded l
    → (b : Bool) → eqb l.poll_in_flight 0 ≡ b
    → IsGuarded (start_poll now (if b then (true, 1) else (false, l.poll_in_flight)) l)
unfolding start_poll
start-IsGuarded now l (e, b) true h =
    (omega (arith, e, eqb→eq l.poll_in_flight h), omega (arith, e, eqb→eq l.poll_in_flight h))
  where
    eqb→eq : (n : ℕ) → eqb n 0 ≡ true → n ≡ 0
    eqb→eq n h = ground arith
start-IsGuarded now l (e, b) false h = (e, b)

step-IsGuarded : {l m : Loop} → LoopStep l m → IsGuarded l → IsGuarded m
unfolding tick try_begin_poll end_poll
step-IsGuarded (ticked now l) g = start-IsGuarded now l g _ refl
step-IsGuarded (ended flag xs ys now) (e, b) = (
  omega (arith, length-append xs (now ∷ ys), length-append xs ys),
  omega (arith, length-append xs (now ∷ ys), length-append xs ys),
)

-- After any sequence of ticks and of ends of polls that run, the guard is the number of polls that
-- run, and that is at most one.
pub LoopRuns-IsGuarded : {l : Loop} → LoopRuns l → IsGuarded l
LoopRuns-IsGuarded idle = (refl, omega arith)
LoopRuns-IsGuarded (then_step h s) = step-IsGuarded s (LoopRuns-IsGuarded h)
