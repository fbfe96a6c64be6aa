-- ===== src/Server/Process/Measure.antt =====
-- About a poll's operations (poll.go, sse.go) and those that the turns of a broadcast may still take.
use mathlib.Core.Option.{some-injective}
use star_car.Prelude.{
  ℕ, ◌+◌, ◌≡◌, ◌<◌, refl, ap, subst, Bool, true, false, String, some, List, [], ◌∷◌, ◌++◌, ◌⊎◌, inl,
  inr, Result, ok, err, arith,
}
use star_car.Platform.{Platform}
use star_car.Server.Snapshot.{Snapshot}
use star_car.Server.Lanes.{Server}
use star_car.Server.Build.{Host}
use star_car.Server.Clients.{Sent, sent, full, panicked, try_send}
use star_car.Server.Connections.{
  Turn, idle, sending, draining, replacing, Connection, is_idle, after_send, broadcast_at,
  StreamMove, refused, registers, marshals, greets, greets_in_vain, takes, finds_closed, delivers,
  delivers_in_vain, beats, beats_in_vain, disconnects, unlists, closes,
}
use star_car.Server.Process.{
  Poll, begun, compared_next, announcing, broadcasting, ending, poll_after, poll_of_marshalled,
  turns_of, PollMove, scans, compares, marshals_change, serves, has_served,
}
use star_car.Server.Process.Turns.{weight}

-- How many operations the turns of all clients may still take.
abbrev pub weights : List Connection → ℕ
weights [] = 0
weights (c ∷ cs) = weight c.turn + weights cs

pub weights-append : (xs ys : List Connection) → weights (xs ++ ys) ≡ weights xs + weights ys
weights-append [] ys = omega arith
weights-append (x ∷ xs) ys = omega (arith, weights-append xs ys)

after_send-weight :
    (next : Turn) (n : ℕ) (c d : Connection) (r : Sent)
    → weight next < n
    → 0 < n
    → after_send next c r ≡ some d
    → weight d.turn < n
unfolding after_send
after_send-weight next n c d (sent x) h z e =
    subst (λ (x : Connection). weight x.turn < n) (some-injective _ d e) z
after_send-weight next n c d full h z e =
    subst (λ (x : Connection). weight x.turn < n) (some-injective _ d e) h
after_send-weight next n c d panicked h z e = cc e

broadcast_at-weight :
    (text : String) (t : Turn) (c d : Connection)
    → is_idle t ≡ false
    → broadcast_at text t c ≡ some d
    → weight d.turn < weight t
unfolding broadcast_at
broadcast_at-weight text idle c d i e = cc i
broadcast_at-weight text sending c d i e =
    after_send-weight draining 3 c d (try_send text c.channel) (omega arith) (omega arith) e
broadcast_at-weight text draining c d i e =
    subst (λ (x : Connection). weight x.turn < 2) (some-injective _ d e) (omega arith)
broadcast_at-weight text replacing c d i e =
    after_send-weight idle 1 c d (try_send text c.channel) (omega arith) (omega arith) e

-- No handler has a part in its client's turn.
pub StreamMove-turn :
    {current : Result String} {free : Bool} {c d : Connection}
    → StreamMove current free c d
    → d.turn ≡ c.turn
StreamMove-turn (refused c e) = refl
StreamMove-turn (registers c e f) = refl
StreamMove-turn (marshals c e) = refl
StreamMove-turn (greets c text e) = refl
StreamMove-turn (greets_in_vain c text e) = refl
StreamMove-turn (takes c text e b) = refl
StreamMove-turn (finds_closed c e k b) = refl
StreamMove-turn (delivers c text e) = refl
StreamMove-turn (delivers_in_vain c text e) = refl
StreamMove-turn (beats c e) = refl
StreamMove-turn (beats_in_vain c e) = refl
StreamMove-turn (disconnects c e) = refl
StreamMove-turn (unlists c e f) = refl
StreamMove-turn (closes c e) = refl

module _ ⦃p : Platform⦄ where
  -- How many kinds of operations lie before a poll's end, and how many operations the turns of the
  -- clients may still take in its broadcast.
  abbrev pub measure : List Connection → Poll → ℕ × ℕ
  measure cs (begun now) = (4, 0)
  measure cs (compared_next now candidate) = (3, 0)
  measure cs (announcing snap) = (2, 0)
  measure cs (broadcasting text) = (1, weights cs)
  measure cs ending = (0, 0)

  -- The first number is lower, or it is the same and the second is lower.
  abbrev pub IsLower : ℕ × ℕ → ℕ × ℕ → Type 0
  IsLower (a, b) (c, d) = (a < c) ⊎ ((a ≡ c) × (b < d))

  poll_after-IsLower :
      (cs : List Connection) (r : Snapshot × Bool) → IsLower (measure cs (poll_after r)) (3, 0)
  unfolding poll_after
  poll_after-IsLower cs (snap, true) = inl (omega arith)
  poll_after-IsLower cs (snap, false) = inl (omega arith)

  marshalled-IsLower :
      (cs : List Connection) (m : Result String)
      → IsLower (measure cs (poll_of_marshalled m)) (2, 0)
  unfolding poll_of_marshalled
  marshalled-IsLower cs (ok text) = inl (omega arith)
  marshalled-IsLower cs (err e) = inl (omega arith)

  pub PollMove-IsLower :
      {host : Host} {marshal : Snapshot → Result String} {s t : Server} {cs ds : List Connection}
      {poll after : Poll}
      → PollMove host marshal s cs poll t ds after
      → IsLower (measure ds after) (measure cs poll)
  PollMove-IsLower (scans disk board_defs now candidate built e) = inl (omega arith)
  PollMove-IsLower {cs = cs} (compares now candidate) = poll_after-IsLower cs _
  PollMove-IsLower {marshal = marshal} {cs = cs} (marshals_change snap) =
      marshalled-IsLower (turns_of (marshal snap) cs) (marshal snap)
  PollMove-IsLower {cs = cs} (serves text xs ys c d e i ran) = inr (
    refl,
    omega (
      arith,
      ap weights e,
      weights-append xs (c ∷ ys),
      weights-append xs (d ∷ ys),
      broadcast_at-weight text c.turn c d i ran,
    ),
  )
  PollMove-IsLower (has_served text idle_all) = inl (omega arith)

  -- The same turns give the same measure.
  pub measure-same :
      (cs ds : List Connection) (poll : Poll)
      → weights ds ≡ weights cs
      → measure ds poll ≡ measure cs poll
  measure-same cs ds (begun now) h = refl
  measure-same cs ds (compared_next now candidate) h = refl
  measure-same cs ds (announcing snap) h = refl
  measure-same cs ds (broadcasting text) h = ap (λ n. (1, n)) h
  measure-same cs ds ending h = refl
