-- ===== src/Server/Process/Progress.antt =====
-- About the goroutine of a poll (poll.go): its next operation, and what its operations and the others' come to.
use star_car.Prelude.{
  ℕ, ◌≡◌, refl, ap, subst, true, false, String, List, [], ◌∷◌, ◌++◌, ◌⊎◌, sym, ap₂, ◌∙◌, inl, inr,
  Bool-cases, Result, All, arith,
}
use star_car.Platform.{Platform}
use star_car.Fold.Loaders.{Files}
use star_car.Store.Types.{Schema, Disk}
use star_car.Store.Scan.{scan}
use star_car.Server.Config.{Config}
use star_car.Server.Snapshot.{Snapshot}
use star_car.Server.Lanes.{Server}
use star_car.Server.Build.{Host}
use star_car.Server.Poll.{input_of}
use star_car.Server.Completeness.{build_snapshot-total}
use star_car.Server.Connections.{Connection, new_connection, is_idle}
use star_car.Server.Process.{
  Poll, begun, compared_next, announcing, broadcasting, ending, Process, PollMove, scans, compares,
  marshals_change, serves, has_served, ProcessRuns, ProcessStep, ticks, polls_on, ends_poll,
  accepts, streams, begin_poll, tick_process,
}
use star_car.Server.Process.Turns.{weight}
use star_car.Time.Parse.{Time}
use star_car.Server.Guard.{try_begin_poll}
use star_car.Server.Process.Runs.{IsAlone, alone, runs-IsSound}
use star_car.Server.Process.Delivered.{ProcessRuns-broadcast_at}
use mathlib.Core.List.{head-eq_of_cons-eq}
use star_car.Server.Process.Measure.{
  weights, weights-append, StreamMove-turn, measure, IsLower, PollMove-IsLower, measure-same,
}

module _ ⦃p : Platform⦄ (host : Host) (marshal : Snapshot → Result String) where
  -- A step of the process ends the poll, lowers its measure, or leaves the poll and the measure as
  -- they are.
  abbrev pub Continues : Process → Poll → Process → Type 0
  Continues q poll r =
      ((poll ≡ ending) × (r.polls ≡ []))
      ⊎ ((after : Poll) × (r.polls ≡ after ∷ [])
          × IsLower (measure r.connections after) (measure q.connections poll))
      ⊎ ((r.polls ≡ poll ∷ []) × (measure r.connections poll ≡ measure q.connections poll))

  tick-skipped :
      (now : Time) (q : Process) (flag : ℕ)
      → flag ≡ 1
      → ((begin_poll now (try_begin_poll flag) q).polls ≡ q.polls)
        × ((begin_poll now (try_begin_poll flag) q).connections ≡ q.connections)
  unfolding begin_poll try_begin_poll
  tick-skipped now q flag e = rw e (refl, refl)

  step-Continues :
      {q r : Process} (poll : Poll)
      → ProcessStep host marshal q r
      → IsAlone q.poll_in_flight q.polls
      → q.polls ≡ poll ∷ []
      → Continues q poll r
  unfolding tick_process
  step-Continues {q = q} poll (ticks now) g e =
      let (b, a, only, flag) = alone q.poll_in_flight q.polls [] [] poll e g in
      let (same, kept) = tick-skipped now q q.poll_in_flight flag in
      inr (inr (same ∙ e, ap (λ cs. measure cs poll) kept))
  step-Continues {q = q} poll (polls_on xs ys own after s cs k mv) g e =
      let (b, a, only, flag) = alone q.poll_in_flight q.polls xs ys own k g in
      inr (
        inl (
          after,
          ap₂ (λ l r. l ++ after ∷ r) b a,
          subst (λ x. IsLower (measure cs after) (measure q.connections x))
              (head-eq_of_cons-eq (sym only ∙ e)) (PollMove-IsLower mv),
        ))
  step-Continues {q = q} poll (ends_poll xs ys k) g e =
      let (b, a, only, flag) = alone q.poll_in_flight q.polls xs ys ending k g in
      inl (head-eq_of_cons-eq (sym e ∙ only), ap₂ (λ l r. l ++ r) b a)
  step-Continues {q = q} poll accepts g e = inr (
      inr (
        e,
        measure-same _ _ poll (weights-append q.connections (new_connection ∷ []) ∙ omega arith),
      ))
  step-Continues {q = q} poll (streams xs ys c d k mv) g e = inr (
      inr (
        e,
        measure-same _ _ poll (
            omega (
              arith,
              ap weights k,
              weights-append xs (c ∷ ys),
              weights-append xs (d ∷ ys),
              ap weight (StreamMove-turn mv),
            )),
      ))

  -- Either every turn is over, or there is a client whose turn goes on.
  find_due :
      (cs : List Connection)
      → All (λ c. is_idle c.turn ≡ true) cs
        ⊎ ((xs : List Connection) × (ys : List Connection) × (c : Connection) × (cs ≡ xs ++ c ∷ ys)
            × (is_idle c.turn ≡ false))
  find_due [] = inl tt
  find_due (c ∷ cs) = elim (Bool-cases (is_idle c.turn)) [
    | inr i ↦ inr ([], cs, c, refl, i)
    | inl i ↦ elim (find_due cs) [
      | inl all ↦ inl (i, all)
      | inr (xs, ys, d, e, j) ↦ inr (c ∷ xs, ys, d, ap (λ l. c ∷ l) e, j)
    ]
  ]

  -- What a poll can do next.
  abbrev pub Moves : Process → Poll → Type 0
  Moves q poll =
      (s : Server) × (cs : List Connection) × (after : Poll) × PollMove host marshal q.server
        q.connections poll s cs after

  module _ (files : Files) (compile : String → String → Result Schema) (cfg : Config) where
    moves :
        (q : Process) (xs ys : List Poll) (poll : Poll) (disk : Disk)
        → ProcessRuns host marshal files compile cfg q
        → q.polls ≡ xs ++ poll ∷ ys
        → (poll ≡ ending) ⊎ Moves q poll
    moves q xs ys (begun now) disk r e =
        let input = input_of (scan q.server.adapter disk q.server.cfg.store_path now) in
        let (live, found, ran) = build_snapshot-total host q.server input now in
        inr (_, _, _, scans disk host.board_defs now _ _ ran)
    moves q xs ys (compared_next now candidate) disk r e = inr (_, _, _, compares now candidate)
    moves q xs ys (announcing snap) disk r e = inr (_, _, _, marshals_change snap)
    moves q xs ys (broadcasting text) disk r e = elim (find_due q.connections) [
      | inl all ↦ inr (_, _, _, has_served text all)
      | inr (before, behind, c, k, due) ↦
          let (l, o, m, (d, ran)) =
            ProcessRuns-broadcast_at host marshal files compile cfg q xs ys text before behind c r e
              k due in
          inr (_, _, _, serves text before behind c d k due ran)
    ]
    moves q xs ys ending disk r e = inl refl

    -- In every state of the running server, a poll that has not come to its end has a next
    -- operation; and every step of the server, whatever it is, either ends a poll that has come to
    -- its end, or takes the poll one operation on and lowers the pair of the kinds of operations
    -- that lie before its end and of the operations that the turns of its broadcast may still
    -- take, the first number first, or leaves both the poll and this pair as they are.
    pub ProcessRuns-Moves :
        (q : Process) (xs ys : List Poll) (poll : Poll) (disk : Disk)
        → ProcessRuns host marshal files compile cfg q
        → q.polls ≡ xs ++ poll ∷ ys
        → (((poll ≡ ending) ⊎ Moves q poll)
            × ((r : Process) → ProcessStep host marshal q r → Continues q poll r))
    ProcessRuns-Moves q xs ys poll disk run e =
        let h = runs-IsSound host marshal files compile cfg run in
        let (b, a, only, flag) = alone q.poll_in_flight q.polls xs ys poll e h.guarded in
        (moves q xs ys poll disk run e, λ r step. step-Continues poll step h.guarded only)
