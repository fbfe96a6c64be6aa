-- ===== src/Server/Process/Delivered.antt =====
-- What the running server promises its clients, and its polls themselves.
use star_car.Prelude.{
  ℕ, ◌≡◌, ◌≤◌, refl, subst, Bool, true, false, String, none, some, List, [], ◌∷◌, ◌++◌, Result, ok,
  All, All-middle, length, arith,
}
use star_car.Platform.{Platform}
use star_car.Fold.Loaders.{Files}
use star_car.Store.Types.{Schema}
use star_car.Server.Config.{Config}
use star_car.Server.Snapshot.{Snapshot}
use star_car.Server.Lanes.{Server}
use star_car.Server.Build.{Host}
use star_car.Server.Polling.{IsCurrent}
use star_car.Server.Connections.{Connection, waiting, is_idle, broadcast_at}
use star_car.Server.Process.{Poll, broadcasting, Process, ProcessRuns}
use star_car.Server.Process.Known.{Fits, last_frame, IsLast}
use star_car.Server.Process.Turns.{served}
use star_car.Server.Process.Invariant.{is_announced, is_busy, AllFit}
use star_car.Server.Process.Runs.{IsAlone, alone, HoldsBeside, runs-IsSound}

module _ ⦃p : Platform⦄ (host : Host) (marshal : Snapshot → Result String) where
  -- What holds of the clients, whatever poll runs or none.
  fits_beside :
      (s : Server) (cs : List Connection) (flag : ℕ) (polls : List Poll)
      → All (λ poll. is_announced host marshal poll ≡ false) polls
      → IsAlone flag polls
      → HoldsBeside host marshal s cs polls
      → (busy : Bool) × AllFit host marshal s.last_snapshot false busy cs
  fits_beside s cs flag [] q g k = (false, k.clients)
  fits_beside s cs flag (poll ∷ []) (q, _) g k = (
    is_busy host marshal poll,
    subst (λ a. AllFit host marshal s.last_snapshot a (is_busy host marshal poll) cs) q k.clients,
  )
  fits_beside s cs flag (poll ∷ other ∷ polls) q g k = absurd g

  newest-waiting :
      (busy : Bool) (m : Result String) (text : String) (c : Connection)
      → Fits m false busy c
      → m ≡ ok text
      → is_idle c.turn ≡ true
      → c.failed ≡ false
      → c.stage ≡ waiting
      → c.channel.buffer ≡ none
      → last_frame c.written ≡ some text
  newest-waiting busy m text c h e i f st b =
      subst (λ x. IsLast text waiting x c.written) b
        (subst (λ x. IsLast text x c.channel.buffer c.written) st (h.newest text e refl i f))

  module _ (files : Files) (compile : String → String → Result Schema) (cfg : Config) where
    -- In every state of the running server, whatever the order of ticks, polls, sends, receptions,
    -- arrivals and departures of any number of clients: a client that waits in its loop, with no
    -- write of it failed, nothing in its channel, no turn in a broadcast and no change that is
    -- announced and not yet broadcast, was last sent the current snapshot, if that can be
    -- marshalled.
    pub ProcessRuns-last_frame :
        (q : Process) (xs ys : List Connection) (c : Connection) (text : String)
        → ProcessRuns host marshal files compile cfg q
        → q.connections ≡ xs ++ c ∷ ys
        → All (λ poll. is_announced host marshal poll ≡ false) q.polls
        → is_idle c.turn ≡ true
        → c.stage ≡ waiting
        → c.channel.buffer ≡ none
        → c.failed ≡ false
        → marshal q.server.last_snapshot ≡ ok text
        → last_frame c.written ≡ some text
    ProcessRuns-last_frame q xs ys c text r e quiet i st b f m =
        let h = runs-IsSound host marshal files compile cfg r in
        let (busy, fits) =
          fits_beside q.server q.connections q.poll_in_flight q.polls quiet h.guarded h.kept in
        newest-waiting busy (marshal q.server.last_snapshot) text c
          (All-middle _ xs ys c
            (subst (AllFit host marshal q.server.last_snapshot false busy) e fits))
          m i f st b

    -- In every state of the running server with no change that is announced and not yet broadcast,
    -- and for every client that has no turn in a broadcast and no failed write: if the current
    -- snapshot can be marshalled, a client that is greeted, waits or is served finds it in its
    -- channel, or, where that is empty, is about to write it, or, where it waits, was last sent
    -- it; a client that has not yet read its first snapshot finds it in its channel or finds
    -- nothing there. This holds also while a broadcast still serves other clients.
    pub ProcessRuns-IsLast :
        (q : Process) (xs ys : List Connection) (c : Connection) (text : String)
        → ProcessRuns host marshal files compile cfg q
        → q.connections ≡ xs ++ c ∷ ys
        → All (λ poll. is_announced host marshal poll ≡ false) q.polls
        → is_idle c.turn ≡ true
        → c.failed ≡ false
        → marshal q.server.last_snapshot ≡ ok text
        → IsLast text c.stage c.channel.buffer c.written
    ProcessRuns-IsLast q xs ys c text r e quiet i f m =
        let h = runs-IsSound host marshal files compile cfg r in
        let (busy, fits) =
          fits_beside q.server q.connections q.poll_in_flight q.polls quiet h.guarded h.kept in
        (All-middle _ xs ys c
            (subst (AllFit host marshal q.server.last_snapshot false busy) e fits)).newest
          text m refl i f

    beside-IsCurrent :
        (s : Server) (cs : List Connection) (flag : ℕ) (polls : List Poll)
        → IsAlone flag polls
        → HoldsBeside host marshal s cs polls
        → (length polls ≤ 1) × (flag ≡ length polls) × IsCurrent host s
    beside-IsCurrent s cs flag [] g k = (omega arith, g, k.current)
    beside-IsCurrent s cs flag (poll ∷ []) g k = (omega arith, g, k.current)
    beside-IsCurrent s cs flag (poll ∷ other ∷ polls) g k = absurd g

    -- In every state of the running server at most one poll runs, the guard is the number of polls
    -- that run, and the comparison basis and the number fit the current snapshot.
    pub ProcessRuns-IsCurrent :
        (q : Process)
        → ProcessRuns host marshal files compile cfg q
        → (length q.polls ≤ 1) × (q.poll_in_flight ≡ length q.polls) × IsCurrent host q.server
    ProcessRuns-IsCurrent q r =
        let h = runs-IsSound host marshal files compile cfg r in
        beside-IsCurrent q.server q.connections q.poll_in_flight q.polls h.guarded h.kept

    -- In every state of the running server in which a broadcast is under way, its text is the
    -- current snapshot's, and every client that still has a turn is listed and has an open
    -- channel, so that the next operation on it does not panic.
    pub ProcessRuns-broadcast_at :
        (q : Process) (ps rs : List Poll) (text : String) (xs ys : List Connection) (c : Connection)
        → ProcessRuns host marshal files compile cfg q
        → q.polls ≡ ps ++ broadcasting text ∷ rs
        → q.connections ≡ xs ++ c ∷ ys
        → is_idle c.turn ≡ false
        → (c.channel.listed ≡ true)
          × (c.channel.closed ≡ false)
          × (marshal q.server.last_snapshot ≡ ok text)
          × ((d : Connection) × (broadcast_at text c.turn c ≡ some d))
    ProcessRuns-broadcast_at q ps rs text xs ys c r e k i =
        let h = runs-IsSound host marshal files compile cfg r in
        let (before, behind, only, flag) =
          alone q.poll_in_flight q.polls ps rs (broadcasting text) e h.guarded in
        let kept = subst (HoldsBeside host marshal q.server q.connections) only h.kept in
        let fits =
          All-middle _ xs ys c
            (subst (AllFit host marshal q.server.last_snapshot false true) k kept.clients) in
        let listed = fits.due i in
        let (d, ran, _, _) = served text c kept.tells fits listed i in
        (listed, fits.open_channel listed, kept.tells, (d, ran))
