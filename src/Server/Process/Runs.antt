-- ===== src/Server/Process/Runs.antt =====
-- About every state that the running server reaches: its polls, and what its clients are sent.
use star_car.Prelude.{
  ℕ, ◌≡◌, refl, sym, subst, Bool, false, not, String, List, [], ◌∷◌, ◌++◌, Result, All-replace,
  All-append,
}
use star_car.Platform.{Platform}
use star_car.Time.Parse.{Time}
use star_car.Fold.Loaders.{Files}
use star_car.Store.Types.{Schema}
use star_car.Server.Config.{Config}
use star_car.Server.Snapshot.{Snapshot}
use star_car.Server.Lanes.{Server}
use star_car.Server.Build.{Host}
use star_car.Server.Guard.{try_begin_poll, end_poll}
use star_car.Server.Connections.{Connection, new_connection}
use star_car.Server.Process.{
  Poll, begun, compared_next, announcing, broadcasting, ending, Process, is_free, begin_poll,
  tick_process, PollMove, ProcessStep, ticks, polls_on, ends_poll, accepts, streams, ProcessRuns,
  starts, then_steps,
}
use star_car.Server.Process.Known.{new_connection-Fits}
use star_car.Server.Process.Handling.{StreamMove-Fits}
use star_car.Server.Process.Invariant.{is_announced, is_busy, AllFit, IsKept, PollMove-IsKept}
use star_car.Server.Process.Starts.{new_server-IsCurrent}

abbrev pub IsAlone {ℓ} : {A : Type ℓ} → ℕ → List A → Type 0
IsAlone flag [] = flag ≡ 0
IsAlone flag (x ∷ []) = flag ≡ 1
IsAlone flag (x ∷ y ∷ ys) = ⊥

-- An element of such a list is its only one.
pub alone :
    {A : Type 0} (flag : ℕ) (l xs ys : List A) (x : A)
    → l ≡ xs ++ x ∷ ys
    → IsAlone flag l
    → (xs ≡ []) × (ys ≡ []) × (l ≡ x ∷ []) × (flag ≡ 1)
alone flag [] [] ys x e h = absurd (cc e)
alone flag [] (z ∷ xs) ys x e h = absurd (cc e)
alone flag (y ∷ []) [] [] x e h = (refl, refl, e, h)
alone flag (y ∷ []) [] (z ∷ ys) x e h = absurd (cc e)
alone flag (y ∷ []) (z ∷ []) ys x e h = absurd (cc e)
alone flag (y ∷ []) (z ∷ w ∷ xs) ys x e h = absurd (cc e)
alone flag (y ∷ z ∷ l) xs ys x e h = absurd h

module _ ⦃p : Platform⦄ (host : Host) (marshal : Snapshot → Result String) where
  -- Without a poll nothing is announced and no broadcast is under way.
  abbrev pub HoldsBeside : Server → List Connection → List Poll → Type 0
  HoldsBeside s cs [] = IsKept host marshal s cs ending
  HoldsBeside s cs (poll ∷ polls) = IsKept host marshal s cs poll

  pub record IsSound (q : Process) : Type 0 where
    pub guarded : IsAlone q.poll_in_flight q.polls
    pub kept : HoldsBeside q.server q.connections q.polls

  ends-IsSound :
      (q : Process)
      → IsSound q
      → q.polls ≡ ending ∷ []
      → IsSound (record q { poll_in_flight = 0; polls = [] })
  ends-IsSound q h e = record {
    guarded = refl;
    kept = subst (HoldsBeside q.server q.connections) e h.kept;
  }

  begins-IsSound :
      (now : Time) (q : Process) (flag : ℕ) (polls : List Poll)
      → IsAlone flag polls
      → HoldsBeside q.server q.connections polls
      → IsSound
          (begin_poll now (try_begin_poll flag) (record q { poll_in_flight = flag; polls = polls }))
  unfolding begin_poll try_begin_poll
  begins-IsSound now q flag [] g k =
      subst
        (λ f.
          IsSound (begin_poll now (try_begin_poll f) (record q { poll_in_flight = f; polls = [] })))
        (sym g)
        (record {
          guarded = refl;
          kept = record { current = k.current; tells = tt; clients = k.clients };
        })
  begins-IsSound now q flag (poll ∷ []) g k =
      subst
        (λ f.
          IsSound (
            begin_poll now (try_begin_poll f) (record q { poll_in_flight = f; polls = poll ∷ [] })))
        (sym g) (record { guarded = refl; kept = k })
  begins-IsSound now q flag (poll ∷ other ∷ polls) g k = absurd g

  polls-IsSound :
      (q : Process) (xs ys : List Poll) (poll after : Poll) (s : Server) (cs : List Connection)
      → q.polls ≡ xs ++ poll ∷ ys
      → PollMove host marshal q.server q.connections poll s cs after
      → IsSound q
      → IsSound (record q { server = s; connections = cs; polls = xs ++ after ∷ ys })
  polls-IsSound q xs ys poll after s cs e mv h =
      let (none_before, none_after, only, flag) =
        alone q.poll_in_flight q.polls xs ys poll e h.guarded in
      let k = subst (HoldsBeside q.server q.connections) only h.kept in
      subst (λ x. IsSound (record q { server = s; connections = cs; polls = x ++ after ∷ ys }))
        (sym none_before)
        (subst (λ x. IsSound (record q { server = s; connections = cs; polls = after ∷ x }))
          (sym none_after) (record { guarded = flag; kept = PollMove-IsKept host marshal mv k }))

  ended-IsSound :
      (q : Process) (xs ys : List Poll)
      → q.polls ≡ xs ++ ending ∷ ys
      → IsSound q
      → IsSound (record q { poll_in_flight = 0; polls = xs ++ ys })
  ended-IsSound q xs ys e h =
      let (none_before, none_after, only, flag) =
        alone q.poll_in_flight q.polls xs ys ending e h.guarded in
      subst (λ x. IsSound (record q { poll_in_flight = 0; polls = x ++ ys })) (sym none_before)
        (subst (λ x. IsSound (record q { poll_in_flight = 0; polls = x })) (sym none_after)
          (ends-IsSound q h only))

  is_free-alone : (poll : Poll) → is_free (poll ∷ []) ≡ not (is_busy host marshal poll)
  unfolding is_free
  is_free-alone (begun now) = refl
  is_free-alone (compared_next now candidate) = refl
  is_free-alone (announcing snap) = refl
  is_free-alone (broadcasting text) = refl
  is_free-alone ending = refl

  -- The clients change, and what holds beside the polls is kept.
  clients-IsSound :
      (q : Process) (ds : List Connection) (polls : List Poll)
      → ((announced busy : Bool)
          → is_free polls ≡ not busy
          → AllFit host marshal q.server.last_snapshot announced busy q.connections
          → AllFit host marshal q.server.last_snapshot announced busy ds)
      → IsAlone q.poll_in_flight polls
      → HoldsBeside q.server q.connections polls
      → HoldsBeside q.server ds polls
  unfolding is_free
  clients-IsSound q ds [] f g k = record {
    current = k.current;
    tells = tt;
    clients = f false false refl k.clients;
  }
  clients-IsSound q ds (poll ∷ []) f g k = record {
    current = k.current;
    tells = k.tells;
    clients =
        f (is_announced host marshal poll) (is_busy host marshal poll) (is_free-alone poll)
          k.clients;
  }
  clients-IsSound q ds (poll ∷ other ∷ polls) f g k = absurd g

  step-IsSound : {q r : Process} → ProcessStep host marshal q r → IsSound q → IsSound r
  unfolding tick_process end_poll
  step-IsSound {q = q} (ticks now) h =
      begins-IsSound now q q.poll_in_flight q.polls h.guarded h.kept
  step-IsSound {q = q} (polls_on xs ys poll after s cs e mv) h =
      polls-IsSound q xs ys poll after s cs e mv h
  step-IsSound {q = q} (ends_poll xs ys e) h = ended-IsSound q xs ys e h
  step-IsSound {q = q} accepts h = record {
    guarded = h.guarded;
    kept =
        clients-IsSound q (q.connections ++ new_connection ∷ []) q.polls
          (λ announced busy free fits.
            All-append _ q.connections (new_connection ∷ []) fits
              (new_connection-Fits _ announced busy, tt))
          h.guarded h.kept;
  }
  step-IsSound {q = q} (streams xs ys c d e mv) h = record {
    guarded = h.guarded;
    kept =
        clients-IsSound q (xs ++ d ∷ ys) q.polls
          (λ announced busy free fits.
            All-replace _ xs ys c d (StreamMove-Fits mv free)
              (subst (AllFit host marshal q.server.last_snapshot announced busy) e fits))
          h.guarded h.kept;
  }

  module _ (files : Files) (compile : String → String → Result Schema) (cfg : Config) where
    pub runs-IsSound : {q : Process} → ProcessRuns host marshal files compile cfg q → IsSound q
    runs-IsSound (starts s e) = record {
      guarded = refl;
      kept = record {
        current = new_server-IsCurrent host files compile cfg s e;
        tells = tt;
        clients = tt;
      };
    }
    runs-IsSound (then_steps r st) = step-IsSound st (runs-IsSound r)
