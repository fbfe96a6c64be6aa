-- ===== src/Server/Process/Starts.antt =====
-- About the server that `NewServer` (poll.go) returns.
use star_car.Prelude.{◌≡◌, refl, sym, ◌∙◌, subst, String, some, [], map, Result, ok, err}
use star_car.Platform.{Platform}
use star_car.Fold.Loaders.{Files}
use star_car.Store.Types.{Schema, Adapter}
use star_car.Store.Scan.{new_adapter}
use star_car.Server.Config.{Config}
use star_car.Server.Lanes.{Server, no_data}
use star_car.Server.Build.{Host, finish_snapshot}
use star_car.Server.Poll.{start_server, first_snapshot, new_server}
use star_car.Server.Polling.{IsCurrent, first_part}
use star_car.Server.Strip.{must_marshal_stripped}
use star_car.Server.Freshness.{never_polled}
use star_car.Server.Snapshot.{lane_registry}
use star_car.Server.Completeness.{frame_of, expected_frame, build_lanes-frames}

module _ ⦃p : Platform⦄ (host : Host) (files : Files) (compile : String → String → Result Schema)
    (cfg : Config) where
  -- `NewServer` fails exactly as the adapter does, and else gives a server that fits its first
  -- snapshot; in that, every live lane is "never-polled".
  abbrev pub IsStarted : Result Adapter → Type 0
  IsStarted (err e) = new_server host files compile cfg ≡ err e
  IsStarted (ok a) =
      (s : Server) × (new_server host files compile cfg ≡ ok (some s))
      × IsCurrent host s
      × (s.adapter ≡ a)
      × (map frame_of s.last_snapshot.lanes ≡ map (expected_frame never_polled) lane_registry)
      × (s.seq ≡ 0)

  starts_with : (r : Result Adapter) → new_adapter compile cfg.schema_dir ≡ r → IsStarted r
  unfolding new_server start_server first_snapshot finish_snapshot
  starts_with (err e) k = rw k refl
  starts_with (ok a) k =
      let (snap, built) =
        finish_snapshot host (start_server host.tools files cfg a) (first_part host) in
      (
        record built { last_snapshot = snap; last_compare = must_marshal_stripped host snap },
        rw k refl,
        record { basis = refl; number = refl },
        refl,
        build_lanes-frames never_polled no_data [],
        refl,
      )

  -- NewServer fails with exactly the error with which the adapter fails. Where the adapter is
  -- compiled, it returns a server, without a panic and whatever cannot be read, that has this
  -- adapter and the number 0, whose comparison basis and number fit its snapshot, and whose
  -- snapshot has the registry's lanes, the live ones "never-polled".
  pub new_server-IsStarted : IsStarted (new_adapter compile cfg.schema_dir)
  new_server-IsStarted = starts_with (new_adapter compile cfg.schema_dir) refl

  pub new_server-IsCurrent :
      (s : Server) → new_server host files compile cfg ≡ ok (some s) → IsCurrent host s
  new_server-IsCurrent s h = fits (new_adapter compile cfg.schema_dir) new_server-IsStarted
    where
      fits : (r : Result Adapter) → IsStarted r → IsCurrent host s
      fits (err e) k = absurd (cc (h, k))
      fits (ok a) (t, ran, c, kept, frames, number) =
          let same : ok (some t) ≡ ok (some s) = sym ran ∙ h in
          let alike : t ≡ s = cc same in subst (IsCurrent host) alike c
