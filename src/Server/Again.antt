-- ===== src/Server/Again.antt =====
-- About two builds of a snapshot (poll.go): what is read anew for each of them.
use star_car.Prelude.{◌≡◌, refl, String, Result}
use star_car.Platform.{Platform}
use star_car.Time.Parse.{Time}
use star_car.Assemble.BoardDefs.{RawVocabularies}
use star_car.Server.Display.{store_path_display}
use star_car.Server.Snapshot.{Snapshot}
use star_car.Server.Lanes.{Server}
use star_car.Server.Build.{Host, LivePart, finish_snapshot}
use star_car.Server.Strip.{must_marshal_stripped}
use star_car.Server.Poll.{settle, compare_and_set}

module _ ⦃p : Platform⦄ (host : Host) (board_defs : String → Result (Result RawVocabularies))
    (cwd home : String) where
  -- The surroundings at another time, with the same tools and the same `json.Marshal`.
  abbrev pub later_host : Host
  later_host = record host { board_defs = board_defs; cwd = cwd; home = home }

  -- What is read anew gives the same as before, at the paths of this server.
  pub finish_snapshot-later :
      (s : Server) (live : LivePart)
      → board_defs s.cfg.board_defs_path ≡ host.board_defs s.cfg.board_defs_path
      → store_path_display host.tools s.cfg.store_path cwd home
        ≡ store_path_display host.tools s.cfg.store_path host.cwd host.home
      → finish_snapshot later_host s live ≡ finish_snapshot host s live
  unfolding finish_snapshot
  finish_snapshot-later s live same_defs same_display = rw (same_defs, same_display) refl

  pub compare_and_set-later :
      (now : Time) (c : Snapshot) (s : Server)
      → compare_and_set later_host now c s ≡ compare_and_set host now c s
  unfolding compare_and_set settle must_marshal_stripped
  compare_and_set-later now c s = refl
