-- ===== src/Server/Steady.antt =====
-- About two polls in a row (poll.go) of a store that cannot be read.
use mathlib.Core.Option.{some-injective}
use star_car.Prelude.{
  ◌≡◌, refl, sym, ap, ◌∙◌, subst, Bool, true, false, String, some, ◌==◌, eq_refl, err, Result,
}
use star_car.Platform.{Platform}
use star_car.Time.Parse.{Time}
use star_car.Store.Types.{Disk}
use star_car.Store.Scan.{scan}
use star_car.Server.Snapshot.{Snapshot}
use star_car.Server.Lanes.{Server}
use star_car.Server.Build.{Host, live_part, finish_snapshot, build_snapshot}
use star_car.Server.Strip.{strip, must_marshal_stripped}
use star_car.Server.Poll.{input_of, settle, compare_and_set, poll_once}
use star_car.Assemble.BoardDefs.{RawVocabularies}
use star_car.Server.Display.{store_path_display}
use star_car.Server.Again.{later_host, finish_snapshot-later, compare_and_set-later}
use star_car.Server.Retained.{failed_freshness, failed_part, build_lanes-failed_store}

module _ ⦃p : Platform⦄ (host : Host) where
  -- The server after the build of a failed scan is the server before it.
  finish-failed : (s : Server) (e : String) → (finish_snapshot host s (failed_part s e)).1 ≡ s
  unfolding finish_snapshot
  finish-failed s e =
      ap (λ x. record s { last_good_lane_data = x })
        (build_lanes-failed_store (failed_freshness e s.last_good_as_of) s.last_good_lane_data)

  poll-failed :
      (disk : Disk) (s : Server) (now : Time) (e : String)
      → scan s.adapter disk s.cfg.store_path now ≡ err e
      → poll_once host disk s now
        ≡ some (compare_and_set host now (finish_snapshot host s (failed_part s e)).0 s)
  unfolding poll_once build_snapshot live_part input_of
  poll-failed disk s now e h = rw h (
      ap (λ x. some (compare_and_set host now (finish_snapshot host s (failed_part s e)).0 x))
        (finish-failed s e))

module _ ⦃p : Platform⦄ (host : Host) where
  -- What a poll leaves behind: a failed scan's snapshot would be built from it as before, and it
  -- does not differ from the one that stands.
  settle-steady :
      (s : Server) (now later : Time) (e : String) (b : Bool)
      → let c = (finish_snapshot host s (failed_part s e)).0 in
        (must_marshal_stripped host c == s.last_compare) ≡ b
        → let r = settle host now c s b in
          compare_and_set host later (finish_snapshot host r.1 (failed_part r.1 e)).0 r.1
          ≡ (((r.0).0, false), record (r.1) { last_poll_at = some later })
  unfolding settle compare_and_set finish_snapshot must_marshal_stripped strip
  settle-steady s now later e true h =
      let c = (finish_snapshot host s (failed_part s e)).0 in
      ap (settle host later c (settle host now c s true).1) h
  settle-steady s now later e false h =
      let c = (finish_snapshot host s (failed_part s e)).0 in
      ap (settle host later c (settle host now c s false).1)
        (eq_refl (must_marshal_stripped host c))

  module _ (board_defs : String → Result (Result RawVocabularies)) (cwd home : String) where
    abbrev Steady : Disk → Time → String → (Snapshot × Bool) × Server → Type 0
    Steady disk later e ((snap, changed), after) =
        scan after.adapter disk after.cfg.store_path later ≡ err e
        → board_defs after.cfg.board_defs_path ≡ host.board_defs after.cfg.board_defs_path
        → store_path_display host.tools after.cfg.store_path cwd home
          ≡ store_path_display host.tools after.cfg.store_path host.cwd host.home
        → poll_once (later_host host board_defs cwd home) disk after later
          ≡ some ((snap, false), record after { last_poll_at = some later })

    -- A poll with the surroundings of another time.
    poll-failed_later :
        (disk : Disk) (s : Server) (later : Time) (e : String)
        → scan s.adapter disk s.cfg.store_path later ≡ err e
        → board_defs s.cfg.board_defs_path ≡ host.board_defs s.cfg.board_defs_path
        → store_path_display host.tools s.cfg.store_path cwd home
          ≡ store_path_display host.tools s.cfg.store_path host.cwd host.home
        → poll_once (later_host host board_defs cwd home) disk s later
          ≡ some (compare_and_set host later (finish_snapshot host s (failed_part s e)).0 s)
    poll-failed_later disk s later e h d w =
        poll-failed (later_host host board_defs cwd home) disk s later e h
        ∙ ap some (
            compare_and_set-later host board_defs cwd home later _ s
            ∙ ap (λ (x : Snapshot × Server). compare_and_set host later x.0 s)
                (finish_snapshot-later host board_defs cwd home s (failed_part s e) d w))

    -- Suppose that a poll's scan fails and the next poll's scan fails with the same error, that
    -- the file of the presentational vocabularies reads the same at both polls, and that the
    -- store's path is displayed the same at both, also where the working directory or the home
    -- directory has changed. Then the second poll reports no change: it keeps the snapshot and the
    -- number that the first has left, and only notes its own time.
    pub poll_once-steady :
        (first second : Disk) (s : Server) (now later : Time) (e : String) (snap : Snapshot)
        (changed : Bool) (after : Server)
        → scan s.adapter first s.cfg.store_path now ≡ err e
        → poll_once host first s now ≡ some ((snap, changed), after)
        → scan after.adapter second after.cfg.store_path later ≡ err e
        → board_defs after.cfg.board_defs_path ≡ host.board_defs after.cfg.board_defs_path
        → store_path_display host.tools after.cfg.store_path cwd home
          ≡ store_path_display host.tools after.cfg.store_path host.cwd host.home
        → poll_once (later_host host board_defs cwd home) second after later
          ≡ some ((snap, false), record after { last_poll_at = some later })
    unfolding compare_and_set
    poll_once-steady first second s now later e snap changed after h ran k d w =
        let c = (finish_snapshot host s (failed_part s e)).0 in
        let once : compare_and_set host now c s ≡ ((snap, changed), after) =
          some-injective _ _ (sym (poll-failed host first s now e h) ∙ ran) in
        subst (Steady second later e) once
          (λ q d' w'.
            poll-failed_later second (compare_and_set host now c s).1 later e q d' w'
            ∙ ap some (settle-steady s now later e _ refl))
          k d w
