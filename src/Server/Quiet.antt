-- ===== src/Server/Quiet.antt =====
-- About two polls in a row (poll.go) that read the same records: what the clock alone changes.
use mathlib.Core.Option.{some-injective}
use star_car.Prelude.{
  ℕ, ◌≡◌, refl, sym, ap, ap₂, ◌++◌, ◌∙◌, subst, Bool, true, false, String, Option, none, some, List,
  map, ◌==◌, eq_iff, ok, All, Result,
}
use star_car.Platform.{Platform}
use star_car.Time.Parse.{Time}
use star_car.Time.Format.{format_rfc3339}
use star_car.Fold.Entry.{Output}
use star_car.Fold.Algorithm.{fold}
use star_car.Fold.Ageless.{IsAgeless, fold-ageless}
use star_car.Store.Types.{StoreRecord, ScanResult, Disk}
use star_car.Store.Scan.{scan}
use star_car.Assemble.Types.{Assembled}
use star_car.Assemble.Build.{
  needs_attention, assemble, add_intents, start_progress, collided_subjects,
}
use star_car.Server.Snapshot.{LaneData, Freshness, Snapshot}
use star_car.Server.Freshness.{compute_live_freshness}
use star_car.Server.Lanes.{Server, current, build_lanes, add_lane, build_lane}
use star_car.Server.Build.{
  Host, budget_options, live_part, live_of_output, finish_snapshot, build_snapshot,
}
use star_car.Server.Strip.{strip, strip_lane, must_marshal_stripped}
use star_car.Server.Poll.{input_of, settle, compare_and_set, poll_once}
use star_car.Assemble.BoardDefs.{RawVocabularies}
use star_car.Server.Display.{store_path_display}
use star_car.Server.Again.{later_host, finish_snapshot-later}
use star_car.Server.Rows.{record_fields}

module _ ⦃p : Platform⦄ where
  -- Nothing that assembly reads of the fold's output is its time.
  assemble-ageless :
      (records : List StoreRecord) (out : Output) (text : String)
      → assemble records (record out { generated_at = text }) ≡ assemble records out
  unfolding assemble add_intents start_progress collided_subjects
  assemble-ageless records out text = refl

  -- A freshness as change detection sees it.
  abbrev pub bare : Freshness → Freshness
  bare f = record f { as_of = none; last_good_as_of = none }

  module _ (host : Host) where
    -- The candidate that a poll at this time builds of these records.
    abbrev candidate : Server → ScanResult → Time → Output → Snapshot
    candidate s result now out = (finish_snapshot host s (live_of_output s result now out)).0

    abbrev pub freshness_of : Server → ScanResult → Time → Freshness
    freshness_of s result now =
        compute_live_freshness result.records now s.cfg.staleness_ms (format_rfc3339 now)

    -- What change detection sees of a candidate with this freshness and assembly.
    abbrev seen : Server → ScanResult → Output → Freshness → Assembled → Snapshot
    seen s result out f a =
        strip
          (finish_snapshot host s (record {
            conditions =
                result.conditions
                ++ map (needs_attention "fold-fault") out.faults
                ++ map (needs_attention "discovery") out.discoveries
                ++ a.conditions;
            freshness = f;
            source = current a;
            new_last_good = none;
          })).0

    strip-candidate :
        (s : Server) (result : ScanResult) (now : Time) (out : Output)
        → strip (candidate s result now out)
          ≡ seen s result out (bare (freshness_of s result now)) (assemble result.records out)
    unfolding strip strip_lane finish_snapshot live_of_output build_lanes add_lane build_lane
    strip-candidate s result now out = refl

    strip-ageless :
        (s : Server) (result : ScanResult) (now later : Time) (out : Output)
        → bare (freshness_of s result later) ≡ bare (freshness_of s result now)
        → strip (candidate s result later (record out { generated_at = format_rfc3339 later }))
          ≡ strip (candidate s result now out)
    strip-ageless s result now later out h =
        strip-candidate s result later (record out { generated_at = format_rfc3339 later })
        ∙ ap₂ (seen s result out) h (assemble-ageless result.records out (format_rfc3339 later))
        ∙ sym (strip-candidate s result now out)

    pub poll-scanned :
        (disk : Disk) (s : Server) (result : ScanResult) (now : Time) (out : Output)
        → scan s.adapter disk s.cfg.store_path now ≡ ok result
        → fold (record_fields result.records) s.vocab now (budget_options s.default_budget)
          ≡ some out
        → let made = finish_snapshot host s (live_of_output s result now out) in
          poll_once host disk s now ≡ some (compare_and_set host now made.0 made.1)
    unfolding poll_once build_snapshot live_part input_of
    poll-scanned disk s result now out found ran = rw (found, ran) refl

    settles_quietly :
        (later : Time) (c : Snapshot) (t : Server)
        → must_marshal_stripped host c ≡ t.last_compare
        → compare_and_set host later c t
          ≡ ((t.last_snapshot, false), record t { last_poll_at = some later })
    unfolding compare_and_set settle
    settles_quietly later c t h =
        ap (settle host later c t) ((eq_iff (must_marshal_stripped host c) t.last_compare).1 h)

    -- What the first poll leaves behind as its comparison basis.
    settled_basis :
        (now : Time) (c : Snapshot) (t : Server) (b : Bool)
        → (must_marshal_stripped host c == t.last_compare) ≡ b
        → (settle host now c t b).1.last_compare ≡ must_marshal_stripped host c
    unfolding settle must_marshal_stripped strip
    settled_basis now c t true e = sym ((eq_iff (must_marshal_stripped host c) t.last_compare).0 e)
    settled_basis now c t false e = refl

    -- A poll reports no change and leaves snapshot and number as they are.
    abbrev pub IsQuiet : Disk → Time → (Snapshot × Bool) × Server → Type 0
    IsQuiet disk later ((snap, changed), after) =
        (last : Server) × (poll_once host disk after later ≡ some ((snap, false), last))
        × (last.last_snapshot ≡ snap)
        × (last.seq ≡ after.seq)

  module _ (host : Host) (board_defs : String → Result (Result RawVocabularies))
      (cwd home : String) where
    module _ (second : Disk) (s : Server) (result : ScanResult) (now later : Time) (out : Output)
        (ran : fold (record_fields result.records) s.vocab now (budget_options s.default_budget)
          ≡ some out)
        (ageless : All IsAgeless out.dispatches)
        (same : bare (freshness_of host s result later)
          ≡ bare (freshness_of host s result now)) where
      abbrev made : Snapshot × Server
      made = finish_snapshot host s (live_of_output s result now out)

      ran_again :
          fold (record_fields result.records) s.vocab later (budget_options s.default_budget)
          ≡ some (record out { generated_at = format_rfc3339 later })
      ran_again =
          fold-ageless (record_fields result.records) s.vocab now later
            (budget_options s.default_budget) out ran ageless

      -- A server with the settings of this one.
      abbrev with_state :
          ℕ → Snapshot → String → Option Time → Option String → List (String × LaneData) → Server
      with_state n snap basis at good store = record s {
        seq = n;
        last_snapshot = snap;
        last_compare = basis;
        last_poll_at = at;
        last_good_as_of = good;
        last_good_lane_data = store;
      }

      polls_again :
          (n : ℕ) (snap : Snapshot) (changed : Bool) (basis : String) (at : Option Time)
          (good : Option String) (store : List (String × LaneData))
          → scan s.adapter second s.cfg.store_path later ≡ ok result
          → basis ≡ must_marshal_stripped host made.0
          → board_defs s.cfg.board_defs_path ≡ host.board_defs s.cfg.board_defs_path
          → store_path_display host.tools s.cfg.store_path cwd home
            ≡ store_path_display host.tools s.cfg.store_path host.cwd host.home
          → IsQuiet
              (later_host host board_defs cwd home)
              second
              later
              ((snap, changed), with_state n snap basis at good store)
      unfolding finish_snapshot live_of_output must_marshal_stripped strip
      polls_again n snap changed basis at good store found e d w =
          let t = with_state n snap basis at good store in
          let live =
            live_of_output t result later (record out { generated_at = format_rfc3339 later }) in
          let around = later_host host board_defs cwd home in
          let next = finish_snapshot around t live in
          (
            _,
            poll-scanned around second t result later _ found ran_again
                ∙ ap some (
                    settles_quietly around later next.0 next.1 (
                      ap (λ (x : Snapshot × Server). host.marshal (strip x.0))
                        (finish_snapshot-later host board_defs cwd home t live d w)
                      ∙ ap host.marshal (strip-ageless host s result now later out same)
                      ∙ sym e)),
            refl,
            refl,
          )

      settle-IsQuiet :
          (b : Bool)
          → (must_marshal_stripped host made.0 == made.1.last_compare) ≡ b
          → let r = settle host now made.0 made.1 b in
            scan (r.1).adapter second (r.1).cfg.store_path later ≡ ok result
            → board_defs (r.1).cfg.board_defs_path ≡ host.board_defs (r.1).cfg.board_defs_path
            → store_path_display host.tools (r.1).cfg.store_path cwd home
              ≡ store_path_display host.tools (r.1).cfg.store_path host.cwd host.home
            → IsQuiet (later_host host board_defs cwd home) second later r
      unfolding settle finish_snapshot
      settle-IsQuiet true e found =
          polls_again _ _ false _ _ _ _ found (settled_basis host now made.0 made.1 true e)
      settle-IsQuiet false e found =
          polls_again _ _ true _ _ _ _ found (settled_basis host now made.0 made.1 false e)

      -- Suppose that a poll's scan and the next poll's scan give the same result, that the file of
      -- the presentational vocabularies reads the same at both polls, that the store's path is
      -- displayed the same at both, that no entry which the fold makes of it has a winner of kind
      -- "dispatched", and that the freshness at both times differs in nothing but its timestamps.
      -- If the first poll returns, with or without a change, the second one returns and reports no
      -- change, and snapshot and number stay as the first has left them.
      pub poll_once-IsQuiet :
          (first : Disk) (snap : Snapshot) (changed : Bool) (after : Server)
          → scan s.adapter first s.cfg.store_path now ≡ ok result
          → poll_once host first s now ≡ some ((snap, changed), after)
          → scan after.adapter second after.cfg.store_path later ≡ ok result
          → board_defs after.cfg.board_defs_path ≡ host.board_defs after.cfg.board_defs_path
          → store_path_display host.tools after.cfg.store_path cwd home
            ≡ store_path_display host.tools after.cfg.store_path host.cwd host.home
          → IsQuiet (later_host host board_defs cwd home) second later ((snap, changed), after)
      unfolding compare_and_set
      poll_once-IsQuiet first snap changed after found polled again d w =
          let once : compare_and_set host now made.0 made.1 ≡ ((snap, changed), after) =
            some-injective _ _
              (sym (poll-scanned host first s result now out found ran) ∙ polled) in
          subst
            (λ (x : (Snapshot × Bool) × Server).
              scan (x.1).adapter second (x.1).cfg.store_path later ≡ ok result
              → board_defs (x.1).cfg.board_defs_path ≡ host.board_defs (x.1).cfg.board_defs_path
              → store_path_display host.tools (x.1).cfg.store_path cwd home
                ≡ store_path_display host.tools (x.1).cfg.store_path host.cwd host.home
              → IsQuiet (later_host host board_defs cwd home) second later x)
            once (settle-IsQuiet _ refl) again d w
