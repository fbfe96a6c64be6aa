-- ===== src/Server/Pipeline.antt =====
-- About the way from the store's records to the wire (poll.go, algorithm.go, assemble.go): what the
-- lane of dispatches shows after a good scan.
use mathlib.Core.Option.{some-injective}
use star_car.Prelude.{
  ℕ, ◌≡◌, refl, sym, ap, ◌∙◌, subst, Bool, true, String, Option, some, List, ◌++◌, map, ltb, length,
  ok, option_list,
}
use star_car.Platform.{Platform}
use star_car.Time.Parse.{Time}
use star_car.Time.Format.{format_rfc3339}
use star_car.Fold.Record.{contains}
use star_car.Fold.Entry.{Output}
use star_car.Fold.Algorithm.{fold}
use star_car.Fold.Contract.{fold-total}
use star_car.Store.Types.{BoardCondition, ScanResult, Disk}
use star_car.Store.Scan.{scan}
use star_car.Server.Poll.{input_of, poll_once}
use star_car.Server.Polling.{IsCurrent, IsPolled, poll_once-IsPolled}
use star_car.Assemble.Build.{needs_attention, namespace_collision, assemble}
use star_car.Assemble.BoardDefs.{load_vocabularies}
use star_car.Assemble.Collisions.{in_both}
use star_car.Prelude.Strings.{IsAscending}
use star_car.Assemble.Expected.{claims, faults}
use star_car.Assemble.Surfaces.{Reencodes, collision_of, conditions-assemble}
use star_car.Server.Snapshot.{Snapshot}
use star_car.Server.Lanes.{
  Server, scan_done, build_lanes, add_lane, build_lane, live_payload, lane_data,
}
use star_car.Server.Build.{
  Host, budget_options, live_of_output, live_part, finish_snapshot, build_snapshot,
}
use star_car.Server.Rows.{Renders, assemble-Renders, payload_of, record_fields, manifests_of}

module _ ⦃p : Platform⦄ where
  -- The conditions that the server discloses whatever the scan gives.
  abbrev pub standing_conditions : Host → Server → List BoardCondition
  standing_conditions host s =
      (load_vocabularies s.cfg.board_defs_path (host.board_defs s.cfg.board_defs_path)).1
      ++ option_list s.vocab_load_condition
      ++ option_list s.default_budget_condition

  -- The conditions that a good scan adds to those, given the members that are claimed twice.
  abbrev pub found_conditions : ScanResult → Output → List String → List BoardCondition
  found_conditions result out collided =
      let ms = manifests_of result out in
      result.conditions
      ++ map (needs_attention "fold-fault") out.faults
      ++ map (needs_attention "discovery") out.discoveries
      ++ (map namespace_collision (in_both out)
          ++ faults result.records out.intents
          ++ map (collision_of ms) collided)

  -- What a snapshot shows of a good scan.
  pub record Shows (host : Host) (s : Server) (result : ScanResult) (now : Time) (snap : Snapshot)
      : Type 0 where
    pub out : Output
    pub lanes : Renders s.vocab s.default_budget result now out (λ id. payload_of id snap.lanes)
    pub collided : List String
    pub collided_at :
        (t : String) → contains collided t ≡ ltb 1 (length (claims (manifests_of result out) t))
    pub ascending : IsAscending collided
    pub told : snap.board ≡ standing_conditions host s ++ found_conditions result out collided

  module _ (h : Reencodes) (host : Host) (s : Server) (result : ScanResult) (now : Time) where
    board-finish :
        (out : Output) (collided : List String)
        → (assemble result.records out).conditions
          ≡ (map namespace_collision (in_both out) ++ faults result.records out.intents)
            ++ map (collision_of (manifests_of result out)) collided
        → (finish_snapshot host s (live_of_output s result now out)).0.board
          ≡ standing_conditions host s ++ found_conditions result out collided
    unfolding finish_snapshot live_of_output
    board-finish out collided e =
        ap
          (λ l.
            standing_conditions host s
            ++ (result.conditions
                ++ map (needs_attention "fold-fault") out.faults
                ++ map (needs_attention "discovery") out.discoveries
                ++ l))
          e

    Shows-finish :
        (out : Output)
        → fold (record_fields result.records) s.vocab now (budget_options s.default_budget)
          ≡ some out
        → Shows host s result now (finish_snapshot host s (live_of_output s result now out)).0
    unfolding finish_snapshot live_of_output build_lanes add_lane build_lane live_payload lane_data
    Shows-finish out ran =
        let (collided, at, ascending, said) = conditions-assemble result.records out h in
        record {
          out = out;
          lanes = assemble-Renders s.vocab s.default_budget result now out _ h ran refl refl refl;
          collided = collided;
          collided_at = at;
          ascending = ascending;
          told = board-finish out collided said;
        }

    -- A snapshot that is built from a scan shows what the scan has read.
    pub build_snapshot-Shows :
        (snap : Snapshot) (after : Server)
        → build_snapshot host s (scan_done result) now ≡ some (snap, after)
        → Shows host s result now snap
    unfolding build_snapshot live_part
    build_snapshot-Shows snap after built =
        let (out, ran) =
          fold-total (record_fields result.records) s.vocab now (budget_options s.default_budget) in
        let made : build_snapshot host s (scan_done result) now
            ≡ some (finish_snapshot host s (live_of_output s result now out)) =
          rw ran refl in
        let same : finish_snapshot host s (live_of_output s result now out) ≡ (snap, after) =
          some-injective _ _ (sym made ∙ built) in
        subst (λ (x : Snapshot × Server). Shows host s result now x.0) same (Shows-finish out ran)

    -- The lanes and the conditions are all that counts.
    Shows-numbered :
        (snap : Snapshot) (n : ℕ) (text : Option String)
        → Shows host s result now snap
        → Shows host s result now (record snap { seq = n; as_of = text })
    Shows-numbered snap n text k = record {
      out = k.out;
      lanes = k.lanes;
      collided = k.collided;
      collided_at = k.collided_at;
      ascending = k.ascending;
      told = k.told;
    }

    -- Suppose a map of decoded values is marshalled and decoded to itself, and the server's
    -- comparison basis and number fit its snapshot. If the scan of a poll succeeds and the poll
    -- reports a change, the snapshot that it returns is the current one. Its three live lanes show
    -- what assembly is specified to make of one fold of the scanned records: the gates, the
    -- trains, and the dispatches in strictly ascending order of their subjects, where each subject
    -- has the rendering of exactly the entry that its own dispatch records give with the default
    -- budget, and there is no other. Its conditions are the standing ones of the server, those of
    -- the scan, the fold's faults and discoveries, and those of the assembly, in this order.
    pub poll_once-Shows :
        (disk : Disk) (snap : Snapshot) (after : Server)
        → IsCurrent host s
        → scan s.adapter disk s.cfg.store_path now ≡ ok result
        → poll_once host disk s now ≡ some ((snap, true), after)
        → (snap ≡ after.last_snapshot) × Shows host s result now after.last_snapshot
    unfolding input_of
    poll_once-Shows disk snap after c found ran =
        let (snap', changed, after', candidate, built, polled, made, h) =
          poll_once-IsPolled host disk s now c in
        let same : ((snap', changed), after') ≡ ((snap, true), after) =
          some-injective _ _ (sym polled ∙ ran) in
        let h' =
          subst
            (λ (x : (Snapshot × Bool) × Server). IsPolled host now candidate (x.0).0 (x.0).1 s x.1)
            same h in
        let built' =
          subst (λ r. build_snapshot host s (input_of r) now ≡ some (candidate, built)) found
            made in
        (
          h'.served,
          subst (Shows host s result now) (sym (h'.taken refl)) (
              Shows-numbered candidate after.seq (some (format_rfc3339 now))
                (build_snapshot-Shows candidate built built')),
        )
