-- ===== src/Server/Strip.antt =====
-- poll.go: `mustMarshalStripped`, the basis of change detection.
use star_car.Prelude.{Bool, not, String, none, map, ◌==◌, str_less, if◌then◌else◌}
use star_car.Prelude.Sort.{sort_stable}
use star_car.Platform.{Platform}
use star_car.Store.Types.{BoardCondition}
use star_car.Server.Snapshot.{Lane, Snapshot}
use star_car.Server.Build.{Host}

-- The `less` of the sort of the conditions. What ties in it is equal in code and detail.
unfoldable pub condition_less : BoardCondition → BoardCondition → Bool
condition_less a b =
    if not (a.code == b.code) then str_less a.code b.code else str_less a.detail b.detail

module _ ⦃p : Platform⦄ where
  unfoldable pub strip_lane : Lane → Lane
  strip_lane l = record l {
    freshness = record l.freshness { as_of = none; last_good_as_of = none };
  }

  unfoldable pub strip : Snapshot → Snapshot
  unfolding strip_lane condition_less
  strip snap = record snap {
    seq = 0;
    as_of = none;
    lanes = map strip_lane snap.lanes;
    board = sort_stable condition_less snap.board;
  }

  unfoldable pub must_marshal_stripped : Host → Snapshot → String
  unfolding strip
  must_marshal_stripped host snap = host.marshal (strip snap)
