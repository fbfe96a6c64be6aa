-- ===== src/Server/Polling.antt =====
-- About `PollOnce` (poll.go) and the snapshot before it.
use star_car.Prelude.{
  ◌+◌, ◌%◌, ◌^◌, ◌≡◌, refl, sym, ap, subst, Bool, true, false, not, none, some, [], ◌==◌,
  if◌then◌else◌,
}
use star_car.Platform.{Platform}
use star_car.Time.Parse.{Time}
use star_car.Time.Format.{format_rfc3339}
use star_car.Store.Types.{Disk}
use star_car.Store.Scan.{scan}
use star_car.Server.Snapshot.{Snapshot}
use star_car.Server.Freshness.{never_polled}
use star_car.Server.Lanes.{Server, no_data}
use star_car.Server.Build.{Host, LivePart, finish_snapshot, build_snapshot}
use star_car.Server.Strip.{must_marshal_stripped}
use star_car.Server.Poll.{increment, input_of, settle, compare_and_set, poll_once, first_snapshot}
use star_car.Server.Completeness.{build_snapshot-total}

module _ ⦃p : Platform⦄ (host : Host) where
  -- The comparison basis is that of the current snapshot, which carries the current number.
  pub record IsCurrent (s : Server) : Type 0 where
    pub basis : s.last_compare ≡ must_marshal_stripped host s.last_snapshot
    pub number : s.last_snapshot.seq ≡ s.seq

  -- What a poll leaves behind: it compares the candidate with the snapshot that stands.
  pub record IsPolled (now : Time) (candidate snap : Snapshot) (changed : Bool)
      (before after : Server) : Type 0 where
    pub compared :
        changed
        ≡ not (
            must_marshal_stripped host candidate == must_marshal_stripped host before.last_snapshot)
    pub served : snap ≡ after.last_snapshot
    pub kept : changed ≡ false → after.last_snapshot ≡ before.last_snapshot
    pub taken :
        changed ≡ true
        → after.last_snapshot
          ≡ record candidate { seq = after.seq; as_of = some (format_rfc3339 now) }
    pub counted : after.seq ≡ (if changed then (before.seq + 1) % 2 ^ 64 else before.seq)
    pub noted : after.last_poll_at ≡ some now
    pub current : IsCurrent after

  settle-IsPolled :
      (now : Time) (candidate : Snapshot) (s : Server) (b : Bool)
      → (must_marshal_stripped host candidate == s.last_compare) ≡ b
      → IsCurrent s
      → let r = settle host now candidate s b in IsPolled now candidate (r.0).0 (r.0).1 s r.1
  unfolding settle increment
  settle-IsPolled now candidate s true e c = record {
    compared =
        sym (ap not (subst (λ x. (must_marshal_stripped host candidate == x) ≡ true) c.basis e));
    served = refl;
    kept = λ h. refl;
    taken = λ h. cc h;
    counted = refl;
    noted = refl;
    current = record { basis = c.basis; number = c.number };
  }
  settle-IsPolled now candidate s false e c = record {
    compared =
        sym (ap not (subst (λ x. (must_marshal_stripped host candidate == x) ≡ false) c.basis e));
    served = refl;
    kept = λ h. cc h;
    taken = λ h. refl;
    counted = refl;
    noted = refl;
    current = record { basis = refl; number = refl };
  }

  pub compare_and_set-IsPolled :
      (now : Time) (candidate : Snapshot) (s : Server)
      → IsCurrent s
      → let r = compare_and_set host now candidate s in IsPolled now candidate (r.0).0 (r.0).1 s r.1
  unfolding compare_and_set
  compare_and_set-IsPolled now candidate s c = settle-IsPolled now candidate s _ refl c

  -- A build leaves the snapshot that stands, its basis and its number alone.
  pub finish-IsCurrent :
      (s : Server) (live : LivePart) → IsCurrent s → IsCurrent (finish_snapshot host s live).1
  unfolding finish_snapshot
  finish-IsCurrent s live c = record { basis = c.basis; number = c.number }

  abbrev pub first_part : LivePart
  first_part = record {
    conditions = [];
    freshness = never_polled;
    source = no_data;
    new_last_good = none;
  }

  -- From a server whose number is 0, the snapshot before the first poll is built without a panic,
  -- and the comparison basis and the number then fit it.
  pub first_snapshot-IsCurrent :
      (s : Server) → s.seq ≡ 0 → (t : Server) × (first_snapshot host s ≡ some t) × IsCurrent t
  unfolding first_snapshot finish_snapshot
  first_snapshot-IsCurrent s z =
      let (snap, built) = finish_snapshot host s first_part in
      (
        record built { last_snapshot = snap; last_compare = must_marshal_stripped host snap },
        refl,
        record { basis = refl; number = sym z },
      )

  -- If the server's comparison basis is that of its snapshot and its number is the snapshot's, a
  -- poll returns (it does not panic), from a candidate that is built from the scan. It reports a
  -- change exactly if candidate and standing snapshot marshal differently once stripped of numbers
  -- and timestamps. Without a change the standing snapshot is kept and the number too; with one
  -- the candidate becomes current with the next number, modulo 2 ^ 64, and the time of the poll.
  -- The time of the poll is noted either way, and basis and number fit the snapshot again.
  pub poll_once-IsPolled :
      (disk : Disk) (s : Server) (now : Time)
      → IsCurrent s
      → (snap : Snapshot) × (changed : Bool) × (after : Server) × (candidate : Snapshot)
        × (built : Server) × (poll_once host disk s now ≡ some ((snap, changed), after))
        × (build_snapshot host s (input_of (scan s.adapter disk s.cfg.store_path now)) now
            ≡ some (candidate, built))
        × IsPolled now candidate snap changed s after
  unfolding poll_once finish_snapshot
  poll_once-IsPolled disk s now c =
      let input = input_of (scan s.adapter disk s.cfg.store_path now) in
      let (live, found, ran) = build_snapshot-total host s input now in
      let (candidate, built) = finish_snapshot host s live in
      let r = compare_and_set host now candidate built in
      let h = compare_and_set-IsPolled now candidate built (finish-IsCurrent s live c) in
      (
        (r.0).0,
        (r.0).1,
        r.1,
        candidate,
        built,
        rw found refl,
        ran,
        record {
          compared = h.compared;
          served = h.served;
          kept = h.kept;
          taken = h.taken;
          counted = h.counted;
          noted = h.noted;
          current = h.current;
        },
      )
