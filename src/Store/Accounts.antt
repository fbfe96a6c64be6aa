-- ===== src/Store/Accounts.antt =====
-- About the result of `Scan` (store.go): its counts, its records and their order.
use mathlib.Core.List.{Perm}
use star_car.Prelude.{
  ◌+◌, ◌≡◌, ◌≤◌, refl, ap, ◌∙◌, Bool, true, false, String, some, List, Result, ok, err, All,
  All-imp, length,
}
use star_car.Prelude.Strings.{sort_strings-eq_of_perm}
use star_car.Time.Parse.{Time, parse_rfc3339}
use star_car.Fold.Winner.{parse_instant}
use star_car.Platform.{Platform}
use star_car.Json.{text_or_empty}
use star_car.Store.Types.{ScanResult, Adapter, Disk}
use star_car.Store.Scan.{scan_collected, scan_stat, collect, scan_paths, scan}
use star_car.Store.Soundness.{IsSound, parse_instant-IsSound}
use star_car.Store.Readings.{scan_paths-accounts, scan_paths-IsSound}

module _ ⦃p : Platform⦄ where
  module _ (a : Adapter) (disk : Disk) (root : String) (now : Time) where
    collected-inversion :
        (c : Result (List String)) (r : ScanResult)
        → scan_collected a disk root now c ≡ ok r
        → (paths : List String) × (c ≡ ok paths) × (r ≡ scan_paths a disk root now paths)
    unfolding scan_collected
    collected-inversion (err e) r h = absurd (cc)
    collected-inversion (ok paths) r h = (paths, refl, cc)

    stat-inversion :
        (s : Result Bool) (r : ScanResult)
        → scan_stat a disk root now s ≡ ok r
        → (paths : List String) × (s ≡ ok true)
          × (collect (disk.walk root) ≡ ok paths)
          × (r ≡ scan_paths a disk root now paths)
    unfolding scan_stat
    stat-inversion (err e) r h = absurd (cc)
    stat-inversion (ok false) r h = absurd (cc)
    stat-inversion (ok true) r h =
        let (paths, e, k) = collected-inversion (collect (disk.walk root)) r h in
        (paths, refl, e, k)

    -- A scan that succeeds is that of the files that a walk over a directory collected.
    pub scan-inversion :
        (r : ScanResult)
        → scan a disk root now ≡ ok r
        → (paths : List String) × (disk.stat root ≡ ok true)
          × (collect (disk.walk root) ≡ ok paths)
          × (r ≡ scan_paths a disk root now paths)
    unfolding scan
    scan-inversion r = stat-inversion (disk.stat root) r

    -- If a scan succeeds, its root is a directory whose walk collected some paths, and the records
    -- and the quarantined files together are as many as those paths.
    pub scan-accounts :
        (r : ScanResult)
        → scan a disk root now ≡ ok r
        → (paths : List String) × (disk.stat root ≡ ok true)
          × (collect (disk.walk root) ≡ ok paths)
          × (length r.records + length r.quarantined ≡ length paths)
    scan-accounts r h =
        let (paths, dir, walked, e) = scan-inversion r h in
        (
          paths,
          dir,
          walked,
          ap (λ (x : ScanResult). length x.records + length x.quarantined) e
              ∙ scan_paths-accounts a disk root now paths,
        )

    -- Every record that a successful scan returns decodes into the known fields, passes both
    -- schemas and has a readable instant that is not in the future.
    pub scan-IsSound :
        (r : ScanResult)
        → scan a disk root now ≡ ok r
        → All (λ rec. IsSound a now rec.fields) r.records
    scan-IsSound r h =
        let (paths, dir, walked, e) = scan-inversion r h in
        rw e (scan_paths-IsSound a disk root now paths)

    -- The order in which the walk meets the files has no influence on the result of a scan.
    pub scan_paths-perm :
        (ps qs : List String)
        → Perm ps qs
        → scan_paths a disk root now ps ≡ scan_paths a disk root now qs
    unfolding scan_paths
    scan_paths-perm ps qs h = rw (sort_strings-eq_of_perm ps qs h)

    -- The fold reads, of every record that a successful scan returns, the very instant that its
    -- `at` holds, which is not after the scan's now: it never falls back on the epoch.
    pub parse_instant-scan :
        (r : ScanResult)
        → scan a disk root now ≡ ok r
        → All
            (λ rec.
              (t : Time) × (parse_rfc3339 (text_or_empty rec.fields "at") ≡ some t)
              × (parse_instant rec.fields ≡ t)
              × (t ≤ now))
            r.records
    parse_instant-scan r h =
        All-imp
          (λ rec s. (
            s.instant,
            s.parsed,
            parse_instant-IsSound a now rec.fields s.instant s.parsed,
            s.past,
          ))
          r.records (scan-IsSound r h)
