-- ===== src/Store/Failures.antt =====
-- About `Scan` (store.go): when it fails, with which text, and what a successful scan covers.
use star_car.Prelude.{
  ℕ, ◌+◌, ◌≡◌, refl, ap, ◌∙◌, Bool, true, false, not, ◌&&◌, String, List, [], ◌∷◌, ◌++◌, ◌==◌,
  Result, ok, err, All, length, sprint, or_fail, if◌then◌else◌, arith,
}
use star_car.Time.Parse.{Time}
use star_car.Platform.{Platform}
use star_car.Paths.{ext}
use star_car.Store.Types.{ScanResult, Adapter, Visit, failed, entry, Disk}
use star_car.Store.Scan.{collect, scan_collected, scan_stat, scan}
use star_car.Store.Readings.{scan_paths-accounts}

-- The walk could visit this.
abbrev pub IsVisited : Visit → Type 0
IsVisited (failed e) = ⊥
IsVisited (entry path name is_dir) = Unit

-- How many of the visited are files named *.json.
abbrev pub json_files : List Visit → ℕ
json_files [] = 0
json_files (failed e ∷ visits) = json_files visits
json_files (entry path name is_dir ∷ visits) =
    let rest = json_files visits in if not is_dir && ext name == ".json" then 1 + rest else rest

-- What a walk gives: the first failure, or the files named *.json.
abbrev WalksTo : List Visit → Result (List String) → Type 0
WalksTo visits (err e) =
    (before : List Visit) × (behind : List Visit) × (visits ≡ before ++ failed e ∷ behind)
    × All IsVisited before
WalksTo visits (ok paths) = All IsVisited visits × (length paths ≡ json_files visits)

collect-entry :
    (path name : String) (is_dir : Bool) (visits : List Visit) (r : Result (List String))
    → WalksTo visits r
    → WalksTo (entry path name is_dir ∷ visits) (
        or_fail r
          (λ e. e)
          λ paths. ok (if not is_dir && ext name == ".json" then path ∷ paths else paths))
collect-entry path name is_dir visits (err e) (before, behind, same, visited) = (
  entry path name is_dir ∷ before,
  behind,
  ap (λ l. entry path name is_dir ∷ l) same,
  (tt, visited),
)
collect-entry path name is_dir visits (ok paths) (visited, count) =
    ((tt, visited), ground (arith, count))

collect-WalksTo : (visits : List Visit) → WalksTo visits (collect visits)
unfolding collect
collect-WalksTo [] = (tt, refl)
collect-WalksTo (failed e ∷ visits) = ([], visits, refl, tt)
collect-WalksTo (entry path name is_dir ∷ visits) =
    collect-entry path name is_dir visits (collect visits) (collect-WalksTo visits)

module _ ⦃p : Platform⦄ (disk : Disk) (root : String) where
  -- Why a scan fails.
  pub data Fails (text : String) : Type 0 where
    unreadable_root :
        (e : String)
        → disk.stat root ≡ err e
        → text ≡ sprint ("store: " ∷ root ∷ " is missing or unreadable: " ∷ e ∷ [])
        → Fails text
    no_directory :
        disk.stat root ≡ ok false
        → text ≡ sprint ("store: " ∷ root ∷ " is not a directory" ∷ [])
        → Fails text
    broken_walk :
        (e : String) (before behind : List Visit)
        → disk.stat root ≡ ok true
        → disk.walk root ≡ before ++ failed e ∷ behind
        → All IsVisited before
        → text ≡ sprint ("store: walking " ∷ root ∷ ": " ∷ e ∷ [])
        → Fails text

  -- What a scan gives: a failure, or one record or quarantined file for each file.
  abbrev pub IsClassified : Result ScanResult → Type 0
  IsClassified (err text) = Fails text
  IsClassified (ok result) =
      (disk.stat root ≡ ok true)
      × All IsVisited (disk.walk root)
      × (length result.records + length result.quarantined ≡ json_files (disk.walk root))

  module _ (a : Adapter) (now : Time) where
    walked :
        (r : Result (List String))
        → disk.stat root ≡ ok true
        → WalksTo (disk.walk root) r
        → IsClassified (scan_collected a disk root now r)
    unfolding scan_collected
    walked (err e) dir (before, behind, same, visited) =
        broken_walk e before behind dir same visited refl
    walked (ok paths) dir (visited, count) =
        (dir, visited, scan_paths-accounts a disk root now paths ∙ count)

    stat_of : (r : Result Bool) → disk.stat root ≡ r → IsClassified (scan_stat a disk root now r)
    unfolding scan_stat
    stat_of (err e) s = unreadable_root e s refl
    stat_of (ok false) s = no_directory s refl
    stat_of (ok true) s = walked (collect (disk.walk root)) s (collect-WalksTo (disk.walk root))

    -- A scan fails, with a text that names the root and the cause, only if the root cannot be
    -- looked up, is no directory, or has a walk that meets a failure, of which the first counts.
    -- It succeeds only if the root is a directory whose walk meets no failure; records and
    -- quarantined files together are then as many as the files named *.json that the walk visits,
    -- so that no content of a file makes a scan fail and no file goes missing.
    pub scan-IsClassified : IsClassified (scan a disk root now)
    unfolding scan
    scan-IsClassified = stat_of (disk.stat root) refl
