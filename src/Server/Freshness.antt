-- ===== src/Server/Freshness.antt =====
-- poll.go: `computeLiveFreshness`.
use mathlib.Core.List.{foldl}
use star_car.Prelude.{ℕ, suc, ◌*◌, ◌/◌, String, Option, none, some, List, is_empty, if◌then◌else◌}
use star_car.Prelude.Int.{ℤ, pos, negsuc, neg_ℕ, leb_ℤ}
use star_car.Json.{text_or_empty}
use star_car.Time.Parse.{Time, after, sub_time, parse_rfc3339}
use star_car.Platform.{Platform}
use star_car.Store.Types.{StoreRecord}
use star_car.Server.Snapshot.{Freshness}

-- Division of an int64 by a positive one, which truncates towards zero.
unfoldable pub quotient : ℤ → ℕ → ℤ
quotient (pos n) d = pos (n / d)
quotient (negsuc n) d = neg_ℕ (suc n / d)

unfoldable pub times : ℤ → ℕ → ℤ
times (pos n) k = pos (n * k)
times (negsuc n) k = neg_ℕ (suc n * k)

-- `age.Milliseconds()`
unfoldable pub milliseconds : ℤ → ℤ
unfolding quotient
milliseconds d = quotient d 1_000_000

abbrev pub age_bucket_granularity : ℕ
age_bucket_granularity = 5000

abbrev pub never_polled : Freshness
never_polled = record {
  kind = "never-polled";
  as_of = none;
  age_bucket_ms = none;
  reason = none;
  last_good_as_of = none;
}

abbrev pub not_applicable : Freshness
not_applicable = record never_polled { kind = "not-applicable" }

abbrev pub fresh : String → Freshness
fresh now_text = record never_polled { kind = "fresh"; as_of = some now_text }

unfoldable pub stale : ℤ → String → Freshness
unfolding quotient times
stale age now_text = record never_polled {
  kind = "stale";
  as_of = some now_text;
  age_bucket_ms = some (times (quotient age age_bucket_granularity) age_bucket_granularity);
}

-- The newest instant so far and one more.
unfoldable pub newer : Option Time → Option Time → Option Time
newer newest none = newest
newer none (some at) = some at
newer (some newest) (some at) = if after at newest then some at else some newest

module _ ⦃p : Platform⦄ where
  unfoldable pub newest_at : List StoreRecord → Option Time
  unfolding newer
  newest_at =
      foldl (λ newest (r : StoreRecord). newer newest (parse_rfc3339 (text_or_empty r.fields "at")))
        none

  -- The freshness of records the newest of which is this old, if their instants can be read.
  unfoldable pub freshness_at : Option Time → Time → ℤ → String → Freshness
  unfolding milliseconds stale
  freshness_at none now staleness_ms now_text = fresh now_text
  freshness_at (some newest) now staleness_ms now_text =
      let age = milliseconds (sub_time now newest) in
      if leb_ℤ age staleness_ms then fresh now_text else stale age now_text

  unfoldable pub compute_live_freshness : List StoreRecord → Time → ℤ → String → Freshness
  unfolding newest_at freshness_at
  compute_live_freshness records now staleness_ms now_text =
      if is_empty records
      then fresh now_text
      else freshness_at (newest_at records) now staleness_ms now_text
