-- ===== src/Tests/Sample.antt =====
-- A platform whose float64 is a whole number of nanoseconds, and records to run the code on.
use star_car.Prelude.{◌+◌, ◌-◌, ◌*◌, ◌/◌, String, not, ok}
use star_car.Prelude.Int.{ℤ, pos, negsuc, leb_ℤ}
use star_car.Time.Parse.{second_ns}
use star_car.Json.{Fields, text, end, field}
use star_car.Platform.{Platform}

abbrev scale : ℤ → ℤ
scale (pos n) = pos (n * second_ns)
scale (negsuc n) = negsuc ((n + 1) * second_ns - 1)

abbrev floor_scaled : ℤ → ℤ
floor_scaled (pos n) = pos (n / second_ns)
floor_scaled (negsuc n) = negsuc (n / second_ns)

instance abbrev pub sample_platform : Platform
sample_platform = record {
  Float = ℤ;
  seconds = λ d. d;
  floor_int64 = floor_scaled;
  of_int64 = scale;
  gtb = λ x y. not (leb_ℤ x y);
  quote = λ s. s;
  print_row = λ r. "map[]";
  decimal = λ n. "n";
  fold_name = λ s. s;
  type_error = λ k v. "json: cannot unmarshal";
  parse_error = λ s. "parsing time";
  reencode = λ fs. ok fs;
}

-- A record with its subject, kind and time.
abbrev pub basic : String → String → String → Fields ℤ
basic subject kind at =
    field "subject" (text subject) (field "kind" (text kind) (field "at" (text at) end))
