-- ===== src/Tests/ConfigCases.antt =====
-- The overrides of the configuration at concrete inputs.
use star_car.Prelude.{◌≡◌, refl, String, Option, none, some, ◌==◌, if◌then◌else◌}
use star_car.Prelude.Int.{pos}
use star_car.Server.Config.{default_config, atoi, apply_env_overrides}
use star_car.Tests.Sample.{sample_platform}

abbrev env : String → Option String
env key = if key == "STARCAR_PORT" then some "8080" else none

port_test : (apply_env_overrides default_config env).port ≡ pos 8080
unfolding apply_env_overrides atoi
port_test = refl
