-- ===== src/Server/Run/Defaults.antt =====
-- About the configuration that `main` (main.go) runs with.
use mathlib.Core.Option.{some-injective}
use star_car.Prelude.{
  ◌≡◌, refl, sym, subst, false, String, Option, none, some, ok, ◌==◌, Bool-cases, inl, inr,
}
use star_car.Server.Config.{Config, default_config, apply_env_overrides, override_text}
use star_car.Server.Display.{PathTools, or_default, resolve_paths}
use star_car.Server.Run.{main_config}

-- `filepath.Join` gives no empty path where its last part is not empty.
abbrev pub JoinIsFull : PathTools → Type 0
JoinIsFull t = (a b : String) → (b == "") ≡ false → (t.join_path a b == "") ≡ false

-- None of the five paths is empty.
pub record HasPaths (cfg : Config) : Type 0 where
  pub store : (cfg.store_path == "") ≡ false
  pub schema : (cfg.schema_dir == "") ≡ false
  pub board_defs : (cfg.board_defs_path == "") ≡ false
  pub defaults : (cfg.defaults_path == "") ≡ false
  pub web : (cfg.web_dir == "") ≡ false

or_default-full : (s d : String) → (d == "") ≡ false → (or_default s d == "") ≡ false
or_default-full s d h = elim (Bool-cases (s == "")) [ inl e ↦ rw e h | inr e ↦ rw e e ]

resolve_paths-HasPaths :
    (t : PathTools) (cwd : String) (cfg : Config)
    → JoinIsFull t
    → HasPaths (resolve_paths t cwd cfg)
unfolding resolve_paths
resolve_paths-HasPaths t cwd cfg full = record {
  store = or_default-full cfg.store_path _ (full _ "artifacts" refl);
  schema = or_default-full cfg.schema_dir _ (full _ "schema" refl);
  board_defs = or_default-full cfg.board_defs_path _ (full _ "board-defs.json" refl);
  defaults = or_default-full cfg.defaults_path _ (full _ "harness-defaults.json" refl);
  web = or_default-full cfg.web_dir _ (full _ "web" refl);
}

chosen :
    (o : Option String) (store d : String)
    → o ≡ some store
    → (store == "") ≡ false
    → or_default (override_text o "") d ≡ store
chosen none store d e h = cc e
chosen (some v) store d e h =
    let same : v ≡ store = some-injective v store e in
    subst (λ x. or_default (override_text (some x) "") d ≡ store) (sym same) (rw (h, h) refl)

-- What is promised of the configuration.
abbrev pub IsConfigured : (String → Option String) → Config → Type 0
IsConfigured env cfg =
    HasPaths cfg
    × ((store : String)
        → env "STARCAR_STORE_PATH" ≡ some store
        → (store == "") ≡ false
        → cfg.store_path ≡ store)

resolved-IsConfigured :
    (t : PathTools) (env : String → Option String) (cwd : String)
    → JoinIsFull t
    → IsConfigured env (resolve_paths t cwd (apply_env_overrides default_config env))
unfolding resolve_paths apply_env_overrides
resolved-IsConfigured t env cwd full = (
  resolve_paths-HasPaths t cwd (apply_env_overrides default_config env) full,
  λ store e h. chosen (env "STARCAR_STORE_PATH") store _ e h,
)

-- If `filepath.Join` gives no empty path where its last part is not empty, none of the five paths
-- that main runs with is empty, and a store path that the environment sets, and not to the empty
-- text, is kept.
pub main_config-IsConfigured :
    (t : PathTools) (env : String → Option String) (cwd : String) (cfg : Config)
    → JoinIsFull t
    → main_config t env (ok cwd) ≡ ok cfg
    → IsConfigured env cfg
unfolding main_config
main_config-IsConfigured t env cwd cfg full h =
    subst (IsConfigured env) (cc h) (resolved-IsConfigured t env cwd full)
