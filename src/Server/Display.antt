-- ===== src/Server/Display.antt =====
-- storepath.go: the store's path as it is shown on the wire; reporoot.go and main.go: the paths
-- that the configuration defaults to.
use star_car.Prelude.{
  Bool, false, not, ◌&&◌, String, Result, ok, err, List, [], ◌∷◌, ◌==◌, if◌then◌else◌,
}
use star_car.Paths.{has_prefix, trim_prefix}
use star_car.Server.Config.{Config}

-- `path/filepath` and the part of the file system that the paths depend on.
pub record PathTools : Type 0 where
  -- `filepath.Rel`, `filepath.Base`, `filepath.Dir` and `filepath.Join` of two parts
  pub rel : String → String → Result String
  pub base : String → String
  pub dir : String → String
  pub join_path : String → String → String
  -- `os.Stat`, and whether it is a directory
  pub stat : String → Result Bool

abbrev pub or_default : String → String → String
or_default s d = if s == "" then d else s

module _ (t : PathTools) where
  -- `strings.HasPrefix(absPath, home)` and what follows, or else the bare name.
  unfoldable pub collapse_home : String → String → String
  unfolding has_prefix trim_prefix
  collapse_home abs_path home =
      if not (home == "") && has_prefix abs_path home
      then String.◌∷◌ "~" (trim_prefix abs_path home)
      else String.◌∷◌ "." (String.◌∷◌ "." (String.◌∷◌ "." (String.◌∷◌ "/" (t.base abs_path))))

  unfoldable pub store_path_display : String → String → String → String
  unfolding collapse_home has_prefix
  store_path_display abs_path cwd home =
      if cwd == "" then collapse_home abs_path home else elim (t.rel cwd abs_path) [
        | err e ↦ collapse_home abs_path home
        | ok rel ↦ if has_prefix rel ".." then collapse_home abs_path home else rel
      ]

  unfoldable pub has_dir : String → Bool
  has_dir path = elim (t.stat path) [ ok is_dir ↦ is_dir | err e ↦ false ]

  unfoldable pub is_root : String → Bool
  unfolding has_dir
  is_root c = has_dir (t.join_path c "artifacts") && has_dir (t.join_path c "schema")

  -- The first candidate that is a root, or else the fallback.
  unfoldable pub first_root : List String → String → String
  unfolding is_root
  first_root [] cwd = cwd
  first_root (c ∷ cs) cwd = let rest = first_root cs cwd in if is_root c then c else rest

  unfoldable pub resolve_default_repo_root : String → String
  unfolding first_root
  resolve_default_repo_root cwd = first_root (cwd ∷ t.dir cwd ∷ []) cwd

  -- The paths that `main` fills in where they are empty, in its order.
  unfoldable pub resolve_paths : String → Config → Config
  unfolding resolve_default_repo_root
  resolve_paths cwd cfg =
      let root = resolve_default_repo_root cwd in
      let schema_dir = or_default cfg.schema_dir (t.join_path root "schema") in
      record cfg {
        store_path = or_default cfg.store_path (t.join_path root "artifacts");
        schema_dir = schema_dir;
        board_defs_path =
            or_default cfg.board_defs_path
              (t.join_path (t.join_path schema_dir "vocab") "board-defs.json");
        defaults_path =
            or_default cfg.defaults_path
              (t.join_path (t.join_path root "config") "harness-defaults.json");
        web_dir = or_default cfg.web_dir (t.join_path (t.join_path root "board") "web");
      }
