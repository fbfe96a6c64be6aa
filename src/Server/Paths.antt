-- ===== src/Server/Paths.antt =====
-- About `storePathDisplay` (storepath.go) and `resolveDefaultRepoRoot` (reporoot.go).
use star_car.Prelude.{
  ◌≡◌, refl, inl, inr, Bool-cases, false, ◌||◌, ◌&&◌, not, String, Result, ok, err, ◌==◌,
  if◌then◌else◌,
}
use star_car.Paths.{has_prefix}
use star_car.Server.Display.{
  PathTools, collapse_home, store_path_display, is_root, first_root, resolve_default_repo_root,
}

-- `filepath.Rel` gives relative paths.
abbrev pub RelIsRelative : PathTools → Type 0
RelIsRelative t =
    (base target rel : String) → t.rel base target ≡ ok rel → has_prefix rel "/" ≡ false

module _ (t : PathTools) where
  collapse_home-relative :
      (abs_path home : String) → has_prefix (collapse_home t abs_path home) "/" ≡ false
  unfolding collapse_home has_prefix
  collapse_home-relative abs_path home =
      elim (Bool-cases (not (home == "") && has_prefix abs_path home)) [
        | inl e ↦ rw e refl
        | inr e ↦ rw e refl
      ]

  -- If `filepath.Rel` gives relative paths, the path that the wire shows never begins with a
  -- slash, whatever the store's path, the working directory and the home directory are.
  pub store_path_display-relative :
      (abs_path cwd home : String)
      → RelIsRelative t
      → has_prefix (store_path_display t abs_path cwd home) "/" ≡ false
  unfolding store_path_display
  store_path_display-relative abs_path cwd home h = elim (Bool-cases (cwd == "")) [
    | inl e ↦ rw e (collapse_home-relative abs_path home)
    | inr e ↦ rw e (of_rel (t.rel cwd abs_path) refl)
  ]
    where
      of_rel :
          (r : Result String)
          → t.rel cwd abs_path ≡ r
          → has_prefix
              (elim r [
                | err e ↦ collapse_home t abs_path home
                | ok rel ↦ if has_prefix rel ".." then collapse_home t abs_path home else rel
              ])
              "/"
            ≡ false
      of_rel (err e) k = collapse_home-relative abs_path home
      of_rel (ok rel) k = elim (Bool-cases (has_prefix rel "..")) [
        | inl f ↦ rw f (collapse_home-relative abs_path home)
        | inr f ↦ rw f (h cwd abs_path rel k)
      ]

  -- The default root has both of the directories that are looked for exactly if the working
  -- directory or its parent has them.
  pub resolve_default_repo_root-is_root :
      (cwd : String)
      → is_root t (resolve_default_repo_root t cwd) ≡ (is_root t cwd || is_root t (t.dir cwd))
  unfolding resolve_default_repo_root first_root
  resolve_default_repo_root-is_root cwd = elim (Bool-cases (is_root t cwd)) [
    | inl e ↦ rw e (rw e refl)
    | inr e ↦ rw e (elim (Bool-cases (is_root t (t.dir cwd))) [
      | inl f ↦ rw f (rw f refl)
      | inr f ↦ rw f (rw e refl)
    ])
  ]
