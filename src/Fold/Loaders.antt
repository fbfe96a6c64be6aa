-- ===== src/Fold/Loaders.antt =====
-- loaders.go: the vocabulary and the default budget, read from their files.
use star_car.Prelude.{String, List, [], ◌∷◌, Result, ok, err, or_fail, sprint}
use star_car.Platform.{Platform}
use star_car.Fold.Record.{Vocab}

module _ ⦃p : Platform⦄ where
  -- The files at a path: what `os.ReadFile` gives, and what `json.Unmarshal` makes of it.
  pub record Files : Type 0 where
    pub read_values : String → Result (Result (List String))
    pub read_budget : String → Result (Result p.Float)

  -- The error of the read, or that of the decode, or the value.
  unfoldable pub read_decoded : {A : Type 0} → Result (Result A) → Result A
  read_decoded (err e) = err e
  read_decoded (ok decoded) = decoded

  unfoldable pub read_values_file : Files → String → Result (List String)
  unfolding read_decoded
  read_values_file files path = read_decoded (files.read_values path)

  -- `join_path` is `filepath.Join` of two parts.
  unfoldable pub load_vocab : Files → (String → String → String) → String → Result Vocab
  unfolding read_values_file
  load_vocab files join_path dir =
      let wrap = λ (e : String).
        sprint
          ("fold: could not read recognition vocabulary from " ∷ p.quote dir ∷ ": " ∷ e ∷ []) in
      or_fail (read_values_file files (join_path dir "kinds.json")) wrap λ kinds.
        or_fail (read_values_file files (join_path dir "outcomes.json")) wrap
          λ outcomes. ok (record { kinds = kinds; outcomes = outcomes })

  unfoldable pub load_default_budget : Files → String → Result p.Float
  unfolding read_decoded
  load_default_budget files path =
      or_fail (read_decoded (files.read_budget path))
        (λ e.
          sprint
            ("fold: could not read the shop default budget from " ∷ p.quote path ∷ ": " ∷ e ∷ []))
        λ budget. ok budget
