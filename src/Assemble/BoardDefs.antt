-- ===== src/Assemble/BoardDefs.antt =====
-- boarddefs.go: `LoadVocabularies`. A nil slice and an empty one are both []. The calls of `load`
-- come before the read of the conditions that they append to, an order that Go leaves open.
use star_car.Prelude.{
  ◌+◌, ◌≡◌, refl, inl, inr, Bool-cases, Bool, true, false, ◌||◌, not, String, List, [], ◌∷◌, ◌++◌,
  ◌==◌, Result, ok, err, length, length-append, All, All-append, sprint, arith, if◌then◌else◌,
}
use star_car.Json.{Fields, text_or_empty}
use star_car.Platform.{Platform}
use star_car.Fold.Record.{contains}
use star_car.Store.Types.{BoardCondition}
use star_car.Assemble.Build.{needs_attention}

pub record VocabDef : Type 0 where
  pub id : String
  pub label : String
  pub register : String

pub record Vocabularies : Type 0 where
  pub positions : List VocabDef
  pub outcomes : List VocabDef
  pub roles : List VocabDef
  pub liveness : List VocabDef

abbrev pub no_vocabularies : Vocabularies
no_vocabularies = record { positions = []; outcomes = []; roles = []; liveness = [] }

abbrev pub closed_registers : List String
closed_registers = "nominal" ∷ "in-progress" ∷ "needs-attention" ∷ []

length-append4 :
    {A : Type 0} (a b c d : List A)
    → length (a ++ b ++ c ++ d) ≡ length a + length b + length c + length d
length-append4 a b c d =
    omega (arith, length-append (a ++ b ++ c) d, length-append (a ++ b) c, length-append a b)

valid-split : (a b c : Bool) → not (a || b || not c) ≡ true → (a ≡ false) × (b ≡ false) × (c ≡ true)
valid-split a b c h = (ground arith, ground arith, ground arith)

module _ ⦃p : Platform⦄ where
  -- The struct that the file is decoded into.
  pub record RawVocabularies : Type 0 where
    pub positions : List (Fields p.Float)
    pub outcomes : List (Fields p.Float)
    pub roles : List (Fields p.Float)
    pub liveness : List (Fields p.Float)

  unfoldable pub is_valid_row : Fields p.Float → Bool
  unfolding contains
  is_valid_row row = not (
      text_or_empty row "id" == ""
      || text_or_empty row "label" == ""
      || not (contains closed_registers (text_or_empty row "register")))

  unfoldable pub row_name : Fields p.Float → String
  row_name row = if text_or_empty row "id" == "" then p.print_row row else text_or_empty row "id"

  -- `load`: the definitions of the valid rows, and a condition for each other one.
  unfoldable pub load_rows : String → List (Fields p.Float) → List VocabDef × List BoardCondition
  unfolding is_valid_row row_name
  load_rows path [] = ([], [])
  load_rows path (row ∷ rows) =
      let (defs, conditions) = load_rows path rows in
      if is_valid_row row
      then (
        record {
          id = text_or_empty row "id";
          label = text_or_empty row "label";
          register = text_or_empty row "register";
        }
            ∷ defs,
        conditions,
      )
      else (
        defs,
        needs_attention "board-def-invalid-row" (
              sprint (
                path
                ∷ ": row "
                ∷ p.quote (row_name row)
                ∷ " is invalid (missing id/label, or register outside the closed set)"
                ∷ []))
            ∷ conditions,
      )

  -- What the read and the decode of the file at a path give.
  unfoldable pub load_vocabularies :
      String → Result (Result RawVocabularies) → Vocabularies × List BoardCondition
  unfolding load_rows
  load_vocabularies path (err e) = (
    no_vocabularies,
    needs_attention "board-defs-unreadable" (sprint ("could not read " ∷ path ∷ ": " ∷ e ∷ []))
        ∷ [],
  )
  load_vocabularies path (ok (err e)) = (
    no_vocabularies,
    needs_attention "board-defs-unreadable" (sprint ("could not parse " ∷ path ∷ ": " ∷ e ∷ []))
        ∷ [],
  )
  load_vocabularies path (ok (ok raw)) =
      let positions = load_rows path raw.positions in
      let outcomes = load_rows path raw.outcomes in
      let roles = load_rows path raw.roles in
      let liveness = load_rows path raw.liveness in
      (
        record {
          positions = positions.0;
          outcomes = outcomes.0;
          roles = roles.0;
          liveness = liveness.0;
        },
        positions.1 ++ outcomes.1 ++ roles.1 ++ liveness.1,
      )

  -- A definition that the wire schema admits.
  abbrev pub IsUsable : VocabDef → Type 0
  IsUsable d =
      ((d.id == "") ≡ false)
      × ((d.label == "") ≡ false)
      × (contains closed_registers d.register ≡ true)

  IsUsable-of_valid :
      (row : Fields p.Float)
      → is_valid_row row ≡ true
      → IsUsable (record {
        id = text_or_empty row "id";
        label = text_or_empty row "label";
        register = text_or_empty row "register";
      })
  unfolding is_valid_row
  IsUsable-of_valid row h =
      valid-split (text_or_empty row "id" == "") (text_or_empty row "label" == "")
        (contains closed_registers (text_or_empty row "register")) h

  load_rows-IsUsable :
      (path : String) (rows : List (Fields p.Float)) → All IsUsable (load_rows path rows).0
  unfolding load_rows
  load_rows-IsUsable path [] = tt
  load_rows-IsUsable path (row ∷ rows) = elim (Bool-cases (is_valid_row row)) [
    | inl e ↦ rw e (IsUsable-of_valid row e, load_rows-IsUsable path rows)
    | inr e ↦ rw e (load_rows-IsUsable path rows)
  ]

  length-load_rows :
      (path : String) (rows : List (Fields p.Float))
      → length (load_rows path rows).0 + length (load_rows path rows).1 ≡ length rows
  unfolding load_rows
  length-load_rows path [] = refl
  length-load_rows path (row ∷ rows) = elim (Bool-cases (is_valid_row row)) [
    | inl e ↦ rw e (omega (arith, length-load_rows path rows))
    | inr e ↦ rw e (omega (arith, length-load_rows path rows))
  ]

  -- Of the rows of a file that can be decoded, each gives a definition or a condition, so that
  -- these together are as many as the rows, and every definition has an id, a label and a register
  -- of the closed set.
  pub load_vocabularies-accounts :
      (path : String) (raw : RawVocabularies)
      → let (v, conditions) = load_vocabularies path (ok (ok raw)) in
        All IsUsable (v.positions ++ v.outcomes ++ v.roles ++ v.liveness)
        × (length (v.positions ++ v.outcomes ++ v.roles ++ v.liveness) + length conditions
            ≡ length (raw.positions ++ raw.outcomes ++ raw.roles ++ raw.liveness))
  unfolding load_vocabularies
  load_vocabularies-accounts path raw =
      let po = load_rows path raw.positions in
      let ou = load_rows path raw.outcomes in
      let ro = load_rows path raw.roles in
      let li = load_rows path raw.liveness in
      (
        All-append IsUsable (po.0 ++ ou.0 ++ ro.0) li.0
            (All-append IsUsable (po.0 ++ ou.0) ro.0
              (All-append IsUsable po.0 ou.0 (load_rows-IsUsable path raw.positions)
                (load_rows-IsUsable path raw.outcomes))
              (load_rows-IsUsable path raw.roles))
            (load_rows-IsUsable path raw.liveness),
        omega (
          arith,
          length-append4 po.0 ou.0 ro.0 li.0,
          length-append4 po.1 ou.1 ro.1 li.1,
          length-append4 raw.positions raw.outcomes raw.roles raw.liveness,
          length-load_rows path raw.positions,
          length-load_rows path raw.outcomes,
          length-load_rows path raw.roles,
          length-load_rows path raw.liveness,
        ),
      )
