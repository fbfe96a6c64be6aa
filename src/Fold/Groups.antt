-- ===== src/Fold/Groups.antt =====
-- algorithm.go: the discoveries, and the map from subjects to their records.
use mathlib.Core.List.{foldl}
use star_car.Prelude.{
  Bool, ◌||◌, ◌&&◌, not, String, Option, none, some, List, [], ◌∷◌, ◌++◌, ◌==◌, if◌then◌else◌,
}
use Prim.Native.String
use star_car.Platform.{Platform}
use star_car.Fold.Record.{Record, str, contains, Vocab, has_kind, has_outcome}

-- Appended unless it is there already.
unfoldable pub add_discovery : String → List String → List String
unfolding contains
add_discovery d discoveries = if contains discoveries d then discoveries else discoveries ++ d ∷ []

module _ ⦃p : Platform⦄ where
  -- A discovery, if `value` is a text, not empty, and not recognised.
  unfoldable pub discover : String → (String → Bool) → Option String → List String → List String
  unfolding add_discovery
  discover label recognised none discoveries = discoveries
  discover label recognised (some value) discoveries =
      if not (value == "") && not (recognised value)
      then add_discovery (String.◌++◌ label value) discoveries
      else discoveries

  -- One round of the discovery loop.
  unfoldable pub discover_record : Vocab → List String → Record → List String
  unfolding discover str has_kind has_outcome
  discover_record vocab discoveries r =
      discover "outcome: " (has_outcome vocab) (str r "outcome")
        (discover "kind: " (has_kind vocab) (str r "kind") discoveries)

  pub record SubjectGroup : Type 0 where
    pub dispatch : List Record
    pub intent : List Record

  abbrev pub empty_group : SubjectGroup
  empty_group = record { dispatch = []; intent = [] }

  -- The switch on the kind.
  unfoldable pub add_to_group : String → Record → SubjectGroup → SubjectGroup
  add_to_group kind r g =
      if kind == "dispatched" || kind == "returned" || kind == "presumed-lost"
      then record g { dispatch = g.dispatch ++ r ∷ [] }
      else if kind == "intent"
      then record g { intent = g.intent ++ r ∷ [] }
      else g

  abbrev pub Groups : Type 0
  Groups = List (String × SubjectGroup)

  unfoldable pub find_group : Groups → String → Option SubjectGroup
  find_group [] subject = none
  find_group ((s, g) ∷ groups) subject = if s == subject then some g else find_group groups subject

  -- Writes through the pointer under `subject`, after putting an empty group there if need be.
  unfoldable pub update_group : String → (SubjectGroup → SubjectGroup) → Groups → Groups
  update_group subject f [] = (subject, f empty_group) ∷ []
  update_group subject f ((s, g) ∷ groups) =
      if s == subject then (s, f g) ∷ groups else (s, g) ∷ update_group subject f groups

  unfoldable pub group_at : Option String → Option String → Record → Groups → Groups
  unfolding update_group add_to_group
  group_at (some subject) (some kind) r groups =
      if subject == "" || kind == ""
      then groups
      else update_group subject (add_to_group kind r) groups
  group_at _ _ r groups = groups

  -- One round of the grouping loop.
  unfoldable pub group_record : Groups → Record → Groups
  unfolding str group_at
  group_record groups r = group_at (str r "subject") (str r "kind") r groups

  unfoldable pub group_records : List Record → Groups
  unfolding group_record
  group_records = foldl group_record []

  -- `for s := range bySubject`
  unfoldable pub subjects_of : Groups → List String
  subjects_of [] = []
  subjects_of ((s, g) ∷ groups) = s ∷ subjects_of groups
