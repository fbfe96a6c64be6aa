-- ===== src/Assemble/Collisions.antt =====
-- About the two kinds of collisions that `Assemble` (assemble.go) looks for.
use mathlib.Core.List.{Perm}
use mathlib.Core.List.Perm
use star_car.Prelude.{
  ◌≡◌, refl, sym, ap, ◌∙◌, inl, inr, Bool-cases, Bool, false, ◌&&◌, String, List, [], ◌∷◌, map,
  ◌==◌, eq_iff, eq_refl, ltb, length, select, arith,
}
use star_car.Prelude.Strings.{sort_strings, sort_strings-perm}
use star_car.Platform.{Platform}
use star_car.Fold.Record.{contains}
use star_car.Fold.Entry.{Output}
use star_car.Fold.Subjects.{contains-false_perm}
use star_car.Assemble.Build.{collided_subjects}
use star_car.Assemble.Joining.{claims_of, collided_members}

pub contains_perm : (l r : List String) (t : String) → Perm l r → contains l t ≡ contains r t
contains_perm l r t h = elim (Bool-cases (contains l t)) [
  | inr e ↦ e ∙ sym (contains-false_perm l r t h e)
  | inl e ↦ elim (Bool-cases (contains r t)) [
    | inl f ↦ e ∙ sym f
    | inr f ↦ contains-false_perm r l t (Perm.symm h) f ∙ sym f
  ]
]

pub contains-select :
    (test : String → Bool) (l : List String) (t : String)
    → contains (select test l) t ≡ (contains l t && test t)
unfolding contains
contains-select test [] t = refl
contains-select test (x ∷ xs) t = elim (Bool-cases (x == t)) [
  | inl e ↦ rw (sym ((eq_iff x t).0 e)) (ground (arith, eq_refl x, contains-select test xs x))
  | inr e ↦ ground (arith, e, contains-select test xs t)
]

pub map-select :
    {A : Type 0} (f : A → String) (test : String → Bool) (l : List A)
    → map f (select (λ a. test (f a)) l) ≡ select test (map f l)
map-select f test [] = refl
map-select f test (x ∷ xs) = ground (arith, map-select f test xs)

contains-sort_strings : (l : List String) (t : String) → contains (sort_strings l) t ≡ contains l t
contains-sort_strings l t = contains_perm (sort_strings l) l t (sort_strings-perm l)

claims-unlisted :
    (cs : List (String × List String)) (s : String)
    → contains (map (λ c. c.0) cs) s ≡ false
    → claims_of cs s ≡ []
unfolding claims_of contains
claims-unlisted [] s h = refl
claims-unlisted ((t, ids) ∷ cs) s h = ground (arith, claims-unlisted cs s)

-- A member is disclosed as collided exactly if it is claimed more than once.
pub contains-collided_members :
    (cs : List (String × List String)) (s : String)
    → contains (collided_members cs) s ≡ ltb 1 (length (claims_of cs s))
unfolding collided_members
contains-collided_members cs s =
    let ids = map (λ c. c.0) cs in
    contains-sort_strings (select (λ x. ltb 1 (length (claims_of cs x))) ids) s
    ∙ contains-select (λ x. ltb 1 (length (claims_of cs x))) ids s
    ∙ elim (Bool-cases (contains ids s)) [
      | inl e ↦ rw e refl
      | inr e ↦ rw (e, claims-unlisted cs s e) refl
    ]

module _ ⦃p : Platform⦄ where
  -- The subjects that name a dispatch and an intent, in sorted order.
  abbrev pub in_both : Output → List String
  in_both out =
      sort_strings (
        select (contains (map (λ it. it.subject) out.intents))
          (map (λ d. d.subject) out.dispatches))

  pub collided_subjects-in_both : (out : Output) → collided_subjects out ≡ in_both out
  unfolding collided_subjects
  collided_subjects-in_both out =
      ap sort_strings
        (map-select (λ d. d.subject) (contains (map (λ it. it.subject) out.intents)) out.dispatches)

  -- A subject is among the namespace collisions exactly if it is the subject of a dispatch and of
  -- an intent.
  pub contains-collided_subjects :
      (out : Output) (s : String)
      → contains (collided_subjects out) s ≡ (
          contains (map (λ d. d.subject) out.dispatches) s
          && contains (map (λ it. it.subject) out.intents) s)
  unfolding collided_subjects
  contains-collided_subjects out s =
      let ids = map (λ it. it.subject) out.intents in
      let chosen = select (λ d. contains ids d.subject) out.dispatches in
      contains-sort_strings (map (λ d. d.subject) chosen) s
      ∙ ap (λ l. contains l s) (map-select (λ d. d.subject) (contains ids) out.dispatches)
      ∙ contains-select (contains ids) (map (λ d. d.subject) out.dispatches) s
