-- ===== src/Assemble/Joining.antt =====
-- assemble.go: the part of `Assemble` that joins one manifest to the dispatches.
use mathlib.Core.List.{foldl}
use star_car.Prelude.{
  ◌&&◌, String, Option, none, some, List, [], ◌∷◌, ◌++◌, map, ◌==◌, ltb, length, select,
  if◌then◌else◌,
}
use star_car.Prelude.Strings.{sort_strings}
use star_car.Platform.{Platform}
use star_car.Fold.Entry.{DispatchEntry}
use star_car.Store.Types.{BoardCondition}
use star_car.Assemble.Types.{TrainCar, Train, Gate}
use star_car.Assemble.Manifest.{ManifestMember}

-- `memberClaims[subject] = append(memberClaims[subject], train)`
unfoldable pub add_claim :
    String → String → List (String × List String) → List (String × List String)
add_claim subject train [] = (subject, train ∷ []) ∷ []
add_claim subject train ((s, trains) ∷ claims) =
    if s == subject
    then (s, trains ++ train ∷ []) ∷ claims
    else (s, trains) ∷ add_claim subject train claims

-- `memberClaims[subject]`
unfoldable pub claims_of : List (String × List String) → String → List String
claims_of [] subject = []
claims_of ((s, trains) ∷ claims) subject = if s == subject then trains else claims_of claims subject

-- The members that `memberClaims` holds more than one claim of.
unfoldable pub collided_members : List (String × List String) → List String
unfolding claims_of sort_strings
collided_members claims =
    sort_strings (select (λ s. ltb 1 (length (claims_of claims s))) (map (λ claim. claim.0) claims))

-- The variables that the loop over the intents writes to.
pub record Progress : Type 0 where
  pub trains : List Train
  pub gates : List Gate
  pub conditions : List BoardCondition
  pub member_claims : List (String × List String)
  pub assigned_subjects : List String

module _ ⦃p : Platform⦄ where
  -- `dispatchBySubject[subject]`, the last one written.
  unfoldable pub dispatch_by_subject : List DispatchEntry → String → Option DispatchEntry
  dispatch_by_subject [] subject = none
  dispatch_by_subject (d ∷ ds) subject = elim (dispatch_by_subject ds subject) [
    | some later ↦ some later
    | none ↦ if d.subject == subject then some d else none
  ]

  unfoldable pub car_of : ManifestMember → DispatchEntry → TrainCar
  car_of m d = record {
    subject = m.subject;
    role = m.role;
    gate = m.gate;
    state = d.state;
    at = d.at;
    outcome = if d.state == "returned" then d.outcome else "";
    superseded = d.superseded;
  }

  -- The gates that one member adds: one, if its role is "gate" and its dispatch has returned.
  unfoldable pub gate_of : ManifestMember → DispatchEntry → List Gate
  gate_of m d =
      if m.role == "gate" && d.state == "returned"
      then record {
        name = if m.gate == "" then m.role else m.gate;
        subject = m.subject;
        outcome = d.outcome;
        at = d.at;
      }
        ∷ []
      else []

  -- A member after its claim is noted: declared only, or a car of the train.
  unfoldable pub join_member :
      ManifestMember → Option DispatchEntry → Train × Progress → Train × Progress
  unfolding car_of gate_of
  join_member m none (train, progress) = (
    record train { declared_not_observed = train.declared_not_observed ++ m.subject ∷ [] },
    progress,
  )
  join_member m (some d) (train, progress) = (
    record train { cars = train.cars ++ car_of m d ∷ [] },
    record progress { gates = progress.gates ++ gate_of m d },
  )

  unfoldable pub claim_member : String → ManifestMember → Progress → Progress
  unfolding add_claim
  claim_member id m progress = record progress {
    member_claims = add_claim m.subject id progress.member_claims;
    assigned_subjects = m.subject ∷ progress.assigned_subjects;
  }

  -- One round of the loop over a manifest's members.
  unfoldable pub add_member :
      List DispatchEntry → String → Train × Progress → ManifestMember → Train × Progress
  unfolding dispatch_by_subject join_member claim_member
  add_member dispatches id (train, progress) m =
      join_member m (dispatch_by_subject dispatches m.subject) (train, claim_member id m progress)

  unfoldable pub add_train :
      List DispatchEntry → String → String → List ManifestMember → Progress → Progress
  unfolding add_member
  add_train dispatches id title members progress =
      let (train, joined) =
        foldl (add_member dispatches id)
          (record { id = id; title = title; cars = []; declared_not_observed = [] }, progress)
          members in
      record joined { trains = joined.trains ++ train ∷ [] }
