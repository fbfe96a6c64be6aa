-- ===== src/Assemble/Members.antt =====
-- About assemble.go's loop over a manifest's members, against Expected.
use mathlib.Core.List.{foldl, append_assoc, append-nil}
use star_car.Prelude.{
  ◌≡◌, refl, sym, ap, ◌∙◌, inl, inr, Bool-cases, ◌||◌, String, Option, none, some, List, [], ◌∷◌,
  ◌++◌, ◌==◌, eq_iff, arith, if◌then◌else◌,
}
use star_car.Platform.{Platform}
use star_car.Fold.Record.{contains}
use star_car.Fold.Entry.{DispatchEntry}
use star_car.Assemble.Types.{Train, Gate}
use star_car.Assemble.Manifest.{ManifestMember}
use star_car.Assemble.Joining.{
  Progress, add_claim, claims_of, add_member, join_member, claim_member, dispatch_by_subject,
  car_of, gate_of,
}
use star_car.Assemble.Expected.{
  lists, claims_in, cars_of, declared_of, gates_in, is_verdict, verdict_of,
}

pub claims-add_claim :
    (s t id : String) (claims : List (String × List String))
    → claims_of (add_claim s id claims) t
      ≡ (if s == t then claims_of claims t ++ id ∷ [] else claims_of claims t)
unfolding claims_of add_claim
claims-add_claim s t id [] = refl
claims-add_claim s t id ((u, trains) ∷ claims) =
    ground (arith, eq_iff s t, eq_iff u s, eq_iff u t, claims-add_claim s t id claims)

module _ ⦃p : Platform⦄ where
  -- What a train and the loop's variables are after some members more.
  pub record IsJoined (dispatches : List DispatchEntry) (id : String) (ms : List ManifestMember)
      (before after : Train × Progress) : Type 0 where
    pub same_id : (after.0).id ≡ (before.0).id
    pub same_title : (after.0).title ≡ (before.0).title
    pub cars : (after.0).cars ≡ (before.0).cars ++ cars_of dispatches ms
    pub declared :
        (after.0).declared_not_observed
        ≡ (before.0).declared_not_observed ++ declared_of dispatches ms
    pub same_trains : (after.1).trains ≡ (before.1).trains
    pub same_conditions : (after.1).conditions ≡ (before.1).conditions
    pub gates : (after.1).gates ≡ (before.1).gates ++ gates_in dispatches ms
    pub claims :
        (s : String)
        → claims_of (after.1).member_claims s
          ≡ claims_of (before.1).member_claims s ++ claims_in id ms s
    pub assigned :
        (s : String)
        → contains (after.1).assigned_subjects s
          ≡ (lists ms s || contains (before.1).assigned_subjects s)

  module _ (dispatches : List DispatchEntry) (id : String) where
    claims-member :
        (m : ManifestMember) (ms : List ManifestMember) (pr : Progress) (s : String)
        → claims_of (add_claim m.subject id pr.member_claims) s ++ claims_in id ms s
          ≡ claims_of pr.member_claims s ++ claims_in id (m ∷ ms) s
    claims-member m ms pr s = elim (Bool-cases (m.subject == s)) [
      | inl e ↦
          rw (claims-add_claim m.subject s id pr.member_claims, e)
            (append_assoc (claims_of pr.member_claims s) (id ∷ []) (claims_in id ms s))
      | inr e ↦ rw (claims-add_claim m.subject s id pr.member_claims, e) refl
    ]

    assigned-member :
        (m : ManifestMember) (ms : List ManifestMember) (l : List String) (s : String)
        → (lists ms s || contains (m.subject ∷ l) s) ≡ (lists (m ∷ ms) s || contains l s)
    unfolding contains
    assigned-member m ms l s = ground arith

    gate_of-verdict_of :
        (m : ManifestMember) (d : DispatchEntry) (rest : List Gate)
        → gate_of m d ++ rest ≡ (if is_verdict m d then verdict_of m d ∷ rest else rest)
    unfolding gate_of
    gate_of-verdict_of m d rest = elim (Bool-cases (m.role == "gate")) [
      | inl e ↦
          rw (e, (eq_iff m.role "gate").0 e)
            (elim (Bool-cases (d.state == "returned")) [ inl f ↦ rw f refl | inr f ↦ rw f refl ])
      | inr e ↦ rw e refl
    ]

    -- One member in front, from the state that it leaves behind.
    IsJoined-cons :
        (m : ManifestMember) (ms : List ManifestMember) (t : Train) (pr : Progress)
        (o : Option DispatchEntry) (after : Train × Progress)
        → dispatch_by_subject dispatches m.subject ≡ o
        → IsJoined dispatches id ms (join_member m o (t, claim_member id m pr)) after
        → IsJoined dispatches id (m ∷ ms) (t, pr) after
    unfolding join_member claim_member
    IsJoined-cons m ms t pr none after e h = record {
      same_id = h.same_id;
      same_title = h.same_title;
      cars = rw (e, cars_of) h.cars;
      declared =
          rw (e, declared_of)
            (h.declared
              ∙ append_assoc t.declared_not_observed (m.subject ∷ []) (declared_of dispatches ms));
      same_trains = h.same_trains;
      same_conditions = h.same_conditions;
      gates = rw (e, gates_in) h.gates;
      claims = λ s. h.claims s ∙ claims-member m ms pr s;
      assigned = λ s. h.assigned s ∙ assigned-member m ms pr.assigned_subjects s;
    }
    IsJoined-cons m ms t pr (some d) after e h = record {
      same_id = h.same_id;
      same_title = h.same_title;
      cars =
          rw (e, cars_of) (h.cars ∙ append_assoc t.cars (car_of m d ∷ []) (cars_of dispatches ms));
      declared = rw (e, declared_of) h.declared;
      same_trains = h.same_trains;
      same_conditions = h.same_conditions;
      gates =
          rw (e, gates_in)
            (h.gates
              ∙ append_assoc pr.gates (gate_of m d) (gates_in dispatches ms)
              ∙ ap (λ l. pr.gates ++ l) (gate_of-verdict_of m d (gates_in dispatches ms)));
      claims = λ s. h.claims s ∙ claims-member m ms pr s;
      assigned = λ s. h.assigned s ∙ assigned-member m ms pr.assigned_subjects s;
    }

    pub foldl-IsJoined :
        (ms : List ManifestMember) (before : Train × Progress)
        → IsJoined dispatches id ms before (foldl (add_member dispatches id) before ms)
    unfolding add_member
    foldl-IsJoined [] (t, pr) = record {
      same_id = refl;
      same_title = refl;
      cars = sym (append-nil _);
      declared = sym (append-nil _);
      same_trains = refl;
      same_conditions = refl;
      gates = sym (append-nil _);
      claims = λ s. sym (append-nil _);
      assigned = λ s. refl;
    }
    foldl-IsJoined (m ∷ ms) (t, pr) =
        IsJoined-cons m ms t pr (dispatch_by_subject dispatches m.subject) _ refl
          (foldl-IsJoined ms (add_member dispatches id (t, pr) m))
