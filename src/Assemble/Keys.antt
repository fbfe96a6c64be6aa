-- ===== src/Assemble/Keys.antt =====
-- About the keys of `dispatchWireMap`'s result (assemble.go, output.go).
use star_car.Prelude.{
  ◌≡◌, refl, sym, subst, ap, inl, inr, Bool-cases, Option-cases, Bool, true, false, ◌&&◌, some,
  ◌==◌, eq_iff, is_some, ok, err,
}
use star_car.Json.{bool, Fields, lookup}
use star_car.Platform.{Platform}
use star_car.Fold.Entry.{DispatchEntry}
use star_car.Assemble.Wire.{entry_fields, kind_fields, budget_fields, put, dispatch_wire_map}
use star_car.Assemble.Surfaces.{Reencodes}

module _ ⦃p : Platform⦄ where
  -- Outcome and spend go with a returned winner, elapsed time and budget with a dispatched one,
  -- and the budget's source with a budget.
  pub record IsShaped (d : DispatchEntry) (assigned : Bool) (m : Fields p.Float) : Type 0 where
    pub assigned_key : lookup m "assigned" ≡ some (bool assigned)
    pub always :
        is_some (lookup m "subject")
          && is_some (lookup m "state")
          && is_some (lookup m "at")
          && is_some (lookup m "superseded")
        ≡ true
    pub outcome_key : is_some (lookup m "outcome") ≡ (d.winner_kind == "returned")
    pub spend_key : is_some (lookup m "spend") ≡ (d.winner_kind == "returned")
    pub elapsed_key : is_some (lookup m "elapsed_seconds") ≡ (d.winner_kind == "dispatched")
    pub budget_key : is_some (lookup m "budget_seconds") ≡ (d.winner_kind == "dispatched")
    pub source_key :
        is_some (lookup m "budget_source")
        ≡ (d.winner_kind == "dispatched" && is_some d.budget_seconds)

  put-IsShaped :
      (d : DispatchEntry) (assigned : Bool)
      → IsShaped d assigned (put "assigned" (bool assigned) (entry_fields d))
  unfolding entry_fields kind_fields budget_fields put lookup
  put-IsShaped d assigned = elim (Bool-cases (d.winner_kind == "returned")) [
    | inl e ↦
        let apart : (d.winner_kind == "dispatched") ≡ false = cc (
          subst (λ x. (x == "dispatched") ≡ false) (sym ((eq_iff d.winner_kind "returned").0 e))
            refl) in
        record {
          assigned_key = rw (e) refl;
          always = refl;
          outcome_key = rw (e) refl;
          spend_key = rw (e) refl;
          elapsed_key = rw (e, apart) refl;
          budget_key = rw (e, apart) refl;
          source_key = rw (e, apart) refl;
        }
    | inr e ↦ elim (Bool-cases (d.winner_kind == "dispatched")) [
      | inl f ↦ elim (Option-cases d.budget_seconds) [
        | inl g ↦ record {
          assigned_key = rw (e, f, g) refl;
          always = refl;
          outcome_key = rw (e, f, g) refl;
          spend_key = rw (e, f, g) refl;
          elapsed_key = rw (e, f) refl;
          budget_key = rw (e, f, g) refl;
          source_key = rw (e, f, g) refl;
        }
        | inr (b, g) ↦ record {
          assigned_key = rw (e, f, g) refl;
          always = refl;
          outcome_key = rw (e, f, g) refl;
          spend_key = rw (e, f, g) refl;
          elapsed_key = rw (e, f) refl;
          budget_key = rw (e, f, g) refl;
          source_key = rw (e, f, g) refl;
        }
      ]
      | inr f ↦ record {
        assigned_key = rw (e, f) refl;
        always = refl;
        outcome_key = rw (e, f) refl;
        spend_key = rw (e, f) refl;
        elapsed_key = rw (e, f) refl;
        budget_key = rw (e, f) refl;
        source_key = rw (e, f) refl;
      }
    ]
  ]

  ok-injective : (a b : Fields p.Float) → ok a ≡ ok b → a ≡ b
  ok-injective a b h = ap (λ r. elim r [ ok x ↦ x | err e ↦ a ]) h

  -- If a map of decoded values is marshalled and decoded to itself, a dispatch is rendered with
  -- the flag "assigned" that is given and with subject, state, at and superseded. Outcome and
  -- spend are there exactly for a returned winner, elapsed time and budget exactly for a
  -- dispatched one, and the budget's source exactly for a dispatched one with a budget.
  pub dispatch_wire_map-IsShaped :
      (d : DispatchEntry) (assigned : Bool) (m : Fields p.Float)
      → Reencodes
      → dispatch_wire_map d assigned ≡ ok m
      → IsShaped d assigned m
  unfolding dispatch_wire_map
  dispatch_wire_map-IsShaped d assigned m h e =
      subst (IsShaped d assigned) (ok-injective _ m (rw (h (entry_fields d)) at e))
        (put-IsShaped d assigned)
