-- ===== src/Assemble/Surfaces.antt =====
-- About `Assemble` (assemble.go), against Expected.
use mathlib.Core.List.{foldl, append_assoc, append-nil}
use star_car.Prelude.{
  ◌≡◌, refl, sym, ap, ap₂, ◌∙◌, Bool, true, false, ◌||◌, String, List, [], ◌∷◌, ◌++◌, map, Result,
  ok, err, sprint, join, ltb, length,
}
use star_car.Prelude.Strings.{sort_strings, IsAscending}
use star_car.Json.{Fields, bool}
use star_car.Platform.{Platform}
use star_car.Fold.Record.{contains}
use star_car.Fold.Entry.{DispatchEntry, Output}
use star_car.Store.Types.{BoardCondition, StoreRecord}
use star_car.Assemble.Types.{Assembled}
use star_car.Assemble.Wire.{entry_fields, put, dispatch_wire_map}
use star_car.Assemble.Build.{
  needs_attention, namespace_collision, add_rendering, membership_collision, add_intents,
  start_progress, add_dispatch, assemble,
}
use star_car.Assemble.Joining.{Progress, claims_of, collided_members}
use star_car.Assemble.Expected.{Manifest, claims, claimed, manifests, faults, train_of, gates_of}
use star_car.Assemble.Trains.{IsGathered, foldl-IsGathered}
use star_car.Assemble.Collisions.{contains-collided_members, in_both, collided_subjects-in_both}
use star_car.Assemble.Claimed.{
  HasDistinctClaims, foldl-HasDistinctClaims, collided_members-IsAscending,
}

module _ ⦃p : Platform⦄ where
  -- What `json.Marshal` and `json.Unmarshal` of maps of decoded values do.
  abbrev pub Reencodes : Type 0
  Reencodes = (fs : Fields p.Float) → p.reencode fs ≡ ok fs

  -- The dispatches lane as it should be.
  abbrev pub wire_of : List Manifest → DispatchEntry → Fields p.Float
  wire_of ms d = put "assigned" (bool (claimed ms d.subject)) (entry_fields d)

  abbrev collision_text : String → List String → BoardCondition
  collision_text s ids = needs_attention "manifest-membership-collision" (
      sprint (
        "dispatch "
        ∷ p.quote s
        ∷ " is claimed by more than one manifest: "
        ∷ join ", " (sort_strings ids)
        ∷ []))

  -- The disclosure of a member's claims.
  abbrev pub collision_of : List Manifest → String → BoardCondition
  collision_of ms s = collision_text s (claims ms s)

  module _ (records : List StoreRecord) (out : Output) where
    unfoldable final : Progress
    final = add_intents records out (start_progress out)

    gathered :
        IsGathered out.dispatches
          (manifests records out.intents)
          (faults records out.intents)
          (start_progress out)
          final
    unfolding final add_intents
    gathered = foldl-IsGathered records out.dispatches out.intents (start_progress out)

    foldl-dispatches :
        Reencodes
        → (assigned : List String) (ds : List DispatchEntry) (r : Assembled)
        → foldl (add_dispatch assigned) r ds ≡ record r {
          dispatches =
              r.dispatches
              ++ map (λ d. put "assigned" (bool (contains assigned d.subject)) (entry_fields d)) ds;
        }
    unfolding add_dispatch add_rendering dispatch_wire_map
    foldl-dispatches h assigned [] r =
        ap (λ x. record r { dispatches = x }) (sym (append-nil r.dispatches))
    foldl-dispatches h assigned (d ∷ ds) r =
        let w = put "assigned" (bool (contains assigned d.subject)) (entry_fields d) in
        let step : add_dispatch assigned r d ≡ record r { dispatches = r.dispatches ++ w ∷ [] } =
          rw (h (entry_fields d)) refl in
        ap (λ x. foldl (add_dispatch assigned) x ds) step
        ∙ foldl-dispatches h assigned ds (record r { dispatches = r.dispatches ++ w ∷ [] })
        ∙ ap (λ x. record r { dispatches = x }) (append_assoc r.dispatches (w ∷ []) _)

    -- No rendering touches the trains or the gates.
    rendering-same :
        (d : DispatchEntry) (w : Result (Fields p.Float)) (r : Assembled)
        → ((add_rendering d w r).trains ≡ r.trains) × ((add_rendering d w r).gates ≡ r.gates)
    unfolding add_rendering
    rendering-same d (ok m) r = (refl, refl)
    rendering-same d (err e) r = (refl, refl)

    dispatches-same :
        (assigned : List String) (ds : List DispatchEntry) (r : Assembled)
        → ((foldl (add_dispatch assigned) r ds).trains ≡ r.trains)
          × ((foldl (add_dispatch assigned) r ds).gates ≡ r.gates)
    unfolding add_dispatch
    dispatches-same assigned [] r = (refl, refl)
    dispatches-same assigned (d ∷ ds) r =
        let w = dispatch_wire_map d (contains assigned d.subject) in
        let now = rendering-same d w r in
        let later = dispatches-same assigned ds (add_rendering d w r) in
        (later.0 ∙ now.0, later.1 ∙ now.1)

    -- The trains of any assembly are, in the order of the intents, those of the manifests that can
    -- be read: each with the manifest's id and title, a car for every member that has a dispatch,
    -- and the subjects of the other members as declared but not observed.
    pub trains-assemble :
        (assemble records out).trains
        ≡ map (train_of out.dispatches) (manifests records out.intents)
    unfolding assemble final start_progress
    trains-assemble = (dispatches-same final.assigned_subjects out.dispatches _).0 ∙ gathered.trains

    -- The gates of any assembly are, in the order of the manifests and of their members, one for
    -- each member of a readable manifest whose role is "gate" and whose dispatch has returned,
    -- with the member's gate name, or "gate" where it has none, and with the dispatch's outcome
    -- and time; there is no other.
    pub gates-assemble :
        (assemble records out).gates ≡ gates_of out.dispatches (manifests records out.intents)
    unfolding assemble final start_progress
    gates-assemble = (dispatches-same final.assigned_subjects out.dispatches _).1 ∙ gathered.gates

    or_false : (b : Bool) → (b || false) ≡ b
    or_false true = refl
    or_false false = refl

    assigned-final :
        (s : String)
        → contains final.assigned_subjects s ≡ claimed (manifests records out.intents) s
    unfolding start_progress contains
    assigned-final s = gathered.assigned_at s ∙ or_false _

    claims-final :
        (s : String) → claims_of final.member_claims s ≡ claims (manifests records out.intents) s
    unfolding start_progress claims_of
    claims-final s = gathered.claims_at s

    distinct-final : HasDistinctClaims final
    unfolding final start_progress add_intents
    distinct-final =
        foldl-HasDistinctClaims records out.dispatches out.intents (start_progress out) tt

    map-agrees :
        {A B : Type 0} (f g : A → B) (l : List A) → ((a : A) → f a ≡ g a) → map f l ≡ map g l
    map-agrees f g [] h = refl
    map-agrees f g (x ∷ xs) h = ap₂ (λ y ys. y ∷ ys) (h x) (map-agrees f g xs h)

    module _ (h : Reencodes) where
      rendered : assemble records out ≡ record {
        trains = final.trains;
        gates = final.gates;
        dispatches =
            map
              (λ d.
                put "assigned" (bool (contains final.assigned_subjects d.subject)) (entry_fields d))
              out.dispatches;
        conditions =
            final.conditions
            ++ map
                (membership_collision final.member_claims)
                (collided_members final.member_claims);
      }
      unfolding assemble final
      rendered = foldl-dispatches h final.assigned_subjects out.dispatches _

      -- If a map of decoded values is marshalled and decoded to itself, the dispatches of an
      -- assembly are those of the fold in order, each with its own fields and with "assigned" true
      -- exactly if a readable manifest lists its subject.
      pub dispatches-assemble :
          (assemble records out).dispatches
          ≡ map (wire_of (manifests records out.intents)) out.dispatches
      dispatches-assemble =
          ap (λ (r : Assembled). r.dispatches) rendered
          ∙ map-agrees _ (wire_of (manifests records out.intents)) out.dispatches
              (λ d. ap (λ b. put "assigned" (bool b) (entry_fields d)) (assigned-final d.subject))

      -- If a map of decoded values is marshalled and decoded to itself, the conditions of an
      -- assembly are: one for each dispatch whose subject an intent has too, in sorted order of
      -- the subjects; one for each manifest that is not found or cannot be read, in the order of
      -- the intents; and exactly one for each member that is claimed more than once, in ascending
      -- order, with its claims in sorted order; nothing else.
      pub conditions-assemble :
          (collided : List String) × ((s : String)
            → contains collided s ≡ ltb 1 (length (claims (manifests records out.intents) s)))
          × IsAscending collided
          × ((assemble records out).conditions
              ≡ (map namespace_collision (in_both out) ++ faults records out.intents)
                ++ map (collision_of (manifests records out.intents)) collided)
      unfolding start_progress membership_collision
      conditions-assemble =
          let collided = collided_members final.member_claims in
          (
            collided,
            λ s.
                contains-collided_members final.member_claims s
                ∙ ap (λ l. ltb 1 (length l)) (claims-final s),
            collided_members-IsAscending final distinct-final,
            ap (λ (r : Assembled). r.conditions) rendered
                ∙ ap₂ (λ a b. a ++ b)
                    (gathered.disclosed
                      ∙ ap (λ l. map namespace_collision l ++ faults records out.intents)
                          (collided_subjects-in_both out))
                    (map-agrees _ (collision_of (manifests records out.intents)) collided
                      (λ s. ap (collision_text s) (claims-final s))),
          )
