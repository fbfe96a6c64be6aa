-- ===== src/Assemble/Trains.antt =====
-- About assemble.go's loop over the fold's intents, against Expected.
use mathlib.Core.List.{foldl, append_assoc, append-nil}
use star_car.Prelude.{
  ◌≡◌, refl, sym, subst, ap, ap₂, ◌∙◌, inl, inr, Bool-cases, Bool, true, false, ◌||◌, String,
  Option, none, some, List, [], ◌∷◌, ◌++◌, map, arith,
}
use star_car.Platform.{Platform}
use star_car.Paths.{has_prefix}
use star_car.Fold.Record.{contains}
use star_car.Fold.Entry.{DispatchEntry, IntentEntry}
use star_car.Store.Types.{BoardCondition, StoreRecord}
use star_car.Assemble.Types.{Train}
use star_car.Assemble.Manifest.{ManifestMember, find_raw_intent_record, manifest_payload}
use star_car.Assemble.Build.{add_condition, add_payload, add_raw, add_intent, not_found, unreadable}
use star_car.Assemble.Joining.{Progress, claims_of, add_member, add_train}
use star_car.Assemble.Expected.{
  Manifest, claims, claims_in, claimed, lists, manifests, faults, train_of, gates_of, gates_in,
}
use star_car.Assemble.Members.{foldl-IsJoined}

or_assoc : (a b c : Bool) → (a || (b || c)) ≡ (b || a || c)
or_assoc a b c = ground arith

module _ ⦃p : Platform⦄ where
  -- What the loop's variables are after some manifests more, and some that cannot be read.
  pub record IsGathered (dispatches : List DispatchEntry) (ms : List Manifest)
      (conditions : List BoardCondition) (before after : Progress) : Type 0 where
    pub trains : after.trains ≡ before.trains ++ map (train_of dispatches) ms
    pub gates : after.gates ≡ before.gates ++ gates_of dispatches ms
    pub disclosed : after.conditions ≡ before.conditions ++ conditions
    pub claims_at :
        (s : String)
        → claims_of after.member_claims s ≡ claims_of before.member_claims s ++ claims ms s
    pub assigned_at :
        (s : String)
        → contains after.assigned_subjects s ≡ (claimed ms s || contains before.assigned_subjects s)

  module _ (records : List StoreRecord) (dispatches : List DispatchEntry) where
    IsGathered-nil : (pr : Progress) → IsGathered dispatches [] [] pr pr
    IsGathered-nil pr = record {
      trains = sym (append-nil _);
      gates = sym (append-nil _);
      disclosed = sym (append-nil _);
      claims_at = λ s. sym (append-nil _);
      assigned_at = λ s. refl;
    }

    -- A condition more in front.
    IsGathered-condition :
        (c : BoardCondition) (ms : List Manifest) (cs : List BoardCondition) (pr after : Progress)
        → IsGathered dispatches ms cs (add_condition c pr) after
        → IsGathered dispatches ms (c ∷ cs) pr after
    unfolding add_condition
    IsGathered-condition c ms cs pr after h = record {
      trains = h.trains;
      gates = h.gates;
      disclosed = h.disclosed ∙ append_assoc pr.conditions (c ∷ []) cs;
      claims_at = h.claims_at;
      assigned_at = h.assigned_at;
    }

    -- A manifest more in front.
    IsGathered-train :
        (m : Manifest) (ms : List Manifest) (cs : List BoardCondition) (pr after : Progress)
        → IsGathered dispatches ms cs (add_train dispatches m.id m.title m.members pr) after
        → IsGathered dispatches (m ∷ ms) cs pr after
    unfolding add_train
    IsGathered-train m ms cs pr after h =
        let start : Train = record {
          id = m.id;
          title = m.title;
          cars = [];
          declared_not_observed = [];
        } in
        let j = foldl-IsJoined dispatches m.id m.members (start, pr) in
        let built : Train = (foldl (add_member dispatches m.id) (start, pr) m.members).0 in
        let same : built ≡ train_of dispatches m =
          train-eq built m j.same_id j.same_title j.cars j.declared in
        record {
          trains =
              h.trains
              ∙ ap₂ (λ x t. (x ++ t ∷ []) ++ map (train_of dispatches) ms) j.same_trains same
              ∙ append_assoc pr.trains (train_of dispatches m ∷ []) (map (train_of dispatches) ms);
          gates =
              h.gates
              ∙ ap (λ x. x ++ gates_of dispatches ms) j.gates
              ∙ append_assoc pr.gates (gates_in dispatches m.members) (gates_of dispatches ms);
          disclosed = h.disclosed ∙ ap (λ x. x ++ cs) j.same_conditions;
          claims_at = λ s.
              h.claims_at s
              ∙ ap (λ x. x ++ claims ms s) (j.claims s)
              ∙ append_assoc (claims_of pr.member_claims s) (claims_in m.id m.members s)
                  (claims ms s);
          assigned_at = λ s.
              h.assigned_at s
              ∙ ap (λ x. claimed ms s || x) (j.assigned s)
              ∙ or_assoc (claimed ms s) (lists m.members s) (contains pr.assigned_subjects s);
        }
      where
        train-eq :
            (t : Train) (m : Manifest)
            → t.id ≡ m.id
            → t.title ≡ m.title
            → t.cars ≡ (train_of dispatches m).cars
            → t.declared_not_observed ≡ (train_of dispatches m).declared_not_observed
            → t ≡ train_of dispatches m
        train-eq t m a b c d = cc (a, b, c, d)

    -- One intent whose raw record is found, by what the payload comes to.
    IsGathered-payload :
        (intent : IntentEntry) (intents : List IntentEntry) (pr after : Progress) (r : StoreRecord)
        (o : Option (String × List ManifestMember))
        → has_prefix intent.subject "train:" ≡ true
        → find_raw_intent_record records intent.subject intent.at ≡ some r
        → manifest_payload r ≡ o
        → IsGathered dispatches
            (manifests records intents)
            (faults records intents)
            (add_payload dispatches intent o pr)
            after
        → IsGathered dispatches
            (manifests records (intent ∷ intents))
            (faults records (intent ∷ intents))
            pr
            after
    unfolding add_payload
    IsGathered-payload intent intents pr after r none e f g h =
        rw (e, f, g, manifests, faults)
          (IsGathered-condition (unreadable intent) (manifests records intents)
            (faults records intents) pr after h)
    IsGathered-payload intent intents pr after r (some (title, members)) e f g h =
        rw (e, f, g, manifests, faults)
          (IsGathered-train (record { id = intent.subject; title = title; members = members })
            (manifests records intents) (faults records intents) pr after h)

    -- One intent, by what its manifest comes to.
    IsGathered-raw :
        (intent : IntentEntry) (intents : List IntentEntry) (pr after : Progress)
        (o : Option StoreRecord)
        → has_prefix intent.subject "train:" ≡ true
        → find_raw_intent_record records intent.subject intent.at ≡ o
        → IsGathered dispatches
            (manifests records intents)
            (faults records intents)
            (add_raw dispatches intent o pr)
            after
        → IsGathered dispatches
            (manifests records (intent ∷ intents))
            (faults records (intent ∷ intents))
            pr
            after
    unfolding add_raw add_payload
    IsGathered-raw intent intents pr after none e f h =
        rw (e, f, manifests, faults)
          (IsGathered-condition (not_found intent) (manifests records intents)
            (faults records intents) pr after h)
    IsGathered-raw intent intents pr after (some r) e f h =
        IsGathered-payload intent intents pr after r (manifest_payload r) e f refl h

    IsGathered-other :
        (intent : IntentEntry) (intents : List IntentEntry) (pr after : Progress)
        → has_prefix intent.subject "train:" ≡ false
        → IsGathered dispatches (manifests records intents) (faults records intents) pr after
        → IsGathered dispatches
            (manifests records (intent ∷ intents))
            (faults records (intent ∷ intents))
            pr
            after
    IsGathered-other intent intents pr after e h = rw (e, manifests, faults) h

    pub foldl-IsGathered :
        (intents : List IntentEntry) (pr : Progress)
        → IsGathered dispatches
            (manifests records intents)
            (faults records intents)
            pr
            (foldl (add_intent records dispatches) pr intents)
    unfolding add_intent
    foldl-IsGathered [] pr = IsGathered-nil pr
    foldl-IsGathered (intent ∷ intents) pr =
        let next = add_intent records dispatches pr intent in
        let after = foldl (add_intent records dispatches) next intents in
        let rest = foldl-IsGathered intents next in
        let from : Progress → Type 0 =
          λ x. IsGathered dispatches (manifests records intents) (faults records intents) x after in
        elim (Bool-cases (has_prefix intent.subject "train:")) [
          | inl e ↦
              let o = find_raw_intent_record records intent.subject intent.at in
              let same : next ≡ add_raw dispatches intent o pr = rw e refl in
              IsGathered-raw intent intents pr after o e refl (subst from same rest)
          | inr e ↦
              let same : next ≡ pr = rw e refl in
              IsGathered-other intent intents pr after e (subst from same rest)
        ]
