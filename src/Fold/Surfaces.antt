-- ===== src/Fold/Surfaces.antt =====
-- About the loop of `Fold` (algorithm.go) over the sorted subjects.
use star_car.Prelude.{
  ◌≡◌, refl, sym, subst, inl, inr, Option-cases, str_less, ◌∙◌, Bool, true, false, String, Option,
  none, some, List, [], ◌∷◌, ◌++◌, map, ◌==◌, eq_iff, is_some, option_list, All, if◌then◌else◌,
}
use star_car.Prelude.Strings.{IsAscending}
use star_car.Time.Parse.{Time}
use star_car.Platform.{Platform}
use star_car.Fold.Record.{contains}
use star_car.Fold.Entry.{DispatchEntry, IntentEntry}
use star_car.Fold.Winner.{fold_dispatch_subject, fold_intent_subject}
use star_car.Fold.Groups.{SubjectGroup, Groups, find_group}
use star_car.Fold.Algorithm.{fold_subjects}
use star_car.Fold.Rounds.{
  find_dispatch, find_intent, dispatches_at_lem, intents_at_lem, subject-dispatch, subject-intent,
  dispatch_of, intent_of, find_dispatch-cons, find_intent-cons,
}

-- The first entry under a subject, when the subject at hand gives `o` and the others `rest`.
pick {ℓ} :
    {A : Type ℓ} (same among : Bool) (o rest v : Option A)
    → (same ≡ true → v ≡ o)
    → rest ≡ (if among then v else none)
    → (if same then (elim o [ none ↦ rest | some e ↦ some e ]) else rest)
      ≡ (if (if same then true else among) then v else none)
pick true true none rest v h k = k
pick true false none rest v h k = k ∙ sym (h refl)
pick true among (some e) rest v h k = sym (h refl)
pick false among o rest v h k = k

All-append_option {ℓ} :
    {A : Type ℓ} (f : A → String) (P : String → Type 0) (s : String) (o : Option A) (es : List A)
    → All (λ e. f e ≡ s) (option_list o)
    → P s
    → All P (map f es)
    → All P (map f (option_list o ++ es))
All-append_option f P s none es h x k = k
All-append_option f P s (some e) es h x k = (subst P (sym h.0) x, k)

IsAscending-append_option {ℓ} :
    {A : Type ℓ} (f : A → String) (s : String) (o : Option A) (es : List A)
    → All (λ e. f e ≡ s) (option_list o)
    → All (λ y. str_less s y ≡ true) (map f es)
    → IsAscending (map f es)
    → IsAscending (map f (option_list o ++ es))
IsAscending-append_option f s none es h x k = k
IsAscending-append_option f s (some e) es h x k =
    (subst (λ z. All (λ y. str_less z y ≡ true) (map f es)) (sym h.0) x, k)

module _ ⦃p : Platform⦄ where
  pub record AreSurfaces (now : Time) (budget : Option p.Float) (m : Groups)
      (subjects : List String) (ds : List DispatchEntry) (is : List IntentEntry) : Type 1 where
    pub ran : fold_subjects now budget m subjects ≡ some (ds, is)
    pub dispatch_at :
        (t : String)
        → find_dispatch t ds
          ≡ (if contains subjects t then dispatch_of now budget t (find_group m t) else none)
    pub intent_at :
        (t : String)
        → find_intent t is ≡ (if contains subjects t then intent_of t (find_group m t) else none)
    pub dispatch_subjects : (P : String → Type 0) → All P subjects → All P (map (λ e. e.subject) ds)
    pub intent_subjects : (P : String → Type 0) → All P subjects → All P (map (λ e. e.subject) is)
    pub dispatches_ascend : IsAscending subjects → IsAscending (map (λ e. e.subject) ds)
    pub intents_ascend : IsAscending subjects → IsAscending (map (λ e. e.subject) is)

  module _ (now : Time) (budget : Option p.Float) (m : Groups) where
    ran-cons :
        (u : String) (us : List String) (g : SubjectGroup) (ds : List DispatchEntry)
        (is : List IntentEntry)
        → find_group m u ≡ some g
        → fold_subjects now budget m us ≡ some (ds, is)
        → fold_subjects now budget m (u ∷ us)
          ≡ some (
            option_list (fold_dispatch_subject u g.dispatch now budget) ++ ds,
            option_list (fold_intent_subject u g.intent) ++ is,
          )
    unfolding fold_subjects
    ran-cons u us g ds is found ran =
        rw (found, dispatches_at_lem u g now budget, intents_at_lem u g, ran)

    AreSurfaces-cons :
        (u : String) (us : List String) (g : SubjectGroup) (ds : List DispatchEntry)
        (is : List IntentEntry)
        → find_group m u ≡ some g
        → AreSurfaces now budget m us ds is
        → AreSurfaces now budget m
            (u ∷ us)
            (option_list (fold_dispatch_subject u g.dispatch now budget) ++ ds)
            (option_list (fold_intent_subject u g.intent) ++ is)
    unfolding contains
    AreSurfaces-cons u us g ds is found rest =
        let hd = subject-dispatch u g.dispatch now budget in
        let hi = subject-intent u g.intent in
        record {
          ran = ran-cons u us g ds is found rest.ran;
          dispatch_at = λ t.
              find_dispatch-cons u t _ ds hd
              ∙ pick (u == t) (contains us t) _ _ _ (λ e. rw (← (eq_iff u t).0 e, found))
                  (rest.dispatch_at t);
          intent_at = λ t.
              find_intent-cons u t _ is hi
              ∙ pick (u == t) (contains us t) _ _ _ (λ e. rw (← (eq_iff u t).0 e, found))
                  (rest.intent_at t);
          dispatch_subjects =
              λ P a. All-append_option _ P u _ ds hd a.0 (rest.dispatch_subjects P a.1);
          intent_subjects = λ P a. All-append_option _ P u _ is hi a.0 (rest.intent_subjects P a.1);
          dispatches_ascend = λ a.
              IsAscending-append_option _ u _ ds hd
                (rest.dispatch_subjects (λ y. str_less u y ≡ true) a.0)
                (rest.dispatches_ascend a.1);
          intents_ascend = λ a.
              IsAscending-append_option _ u _ is hi
                (rest.intent_subjects (λ y. str_less u y ≡ true) a.0) (rest.intents_ascend a.1);
        }

    pub surfaces :
        (us : List String)
        → All (λ s. is_some (find_group m s) ≡ true) us
        → (ds : List DispatchEntry) × (is : List IntentEntry) × AreSurfaces now budget m us ds is
    unfolding fold_subjects contains
    surfaces [] h = (
      [],
      [],
      record {
        ran = refl;
        dispatch_at = λ t. refl;
        intent_at = λ t. refl;
        dispatch_subjects = λ P a. a;
        intent_subjects = λ P a. a;
        dispatches_ascend = λ a. a;
        intents_ascend = λ a. a;
      },
    )
    surfaces (u ∷ us) h =
        let (ds, is, rest) = surfaces us h.1 in
        elim (Option-cases (find_group m u)) [
          | inl e ↦ absurd (cc (h.0, e))
          | inr (g, e) ↦ (_, _, AreSurfaces-cons u us g ds is e rest)
        ]
