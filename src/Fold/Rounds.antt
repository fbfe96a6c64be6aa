-- ===== src/Fold/Rounds.antt =====
-- About one round of the loop of `Fold` (algorithm.go): what a subject adds to the entries.
use star_car.Prelude.{
  ◌≡◌, refl, String, Option, none, some, List, [], ◌∷◌, ◌++◌, ◌==◌, ◌>>=◌, is_empty, option_list,
  All, arith, if◌then◌else◌,
}
use star_car.Prelude.Sort.{sort_stable}
use star_car.Time.Parse.{Time}
use star_car.Platform.{Platform}
use star_car.Fold.Record.{Record}
use star_car.Fold.Entry.{DispatchEntry, IntentEntry}
use star_car.Fold.Winner.{
  render_dispatch, fold_dispatch_subject, render_intent, fold_intent_subject,
}
use star_car.Fold.Groups.{SubjectGroup}
use star_car.Fold.Ranking.{fold_dispatch_subject-IsSorted, fold_intent_subject-IsRanking}
use star_car.Fold.Algorithm.{dispatches_at, intents_at}

module _ ⦃p : Platform⦄ where
  -- The first entry under a subject.
  abbrev pub find_dispatch : String → List DispatchEntry → Option DispatchEntry
  find_dispatch t [] = none
  find_dispatch t (e ∷ es) = if e.subject == t then some e else find_dispatch t es

  abbrev pub find_intent : String → List IntentEntry → Option IntentEntry
  find_intent t [] = none
  find_intent t (e ∷ es) = if e.subject == t then some e else find_intent t es

  subject-render_dispatch :
      (s : String) (w : Record) (others : List Record) (now : Time) (budget : Option p.Float)
      → (render_dispatch s w others now budget).subject ≡ s
  unfolding render_dispatch
  subject-render_dispatch s w others now budget = ground arith

  dispatch_guard :
      (s : String) (rs : List Record) (now : Time) (budget : Option p.Float)
      → (if is_empty rs
          then some []
          else (fold_dispatch_subject s rs now budget >>= λ e. some (e ∷ [])))
        ≡ some (option_list (fold_dispatch_subject s rs now budget))
  unfolding fold_dispatch_subject sort_stable
  dispatch_guard s [] now budget = refl
  dispatch_guard s (r ∷ rs) now budget =
      let (w, others, _, e) = fold_dispatch_subject-IsSorted s r rs now budget in rw e

  pub dispatches_at_lem :
      (s : String) (g : SubjectGroup) (now : Time) (budget : Option p.Float)
      → dispatches_at s g now budget
        ≡ some (option_list (fold_dispatch_subject s g.dispatch now budget))
  unfolding dispatches_at
  dispatches_at_lem s g now budget = dispatch_guard s g.dispatch now budget

  intent_guard :
      (s : String) (rs : List Record)
      → (if is_empty rs then some [] else (fold_intent_subject s rs >>= λ e. some (e ∷ [])))
        ≡ some (option_list (fold_intent_subject s rs))
  unfolding fold_intent_subject sort_stable
  intent_guard s [] = refl
  intent_guard s (r ∷ rs) = let (w, others, _, e) = fold_intent_subject-IsRanking s r rs in rw e

  pub intents_at_lem :
      (s : String) (g : SubjectGroup)
      → intents_at s g ≡ some (option_list (fold_intent_subject s g.intent))
  unfolding intents_at
  intents_at_lem s g = intent_guard s g.intent

  pub subject-dispatch :
      (s : String) (rs : List Record) (now : Time) (budget : Option p.Float)
      → All (λ e. e.subject ≡ s) (option_list (fold_dispatch_subject s rs now budget))
  unfolding fold_dispatch_subject sort_stable
  subject-dispatch s [] now budget = tt
  subject-dispatch s (r ∷ rs) now budget =
      let (w, others, _, k) = fold_dispatch_subject-IsSorted s r rs now budget in
      rw k (subject-render_dispatch s w others now budget, tt)

  pub subject-intent :
      (s : String) (rs : List Record)
      → All (λ e. e.subject ≡ s) (option_list (fold_intent_subject s rs))
  unfolding fold_intent_subject sort_stable render_intent
  subject-intent s [] = tt
  subject-intent s (r ∷ rs) =
      let (w, others, _, k) = fold_intent_subject-IsRanking s r rs in rw k (refl, tt)

  abbrev pub dispatch_of :
      Time → Option p.Float → String → Option SubjectGroup → Option DispatchEntry
  dispatch_of now budget t none = none
  dispatch_of now budget t (some g) = fold_dispatch_subject t g.dispatch now budget

  abbrev pub intent_of : String → Option SubjectGroup → Option IntentEntry
  intent_of t none = none
  intent_of t (some g) = fold_intent_subject t g.intent

  pub find_dispatch-cons :
      (s t : String) (o : Option DispatchEntry) (es : List DispatchEntry)
      → All (λ e. e.subject ≡ s) (option_list o)
      → find_dispatch t (option_list o ++ es) ≡ (
          if s == t
          then (elim o [ none ↦ find_dispatch t es | some e ↦ some e ])
          else find_dispatch t es)
  find_dispatch-cons s t none es h = ground arith
  find_dispatch-cons s t (some e) es h = rw h.0

  pub find_intent-cons :
      (s t : String) (o : Option IntentEntry) (es : List IntentEntry)
      → All (λ e. e.subject ≡ s) (option_list o)
      → find_intent t (option_list o ++ es) ≡ (
          if s == t
          then (elim o [ none ↦ find_intent t es | some e ↦ some e ])
          else find_intent t es)
  find_intent-cons s t none es h = ground arith
  find_intent-cons s t (some e) es h = rw h.0
