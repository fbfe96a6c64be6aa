-- ===== src/Fold/Ageless.antt =====
-- About the clock in `Fold` (algorithm.go): it counts for entries whose winner is dispatched, and
-- for no others.
use mathlib.Core.Option.{some-injective}
use star_car.Prelude.{
  ◌≡◌, refl, sym, ap, ◌∙◌, subst, inl, inr, Option-cases, false, String, Option, none, some, List,
  [], ◌∷◌, ◌++◌, ◌==◌, ◌>>=◌, option_list, All, All-split,
}
use star_car.Prelude.Strings.{sort_strings}
use star_car.Prelude.Sort.{sort_stable}
use star_car.Time.Parse.{Time}
use star_car.Time.Format.{format_rfc3339}
use star_car.Platform.{Platform}
use star_car.Fold.Record.{Record, Vocab}
use star_car.Fold.Entry.{DispatchEntry, IntentEntry, Output}
use star_car.Fold.Winner.{
  dispatch_less, render_dispatch, fold_dispatch_subject, fold_intent_subject,
}
use star_car.Fold.Groups.{SubjectGroup, Groups, find_group, group_records, subjects_of}
use star_car.Fold.Outcomes.{winner_kind-render}
use star_car.Fold.Rounds.{dispatches_at_lem, intents_at_lem}
use star_car.Fold.Algorithm.{
  FoldOptions, apply_options, vocab_faults, discoveries_of, fold_subjects, fold,
}

module _ ⦃p : Platform⦄ where
  -- The entry's winner is not of kind "dispatched".
  abbrev pub IsAgeless : DispatchEntry → Type 0
  IsAgeless e = (e.winner_kind == "dispatched") ≡ false

  render_dispatch-ageless :
      (s : String) (w : Record) (others : List Record) (now later : Time) (budget : Option p.Float)
      → IsAgeless (render_dispatch s w others now budget)
      → render_dispatch s w others later budget ≡ render_dispatch s w others now budget
  unfolding render_dispatch
  render_dispatch-ageless s w others now later budget h =
      let k = (sym (ap (λ x. x == "dispatched") (winner_kind-render s w others now budget)) ∙ h) in
      rw k refl

  abbrev entry_of : String → Time → Option p.Float → List Record → Option DispatchEntry
  entry_of s now budget ranked = elim ranked [
    | [] ↦ none
    | winner ∷ others ↦ some (render_dispatch s winner others now budget)
  ]

  entry_of-ageless :
      (s : String) (ranked : List Record) (now later : Time) (budget : Option p.Float)
      → All IsAgeless (option_list (entry_of s now budget ranked))
      → entry_of s later budget ranked ≡ entry_of s now budget ranked
  entry_of-ageless s [] now later budget h = refl
  entry_of-ageless s (w ∷ others) now later budget h =
      ap some (render_dispatch-ageless s w others now later budget h.0)

  fold_dispatch_subject-ageless :
      (s : String) (rs : List Record) (now later : Time) (budget : Option p.Float)
      → All IsAgeless (option_list (fold_dispatch_subject s rs now budget))
      → fold_dispatch_subject s rs later budget ≡ fold_dispatch_subject s rs now budget
  unfolding fold_dispatch_subject
  fold_dispatch_subject-ageless s rs now later budget =
      entry_of-ageless s (sort_stable dispatch_less rs) now later budget

  -- One round of the loop, where its group is found and the rest of the loop returns.
  abbrev joined :
      String
      → SubjectGroup
      → Time
      → Option p.Float
      → List DispatchEntry
      → List IntentEntry
      → List DispatchEntry × List IntentEntry
  joined s g now budget ds is = (
    option_list (fold_dispatch_subject s g.dispatch now budget) ++ ds,
    option_list (fold_intent_subject s g.intent) ++ is,
  )

  fold_subjects-cons :
      (now : Time) (budget : Option p.Float) (m : Groups) (s : String) (ss : List String)
      → fold_subjects now budget m (s ∷ ss) ≡ (do
        g ← find_group m s
        (ds, is) ← fold_subjects now budget m ss
        some (joined s g now budget ds is))
  unfolding fold_subjects
  fold_subjects-cons now budget m s ss = elim (Option-cases (find_group m s)) [
    | inl e ↦ rw e refl
    | inr (g, e) ↦ rw (e, dispatches_at_lem s g now budget, intents_at_lem s g) refl
  ]

  abbrev round :
      String
      → Time
      → Option p.Float
      → Option SubjectGroup
      → Option (List DispatchEntry × List IntentEntry)
      → Option (List DispatchEntry × List IntentEntry)
  round s now budget found rest = do g ← found; (ds, is) ← rest; some (joined s g now budget ds is)

  round-ageless :
      (s : String) (now later : Time) (budget : Option p.Float) (found : Option SubjectGroup)
      (before after : Option (List DispatchEntry × List IntentEntry)) (ds : List DispatchEntry)
      (is : List IntentEntry)
      → ((ds' : List DispatchEntry) (is' : List IntentEntry)
          → before ≡ some (ds', is')
          → All IsAgeless ds'
          → after ≡ some (ds', is'))
      → round s now budget found before ≡ some (ds, is)
      → All IsAgeless ds
      → round s later budget found after ≡ some (ds, is)
  round-ageless s now later budget none before after ds is f e h = absurd (cc e)
  round-ageless s now later budget (some g) none after ds is f e h = absurd (cc e)
  round-ageless s now later budget (some g) (some (ds', is')) after ds is f e h =
      let same : joined s g now budget ds' is' ≡ (ds, is) = some-injective _ _ e in
      let all = subst (All IsAgeless) (sym (ap (λ x. x.0) same)) h in
      let (here, others) =
        All-split IsAgeless (option_list (fold_dispatch_subject s g.dispatch now budget)) ds' all in
      rw (f ds' is' refl others, fold_dispatch_subject-ageless s g.dispatch now later budget here) e

  fold_subjects-ageless :
      (now later : Time) (budget : Option p.Float) (m : Groups) (ss : List String)
      (ds : List DispatchEntry) (is : List IntentEntry)
      → fold_subjects now budget m ss ≡ some (ds, is)
      → All IsAgeless ds
      → fold_subjects later budget m ss ≡ some (ds, is)
  unfolding fold_subjects
  fold_subjects-ageless now later budget m [] ds is e h = e
  fold_subjects-ageless now later budget m (s ∷ ss) ds is e h =
      fold_subjects-cons later budget m s ss
      ∙ round-ageless s now later budget (find_group m s) (fold_subjects now budget m ss)
          (fold_subjects later budget m ss) ds is (fold_subjects-ageless now later budget m ss)
          (sym (fold_subjects-cons now budget m s ss) ∙ e) h

  -- The rest of the fold, once its entries are there.
  abbrev output_of : Vocab → List Record → Time → List DispatchEntry × List IntentEntry → Output
  output_of vocab records now (ds, is) = record {
    tier = "tier-1-only";
    generated_at = format_rfc3339 now;
    faults = vocab_faults vocab;
    discoveries = discoveries_of vocab records;
    dispatches = ds;
    intents = is;
  }

  abbrev finish :
      Vocab → List Record → Time → Option (List DispatchEntry × List IntentEntry) → Option Output
  finish vocab records now o = do entries ← o; some (output_of vocab records now entries)

  fold-finish :
      (records : List Record) (vocab : Vocab) (now : Time) (opts : List (FoldOptions → FoldOptions))
      → fold records vocab now opts
        ≡ finish vocab records now (
            fold_subjects now
              (apply_options opts).default_budget_seconds
              (group_records records)
              (sort_strings (subjects_of (group_records records))))
  unfolding fold
  fold-finish records vocab now opts = refl

  finish-ageless :
      (vocab : Vocab) (records : List Record) (now later : Time)
      (before after : Option (List DispatchEntry × List IntentEntry)) (out : Output)
      → ((ds : List DispatchEntry) (is : List IntentEntry)
          → before ≡ some (ds, is)
          → All IsAgeless ds
          → after ≡ some (ds, is))
      → finish vocab records now before ≡ some out
      → All IsAgeless out.dispatches
      → finish vocab records later after ≡ some (record out { generated_at = format_rfc3339 later })
  finish-ageless vocab records now later none after out f e h = absurd (cc e)
  finish-ageless vocab records now later (some (ds, is)) after out f e h =
      let same : output_of vocab records now (ds, is) ≡ out = some-injective _ _ e in
      let all = subst (All IsAgeless) (sym (ap (λ (o : Output). o.dispatches) same)) h in
      ap (finish vocab records later) (f ds is refl all)
      ∙ ap (λ (o : Output). some (record o { generated_at = format_rfc3339 later })) same

  -- Where no winner is dispatched, the fold at another time gives the same but for that time.
  pub fold-ageless :
      (records : List Record) (vocab : Vocab) (now later : Time)
      (opts : List (FoldOptions → FoldOptions)) (out : Output)
      → fold records vocab now opts ≡ some out
      → All IsAgeless out.dispatches
      → fold records vocab later opts ≡ some (record out { generated_at = format_rfc3339 later })
  fold-ageless records vocab now later opts out e h =
      let budget = (apply_options opts).default_budget_seconds in
      let m = group_records records in
      let ss = sort_strings (subjects_of m) in
      fold-finish records vocab later opts
      ∙ finish-ageless vocab records now later (fold_subjects now budget m ss)
          (fold_subjects later budget m ss) out (fold_subjects-ageless now later budget m ss)
          (sym (fold-finish records vocab now opts) ∙ e) h
