-- ===== src/Fold/Contract.antt =====
-- About the result of `Fold` (algorithm.go), in terms of its input alone.
use mathlib.Core.List.Perm
use mathlib.Core.Option.{some-injective}
use star_car.Prelude.{
  subst, ◌≡◌, refl, sym, inl, inr, Bool-cases, ◌∙◌, Bool, true, false, String, Option, none, some,
  List, map, ◌==◌, is_empty, is_some, All, All-perm, if◌then◌else◌,
}
use star_car.Prelude.Sort.{sort_stable}
use star_car.Prelude.Strings.{
  IsAscending, sort_strings, sort_strings-perm, sort_strings-IsAscending,
}
use star_car.Time.Parse.{Time}
use star_car.Platform.{Platform}
use star_car.Fold.Record.{Record, Vocab, contains}
use star_car.Fold.Entry.{Output}
use star_car.Fold.Winner.{fold_dispatch_subject, fold_intent_subject}
use star_car.Fold.Groups.{Groups, find_group, group_records, subjects_of}
use star_car.Fold.Grouping.{
  grouped, dispatch_records, intent_records, records_of, find-group_records, select_none,
  is_dispatch_kind,
}
use star_car.Fold.Subjects.{
  group_records-IsDistinct, All-found, find_group-none, contains-false_perm,
}
use star_car.Time.Format.{format_rfc3339}
use star_car.Fold.Surfaces.{surfaces}
use star_car.Fold.Rounds.{find_dispatch, find_intent, dispatch_of, intent_of}
use star_car.Fold.Algorithm.{FoldOptions, apply_options, fold, vocab_faults, discoveries_of}

module _ ⦃p : Platform⦄ where
  dispatch_of-grouped :
      (now : Time) (budget : Option p.Float) (t : String) (rs : List Record)
      → dispatch_of now budget t (grouped t none rs)
        ≡ fold_dispatch_subject t (dispatch_records t rs) now budget
  unfolding fold_dispatch_subject sort_stable
  dispatch_of-grouped now budget t rs = elim (Bool-cases (is_empty (records_of t rs))) [
    | inl e ↦ rw (e, select_none t is_dispatch_kind rs e) refl
    | inr e ↦ rw e refl
  ]

  intent_of-grouped :
      (t : String) (rs : List Record)
      → intent_of t (grouped t none rs) ≡ fold_intent_subject t (intent_records t rs)
  unfolding fold_intent_subject sort_stable
  intent_of-grouped t rs = elim (Bool-cases (is_empty (records_of t rs))) [
    | inl e ↦ rw (e, select_none t (λ k. k == "intent") rs e) refl
    | inr e ↦ rw e refl
  ]

  module _ (records : List Record) (vocab : Vocab) (now : Time)
      (opts : List (FoldOptions → FoldOptions)) where
    abbrev budget_used : Option p.Float
    budget_used = (apply_options opts).default_budget_seconds

    abbrev groups_used : Groups
    groups_used = group_records records

    abbrev subjects_used : List String
    subjects_used = sort_strings (subjects_of groups_used)

    found-All : All (λ s. is_some (find_group groups_used s) ≡ true) subjects_used
    found-All =
        All-perm (λ s. is_some (find_group groups_used s)) true (subjects_of groups_used)
          subjects_used (Perm.symm (sort_strings-perm (subjects_of groups_used)))
          (All-found groups_used)

    unlisted_none :
        (t : String) → contains subjects_used t ≡ false → find_group groups_used t ≡ none
    unlisted_none t h = find_group-none groups_used t (
        contains-false_perm subjects_used (subjects_of groups_used) t
          (sort_strings-perm (subjects_of groups_used)) h)

    -- Everything that the theorems below say of the output.
    record IsFolded (out : Output) : Type 0 where
      ran : fold records vocab now opts ≡ some out
      dispatch_at :
          (t : String)
          → find_dispatch t out.dispatches
            ≡ fold_dispatch_subject t (dispatch_records t records) now budget_used
      intent_at :
          (t : String)
          → find_intent t out.intents ≡ fold_intent_subject t (intent_records t records)
      dispatches_ascend : IsAscending (map (λ e. e.subject) out.dispatches)
      intents_ascend : IsAscending (map (λ e. e.subject) out.intents)
      faults : out.faults ≡ vocab_faults vocab
      discoveries : out.discoveries ≡ discoveries_of vocab records

    drop_test :
        (b : Bool) {A : Type 0} (o v : Option A)
        → (b ≡ false → o ≡ none)
        → v ≡ o
        → (if b then v else none) ≡ o
    drop_test true o v h k = k
    drop_test false o v h k = sym (h refl)

    folded : (out : Output) × IsFolded out
    unfolding fold
    folded =
        let (ds, is, s) = surfaces now budget_used groups_used subjects_used found-All in
        let ascending : IsAscending subjects_used =
          sort_strings-IsAscending (subjects_of groups_used) (group_records-IsDistinct records) in
        (
          record {
            tier = "tier-1-only";
            generated_at = format_rfc3339 now;
            faults = vocab_faults vocab;
            discoveries = discoveries_of vocab records;
            dispatches = ds;
            intents = is;
          },
          record {
            ran = rw s.ran;
            dispatch_at = λ t.
                s.dispatch_at t
                ∙ drop_test (contains subjects_used t) _ _
                    (λ e.
                      sym (dispatch_of-grouped now budget_used t records)
                      ∙ rw (← find-group_records t records, unlisted_none t e) refl)
                    (rw find-group_records (dispatch_of-grouped now budget_used t records));
            intent_at = λ t.
                s.intent_at t
                ∙ drop_test (contains subjects_used t) _ _
                    (λ e.
                      sym (intent_of-grouped t records)
                      ∙ rw (← find-group_records t records, unlisted_none t e) refl)
                    (rw find-group_records (intent_of-grouped t records));
            dispatches_ascend = s.dispatches_ascend ascending;
            intents_ascend = s.intents_ascend ascending;
            faults = refl;
            discoveries = refl;
          },
        )

  -- The fold returns on every input: it does not panic, whatever the records, the vocabulary and
  -- the options hold.
  pub fold-total :
      (records : List Record) (vocab : Vocab) (now : Time) (opts : List (FoldOptions → FoldOptions))
      → (out : Output) × (fold records vocab now opts ≡ some out)
  fold-total records vocab now opts = let (out, h) = folded records vocab now opts in (out, h.ran)

  module _ (records : List Record) (vocab : Vocab) (now : Time)
      (opts : List (FoldOptions → FoldOptions)) (out : Output)
      (ran : fold records vocab now opts ≡ some out) where
    IsFolded-of_ran : IsFolded records vocab now opts out
    IsFolded-of_ran =
        let (out', h) = folded records vocab now opts in
        subst (IsFolded records vocab now opts) (some-injective out' out (sym h.ran ∙ ran)) h

    -- Where the fold returns `out`, the dispatch entry that `out` has under any subject is the
    -- entry of exactly the dispatch records of that subject, in record order and with the default
    -- budget of the options; there is none if the subject has no such record.
    pub find_dispatch-fold :
        (t : String)
        → find_dispatch t out.dispatches
          ≡ fold_dispatch_subject t
              (dispatch_records t records)
              now
              (apply_options opts).default_budget_seconds
    find_dispatch-fold = IsFolded-of_ran.dispatch_at

    -- Where the fold returns `out`, the intent entry that `out` has under any subject is the entry
    -- of exactly the intent records of that subject, in record order; there is none if the subject
    -- has no such record.
    pub find_intent-fold :
        (t : String) → find_intent t out.intents ≡ fold_intent_subject t (intent_records t records)
    find_intent-fold = IsFolded-of_ran.intent_at

    -- Where the fold returns, its dispatches and its intents are each strictly ascending in the
    -- subject: sorted, and no subject twice.
    pub fold-IsAscending :
        IsAscending (map (λ e. e.subject) out.dispatches)
        × IsAscending (map (λ e. e.subject) out.intents)
    fold-IsAscending = (IsFolded-of_ran.dispatches_ascend, IsFolded-of_ran.intents_ascend)

    pub faults-fold : out.faults ≡ vocab_faults vocab
    faults-fold = IsFolded-of_ran.faults

    pub discoveries-fold : out.discoveries ≡ discoveries_of vocab records
    discoveries-fold = IsFolded-of_ran.discoveries
