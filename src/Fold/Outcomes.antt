-- ===== src/Fold/Outcomes.antt =====
-- About the entry of `foldDispatchSubject` (algorithm.go): its state, its budget, its superseded.
use mathlib.Core.List.{Mem, Perm, not-mem-nil}
use mathlib.Core.Option.{some-injective}
use mathlib.Core.List.Perm
use star_car.Prelude.{
  ◌≤◌, ◌≡◌, ◌≢◌, refl, sym, ◌∙◌, subst, true, false, inl, inr, String, Option, none, some, List, [],
  ◌∷◌, map, ◌==◌, eq_iff, Bool-cases, option_list, All, All-mem, is_some, arith, not, ◌&&◌,
}
use star_car.Prelude.Sort.{sort_stable}
use star_car.Time.Parse.{Time, sub_time}
use star_car.Json.{lookup}
use star_car.Platform.{Platform}
use star_car.Fold.Record.{Record, str_or_empty, number}
use star_car.Fold.Entry.{DispatchEntry}
use star_car.Fold.Winner.{
  precedence, dispatch_less, dispatch_superseded, budget_of, elapsed_of, apply_budget,
  render_dispatch, fold_dispatch_subject, parse_instant,
}
use star_car.Fold.Grouping.{is_dispatch_kind}
use star_car.Fold.Ranking.{fold_dispatch_subject-IsSorted}
use star_car.Fold.Budget.{over_budget, exceeds, whole_seconds, applicable, over_budget-own}

module _ ⦃p : Platform⦄ where
  abbrev kind_of : Record → String
  kind_of r = str_or_empty r "kind"

  not_overdue : (k : String) → is_dispatch_kind k ≡ true → (k == "overdue") ≡ false
  not_overdue k h = elim (Bool-cases (k == "overdue")) [
    | inl e ↦ cc (subst (λ x. is_dispatch_kind x ≡ true) ((eq_iff k "overdue").0 e) h)
    | inr e ↦ e
  ]

  highest : (k : String) → 3 ≤ precedence k → k ≡ "returned"
  unfolding precedence
  highest k h = ground (arith, eq_iff k "returned")

  precedence-le_of_not_less :
      (r w : Record) → dispatch_less r w ≡ false → precedence (kind_of r) ≤ precedence (kind_of w)
  unfolding dispatch_less
  precedence-le_of_not_less r w h = ground arith

  sources_named :
      (own default_budget : Option p.Float)
      → All
          (λ b. (b.1 == "") ≡ false)
          (option_list {A = p.Float × String} (elim own [
            | some b ↦ some (b, "record")
            | none ↦ elim default_budget [ none ↦ none | some b ↦ some (b, "default") ]
          ]))
  sources_named (some b) default_budget = (refl, tt)
  sources_named none (some b) = (refl, tt)
  sources_named none none = tt

  source_named :
      (w : Record) (default_budget : Option p.Float)
      → All (λ b. (b.1 == "") ≡ false) (option_list (budget_of w default_budget))
  unfolding budget_of
  source_named w default_budget = sources_named (number w "budget") default_budget

  overdue-apply :
      (o : Option (p.Float × String)) (e : DispatchEntry)
      → (e.state == "overdue") ≡ false
      → ((apply_budget o e).state == "overdue") ≡ over_budget e.elapsed_seconds o
  unfolding apply_budget
  overdue-apply none e h = h
  overdue-apply (some (b, source)) e h =
      elim (Bool-cases (p.gtb (p.of_int64 e.elapsed_seconds) b)) [
        | inl g ↦ rw g refl
        | inr g ↦ rw g h
      ]

  -- Before the budget is applied the entry has none.
  budget-apply :
      (o : Option (p.Float × String)) (e : DispatchEntry)
      → All (λ b. (b.1 == "") ≡ false) (option_list o)
      → e.budget_seconds ≡ none
      → e.budget_source ≡ ""
      → is_some (apply_budget o e).budget_seconds ≡ not ((apply_budget o e).budget_source == "")
  unfolding apply_budget
  budget-apply none e h n m = rw (n, m)
  budget-apply (some (b, source)) e h n m = rw h.0

  module _ (s : String) (w : Record) (others : List Record) (now : Time)
      (default_budget : Option p.Float) where
    abbrev entry : DispatchEntry
    entry = render_dispatch s w others now default_budget

    pub winner_kind-render : entry.winner_kind ≡ kind_of w
    unfolding render_dispatch
    winner_kind-render = ground arith

    at-render : entry.at ≡ str_or_empty w "at"
    unfolding render_dispatch
    at-render = ground arith

    superseded-render : entry.superseded ≡ map dispatch_superseded others
    unfolding render_dispatch
    superseded-render = ground arith

    -- A winner of another kind than "dispatched" gives its kind as the state.
    pub state-render_settled : kind_of w ≢ "dispatched" → entry.state ≡ kind_of w
    unfolding render_dispatch
    state-render_settled n = ground (arith, eq_iff (kind_of w) "dispatched")

    -- An entry carries a source of its budget exactly if it carries a budget.
    pub budget-render : is_some entry.budget_seconds ≡ not (entry.budget_source == "")
    unfolding render_dispatch
    budget-render = elim (Bool-cases (kind_of w == "returned")) [
      | inl e ↦ rw e refl
      | inr e ↦ rw e (elim (Bool-cases (kind_of w == "dispatched")) [
        | inl f ↦
            rw f (
              budget-apply (budget_of w default_budget) _ (source_named w default_budget) refl refl)
        | inr f ↦ rw f refl
      ])
    ]

    over_budget_lem :
        over_budget (elapsed_of w now) (budget_of w default_budget)
        ≡ exceeds (whole_seconds (sub_time now (parse_instant w))) (applicable w default_budget)
    unfolding elapsed_of budget_of number
    over_budget_lem = over_budget-own (lookup w "budget") default_budget _

    -- Where the winner is of a dispatch kind, the state is "overdue" exactly if that kind is
    -- "dispatched", a budget applies, and the whole seconds from the winner's instant to now
    -- exceed it; the budget that applies is the winner's own if that is a number, and else the
    -- default, if there is one.
    pub overdue-render :
        is_dispatch_kind (kind_of w) ≡ true
        → (entry.state == "overdue") ≡ (
            kind_of w == "dispatched"
            && exceeds
                (whole_seconds (sub_time now (parse_instant w)))
                (applicable w default_budget))
    unfolding render_dispatch
    overdue-render h = elim (Bool-cases (kind_of w == "returned")) [
      | inl e ↦ rw (e, not_overdue (kind_of w) h) (rw ((eq_iff (kind_of w) "returned").0 e) refl)
      | inr e ↦ rw e (elim (Bool-cases (kind_of w == "dispatched")) [
        | inl f ↦ rw f (
            overdue-apply (budget_of w default_budget) _ (not_overdue (kind_of w) h)
            ∙ over_budget_lem)
        | inr f ↦ rw (f, not_overdue (kind_of w) h) refl
      ])
    ]

  -- If one of a subject's records is of kind "returned", the subject's entry is returned and its
  -- winner is of that kind, whatever else is recorded of it and whenever.
  pub fold_dispatch_subject-returned :
      (s : String) (rs : List Record) (now : Time) (default_budget : Option p.Float) (r : Record)
      (e : DispatchEntry)
      → Mem r rs
      → kind_of r ≡ "returned"
      → fold_dispatch_subject s rs now default_budget ≡ some e
      → (e.state ≡ "returned") × (e.winner_kind ≡ "returned")
  unfolding precedence
  fold_dispatch_subject-returned s [] now default_budget r e m k h = absurd (not-mem-nil m)
  fold_dispatch_subject-returned s (r' ∷ rs) now default_budget r e m k h =
      let (w, others, ranking, ran) = fold_dispatch_subject-IsSorted s r' rs now default_budget in
      let below : precedence (kind_of r) ≤ precedence (kind_of w) =
        precedence-le_of_not_less r w
          (All-mem (λ y. dispatch_less y w) false (r' ∷ rs) ranking.top r m) in
      let kind : kind_of w ≡ "returned" =
        highest (kind_of w) (subst (λ x. precedence x ≤ precedence (kind_of w)) k below) in
      let same : e ≡ render_dispatch s w others now default_budget =
        some-injective e _ (sym h ∙ ran) in
      subst (λ x. (x.state ≡ "returned") × (x.winner_kind ≡ "returned")) (sym same)
        (
          state-render_settled s w others now default_budget (λ d. cc (kind, d)) ∙ kind,
          winner_kind-render s w others now default_budget ∙ kind,
        )

  fold_dispatch_subject-nil :
      (s : String) (now : Time) (default_budget : Option p.Float)
      → fold_dispatch_subject s [] now default_budget ≡ none
  unfolding fold_dispatch_subject sort_stable
  fold_dispatch_subject-nil s now default_budget = refl

  -- The entry names the kind and the time of one of the records, and lists those of the others.
  abbrev pub Accounts : List Record → DispatchEntry → Type 0
  Accounts rs e =
      (w : Record) × (e.winner_kind ≡ kind_of w)
      × (e.at ≡ str_or_empty w "at")
      × Perm (dispatch_superseded w ∷ e.superseded) (map dispatch_superseded rs)

  -- Nothing is lost in an entry: it has the kind and the `at` of some record, and this record
  -- together with what the entry lists as superseded are the subject's records, up to order.
  pub fold_dispatch_subject-perm :
      (s : String) (rs : List Record) (now : Time) (default_budget : Option p.Float)
      (e : DispatchEntry)
      → fold_dispatch_subject s rs now default_budget ≡ some e
      → Accounts rs e
  fold_dispatch_subject-perm s [] now default_budget e h =
      absurd (cc (h, fold_dispatch_subject-nil s now default_budget))
  fold_dispatch_subject-perm s (r ∷ rs) now default_budget e h =
      let (w, others, ranking, ran) = fold_dispatch_subject-IsSorted s r rs now default_budget in
      let same : e ≡ render_dispatch s w others now default_budget =
        some-injective e _ (sym h ∙ ran) in
      subst (Accounts (r ∷ rs)) (sym same) (
        w,
        winner_kind-render s w others now default_budget,
        at-render s w others now default_budget,
        rw superseded-render (Perm.map dispatch_superseded ranking.perm),
      )
