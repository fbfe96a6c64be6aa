-- ===== src/Fold/Ranking.antt =====
-- About the sorts of `foldDispatchSubject` and `foldIntentSubject` (algorithm.go).
use star_car.Prelude.{
  ℕ, ◌+◌, ◌||◌, ◌&&◌, ◌==◌, [], subst, ◌≡◌, Bool, true, false, String, Option, some, List, ◌∷◌, not,
  eqb, ltb, arith, if◌then◌else◌,
}
use star_car.Prelude.Sort.{IsRanking, sort_stable-IsRanking, IsWeakOrder}
use star_car.Time.Parse.{Time}
use star_car.Platform.{Platform}
use star_car.Fold.Record.{Record, str_or_empty}
use star_car.Fold.Winner.{
  precedence, parse_instant, dispatch_less, intent_less, render_dispatch, fold_dispatch_subject,
  render_intent, fold_intent_subject,
}

-- The order by a first key, the larger in front, and then by a second.
abbrev lex_less : ℕ → ℕ → ℕ → ℕ → Bool
lex_less ka ta kb tb = if not (eqb ka kb) then ltb kb ka else ltb tb ta

lex_less_asym : (ka ta kb tb : ℕ) → lex_less ka ta kb tb ≡ true → lex_less kb tb ka ta ≡ false
lex_less_asym ka ta kb tb h = ground arith

lex_less_trans :
    (ka ta kb tb kc tc : ℕ)
    → lex_less kb tb ka ta ≡ false
    → lex_less kc tc kb tb ≡ false
    → lex_less kc tc ka ta ≡ false
lex_less_trans ka ta kb tb kc tc h k = ground arith

module _ ⦃p : Platform⦄ where
  abbrev rank : Record → ℕ
  rank r = precedence (str_or_empty r "kind")

  pub dispatch_less-IsWeakOrder : IsWeakOrder dispatch_less
  unfolding dispatch_less
  dispatch_less-IsWeakOrder = record {
    asym = λ a b. lex_less_asym (rank a) (parse_instant a) (rank b) (parse_instant b);
    trans = λ a b c.
        lex_less_trans (rank a) (parse_instant a) (rank b) (parse_instant b) (rank c)
          (parse_instant c);
  }

  pub intent_less-IsWeakOrder : IsWeakOrder intent_less
  unfolding intent_less
  intent_less-IsWeakOrder = record {
    asym = λ a b h. ground arith;
    trans = λ a b c h k. ground arith;
  }

  -- The kinds of a dispatch, the one that wins first in front; any other comes after them.
  abbrev kinds_in_order : List String
  kinds_in_order = "returned" ∷ "presumed-lost" ∷ "dispatched" ∷ []

  abbrev place : List String → String → ℕ
  place [] kind = 0
  place (k ∷ ks) kind = let rest = place ks kind in if kind == k then 0 else 1 + rest

  abbrev place_of : Record → ℕ
  place_of r = place kinds_in_order (str_or_empty r "kind")

  -- What wins over what: a kind that stands further in front, or the same and a later instant.
  abbrev pub wins_over : Record → Record → Bool
  wins_over a b =
      ltb (place_of a) (place_of b)
      || eqb (place_of a) (place_of b) && ltb (parse_instant b) (parse_instant a)

  precedence-place : (kind : String) → precedence kind + place kinds_in_order kind ≡ 3
  unfolding precedence
  precedence-place kind = ground arith

  dispatch_less-wins_over : (a b : Record) → dispatch_less a b ≡ wins_over a b
  unfolding dispatch_less
  dispatch_less-wins_over a b =
      ground
        (arith, precedence-place (str_or_empty a "kind"), precedence-place (str_or_empty b "kind"))

  same_order : dispatch_less ≡ wins_over
  same_order i a b = dispatch_less-wins_over a b i

  pub fold_dispatch_subject-IsSorted :
      (subject : String) (r : Record) (rs : List Record) (now : Time) (budget : Option p.Float)
      → (winner : Record) × (others : List Record) × IsRanking dispatch_less (r ∷ rs) winner others
        × (fold_dispatch_subject subject (r ∷ rs) now budget
            ≡ some (render_dispatch subject winner others now budget))
  unfolding fold_dispatch_subject
  fold_dispatch_subject-IsSorted subject r rs now budget =
      let (winner, others, e, ranking) =
        sort_stable-IsRanking dispatch_less dispatch_less-IsWeakOrder r rs in
      (winner, others, ranking, rw (e, fold_dispatch_subject))

  -- The entry of a subject with at least one record is that of the record which ranks first: no
  -- other is of a kind that stands further in front, in the order returned, presumed-lost,
  -- dispatched, any other, or of a kind at the same place with a later instant; and it is the
  -- earliest in scan order of those that tie with it. All the others are handed on as superseded,
  -- in rank order, ties in scan order.
  pub fold_dispatch_subject-IsRanking :
      (subject : String) (r : Record) (rs : List Record) (now : Time) (budget : Option p.Float)
      → (winner : Record) × (others : List Record) × IsRanking wins_over (r ∷ rs) winner others
        × (fold_dispatch_subject subject (r ∷ rs) now budget
            ≡ some (render_dispatch subject winner others now budget))
  fold_dispatch_subject-IsRanking subject r rs now budget =
      let (winner, others, ranking, ran) = fold_dispatch_subject-IsSorted subject r rs now budget in
      (
        winner,
        others,
        subst (λ less. IsRanking less (r ∷ rs) winner others) same_order ranking,
        ran,
      )

  pub fold_intent_subject-IsRanking :
      (subject : String) (r : Record) (rs : List Record)
      → (winner : Record) × (others : List Record) × IsRanking intent_less (r ∷ rs) winner others
        × (fold_intent_subject subject (r ∷ rs) ≡ some (render_intent subject winner others))
  unfolding fold_intent_subject
  fold_intent_subject-IsRanking subject r rs =
      let (winner, others, e, ranking) =
        sort_stable-IsRanking intent_less intent_less-IsWeakOrder r rs in
      (winner, others, ranking, rw (e, fold_intent_subject))
