-- ===== src/Assemble/Winners.antt =====
-- About the intents that `Fold` names (algorithm.go), for `findRawIntentRecord` (assemble.go).
use mathlib.Core.Option
use mathlib.Core.Option.{some-injective}
use star_car.Prelude.{
  ◌≡◌, refl, sym, inl, inr, Bool-cases, Bool, true, false, ◌&&◌, String, Option, none, some, List,
  [], ◌∷◌, map, ◌==◌, eq_iff, eq_refl, select, str_less, All, arith,
}
use star_car.Prelude.Sort.{sort_stable}
use star_car.Prelude.Strings.{IsAscending, StrLe-IsWeakOrder}
use star_car.Json.{text_or_empty, read, as_text}
use star_car.Platform.{Platform}
use star_car.Fold.Record.{Record, str, str_or_empty}
use star_car.Fold.Entry.{IntentEntry}
use star_car.Fold.Winner.{fold_intent_subject, render_intent}
use star_car.Fold.Grouping.{has_subject_and}
use star_car.Fold.Rounds.{find_intent}

pub select-All :
    {A : Type 0} (test : A → Bool) (l : List A) → All (λ x. test x ≡ true) (select test l)
select-All test [] = tt
select-All test (x ∷ xs) = elim (Bool-cases (test x)) [
  | inl e ↦ rw e (e, select-All test xs)
  | inr e ↦ rw e (select-All test xs)
]

apart-of_less : (s t : String) → str_less s t ≡ true → (s == t) ≡ false
apart-of_less s t h = elim (Bool-cases (s == t)) [
  | inr e ↦ e
  | inl e ↦
      let k : str_less s s ≡ true = rw (sym ((eq_iff s t).0 e)) at h in
      cc (k, StrLe-IsWeakOrder.asym s s k)
]

module _ ⦃p : Platform⦄ where
  pub text-str : (r : Record) (key : String) → text_or_empty r key ≡ str_or_empty r key
  unfolding str_or_empty str
  text-str r key = of_read (read as_text r key)
    where
      of_read : (o : Option String) → (elim o [ none ↦ "" | some s ↦ s ]) ≡ Option.get_or o ""
      of_read none = refl
      of_read (some s) = refl

  -- A record of the subject and of the kind "intent".
  pub belongs-intent :
      (t : String) (s k : Option String)
      → has_subject_and t (λ x. x == "intent") s k ≡ true
      → (Option.get_or s "" ≡ t) × (Option.get_or k "" ≡ "intent")
  belongs-intent t none k h = cc h
  belongs-intent t (some s) none h = cc h
  belongs-intent t (some s) (some k) h =
      ((eq_iff s t).0 (ground arith), (eq_iff k "intent").0 (ground arith))

  find_intent-later :
      (x : IntentEntry) (xs es : List IntentEntry)
      → All (λ y. str_less x.subject y ≡ true) (map (λ i. i.subject) es)
      → All (λ i. find_intent i.subject xs ≡ some i) es
      → All (λ i. find_intent i.subject (x ∷ xs) ≡ some i) es
  find_intent-later x xs [] h k = tt
  find_intent-later x xs (e ∷ es) (h, hs) (k, ks) =
      (rw (apart-of_less x.subject e.subject h) k, find_intent-later x xs es hs ks)

  -- In an ascending list every entry is the one that is found under its subject.
  pub find_intent-each :
      (es : List IntentEntry)
      → IsAscending (map (λ i. i.subject) es)
      → All (λ i. find_intent i.subject es ≡ some i) es
  find_intent-each [] h = tt
  find_intent-each (x ∷ xs) (h, hs) =
      (rw (eq_refl x.subject) refl, find_intent-later x xs xs h (find_intent-each xs hs))

  -- What `find_raw_intent_record` looks for.
  abbrev pub names : String → String → Record → Bool
  names subject at r =
      text_or_empty r "subject" == subject
      && (text_or_empty r "kind" == "intent")
      && (text_or_empty r "at" == at)

  pub names-true :
      (subject at : String) (r : Record)
      → text_or_empty r "subject" ≡ subject
      → text_or_empty r "kind" ≡ "intent"
      → text_or_empty r "at" ≡ at
      → names subject at r ≡ true
  names-true subject at r s k a = ground (
    arith,
    (eq_iff (text_or_empty r "subject") subject).1 s,
    (eq_iff (text_or_empty r "kind") "intent").1 k,
    (eq_iff (text_or_empty r "at") at).1 a,
  )

  pub fold_intent_subject-nil : (t : String) → fold_intent_subject t [] ≡ none
  unfolding fold_intent_subject sort_stable
  fold_intent_subject-nil t = refl

  pub at-render_intent :
      (t : String) (w : Record) (others : List Record)
      → (render_intent t w others).at ≡ str_or_empty w "at"
  unfolding render_intent
  at-render_intent t w others = refl
