-- ===== src/Assemble/Chosen.antt =====
-- About which record `findRawIntentRecord` (assemble.go) gives for an intent that `Fold` names.
use mathlib.Core.List.{mem-cons_self}
use mathlib.Core.List.Perm
use mathlib.Core.Option
use mathlib.Core.Option.{some-injective}
use star_car.Prelude.{
  ◌≡◌, refl, sym, ap, ◌∙◌, subst, inl, inr, Bool-cases, Bool, true, false, ◌&&◌, String, Option,
  none, some, List, [], ◌∷◌, map, ◌==◌, eq_iff, eq_refl, select, All, All-mem, All-imp, arith,
}
use star_car.Prelude.Sort.{IsRanking, ties}
use star_car.Json.{read, as_text, text_or_empty}
use star_car.Time.Parse.{Time, unix_epoch, parse_rfc3339}
use star_car.Platform.{Platform}
use star_car.Fold.Record.{Record, Vocab, str, str_or_empty}
use star_car.Fold.Entry.{IntentEntry, Output}
use star_car.Fold.Winner.{parse_instant, intent_less, fold_intent_subject}
use star_car.Fold.Grouping.{has_subject_and, belongs, intent_records}
use star_car.Fold.Ranking.{fold_intent_subject-IsRanking}
use star_car.Fold.Contract.{find_intent-fold, fold-IsAscending}
use star_car.Fold.Algorithm.{FoldOptions, fold}
use star_car.Store.Types.{StoreRecord}
use star_car.Assemble.Manifest.{find_raw_intent_record}
use star_car.Assemble.Winners.{
  names, names-true, text-str, belongs-intent, find_intent-each, select-All,
  fold_intent_subject-nil, at-render_intent,
}

select-select :
    {A : Type 0} (f g : A → Bool) (l : List A) → select f (select g l) ≡ select (λ x. g x && f x) l
select-select f g [] = refl
select-select f g (x ∷ xs) = elim (Bool-cases (g x)) [
  | inl e ↦ rw e (ground (arith, select-select f g xs))
  | inr e ↦ rw e (select-select f g xs)
]

and-true : (a b : Bool) → a ≡ true → b ≡ true → (a && b) ≡ true
and-true a b h k = ground arith

module _ ⦃p : Platform⦄ where
  -- The first record that is looked for, where those that are looked for are good and the first
  -- good one is looked for.
  find_raw-first :
      (subject at : String) (good : Record → Bool) (w : Record) (others : List Record)
      (rs : List StoreRecord)
      → ((r : Record) → names subject at r ≡ true → good r ≡ true)
      → names subject at w ≡ true
      → select good (map (λ (r : StoreRecord). r.fields) rs) ≡ w ∷ others
      → (r : StoreRecord) × (find_raw_intent_record rs subject at ≡ some r) × (r.fields ≡ w)
  unfolding find_raw_intent_record
  find_raw-first subject at good w others [] f n h = cc h
  find_raw-first subject at good w others (r ∷ rs) f n h =
      elim (Bool-cases (names subject at r.fields)) [
        | inl e ↦ (r, rw e refl, head_eq _ _ _ _ (rw (f r.fields e) at h))
        | inr e ↦ elim (Bool-cases (good r.fields)) [
          | inl g ↦
              let same : r.fields ≡ w = head_eq _ _ _ _ (rw g at h) in
              cc (e, subst (λ x. names subject at x ≡ true) (sym same) n)
          | inr g ↦
              let (q, found, same) = find_raw-first subject at good w others rs f n (rw g at h) in
              (q, rw e found, same)
        ]
      ]
    where
      head_eq : (a b : Record) (l m : List Record) → a ∷ l ≡ b ∷ m → a ≡ b
      head_eq a b l m h = cc h

  parse_empty : parse_rfc3339 "" ≡ none
  unfolding parse_rfc3339
  parse_empty = refl

  -- The instant of a record, by the text of its `at`.
  abbrev instant_at : String → Time
  instant_at s = elim (parse_rfc3339 s) [ none ↦ unix_epoch | some t ↦ t ]

  instant_at-text : (r : Record) → parse_instant r ≡ instant_at (text_or_empty r "at")
  unfolding parse_instant str
  instant_at-text r = of_read (read as_text r "at")
    where
      of_read :
          (o : Option String)
          → (elim o [ none ↦ unix_epoch | some s ↦ instant_at s ])
            ≡ instant_at (elim o [ none ↦ "" | some s ↦ s ])
      of_read none = rw (parse_empty, instant_at) refl
      of_read (some s) = refl

  names-ties :
      (subject at : String) (w r : Record)
      → names subject at w ≡ true
      → names subject at r ≡ true
      → ties intent_less w r ≡ true
  unfolding intent_less
  names-ties subject at w r n m =
      let a : text_or_empty w "at" ≡ at = (eq_iff (text_or_empty w "at") at).0 (ground arith) in
      let b : text_or_empty r "at" ≡ at = (eq_iff (text_or_empty r "at") at).0 (ground arith) in
      let same : parse_instant w ≡ parse_instant r =
        instant_at-text w ∙ ap instant_at (a ∙ sym b) ∙ sym (instant_at-text r) in
      ground (arith, same)

  subject_named :
      (t : String) (s k : Option String)
      → has_subject_and t (λ x. x == "intent") s k ≡ true
      → (t == "") ≡ false
  subject_named t none k h = cc h
  subject_named t (some s) none h = cc h
  subject_named t (some s) (some k) h =
      subst (λ x. (x == "") ≡ false) ((eq_iff s t).0 (ground arith)) (ground arith)

  has_subject-of :
      (t : String) (s k : Option String)
      → (t == "") ≡ false
      → Option.get_or s "" ≡ t
      → Option.get_or k "" ≡ "intent"
      → has_subject_and t (λ x. x == "intent") s k ≡ true
  has_subject-of t none k n e f = cc (n, (eq_iff t "").1 (sym e))
  has_subject-of t (some s) none n e f = cc f
  has_subject-of t (some s) (some k) n e f =
      subst (λ y. has_subject_and t (λ x. x == "intent") (some s) (some y) ≡ true) (sym f)
        (subst (λ y. has_subject_and t (λ x. x == "intent") (some y) (some "intent") ≡ true) (sym e)
          (rw (n, eq_refl t) refl))

  as_str : (r : Record) (key : String) → str_or_empty r key ≡ Option.get_or (str r key) ""
  unfolding str_or_empty
  as_str r key = refl

  as_option : (r : Record) (key : String) → Option.get_or (str r key) "" ≡ text_or_empty r key
  as_option r key = sym (as_str r key) ∙ sym (text-str r key)

  names-belongs :
      (subject at : String) (w r : Record)
      → belongs subject (λ k. k == "intent") w ≡ true
      → names subject at r ≡ true
      → belongs subject (λ k. k == "intent") r ≡ true
  names-belongs subject at w r b n =
      let s : text_or_empty r "subject" ≡ subject =
        (eq_iff (text_or_empty r "subject") subject).0 (ground arith) in
      let k : text_or_empty r "kind" ≡ "intent" =
        (eq_iff (text_or_empty r "kind") "intent").0 (ground arith) in
      has_subject-of subject (str r "subject") (str r "kind")
        (subject_named subject (str w "subject") (str w "kind") b) (as_option r "subject" ∙ s)
        (as_option r "kind" ∙ k)

  -- The record that assembly finds for an intent is the fold's winner, which ranks first.
  abbrev pub Chosen : List StoreRecord → IntentEntry → Type 0
  Chosen records i =
      (r : StoreRecord) × (others : List Record) × (find_raw_intent_record records i.subject i.at
        ≡ some r)
      × IsRanking intent_less
          (intent_records i.subject (map (λ (q : StoreRecord). q.fields) records)) r.fields others

  Chosen-of_records :
      (records : List StoreRecord) (i : IntentEntry) (l : List Record)
      → intent_records i.subject (map (λ (q : StoreRecord). q.fields) records) ≡ l
      → fold_intent_subject i.subject l ≡ some i
      → Chosen records i
  Chosen-of_records records i [] e h = absurd (cc (h, fold_intent_subject-nil i.subject))
  Chosen-of_records records i (r ∷ l) e h =
      let rs = map (λ (q : StoreRecord). q.fields) records in
      let (w, others, ranking, ran) = fold_intent_subject-IsRanking i.subject r l in
      let ranked : IsRanking intent_less (intent_records i.subject rs) w others =
        subst (λ x. IsRanking intent_less x w others) (sym e) ranking in
      let at : i.at ≡ str_or_empty w "at" =
        sym (ap (λ (x : IntentEntry). x.at) (some-injective _ i (sym ran ∙ h)))
        ∙ at-render_intent i.subject w others in
      let b : belongs i.subject (λ k. k == "intent") w ≡ true =
        All-mem (belongs i.subject (λ k. k == "intent")) true _ (select-All _ rs) w
          ((Perm.mem_iff ranked.perm).0 mem-cons_self) in
      let (s, k) = belongs-intent i.subject (str w "subject") (str w "kind") b in
      let n : names i.subject i.at w ≡ true =
        names-true i.subject i.at w (text-str w "subject" ∙ as_str w "subject" ∙ s)
          (text-str w "kind" ∙ as_str w "kind" ∙ k) (text-str w "at" ∙ sym at) in
      let (q, found, same) =
        find_raw-first i.subject i.at _ w _ records
          (λ x m.
            and-true _ _ (names-belongs i.subject i.at w x b m) (names-ties i.subject i.at w x n m))
          n
          (sym (select-select (ties intent_less w) (belongs i.subject (λ k. k == "intent")) rs)
            ∙ ranked.earliest) in
      (
        q,
        others,
        found,
        subst (λ x. IsRanking intent_less (intent_records i.subject rs) x others) (sym same) ranked,
      )

  module _ (records : List StoreRecord) (vocab : Vocab) (now : Time)
      (opts : List (FoldOptions → FoldOptions)) (out : Output)
      (ran : fold (map (λ (r : StoreRecord). r.fields) records) vocab now opts ≡ some out) where
    -- Where the fold of the records' fields returns, the raw record that assembly finds for each
    -- intent that the fold names exists and is the fold's own winner: among the subject's intent
    -- records it ranks first, none being of a later instant and none of the same instant standing
    -- before it.
    pub find_raw_intent_record-Chosen : All (Chosen records) out.intents
    find_raw_intent_record-Chosen =
        let rs = map (λ (r : StoreRecord). r.fields) records in
        All-imp
          (λ i h.
            Chosen-of_records records i _ refl
              (sym (find_intent-fold rs vocab now opts out ran i.subject) ∙ h))
          out.intents (find_intent-each out.intents (fold-IsAscending rs vocab now opts out ran).1)
