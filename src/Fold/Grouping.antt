-- ===== src/Fold/Grouping.antt =====
-- About the map from subjects to their records in `Fold` (algorithm.go).
use mathlib.Core.List.{foldl, append_assoc, append-nil}
use mathlib.Core.Bool.{false≢true}
use star_car.Prelude.{
  ◌≡◌, refl, sym, subst, inl, inr, Bool-cases, ◌∙◌, Bool, true, false, ◌||◌, ◌&&◌, not, String,
  Option, none, some, List, [], ◌∷◌, ◌++◌, ◌==◌, eq_iff, eq_refl, is_empty, select, arith,
  if◌then◌else◌,
}
use star_car.Platform.{Platform}
use star_car.Fold.Record.{Record, str}
use star_car.Fold.Groups.{
  SubjectGroup, empty_group, add_to_group, Groups, find_group, update_group, group_at, group_record,
  group_records,
}

module _ ⦃p : Platform⦄ where
  -- The subject is `subject`, and there is a kind, not empty, that passes a test.
  abbrev pub has_subject_and : String → (String → Bool) → Option String → Option String → Bool
  has_subject_and subject test (some s) (some k) =
      not (s == "" || k == "") && (s == subject && test k)
  has_subject_and subject test _ _ = false

  abbrev pub belongs : String → (String → Bool) → Record → Bool
  belongs subject test r = has_subject_and subject test (str r "subject") (str r "kind")

  abbrev pub is_dispatch_kind : String → Bool
  is_dispatch_kind k = k == "dispatched" || k == "returned" || k == "presumed-lost"

  kinds_apart : (k : String) → is_dispatch_kind k ≡ true → (k == "intent") ≡ false
  kinds_apart k h = elim (Bool-cases (k == "intent")) [
    | inl e ↦ cc (subst (λ x. is_dispatch_kind x ≡ true) ((eq_iff k "intent").0 e) h)
    | inr e ↦ e
  ]

  -- The records that the fold counts for a subject, of any kind.
  abbrev pub records_of : String → List Record → List Record
  records_of subject = select (belongs subject (λ k. true))

  -- The dispatch records of a subject: dispatched, returned or presumed lost.
  abbrev pub dispatch_records : String → List Record → List Record
  dispatch_records subject = select (belongs subject is_dispatch_kind)

  -- The intent records of a subject.
  abbrev pub intent_records : String → List Record → List Record
  intent_records subject = select (belongs subject (λ k. k == "intent"))

  -- The group `g` with the records of `rs` for the subject behind it.
  abbrev extend : String → SubjectGroup → List Record → SubjectGroup
  extend subject g rs = record {
    dispatch = g.dispatch ++ dispatch_records subject rs;
    intent = g.intent ++ intent_records subject rs;
  }

  abbrev pub grouped : String → Option SubjectGroup → List Record → Option SubjectGroup
  grouped subject (some g) rs = some (extend subject g rs)
  grouped subject none rs =
      if is_empty (records_of subject rs) then none else some (extend subject empty_group rs)

  or_empty : Option SubjectGroup → SubjectGroup
  or_empty none = empty_group
  or_empty (some g) = g

  find-update_group :
      (s t : String) (f : SubjectGroup → SubjectGroup) (m : Groups)
      → find_group (update_group s f m) t
        ≡ (if s == t then some (f (or_empty (find_group m s))) else find_group m t)
  unfolding find_group update_group or_empty
  find-update_group s t f [] = refl
  find-update_group s t f ((u, g) ∷ m) =
      ground (arith, eq_iff s t, eq_iff u s, eq_iff u t, find-update_group s t f m)

  -- What one record does to the group of `t`.
  step_group :
      String → Option SubjectGroup → Option String → Option String → Record → Option SubjectGroup
  step_group t o (some s) (some k) r =
      if not (s == "" || k == "") && s == t then some (add_to_group k r (or_empty o)) else o
  step_group t o _ _ r = o

  find-group_at :
      (t : String) (s k : Option String) (r : Record) (m : Groups)
      → find_group (group_at s k r m) t ≡ step_group t (find_group m t) s k r
  unfolding group_at step_group
  find-group_at t none k r m = refl
  find-group_at t (some s) none r m = refl
  find-group_at t (some s) (some k) r m =
      ground (arith, find-update_group s t (add_to_group k r) m, eq_iff s t)

  extend-step :
      (t : String) (g : SubjectGroup) (k : String) (r : Record) (rs : List Record)
      → str r "kind" ≡ some k
      → str r "subject" ≡ some t
      → not (t == "" || k == "") ≡ true
      → extend t (add_to_group k r g) rs ≡ extend t g (r ∷ rs)
  unfolding add_to_group
  extend-step t g k r rs ek es h = ground (
    arith,
    kinds_apart k,
    eq_refl t,
    append_assoc g.dispatch (r ∷ []) (dispatch_records t rs),
    append_assoc g.intent (r ∷ []) (intent_records t rs),
  )

  grouped-step :
      (t : String) (o : Option SubjectGroup) (s k : Option String) (r : Record) (rs : List Record)
      → str r "subject" ≡ s
      → str r "kind" ≡ k
      → grouped t (step_group t o s k r) rs ≡ grouped t o (r ∷ rs)
  unfolding step_group or_empty
  grouped-step t none none k r rs es ek = ground arith
  grouped-step t none (some s) none r rs es ek = ground arith
  grouped-step t none (some s) (some k) r rs es ek =
      ground (arith, eq_iff s t, extend-step t empty_group k r rs)
  grouped-step t (some g) none k r rs es ek = ground arith
  grouped-step t (some g) (some s) none r rs es ek = ground arith
  grouped-step t (some g) (some s) (some k) r rs es ek =
      ground (arith, eq_iff s t, extend-step t g k r rs)

  grouped-nil : (t : String) (o : Option SubjectGroup) → grouped t o [] ≡ o
  grouped-nil t none = refl
  grouped-nil t (some g) = ground (arith, append-nil g.dispatch, append-nil g.intent)

  find-group_record :
      (t : String) (m : Groups) (r : Record) (rs : List Record)
      → grouped t (find_group (group_record m r) t) rs ≡ grouped t (find_group m t) (r ∷ rs)
  unfolding group_record
  find-group_record t m r rs =
      rw find-group_at
        (grouped-step t (find_group m t) (str r "subject") (str r "kind") r rs refl refl)

  find-foldl :
      (t : String) (m : Groups) (rs : List Record)
      → find_group (foldl group_record m rs) t ≡ grouped t (find_group m t) rs
  find-foldl t m [] = sym (grouped-nil t (find_group m t))
  find-foldl t m (r ∷ rs) = find-foldl t (group_record m r) rs ∙ find-group_record t m r rs

  -- The group under a subject holds the subject's dispatch records and its intent records, both
  -- in record order, and there is one exactly if the subject has a record of any kind.
  pub find-group_records :
      (t : String) (rs : List Record) → find_group (group_records rs) t ≡ grouped t none rs
  unfolding group_records find_group
  find-group_records t rs = find-foldl t [] rs

  has_subject_and_weaken :
      (t : String) (test : String → Bool) (s k : Option String)
      → has_subject_and t (λ k. true) s k ≡ false
      → has_subject_and t test s k ≡ false
  has_subject_and_weaken t test (some s) (some k) h = ground arith
  has_subject_and_weaken t test (some s) none h = refl
  has_subject_and_weaken t test none k h = refl

  -- Without a record of any kind there is none of a certain kind.
  pub select_none :
      (t : String) (test : String → Bool) (rs : List Record)
      → is_empty (records_of t rs) ≡ true
      → select (belongs t test) rs ≡ []
  select_none t test [] h = refl
  select_none t test (r ∷ rs) h = elim (Bool-cases (belongs t (λ k. true) r)) [
    | inl e ↦ absurd (false≢true (rw e at h))
    | inr e ↦
        rw (has_subject_and_weaken t test (str r "subject") (str r "kind") e)
          (select_none t test rs (rw e at h))
  ]
