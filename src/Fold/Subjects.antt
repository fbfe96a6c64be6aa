-- ===== src/Fold/Subjects.antt =====
-- About the subjects that the map of `Fold` (algorithm.go) ranges over.
use mathlib.Core.List.{Perm, foldl}
use mathlib.Core.Bool.{false≢true}
use star_car.Prelude.{
  ◌≡◌, refl, sym, inl, inr, Bool-cases, true, false, ◌||◌, String, Option, none, some, List, [],
  ◌∷◌, ◌==◌, eq_refl, is_some, All, All-imp, All-perm, arith,
}
use star_car.Prelude.Strings.{IsDistinct}
use star_car.Platform.{Platform}
use star_car.Fold.Record.{Record, str, contains}
use star_car.Fold.Groups.{
  SubjectGroup, add_to_group, Groups, find_group, update_group, group_at, group_record,
  group_records, subjects_of,
}

module _ ⦃p : Platform⦄ where
  fresh_after_update :
      (s t : String) (f : SubjectGroup → SubjectGroup) (m : Groups)
      → (s == t) ≡ false
      → All (λ y. (s == y) ≡ false) (subjects_of m)
      → All (λ y. (s == y) ≡ false) (subjects_of (update_group t f m))
  unfolding update_group subjects_of
  fresh_after_update s t f [] e h = (e, tt)
  fresh_after_update s t f ((u, g) ∷ m) e h = elim (Bool-cases (u == t)) [
    | inl k ↦ rw k h
    | inr k ↦ rw k (h.0, fresh_after_update s t f m e h.1)
  ]

  update_group-IsDistinct :
      (t : String) (f : SubjectGroup → SubjectGroup) (m : Groups)
      → IsDistinct (subjects_of m)
      → IsDistinct (subjects_of (update_group t f m))
  unfolding update_group subjects_of
  update_group-IsDistinct t f [] h = (tt, tt)
  update_group-IsDistinct t f ((u, g) ∷ m) h = elim (Bool-cases (u == t)) [
    | inl k ↦ rw k h
    | inr k ↦ rw k (fresh_after_update u t f m k h.0, update_group-IsDistinct t f m h.1)
  ]

  group_at-IsDistinct :
      (s k : Option String) (r : Record) (m : Groups)
      → IsDistinct (subjects_of m)
      → IsDistinct (subjects_of (group_at s k r m))
  unfolding group_at
  group_at-IsDistinct none k r m h = h
  group_at-IsDistinct (some s) none r m h = h
  group_at-IsDistinct (some s) (some k) r m h = elim (Bool-cases (s == "" || k == "")) [
    | inl e ↦ rw e h
    | inr e ↦ rw e (update_group-IsDistinct s (add_to_group k r) m h)
  ]

  foldl-IsDistinct :
      (m : Groups) (rs : List Record)
      → IsDistinct (subjects_of m)
      → IsDistinct (subjects_of (foldl group_record m rs))
  unfolding group_record
  foldl-IsDistinct m [] h = h
  foldl-IsDistinct m (r ∷ rs) h =
      foldl-IsDistinct (group_record m r) rs
        (group_at-IsDistinct (str r "subject") (str r "kind") r m h)

  pub group_records-IsDistinct : (rs : List Record) → IsDistinct (subjects_of (group_records rs))
  unfolding group_records
  group_records-IsDistinct rs = foldl-IsDistinct [] rs (unfold subjects_of in tt)

  -- A group that the map ranges over is there.
  pub All-found : (m : Groups) → All (λ s. is_some (find_group m s) ≡ true) (subjects_of m)
  unfolding find_group subjects_of
  All-found [] = tt
  All-found ((u, g) ∷ m) =
      (rw eq_refl refl, All-imp (λ s h. ground arith) (subjects_of m) (All-found m))

  -- A subject that the map does not range over has no group.
  pub find_group-none :
      (m : Groups) (t : String) → contains (subjects_of m) t ≡ false → find_group m t ≡ none
  unfolding find_group subjects_of contains
  find_group-none [] t h = refl
  find_group-none ((u, g) ∷ m) t h = ground (arith, find_group-none m t)

contains→All : (l : List String) (t : String) → contains l t ≡ false → All (λ y. (y == t) ≡ false) l
unfolding contains
contains→All [] t h = tt
contains→All (x ∷ xs) t h = elim (Bool-cases (x == t)) [
  | inl e ↦ absurd (false≢true (sym (rw e at h)))
  | inr e ↦ (e, contains→All xs t (rw e at h))
]

All→contains : (l : List String) (t : String) → All (λ y. (y == t) ≡ false) l → contains l t ≡ false
unfolding contains
All→contains [] t h = refl
All→contains (x ∷ xs) t h = rw h.0 (All→contains xs t h.1)

pub contains-false_perm :
    (l r : List String) (t : String) → Perm l r → contains l t ≡ false → contains r t ≡ false
contains-false_perm l r t p h =
    All→contains r t (All-perm (λ y. y == t) false l r p (contains→All l t h))
