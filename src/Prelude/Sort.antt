-- ===== src/Prelude/Sort.antt =====
-- `sort.SliceStable`. A stable sort by a strict weak order has one result, so
-- the plainest one is taken: each element goes in front of the first element, among the sorted
-- rest, that it does not come after.
use Prim.Native.Nat.{suc}
use mathlib.Core.Path.{◌≡◌, refl, ap, ap₂, ◌∙◌, sym, subst}
use mathlib.Core.Logic.{◌≢◌, inl, inr}
use mathlib.Core.Bool.{Bool, true, false, not, ◌&&◌}
use mathlib.Core.List.{List, [], ◌∷◌, Perm}
use mathlib.Core.List.Perm
use native.Mathlib.Omega.{arith}
use star_car.Prelude.Tests.{if◌then◌else◌, Bool-cases}
use star_car.Prelude.Lists.{length, All, All-imp, All-perm, select}

-- What a sort asks of its `less`.
pub record IsWeakOrder {ℓ} {A : Type ℓ} (less : A → A → Bool) : Type ℓ where
  pub asym : (a b : A) → less a b ≡ true → less b a ≡ false
  pub trans : (a b c : A) → less b a ≡ false → less c b ≡ false → less c a ≡ false

module _ {ℓ} {A : Type ℓ} (less : A → A → Bool) where
  unfoldable pub insert_sorted : A → List A → List A
  insert_sorted x [] = x ∷ []
  insert_sorted x (y ∷ ys) =
      let rest = insert_sorted x ys in if less y x then y ∷ rest else x ∷ y ∷ ys

  unfoldable pub sort_stable : List A → List A
  unfolding insert_sorted
  sort_stable [] = []
  sort_stable (x ∷ xs) = insert_sorted x (sort_stable xs)

  -- No element comes before `x`.
  abbrev pub AllAfter : A → List A → Type 0
  AllAfter x = All (λ y. less y x ≡ false)

  -- Every element comes no later than those behind it.
  abbrev pub IsSorted : List A → Type 0
  IsSorted [] = Unit
  IsSorted (x ∷ xs) = AllAfter x xs × IsSorted xs

  -- `y` and `z` are equivalent: neither comes before the other.
  abbrev pub ties : A → A → Bool
  ties z y = not (less z y) && not (less y z)

  -- What sorting `l` puts first, and what it puts behind.
  pub record IsRanking (l : List A) (first : A) (others : List A) : Type ℓ where
    pub perm : Perm (first ∷ others) l
    pub sorted : IsSorted (first ∷ others)
    pub top : All (λ y. less y first ≡ false) l
    pub earliest : select (ties first) l ≡ first ∷ select (ties first) others

  insert_sorted-perm : (x : A) (l : List A) → Perm (insert_sorted x l) (x ∷ l)
  unfolding insert_sorted
  insert_sorted-perm x [] = Perm.rfl
  insert_sorted-perm x (y ∷ ys) = elim (Bool-cases (less y x)) [
    | inl h ↦ rw h (Perm.trans (Perm.cons y (insert_sorted-perm x ys)) (Perm.swap x y ys))
    | inr h ↦ rw h Perm.rfl
  ]

  length-insert_sorted : (x : A) (l : List A) → length (insert_sorted x l) ≡ suc (length l)
  unfolding insert_sorted
  length-insert_sorted x [] = refl
  length-insert_sorted x (y ∷ ys) = elim (Bool-cases (less y x)) [
    | inl h ↦ rw h (ap suc (length-insert_sorted x ys))
    | inr h ↦ rw h refl
  ]

  pub length-sort_stable : (l : List A) → length (sort_stable l) ≡ length l
  unfolding sort_stable
  length-sort_stable [] = refl
  length-sort_stable (x ∷ xs) =
      length-insert_sorted x (sort_stable xs) ∙ ap suc (length-sort_stable xs)

  -- Sorting rearranges.
  pub sort_stable-perm : (l : List A) → Perm (sort_stable l) l
  unfolding sort_stable
  sort_stable-perm [] = Perm.rfl
  sort_stable-perm (x ∷ xs) =
      Perm.trans (insert_sorted-perm x (sort_stable xs)) (Perm.cons x (sort_stable-perm xs))

  module _ (o : IsWeakOrder less) where
    AllAfter-trans : (x y : A) (l : List A) → less y x ≡ false → AllAfter y l → AllAfter x l
    AllAfter-trans x y l h = All-imp (λ z k. o.trans x y z h k) l

    AllAfter-insert_sorted :
        (z x : A) (l : List A) → less x z ≡ false → AllAfter z l → AllAfter z (insert_sorted x l)
    unfolding insert_sorted
    AllAfter-insert_sorted z x [] h k = (h, tt)
    AllAfter-insert_sorted z x (y ∷ ys) h k = elim (Bool-cases (less y x)) [
      | inl e ↦ rw e (k.0, AllAfter-insert_sorted z x ys h k.1)
      | inr e ↦ rw e (h, k)
    ]

    insert_sorted-IsSorted : (x : A) (l : List A) → IsSorted l → IsSorted (insert_sorted x l)
    unfolding insert_sorted
    insert_sorted-IsSorted x [] h = (tt, tt)
    insert_sorted-IsSorted x (y ∷ ys) h = elim (Bool-cases (less y x)) [
      | inl e ↦
          rw e (AllAfter-insert_sorted y x ys (o.asym y x e) h.0, insert_sorted-IsSorted x ys h.1)
      | inr e ↦ rw e ((e, AllAfter-trans x y ys e h.0), h)
    ]

    -- Sorting sorts.
    pub sort_stable-IsSorted : (l : List A) → IsSorted (sort_stable l)
    unfolding sort_stable
    sort_stable-IsSorted [] = tt
    sort_stable-IsSorted (x ∷ xs) =
        insert_sorted-IsSorted x (sort_stable xs) (sort_stable-IsSorted xs)

    not_ties_of_before : (x y z : A) → less y x ≡ true → ties z x ≡ true → ties z y ≡ false
    not_ties_of_before x y z h t = ground (arith, o.trans x z y)

    select-insert_sorted :
        (z x : A) (l : List A) → select (ties z) (insert_sorted x l) ≡ select (ties z) (x ∷ l)
    unfolding insert_sorted
    select-insert_sorted z x [] = refl
    select-insert_sorted z x (y ∷ ys) =
        ground (arith, select-insert_sorted z x ys, not_ties_of_before x y z)

    -- Sorting keeps the order of equivalent elements.
    pub sort_stable-stable :
        (z : A) (l : List A) → select (ties z) (sort_stable l) ≡ select (ties z) l
    unfolding sort_stable
    sort_stable-stable z [] = refl
    sort_stable-stable z (x ∷ xs) =
        select-insert_sorted z x (sort_stable xs) ∙ ground (arith, sort_stable-stable z xs)

    irrefl : (a : A) → less a a ≡ false
    irrefl a = elim (Bool-cases (less a a)) [ inl h ↦ o.asym a a h | inr h ↦ h ]

    insert_sorted-ne-nil : (x : A) (l : List A) → insert_sorted x l ≢ []
    unfolding insert_sorted
    insert_sorted-ne-nil x [] = λ e. cc
    insert_sorted-ne-nil x (y ∷ ys) = ground arith

    IsRanking-of_sort :
        (l : List A) (first : A) (others : List A)
        → sort_stable l ≡ first ∷ others
        → IsRanking l first others
    IsRanking-of_sort l first others e =
        let perm : Perm (first ∷ others) l = rw e at (sort_stable-perm l) in
        let sorted : IsSorted (first ∷ others) = subst IsSorted e (sort_stable-IsSorted l) in
        record {
          perm = perm;
          sorted = sorted;
          top = All-perm (λ y. less y first) false (first ∷ others) l perm (irrefl first, sorted.0);
          earliest = sym (sort_stable-stable first l) ∙ (rw e (ground (arith, irrefl first)));
        }

    -- Sorting a list that is not empty ranks it.
    pub sort_stable-IsRanking :
        (x : A) (xs : List A)
        → (first : A) × (others : List A) × (sort_stable (x ∷ xs) ≡ first ∷ others)
          × IsRanking (x ∷ xs) first others
    unfolding sort_stable
    sort_stable-IsRanking x xs = go (sort_stable (x ∷ xs)) refl
      where
        go :
            (l : List A)
            → sort_stable (x ∷ xs) ≡ l
            → (first : A) × (others : List A) × (sort_stable (x ∷ xs) ≡ first ∷ others)
              × IsRanking (x ∷ xs) first others
        go [] e = absurd (insert_sorted-ne-nil x (sort_stable xs) e)
        go (y ∷ ys) e = (y, ys, e, IsRanking-of_sort (x ∷ xs) y ys e)

    -- Where equivalent elements are equal, a list has one sorted rearrangement.
    module _ (antisymm : (a b : A) → less a b ≡ false → less b a ≡ false → a ≡ b) where
      pub IsSorted-eq_of_perm : (l r : List A) → IsSorted l → IsSorted r → Perm l r → l ≡ r
      IsSorted-eq_of_perm [] r sl sr p = Perm.nil-eq p
      IsSorted-eq_of_perm (a ∷ l) [] sl sr p = Perm.eq-nil p
      IsSorted-eq_of_perm (a ∷ l) (b ∷ r) sl sr p =
          let hb = (All-perm (λ y. less y a) false (a ∷ l) (b ∷ r) p (irrefl a, sl.0)).0 in
          let ha =
            (All-perm (λ y. less y b) false (b ∷ r) (a ∷ l) (Perm.symm p) (irrefl b, sr.0)).0 in
          let heads = antisymm a b ha hb in
          let tails = Perm.cons_inv (Perm.trans p (Perm.symm (Perm.cons' heads Perm.rfl))) in
          ap₂ ◌∷◌ heads (IsSorted-eq_of_perm l r sl.1 sr.1 tails)
