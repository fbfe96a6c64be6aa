-- ===== src/Prelude/Lists.antt =====
-- Lists measured by native numbers, selection by a Boolean test, and predicates by recursion.
use Prim.Native.Nat.{ℕ, suc, ◌+◌}
use mathlib.Core.Path.{◌≡◌, refl}
use mathlib.Core.Logic.Or
use mathlib.Core.Bool.{Bool, true, false, Bool-set}
use mathlib.Core.List.{
  List, [], ◌∷◌, ◌++◌, map, Mem, Perm, not-mem-nil, mem-cons, mem-cons_self, mem-cons_of_mem,
}
use mathlib.Core.List.Perm
use native.Mathlib.Omega.{arith}
use mathlib.Core.Option.{Option, none, some}
use star_car.Prelude.Tests.{if◌then◌else◌}

module _ {ℓ} {A : Type ℓ} where
  abbrev pub length : List A → ℕ
  length [] = 0
  length (x ∷ xs) = suc (length xs)

  -- The elements that pass a test, in order.
  abbrev pub select : (A → Bool) → List A → List A
  select p [] = []
  select p (x ∷ xs) = let rest = select p xs in if p x then x ∷ rest else rest

  abbrev pub is_empty : List A → Bool
  is_empty [] = true
  is_empty (x ∷ xs) = false

  pub length-append : (xs ys : List A) → length (xs ++ ys) ≡ length xs + length ys
  length-append [] ys = omega arith
  length-append (x ∷ xs) ys = omega (arith, length-append xs ys)

  pub select-append :
      (p : A → Bool) (xs ys : List A) → select p (xs ++ ys) ≡ select p xs ++ select p ys
  select-append p [] ys = refl
  select-append p (x ∷ xs) ys = ground (arith, select-append p xs ys)

module _ {ℓ κ} {A : Type ℓ} where
  abbrev pub All : (A → Type κ) → List A → Type κ
  All P [] = Unit
  All P (x ∷ xs) = P x × All P xs

  pub All-append : (P : A → Type κ) (xs ys : List A) → All P xs → All P ys → All P (xs ++ ys)
  All-append P [] ys hx hy = hy
  All-append P (x ∷ xs) ys hx hy = (hx.0, All-append P xs ys hx.1 hy)

pub All-imp {ℓ κ μ} :
    {A : Type ℓ} {P : A → Type κ} {Q : A → Type μ}
    → ((a : A) → P a → Q a)
    → (xs : List A) → All P xs
    → All Q xs
All-imp f [] h = tt
All-imp f (x ∷ xs) h = (f x h.0, All-imp f xs h.1)

-- A test that comes out alike on a whole list does so on each of its members, and the other way.
test_of_mem {ℓ} :
    {A : Type ℓ} (p : A → Bool) (b : Bool) (a : A) (l : List A)
    → All (λ y. p y ≡ b) l
    → Mem a l
    → p a ≡ b
test_of_mem p b a [] h m = absurd (not-mem-nil m)
test_of_mem p b a (x ∷ xs) h m =
    Or.elim (Bool-set (p a) b) (mem-cons.0 m) (λ e. rw e h.0) (test_of_mem p b a xs h.1)

pub All-of_mem {ℓ κ} :
    {A : Type ℓ} (P : A → Type κ) (l : List A) → ((a : A) → Mem a l → P a) → All P l
All-of_mem P [] h = tt
All-of_mem P (x ∷ xs) h = (h x mem-cons_self, All-of_mem P xs (λ a m. h a (mem-cons_of_mem x m)))

pub All-mem {ℓ} :
    {A : Type ℓ} (p : A → Bool) (b : Bool) (l : List A)
    → All (λ y. p y ≡ b) l
    → (a : A) → Mem a l
    → p a ≡ b
All-mem p b l h a m = test_of_mem p b a l h m

pub All-perm {ℓ} :
    {A : Type ℓ} (p : A → Bool) (b : Bool) (l r : List A)
    → Perm l r
    → All (λ y. p y ≡ b) l
    → All (λ y. p y ≡ b) r
All-perm p b l r q h = All-of_mem _ r (λ a m. test_of_mem p b a l h ((Perm.mem_iff q).1 m))

abbrev pub option_list {ℓ} : {A : Type ℓ} → Option A → List A
option_list none = []
option_list (some a) = a ∷ []

pub All-split :
    {A : Type 0} (P : A → Type 0) (xs ys : List A) → All P (xs ++ ys) → All P xs × All P ys
All-split P [] ys h = (tt, h)
All-split P (x ∷ xs) ys (h, hs) = let (a, b) = All-split P xs ys hs in ((h, a), b)

-- One element among the others, replaced.
pub All-replace :
    {A : Type 0} (P : A → Type 0) (xs ys : List A) (c d : A)
    → (P c → P d)
    → All P (xs ++ c ∷ ys)
    → All P (xs ++ d ∷ ys)
All-replace P xs ys c d f h =
    let (a, (b, e)) = All-split P xs (c ∷ ys) h in All-append P xs (d ∷ ys) a (f b, e)

-- The element in the middle.
pub All-middle : {A : Type 0} (P : A → Type 0) (xs ys : List A) (c : A) → All P (xs ++ c ∷ ys) → P c
All-middle P xs ys c h = ((All-split P xs (c ∷ ys) h).1).0

-- All the others, where one is taken out.
pub All-removed :
    {A : Type 0} (P : A → Type 0) (xs ys : List A) (c : A) → All P (xs ++ c ∷ ys) → All P (xs ++ ys)
All-removed P xs ys c h = let (a, (b, e)) = All-split P xs (c ∷ ys) h in All-append P xs ys a e

pub All-map :
    {A B : Type 0} (P : A → Type 0) (Q : B → Type 0) (f : A → B)
    → ((a : A) → P a → Q (f a))
    → (xs : List A) → All P xs
    → All Q (map f xs)
All-map P Q f g [] h = tt
All-map P Q f g (x ∷ xs) h = (g x h.0, All-map P Q f g xs h.1)

pub All-both :
    {A : Type 0} (P Q R : A → Type 0)
    → ((a : A) → P a → Q a → R a)
    → (xs : List A) → All P xs
    → All Q xs
    → All R xs
All-both P Q R f [] h k = tt
All-both P Q R f (x ∷ xs) h k = (f x h.0 k.0, All-both P Q R f xs h.1 k.1)
