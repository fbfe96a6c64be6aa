-- ===== src/Prelude/Strings.antt =====
-- `sort.Strings`, and lists of texts that ascend or name no text twice.
use Prim.Native.String.{String}
use mathlib.Core.Path.{◌≡◌}
use mathlib.Core.Logic.{◌≢◌, inl, inr}
use mathlib.Core.Bool.{true, false}
use mathlib.Core.List.{List, [], ◌∷◌, Mem, Perm, Nodup, Nodup-nil, Nodup-cons}
use mathlib.Core.List.Perm
use star_car.Prelude.Tests.{Bool-cases}
use star_car.Prelude.Lists.{length, All, All-mem, All-of_mem}
use star_car.Prelude.Texts.{
  ◌==◌, eq_refl, StrLe, str_less, str_less_asym, StrLe-trans, StrLe-antisymm,
}
use star_car.Prelude.Sort.{
  sort_stable, IsSorted, sort_stable-perm, sort_stable-IsSorted, IsSorted-eq_of_perm,
  length-sort_stable, IsWeakOrder,
}

-- `sort.Strings`
unfoldable pub sort_strings : List String → List String
unfolding sort_stable str_less
sort_strings = sort_stable str_less

pub StrLe-IsWeakOrder : IsWeakOrder str_less
StrLe-IsWeakOrder = record { asym = str_less_asym; trans = StrLe-trans }

-- The result of `sort.Strings` depends on no more than which texts there are, and how often.
pub sort_strings-eq_of_perm : (l r : List String) → Perm l r → sort_strings l ≡ sort_strings r
unfolding sort_strings
sort_strings-eq_of_perm l r p =
    IsSorted-eq_of_perm str_less StrLe-IsWeakOrder (λ a b h k. StrLe-antisymm a b k h)
      (sort_strings l) (sort_strings r) (sort_stable-IsSorted str_less StrLe-IsWeakOrder l)
      (sort_stable-IsSorted str_less StrLe-IsWeakOrder r)
      (Perm.trans (sort_stable-perm str_less l)
        (Perm.trans p (Perm.symm (sort_stable-perm str_less r))))

-- Each text comes before all that follow: the list is sorted and names no text twice.
abbrev pub IsAscending : List String → Type 0
IsAscending [] = Unit
IsAscending (x ∷ xs) = All (λ y. str_less x y ≡ true) xs × IsAscending xs

-- No text is listed twice.
abbrev pub IsDistinct : List String → Type 0
IsDistinct [] = Unit
IsDistinct (x ∷ xs) = All (λ y. (x == y) ≡ false) xs × IsDistinct xs

not_mem_of_distinct : (x : String) (l : List String) → All (λ y. (x == y) ≡ false) l → ¬ Mem x l
not_mem_of_distinct x l h m = cc (eq_refl x, All-mem (λ y. x == y) false l h x m)

IsDistinct-Nodup : (l : List String) → IsDistinct l → Nodup l
IsDistinct-Nodup [] h = Nodup-nil
IsDistinct-Nodup (x ∷ xs) h = Nodup-cons.1 (not_mem_of_distinct x xs h.0, IsDistinct-Nodup xs h.1)

less_of_le_ne : (x y : String) → StrLe x y → x ≢ y → str_less x y ≡ true
less_of_le_ne x y h n = elim (Bool-cases (str_less x y)) [
  | inl k ↦ k
  | inr k ↦ absurd (n (StrLe-antisymm x y h k))
]

IsAscending-of_sorted : (l : List String) → IsSorted str_less l → Nodup l → IsAscending l
IsAscending-of_sorted [] s n = tt
IsAscending-of_sorted (x ∷ xs) s n =
    let (fresh, n') = Nodup-cons.0 n in
    (
      All-of_mem _ xs (λ y m.
          less_of_le_ne x y (All-mem (λ z. str_less z x) false xs s.0 y m) (λ e. fresh (rw e m))),
      IsAscending-of_sorted xs s.1 n',
    )

pub sort_strings-perm : (l : List String) → Perm (sort_strings l) l
unfolding sort_strings
sort_strings-perm l = sort_stable-perm str_less l

pub sort_strings-IsAscending : (l : List String) → IsDistinct l → IsAscending (sort_strings l)
unfolding sort_strings
sort_strings-IsAscending l h =
    IsAscending-of_sorted (sort_strings l) (sort_stable-IsSorted str_less StrLe-IsWeakOrder l)
      (Perm.nodup (Perm.symm (sort_stable-perm str_less l)) (IsDistinct-Nodup l h))

pub length-sort_strings : (l : List String) → length (sort_strings l) ≡ length l
unfolding sort_strings
length-sort_strings l = length-sort_stable str_less l
