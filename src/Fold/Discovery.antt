-- ===== src/Fold/Discovery.antt =====
-- About the discoveries and the faults of `Fold` (algorithm.go).
use mathlib.Core.List.{foldl}
use mathlib.Core.Bool.{false≢true, or-false, or_assoc}
use Prim.Native.String
use star_car.Prelude.{
  ◌≡◌, refl, sym, ◌∙◌, Bool, true, false, not, ◌&&◌, ◌||◌, inl, inr, String, Option, none, some,
  List, [], ◌∷◌, ◌++◌, ◌==◌, eq_iff, Bool-cases, subst, All-append, is_empty, length, arith,
  if◌then◌else◌,
}
use star_car.Prelude.Strings.{IsDistinct}
use star_car.Platform.{Platform}
use star_car.Fold.Record.{Record, Vocab, str, contains, has_kind, has_outcome}
use star_car.Fold.Groups.{add_discovery, discover, discover_record}
use star_car.Fold.Algorithm.{empty_vocab_files, vocab_faults, discoveries_of}

contains-snoc :
    (l : List String) (d t : String) → contains (l ++ d ∷ []) t ≡ (contains l t || d == t)
unfolding contains
contains-snoc [] d t = ground arith
contains-snoc (x ∷ xs) d t = ground (arith, contains-snoc xs d t)

contains-add :
    (d t : String) (l : List String) → contains (add_discovery d l) t ≡ (contains l t || d == t)
unfolding add_discovery
contains-add d t l = elim (Bool-cases (contains l d)) [
  | inl e ↦ rw e (elim (Bool-cases (d == t)) [
    | inl k ↦ rw k (subst (λ x. contains l x ≡ (contains l x || true)) ((eq_iff d t).0 k) (rw e))
    | inr k ↦ rw k (sym (or-false (contains l t)))
  ])
  | inr e ↦ rw e (contains-snoc l d t)
]

IsDistinct-snoc :
    (l : List String) (d : String) → contains l d ≡ false → IsDistinct l → IsDistinct (l ++ d ∷ [])
unfolding contains
IsDistinct-snoc [] d n h = (tt, tt)
IsDistinct-snoc (x ∷ xs) d n h = elim (Bool-cases (x == d)) [
  | inl e ↦ absurd (false≢true (sym (rw e at n)))
  | inr e ↦ (
    All-append (λ y. (x == y) ≡ false) xs (d ∷ []) h.0 (e, tt),
    IsDistinct-snoc xs d (rw e at n) h.1,
  )
]

add_discovery-IsDistinct :
    (d : String) (l : List String) → IsDistinct l → IsDistinct (add_discovery d l)
unfolding add_discovery
add_discovery-IsDistinct d l h = elim (Bool-cases (contains l d)) [
  | inl e ↦ rw e h
  | inr e ↦ rw e (IsDistinct-snoc l d e h)
]

module _ ⦃p : Platform⦄ (vocab : Vocab) where
  -- `d` names the value with its label, and the value is neither empty nor recognised.
  abbrev names : String → (String → Bool) → Option String → String → Bool
  names label recognised none d = false
  names label recognised (some value) d =
      (not (value == "") && not (recognised value)) && String.◌++◌ label value == d

  -- The record carries a kind or an outcome that `d` names and the vocabulary does not hold.
  abbrev pub reveals : Record → String → Bool
  reveals r d =
      names "kind: " (has_kind vocab) (str r "kind") d
      || names "outcome: " (has_outcome vocab) (str r "outcome") d

  abbrev pub any_reveals : List Record → String → Bool
  any_reveals [] d = false
  any_reveals (r ∷ rs) d = reveals r d || any_reveals rs d

  contains-discover :
      (label : String) (recognised : String → Bool) (o : Option String) (l : List String)
      (d : String)
      → contains (discover label recognised o l) d ≡ (contains l d || names label recognised o d)
  unfolding discover
  contains-discover label recognised none l d = sym (or-false (contains l d))
  contains-discover label recognised (some v) l d =
      elim (Bool-cases (not (v == "") && not (recognised v))) [
        | inl e ↦ rw e (contains-add (String.◌++◌ label v) d l)
        | inr e ↦ rw e (sym (or-false (contains l d)))
      ]

  discover-IsDistinct :
      (label : String) (recognised : String → Bool) (o : Option String) (l : List String)
      → IsDistinct l
      → IsDistinct (discover label recognised o l)
  unfolding discover
  discover-IsDistinct label recognised none l h = h
  discover-IsDistinct label recognised (some v) l h =
      elim (Bool-cases (not (v == "") && not (recognised v))) [
        | inl e ↦ rw e (add_discovery-IsDistinct (String.◌++◌ label v) l h)
        | inr e ↦ rw e h
      ]

  contains-discover_record :
      (l : List String) (r : Record) (d : String)
      → contains (discover_record vocab l r) d ≡ (contains l d || reveals r d)
  unfolding discover_record
  contains-discover_record l r d =
      contains-discover "outcome: " (has_outcome vocab) (str r "outcome") _ d
      ∙ rw contains-discover (or_assoc (contains l d) _ _)

  contains-foldl :
      (l : List String) (rs : List Record) (d : String)
      → contains (foldl (discover_record vocab) l rs) d ≡ (contains l d || any_reveals rs d)
  contains-foldl l [] d = sym (or-false (contains l d))
  contains-foldl l (r ∷ rs) d =
      contains-foldl (discover_record vocab l r) rs d
      ∙ rw contains-discover_record (or_assoc (contains l d) (reveals r d) (any_reveals rs d))

  foldl-IsDistinct :
      (l : List String) (rs : List Record)
      → IsDistinct l
      → IsDistinct (foldl (discover_record vocab) l rs)
  unfolding discover_record
  foldl-IsDistinct l [] h = h
  foldl-IsDistinct l (r ∷ rs) h = foldl-IsDistinct (discover_record vocab l r) rs (
      discover-IsDistinct "outcome: " (has_outcome vocab) (str r "outcome") _
        (discover-IsDistinct "kind: " (has_kind vocab) (str r "kind") l h))

  abbrev pub both_filled : Bool
  both_filled = not (is_empty vocab.kinds) && not (is_empty vocab.outcomes)

  files_filled : is_empty (empty_vocab_files vocab) ≡ both_filled
  unfolding empty_vocab_files
  files_filled = elim (Bool-cases (is_empty vocab.kinds)) [
    | inl e ↦ rw e refl
    | inr e ↦
        rw e (elim (Bool-cases (is_empty vocab.outcomes)) [ inl f ↦ rw f refl | inr f ↦ rw f refl ])
  ]

  -- A text is among the discoveries exactly if both vocabularies hold something and some record
  -- carries a kind that is not empty and not among the vocabulary's kinds, or an outcome that is
  -- not empty and not among its outcomes, which the text names.
  pub contains-discoveries_of :
      (rs : List Record) (d : String)
      → contains (discoveries_of vocab rs) d ≡ (both_filled && any_reveals rs d)
  unfolding discoveries_of
  contains-discoveries_of rs d = elim (Bool-cases both_filled) [
    | inl e ↦ rw (files_filled, e) (contains-foldl [] rs d)
    | inr e ↦ rw (files_filled, e) refl
  ]

  -- No discovery is listed twice.
  pub discoveries_of-IsDistinct : (rs : List Record) → IsDistinct (discoveries_of vocab rs)
  unfolding discoveries_of
  discoveries_of-IsDistinct rs = elim (Bool-cases both_filled) [
    | inl e ↦ rw (files_filled, e) (foldl-IsDistinct [] rs tt)
    | inr e ↦ rw (files_filled, e) tt
  ]

  -- There is one fault where a vocabulary is empty, however many are, and none otherwise.
  pub length-vocab_faults : length (vocab_faults vocab) ≡ (if both_filled then 0 else 1)
  unfolding vocab_faults
  length-vocab_faults = elim (Bool-cases both_filled) [
    | inl e ↦ rw (files_filled, e) refl
    | inr e ↦ rw (files_filled, e) refl
  ]
