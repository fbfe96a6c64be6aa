-- ===== src/Assemble/Claimed.antt =====
-- About `memberClaims` of `Assemble` (assemble.go): a map, in which no key stands twice.
use mathlib.Core.List.{foldl}
use star_car.Prelude.{
  ◌≡◌, inl, inr, Bool-cases, Bool, false, String, Option, none, some, List, [], ◌∷◌, map, ◌==◌, All,
  select,
}
use star_car.Prelude.Strings.{IsDistinct, IsAscending, sort_strings-IsAscending}
use star_car.Platform.{Platform}
use star_car.Paths.{has_prefix}
use star_car.Fold.Entry.{DispatchEntry, IntentEntry}
use star_car.Store.Types.{StoreRecord}
use star_car.Assemble.Types.{Train}
use star_car.Assemble.Manifest.{ManifestMember, find_raw_intent_record, manifest_payload}
use star_car.Assemble.Build.{add_condition, add_payload, add_raw, add_intent}
use star_car.Assemble.Joining.{
  Progress, add_claim, collided_members, join_member, claim_member, add_member, add_train,
}

abbrev claimed_keys : List (String × List String) → List String
claimed_keys cs = map (λ c. c.0) cs

select-All :
    (P : String → Type 0) (test : String → Bool) (l : List String) → All P l → All P (select test l)
select-All P test [] h = tt
select-All P test (x ∷ xs) h = elim (Bool-cases (test x)) [
  | inl e ↦ rw e (h.0, select-All P test xs h.1)
  | inr e ↦ rw e (select-All P test xs h.1)
]

select-IsDistinct :
    (test : String → Bool) (l : List String) → IsDistinct l → IsDistinct (select test l)
select-IsDistinct test [] h = tt
select-IsDistinct test (x ∷ xs) h = elim (Bool-cases (test x)) [
  | inl e ↦ rw e (select-All (λ y. (x == y) ≡ false) test xs h.0, select-IsDistinct test xs h.1)
  | inr e ↦ rw e (select-IsDistinct test xs h.1)
]

add_claim-All :
    (P : String → Type 0) (s t : String) (cs : List (String × List String))
    → P s
    → All P (claimed_keys cs)
    → All P (claimed_keys (add_claim s t cs))
unfolding add_claim
add_claim-All P s t [] k h = (k, tt)
add_claim-All P s t ((u, ids) ∷ cs) k h = elim (Bool-cases (u == s)) [
  | inl e ↦ rw e h
  | inr e ↦ rw e (h.0, add_claim-All P s t cs k h.1)
]

add_claim-IsDistinct :
    (s t : String) (cs : List (String × List String))
    → IsDistinct (claimed_keys cs)
    → IsDistinct (claimed_keys (add_claim s t cs))
unfolding add_claim
add_claim-IsDistinct s t [] h = (tt, tt)
add_claim-IsDistinct s t ((u, ids) ∷ cs) h = elim (Bool-cases (u == s)) [
  | inl e ↦ rw e h
  | inr e ↦
      rw e (add_claim-All (λ y. (u == y) ≡ false) s t cs e h.0, add_claim-IsDistinct s t cs h.1)
]

-- No member has two entries among the claims.
abbrev pub HasDistinctClaims : Progress → Type 0
HasDistinctClaims pr = IsDistinct (claimed_keys pr.member_claims)

module _ ⦃p : Platform⦄ where
  join_member-HasDistinctClaims :
      (m : ManifestMember) (o : Option DispatchEntry) (t : Train) (pr : Progress)
      → HasDistinctClaims pr
      → HasDistinctClaims (join_member m o (t, pr)).1
  unfolding join_member
  join_member-HasDistinctClaims m none t pr h = h
  join_member-HasDistinctClaims m (some d) t pr h = h

  module _ (records : List StoreRecord) (dispatches : List DispatchEntry) where
    foldl-add_member :
        (id : String) (ms : List ManifestMember) (t : Train) (pr : Progress)
        → HasDistinctClaims pr
        → HasDistinctClaims (foldl (add_member dispatches id) (t, pr) ms).1
    unfolding add_member claim_member
    foldl-add_member id [] t pr h = h
    foldl-add_member id (m ∷ ms) t pr h = foldl-add_member id ms _ _ (
        join_member-HasDistinctClaims m _ t (claim_member id m pr)
          (add_claim-IsDistinct m.subject id pr.member_claims h))

    add_payload-HasDistinctClaims :
        (intent : IntentEntry) (o : Option (String × List ManifestMember)) (pr : Progress)
        → HasDistinctClaims pr
        → HasDistinctClaims (add_payload dispatches intent o pr)
    unfolding add_payload add_train add_condition
    add_payload-HasDistinctClaims intent none pr h = h
    add_payload-HasDistinctClaims intent (some (title, members)) pr h =
        foldl-add_member intent.subject members _ pr h

    add_raw-HasDistinctClaims :
        (intent : IntentEntry) (o : Option StoreRecord) (pr : Progress)
        → HasDistinctClaims pr
        → HasDistinctClaims (add_raw dispatches intent o pr)
    unfolding add_raw add_condition
    add_raw-HasDistinctClaims intent none pr h = h
    add_raw-HasDistinctClaims intent (some r) pr h =
        add_payload-HasDistinctClaims intent (manifest_payload r) pr h

    add_intent-HasDistinctClaims :
        (pr : Progress) (intent : IntentEntry)
        → HasDistinctClaims pr
        → HasDistinctClaims (add_intent records dispatches pr intent)
    unfolding add_intent
    add_intent-HasDistinctClaims pr intent h =
        elim (Bool-cases (has_prefix intent.subject "train:")) [
          | inl e ↦ rw e (
              add_raw-HasDistinctClaims intent
                (find_raw_intent_record records intent.subject intent.at) pr h)
          | inr e ↦ rw e h
        ]

    pub foldl-HasDistinctClaims :
        (intents : List IntentEntry) (pr : Progress)
        → HasDistinctClaims pr
        → HasDistinctClaims (foldl (add_intent records dispatches) pr intents)
    foldl-HasDistinctClaims [] pr h = h
    foldl-HasDistinctClaims (intent ∷ intents) pr h =
        foldl-HasDistinctClaims intents _ (add_intent-HasDistinctClaims pr intent h)

-- The members that are disclosed come in ascending order, each once.
pub collided_members-IsAscending :
    (pr : Progress) → HasDistinctClaims pr → IsAscending (collided_members pr.member_claims)
unfolding collided_members
collided_members-IsAscending pr h = sort_strings-IsAscending _ (select-IsDistinct _ _ h)
