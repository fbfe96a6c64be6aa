-- ===== src/Server/Ages.antt =====
-- About `computeLiveFreshness` (poll.go).
use mathlib.Core.List.{foldl, Mem, mem-cons_self, mem-cons_of_mem}
use mathlib.Core.Option.{some-injective}
use star_car.Prelude.{
  ℕ, false, ◌+◌, ◌*◌, ◌/◌, ◌≤◌, ◌<◌, ◌⊎◌, ◌≡◌, refl, sym, ap, subst, ok, is_empty, Option-cases,
  ◌∙◌, inl, inr, Bool-cases, String, Option, none, some, List, [], ◌∷◌, All, All-imp, arith,
  if◌then◌else◌,
}
use star_car.Prelude.Int.{ℤ, pos, leb_ℤ}
use star_car.Json.{text_or_empty}
use star_car.Time.Parse.{Time, after, sub_time, parse_rfc3339}
use star_car.Platform.{Platform}
use star_car.Store.Types.{StoreRecord, Adapter, Disk, ScanResult}
use star_car.Store.Scan.{scan}
use star_car.Store.Accounts.{parse_instant-scan}
use star_car.Server.Snapshot.{Freshness}
use star_car.Server.Freshness.{
  quotient, times, milliseconds, stale, newer, newest_at, freshness_at, compute_live_freshness,
}

-- An instant that some record has and that no record is after.
abbrev AtMost : Option Time → Option Time → Type 0
AtMost none o = Unit
AtMost (some t) none = ⊥
AtMost (some t) (some u) = t ≤ u

newer-left : (a b : Option Time) → AtMost a (newer a b)
unfolding newer
newer-left none b = tt
newer-left (some t) none = omega arith
newer-left (some t) (some u) = ground arith

newer-right : (a b : Option Time) → AtMost b (newer a b)
unfolding newer
newer-right a none = tt
newer-right none (some u) = omega arith
newer-right (some t) (some u) = ground arith

AtMost-self : (o : Option Time) → AtMost o o
AtMost-self none = tt
AtMost-self (some t) = omega arith

AtMost-trans : (a b c : Option Time) → AtMost a b → AtMost b c → AtMost a c
AtMost-trans none b c h k = tt
AtMost-trans (some t) none c h k = absurd h
AtMost-trans (some t) (some u) none h k = absurd k
AtMost-trans (some t) (some u) (some v) h k = omega arith

foldl-AtMost :
    {A : Type 0} (f : A → Option Time) (l : List A) (start : Option Time)
    → AtMost start (foldl (λ x a. newer x (f a)) start l)
      × All (λ a. AtMost (f a) (foldl (λ x a. newer x (f a)) start l)) l
foldl-AtMost f [] start = (AtMost-self start, tt)
foldl-AtMost f (a ∷ l) start =
    let (front, rest) = foldl-AtMost f l (newer start (f a)) in
    let last = foldl (λ x a. newer x (f a)) (newer start (f a)) l in
    (
      AtMost-trans start _ last (newer-left start (f a)) front,
      (AtMost-trans (f a) _ last (newer-right start (f a)) front, rest),
    )

newer-attained : (a b : Option Time) (t : Time) → newer a b ≡ some t → (a ≡ some t) ⊎ (b ≡ some t)
unfolding newer
newer-attained a none t h = inl h
newer-attained none (some u) t h = inr h
newer-attained (some s) (some u) t h = elim (Bool-cases (after u s)) [
  | inl e ↦ inr (rw e at h)
  | inr e ↦ inl (rw e at h)
]

foldl-attained :
    {A : Type 0} (f : A → Option Time) (l : List A) (start : Option Time) (t : Time)
    → foldl (λ x a. newer x (f a)) start l ≡ some t
    → (start ≡ some t) ⊎ ((a : A) × Mem a l × (f a ≡ some t))
foldl-attained f [] start t h = inl h
foldl-attained f (a ∷ l) start t h = elim (foldl-attained f l (newer start (f a)) t h) [
  | inl e ↦ elim (newer-attained start (f a) t e) [
    | inl s ↦ inl s
    | inr s ↦ inr (a, mem-cons_self, s)
  ]
  | inr (b, m, e) ↦ inr (b, mem-cons_of_mem a m, e)
]

module _ ⦃p : Platform⦄ where
  abbrev pub instant_of : StoreRecord → Option Time
  instant_of r = parse_rfc3339 (text_or_empty r.fields "at")

  -- The instant of some record, and that of none is later.
  pub record IsNewest (records : List StoreRecord) (t : Time) : Type 0 where
    pub attained : (r : StoreRecord) × Mem r records × (instant_of r ≡ some t)
    pub latest : All (λ r. (u : Time) → instant_of r ≡ some u → u ≤ t) records

  newest_at-IsNewest :
      (records : List StoreRecord) (t : Time) → newest_at records ≡ some t → IsNewest records t
  unfolding newest_at
  newest_at-IsNewest records t h = record {
    attained = elim (foldl-attained instant_of records none t h) [
      | inl e ↦ cc e
      | inr found ↦ found
    ];
    latest =
        All-imp (λ r m u e. bounded (instant_of r) _ u t m e h) records
          (foldl-AtMost instant_of records none).1;
  }
    where
      bounded :
          (o last : Option Time) (u t : Time) → AtMost o last → o ≡ some u → last ≡ some t → u ≤ t
      bounded none last u t m e h = cc e
      bounded (some v) none u t m e h = cc h
      bounded (some v) (some w) u t m e h =
          omega (arith, m, some-injective v u e, some-injective w t h)

  freshness_at-empty :
      (records : List StoreRecord) (now : Time) (staleness_ms : ℤ) (now_text : String)
      → compute_live_freshness records now staleness_ms now_text
        ≡ freshness_at (newest_at records) now staleness_ms now_text
  unfolding compute_live_freshness
  freshness_at-empty [] now staleness_ms now_text = refl
  freshness_at-empty (r ∷ records) now staleness_ms now_text = refl

  kind-freshness_at :
      (t now : Time) (staleness_ms : ℤ) (now_text : String)
      → (freshness_at (some t) now staleness_ms now_text).kind
        ≡ (if leb_ℤ (milliseconds (sub_time now t)) staleness_ms then "fresh" else "stale")
  unfolding freshness_at
  kind-freshness_at t now staleness_ms now_text = ground arith

  -- Where the newest instant of the records is found to be t, t is the instant of one of the
  -- records and that of none is later, and the lanes are "fresh" if the milliseconds from t to now
  -- are at most the staleness limit, and "stale" otherwise.
  pub compute_live_freshness-IsNewest :
      (records : List StoreRecord) (now : Time) (staleness_ms : ℤ) (now_text : String) (t : Time)
      → newest_at records ≡ some t
      → IsNewest records t
        × ((compute_live_freshness records now staleness_ms now_text).kind
            ≡ (if leb_ℤ (milliseconds (sub_time now t)) staleness_ms then "fresh" else "stale"))
  compute_live_freshness-IsNewest records now staleness_ms now_text t h = (
    newest_at-IsNewest records t h,
    ap (λ (f : Freshness). f.kind)
          (freshness_at-empty records now staleness_ms now_text
            ∙ ap (λ o. freshness_at o now staleness_ms now_text) h)
        ∙ kind-freshness_at t now staleness_ms now_text,
  )

  -- The bucket that a stale lane shows for an age of m milliseconds is a multiple of 5000, is at
  -- most m, and is less than 5000 below it.
  pub stale-bucket :
      (m : ℕ) (now_text : String)
      → (b : ℕ) × ((stale (pos m) now_text).age_bucket_ms ≡ some (pos (b * 5000)))
        × (b * 5000 ≤ m)
        × (m < b * 5000 + 5000)
  unfolding stale times quotient
  stale-bucket m now_text = (m / 5000, refl, omega arith, omega arith)

  -- No instant of a list is after `now`, and none is unreadable.
  newest-past :
      (now : Time) (rs : List StoreRecord) (start : Option Time)
      → ((u : Time) → start ≡ some u → u ≤ now)
      → All (λ r. (t : Time) × (instant_of r ≡ some t) × (t ≤ now)) rs
      → (t : Time) → foldl (λ x r. newer x (instant_of r)) start rs ≡ some t
      → t ≤ now
  newest-past now [] start b h t e = b t e
  newest-past now (r ∷ rs) start b ((u, e, le), hs) t k =
      newest-past now rs (newer start (instant_of r)) bound hs t k
    where
      bound : (v : Time) → newer start (instant_of r) ≡ some v → v ≤ now
      bound v q = elim (newer-attained start (instant_of r) v q) [
        | inl s ↦ b v s
        | inr s ↦ omega (arith, le, some-injective u v (sym e ∙ s))
      ]

  newest-exists :
      (now : Time) (rs : List StoreRecord)
      → is_empty rs ≡ false
      → All (λ r. (t : Time) × (instant_of r ≡ some t) × (t ≤ now)) rs
      → (t : Time) × (newest_at rs ≡ some t) × (t ≤ now)
  unfolding newest_at
  newest-exists now [] n h = cc n
  newest-exists now (r ∷ rs) n ((u, e, le), hs) =
      let last = newest_at (r ∷ rs) in
      elim (Option-cases last) [
        | inl k ↦ absurd (
            subst (λ o. AtMost o none) e
              (subst (AtMost (instant_of r)) k (foldl-AtMost instant_of (r ∷ rs) none).1.0))
        | inr (t, k) ↦ (t, k, newest-past now (r ∷ rs) none (λ v q. cc q) ((u, e, le), hs) t k)
      ]

  -- If a successful scan has a record, the newest instant that the freshness is computed from
  -- exists and is not after the scan's now.
  pub newest_at-scan :
      (a : Adapter) (disk : Disk) (root : String) (now : Time) (r : ScanResult)
      → scan a disk root now ≡ ok r
      → is_empty r.records ≡ false
      → (t : Time) × (newest_at r.records ≡ some t) × (t ≤ now)
  newest_at-scan a disk root now r h n =
      newest-exists now r.records n
        (All-imp (λ rec s. (s.0, s.1, s.3)) r.records (parse_instant-scan a disk root now r h))
