-- ===== src/Store/Soundness.antt =====
-- About the records that `readOne` (store.go) lets pass.
use star_car.Prelude.{
  ◌≡◌, ◌≤◌, refl, sym, subst, inl, inr, String, none, some, Result, ok, err, Bool-cases,
  Option-cases, not_ltb→le,
}
use star_car.Time.Parse.{Time, after, parse_rfc3339}
use star_car.Json.{Fields, read, as_text, text_or_empty}
use star_car.Platform.{Platform}
use star_car.Fold.Record.{str}
use star_car.Fold.Winner.{parse_instant}
use star_car.Store.Types.{StoreRecord, Adapter, Disk}
use star_car.Store.Decode.{typed_error, unknown_keys}
use star_car.Store.Reading.{
  Reading, survivor, quarantine, unknown_condition, check_time, check_schemas, check_types,
  check_contents, read_one,
}

module _ ⦃p : Platform⦄ (a : Adapter) (now : Time) where
  -- The record decodes, both schemas accept it, and its `at` is an instant that has come.
  pub record IsSound (fields : Fields p.Float) : Type 0 where
    pub typed : typed_error fields ≡ none
    pub artifact : a.artifact_schema fields ≡ none
    pub manifest : a.manifest_schema fields ≡ none
    pub instant : Time
    pub parsed : parse_rfc3339 (text_or_empty fields "at") ≡ some instant
    pub past : instant ≤ now

  -- What a reading must be if it is to hand a record on.
  abbrev pub Sound : String → Fields p.Float → Reading → Type 0
  Sound rel fields (quarantine reason) = Unit
  Sound rel fields (survivor rec cond) =
      (rec ≡ record { path = rel; fields = fields })
      × IsSound fields
      × (cond ≡ unknown_condition rel (unknown_keys fields))

  check_time-Sound :
      (rel : String) (fields : Fields p.Float)
      → typed_error fields ≡ none
      → a.artifact_schema fields ≡ none
      → a.manifest_schema fields ≡ none
      → Sound rel fields (check_time rel fields now)
  unfolding check_time
  check_time-Sound rel fields t s m =
      elim (Option-cases (parse_rfc3339 (text_or_empty fields "at"))) [
        | inl e ↦ rw (e, check_time) tt
        | inr (i, e) ↦ elim (Bool-cases (after i now)) [
          | inl late ↦ rw (e, check_time) (rw late tt)
          | inr past ↦
              rw (e, check_time)
                (rw past (
                  refl,
                  record {
                    typed = t;
                    artifact = s;
                    manifest = m;
                    instant = i;
                    parsed = e;
                    past = not_ltb→le now i past;
                  },
                  refl,
                ))
        ]
      ]

  check_schemas-Sound :
      (rel : String) (fields : Fields p.Float)
      → typed_error fields ≡ none
      → Sound rel fields (check_schemas a rel fields now)
  unfolding check_schemas
  check_schemas-Sound rel fields t = elim (Option-cases (a.artifact_schema fields)) [
    | inr (m, e) ↦ rw (e, check_schemas) tt
    | inl e ↦ elim (Option-cases (a.manifest_schema fields)) [
      | inr (m, f) ↦ rw (e, check_schemas) (rw (f, check_schemas) tt)
      | inl f ↦ rw (e, check_schemas) (rw (f, check_schemas) (check_time-Sound rel fields t e f))
    ]
  ]

  check_types-Sound :
      (rel : String) (fields : Fields p.Float) → Sound rel fields (check_types a rel fields now)
  unfolding check_types
  check_types-Sound rel fields = elim (Option-cases (typed_error fields)) [
    | inr (m, e) ↦ rw (e, check_types) tt
    | inl e ↦ rw (e, check_types) (check_schemas-Sound rel fields e)
  ]

  -- A reading hands on a sound record under its own path, with its unknown fields disclosed.
  abbrev pub Passed : String → Reading → Type 0
  Passed rel (quarantine reason) = Unit
  Passed rel (survivor rec cond) =
      IsSound rec.fields
      × (rec.path ≡ rel)
      × (cond ≡ unknown_condition rel (unknown_keys rec.fields))

  Passed-of_Sound :
      (rel : String) (fields : Fields p.Float) (r : Reading) → Sound rel fields r → Passed rel r
  Passed-of_Sound rel fields (quarantine reason) h = tt
  Passed-of_Sound rel fields (survivor rec cond) (e, s, c) =
      subst
        (λ (x : StoreRecord).
          IsSound x.fields
          × (x.path ≡ rel)
          × (cond ≡ unknown_condition rel (unknown_keys x.fields)))
        (sym e) (s, refl, c)

  check_contents-Passed :
      (rel : String) (contents : Result (Result (Fields p.Float)))
      → Passed rel (check_contents a rel now contents)
  unfolding check_contents
  check_contents-Passed rel (err e) = tt
  check_contents-Passed rel (ok (err e)) = tt
  check_contents-Passed rel (ok (ok fields)) =
      Passed-of_Sound rel fields (check_types a rel fields now) (check_types-Sound rel fields)

  pub read_one-Passed :
      (disk : Disk) (path rel : String) → Passed rel (read_one a disk path rel now)
  unfolding read_one
  read_one-Passed disk path rel = check_contents-Passed rel (disk.read_file path)

  parse_nothing : (t : Time) → parse_rfc3339 "" ≡ some t → ⊥
  unfolding parse_rfc3339
  parse_nothing t h = cc

  -- The fold reads the very instant of a sound record: it never falls back on the epoch.
  pub parse_instant-IsSound :
      (fields : Fields p.Float) (t : Time)
      → parse_rfc3339 (text_or_empty fields "at") ≡ some t
      → parse_instant fields ≡ t
  unfolding parse_instant str
  parse_instant-IsSound fields t h = elim (Option-cases (read as_text fields "at")) [
    | inl e ↦ absurd (parse_nothing t (rw (e, text_or_empty) at h))
    | inr (s, e) ↦ rw (e, parse_instant) (rw (rw (e, text_or_empty) at h) refl)
  ]
