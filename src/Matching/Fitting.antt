-- ===== src/Matching/Fitting.antt =====
-- What the hard filters and the order of a ranking ask, said apart from the code:
-- passes_hard_filters of apps/matching/engine.py, and the sort of rank_candidates of
-- apps/matching/services.py.
use date_app.Common.{
  ℕ, ◌≤◌, ◌≡◌, refl, sym, ◌∙◌, ◌⊎◌, inl, inr, Bool, true, false, not, ◌&&◌, ◌||◌, Option, none,
  some, List, [], ◌∷◌, arith, ltb, ◌==◌, if◌then◌else◌, Bool-cases, Text, is_empty, All, Sorted,
  All-mono, Floats,
}
use date_app.Profiles.Models.{MatchPreference}
use date_app.Matching.Payloads.{Payload}
use date_app.Matching.Scoring.{is_in}
use date_app.Matching.Engine.{prefs_or_empty, rejection}
use date_app.Matching.Service.{Row, ranks_before}

module _ {F : Type 0} (fl : Floats F) where
  -- A candidate fits the preferences: the profile is visible, the gender is one that is asked for,
  -- the age, if known, is in the range, there is a photo and a verification where they are asked for,
  -- and the distance, if known, is within the maximum, unless anywhere will do.
  abbrev pub Fits : MatchPreference → Payload F → Bool → Option F → Type 0
  Fits prefs candidate is_verified distance_km =
      (candidate.is_visible ≡ true)
      × ((is_empty prefs.interested_in ≡ true)
          ⊎ (is_in candidate.gender prefs.interested_in ≡ true))
      × ((candidate.age ≡ none)
          ⊎ ((a : ℕ) × (candidate.age ≡ some a) × (prefs.min_age ≤ a) × (a ≤ prefs.max_age)))
      × ((prefs.with_photos_only ≡ false) ⊎ (1 ≤ candidate.photo_count))
      × ((prefs.verified_only ≡ false) ⊎ (is_verified ≡ true))
      × ((prefs.show_me_globally ≡ true)
          ⊎ ((distance_km ≡ none)
              ⊎ ((d : F) × (distance_km ≡ some d)
                  × (fl.lt (fl.of_nat prefs.max_distance_km) d ≡ false))))

  unless_some :
      {A : Type 0} (b : Bool) (x : A) (o : Option A)
      → (if b then some x else o) ≡ none
      → (b ≡ false) × (o ≡ none)
  unless_some true x o h = absurd (ground (arith, h))
  unless_some false x o h = (refl, h)

  shown_true : (a : Bool) → not a ≡ false → a ≡ true
  shown_true true h = refl
  shown_true false h = absurd (ground (arith, h))

  both_false : (a b : Bool) → (a && not b) ≡ false → (a ≡ false) ⊎ (b ≡ true)
  both_false false b h = inl refl
  both_false true true h = inr refl
  both_false true false h = absurd (ground (arith, h))

  neither_false : (a b : Bool) → (not a && not b) ≡ false → (a ≡ true) ⊎ (b ≡ true)
  neither_false true b h = inl refl
  neither_false false true h = inr refl
  neither_false false false h = absurd (ground (arith, h))

  age_within :
      (age : Option ℕ) (low high : ℕ)
      → (elim age as (λ _. Bool) [ none ↦ false | some a ↦ ltb a low || ltb high a ]) ≡ false
      → (age ≡ none) ⊎ ((a : ℕ) × (age ≡ some a) × (low ≤ a) × (a ≤ high))
  age_within none low high h = inl refl
  age_within (some a) low high h = inr (a, refl, ground (arith, h), ground (arith, h))

  some_photo : (asked : Bool) (n : ℕ) → (asked && n == 0) ≡ false → (asked ≡ false) ⊎ (1 ≤ n)
  some_photo false n h = inl refl
  some_photo true n h = inr (ground (arith, h))

  within_reach :
      (anywhere : Bool) (km : ℕ) (o : Option F)
      → (not anywhere && elim o as (λ _. Bool) [ none ↦ false | some d ↦ fl.lt (fl.of_nat km) d ])
        ≡ false
      → (anywhere ≡ true)
        ⊎ ((o ≡ none) ⊎ ((d : F) × (o ≡ some d) × (fl.lt (fl.of_nat km) d ≡ false)))
  within_reach true km o h = inl refl
  within_reach false km none h = inr (inl refl)
  within_reach false km (some d) h = inr (inr (d, refl, h))

  -- Whoever the filters do not reject fits.
  pub rejection-Fits :
      (lower : Text → Text) (prefs : Option MatchPreference) (candidate : Payload F)
      (is_verified : Bool) (distance_km : Option F)
      → rejection fl lower prefs candidate is_verified distance_km ≡ none
      → Fits (prefs_or_empty prefs) candidate is_verified distance_km
  unfolding rejection
  rejection-Fits lower preferences candidate is_verified distance_km h0 =
      let prefs = prefs_or_empty preferences in
      let (a, h1) = unless_some _ _ _ h0 in
      let (b, h2) = unless_some _ _ _ h1 in
      let (c, h3) = unless_some _ _ _ h2 in
      let (d, h4) = unless_some _ _ _ h3 in
      let (e, h5) = unless_some _ _ _ h4 in
      let (f, h6) = unless_some _ _ _ h5 in
      (
        shown_true candidate.is_visible a,
        neither_false _ _ b,
        age_within candidate.age prefs.min_age prefs.max_age c,
        some_photo _ _ d,
        both_false _ _ e,
        within_reach _ _ distance_km f,
      )

module _ {F : Type 0} where
  -- A row stands before another: it is boosted and the other is not, or they are alike in that and
  -- the other's score is no greater.
  abbrev pub StandsBefore : Row F → Row F → Type 0
  StandsBefore a b =
      ((a.is_boosted ≡ true) × (b.is_boosted ≡ false))
      ⊎ ((a.is_boosted ≡ b.is_boosted) × (b.score ≤ a.score))

  -- Each row stands before all that follow.
  abbrev pub IsRanked : List (Row F) → Type 0
  IsRanked [] = Unit
  IsRanked (r ∷ rs) = All (StandsBefore r) rs × IsRanked rs

  before_of : (a b : Row F) → ranks_before a b ≡ true → StandsBefore a b
  before_of a b h = elim (Bool-cases a.is_boosted) [
    | inl e ↦ elim (Bool-cases b.is_boosted) [
      | inl f ↦ inr (e ∙ sym f, ground (arith, h, e, f))
      | inr f ↦ inl (e, f)
    ]
    | inr e ↦ elim (Bool-cases b.is_boosted) [
      | inl f ↦ absurd (ground (arith, h, e, f))
      | inr f ↦ inr (e ∙ sym f, ground (arith, h, e, f))
    ]
  ]

  pub Sorted-IsRanked : (rs : List (Row F)) → Sorted ranks_before rs → IsRanked rs
  Sorted-IsRanked [] s = tt
  Sorted-IsRanked (r ∷ rs) (a, s) = (
    All-mono (λ b. ranks_before r b ≡ true) (StandsBefore r) rs (λ b. before_of r b) a,
    Sorted-IsRanked rs s,
  )
