-- ===== src/Matching/Filters.antt =====
-- Who is in a ranking: rank_candidates of apps/matching/services.py.
use date_app.Common.{
  ℕ, ◌+◌, ◌≡◌, refl, ◌⊎◌, inl, inr, Bool, true, false, Option, none, some, List, [], ◌∷◌, ◌++◌,
  arith, Bool-cases, Option-cases, Text, codes, length, first_where, All, length-append, same_text,
  Date, Floats,
}
use date_app.Accounts.Models.{User, is_id, is_verified}
use date_app.Accounts.Directory.{includes}
use date_app.Profiles.Models.{Degrees, MatchPreference}
use date_app.Matching.Payloads.{Payload, is_payload_of}
use date_app.Matching.Engine.{prefs_or_empty}
use date_app.Matching.Fitting.{Fits, rejection-Fits}
use date_app.Matching.Service.{Row, tallied, row_of, rejected_for, settled, consider, consider_all}

-- All the tallies together.
unfoldable pub tally_total : List (Text × ℕ) → ℕ
tally_total [] = 0
tally_total (t ∷ ts) = t.1 + tally_total ts

tallied_one :
    (reason : Text) (ts : List (Text × ℕ)) → tally_total (tallied reason ts) ≡ tally_total ts + 1
unfolding tallied tally_total
tallied_one reason [] = refl
tallied_one reason (t ∷ ts) = elim (Bool-cases (same_text t.0 reason)) [
  | inl e ↦ rw e (omega arith)
  | inr e ↦ rw e (omega (arith, tallied_one reason ts))
]

All-last :
    {A : Type 0} (P : A → Type 0) (xs : List A) (x : A) → All P xs → P x → All P (xs ++ x ∷ [])
All-last P [] x a p = (p, tt)
All-last P (y ∷ xs) x (q, a) p = (q, All-last P xs x a p)

module _ {F : Type 0} (fl : Floats F) (lower : Text → Text) (of_degrees : Degrees → F)
    (today : Date) (seeker : Payload F) (prefs : Option MatchPreference) (hard : Bool)
    (payloads : List (Payload F)) (users : List User) where
  -- A row is of a profile and an account that are there, and fits, when the filters are applied.
  abbrev pub Passes : List ℕ → Row F → Type 0
  Passes ids r =
      (candidate : Payload F) × (u : User) × (includes r.user_id ids ≡ true)
      × (first_where (is_payload_of of_degrees r.user_id) payloads ≡ some candidate)
      × (first_where (is_id r.user_id) users ≡ some u)
      × ((hard ≡ false) ⊎ Fits fl (prefs_or_empty prefs) candidate (is_verified u) r.distance_km)

  rejected-Fits :
      (candidate : Payload F) (u : User) (row : Row F)
      → rejected_for fl lower of_degrees prefs hard candidate u row ≡ none
      → (hard ≡ false) ⊎ Fits fl (prefs_or_empty prefs) candidate (is_verified u) row.distance_km
  unfolding rejected_for
  rejected-Fits candidate u row h = elim (Bool-cases hard) [
    | inl e ↦ inr (
        rejection-Fits fl lower prefs candidate (is_verified u) row.distance_km
          (ground (arith, h, e)))
    | inr e ↦ inl e
  ]

  abbrev Acc : Type 0
  Acc = List (Row F) × List (Text × ℕ)

  abbrev considered : ℕ → Acc → Acc
  considered id acc = consider fl lower of_degrees today seeker prefs hard payloads users id acc

  -- The candidates that are accounted for.
  abbrev size : Acc → ℕ
  size acc = length acc.0 + tally_total acc.1

  abbrev Grows : List ℕ → Acc → Acc → Type 0
  Grows ids acc next = All (Passes ids) next.0 × (size next ≡ size acc + 1)

  settled-Grows :
      (ids : List ℕ) (row : Row F) (rows : List (Row F)) (ts : List (Text × ℕ)) (o : Option Text)
      → (o ≡ none → Passes ids row)
      → All (Passes ids) rows
      → Grows ids (rows, ts) (settled fl lower of_degrees o row (rows, ts))
  settled-Grows ids row rows ts none p a =
      (All-last (Passes ids) rows row a (p refl), omega (arith, length-append rows (row ∷ [])))
  settled-Grows ids row rows ts (some reason) p a = (a, omega (arith, tallied_one reason ts))

  -- A candidate adds a row that passes, or is counted as rejected.
  consider-Grows :
      (id : ℕ) (ids : List ℕ) (rows : List (Row F)) (ts : List (Text × ℕ))
      → includes id ids ≡ true
      → All (Passes ids) rows
      → Grows ids (rows, ts) (considered id (rows, ts))
  unfolding consider rejected_for row_of
  consider-Grows id ids rows ts i a =
      elim (Option-cases (first_where (is_payload_of of_degrees id) payloads)) [
        | inl e ↦ rw (e, consider) (a, omega (arith, tallied_one (codes "missing_data") ts))
        | inr g ↦
            let (candidate, e) = g in
            elim (Option-cases (first_where (is_id id) users)) [
              | inl f ↦
                  rw (e, f, consider) (a, omega (arith, tallied_one (codes "missing_data") ts))
              | inr h ↦
                  let (u, f) = h in
                  let row = row_of fl lower of_degrees today seeker prefs id candidate u in
                  rw (e, f, consider)
                    (settled-Grows ids row rows ts
                      (rejected_for fl lower of_degrees prefs hard candidate u row)
                      (λ r. (candidate, u, i, e, f, rejected-Fits candidate u row r)) a)
            ]
      ]

  abbrev all_considered : List ℕ → Acc → Acc
  all_considered ids acc =
      consider_all fl lower of_degrees today seeker prefs hard payloads users ids acc

  pub loop-Grows :
      (left ids : List ℕ) (acc : Acc)
      → All (λ i. includes i ids ≡ true) left
      → All (Passes ids) acc.0
      → All (Passes ids) (all_considered left acc).0
        × (size (all_considered left acc) ≡ size acc + length left)
  unfolding consider_all
  loop-Grows [] ids acc h a = (a, omega arith)
  loop-Grows (i ∷ left) ids (rows, ts) (h, hs) a =
      let (b, n) = consider-Grows i ids rows ts h a in
      let (c, m) = loop-Grows left ids (considered i (rows, ts)) hs b in (c, omega (arith, n, m))
