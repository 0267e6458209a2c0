-- ===== src/Profiles/Completion.antt =====
-- What a profile's numbers mean: calculate_completion of apps/profiles/models.py and _coarse of
-- apps/profiles/services.py.
use date_app.Common.{
  ℕ, ◌+◌, ◌%◌, ◌≤◌, ◌<◌, ◌≡◌, refl, sym, ap, ◌∙◌, inl, inr, Bool, true, ◌&&◌, List, [], ◌∷◌, arith,
  leb, Bool-cases, All,
}
use date_app.Profiles.Models.{Degrees, Profile, completion_rules, weight_of, calculate_completion}
use date_app.Profiles.Editing.{coarse}

total : List (ℕ × (Profile → Bool)) → ℕ
total [] = 0
total (r ∷ rs) = r.0 + total rs

weight_total : (rs : List (ℕ × (Profile → Bool))) (p : Profile) → weight_of rs p ≤ total rs
unfolding weight_of total
weight_total [] p = omega arith
weight_total (r ∷ rs) p = elim (Bool-cases (r.1 p)) [
  | inl e ↦ rw e (omega (arith, weight_total rs p))
  | inr e ↦ rw e (omega (arith, weight_total rs p))
]

-- Whether a profile meets every rule.
unfoldable pub meets : List (ℕ × (Profile → Bool)) → Profile → Bool
meets [] p = true
meets (r ∷ rs) p = r.1 p && meets rs p

-- The whole weight is reached exactly when every rule is met, each of which weighs something.
weight_full :
    (rs : List (ℕ × (Profile → Bool))) (p : Profile)
    → All (λ r. 1 ≤ r.0) rs
    → leb (total rs) (weight_of rs p) ≡ meets rs p
unfolding weight_of total meets
weight_full [] p w = refl
weight_full (r ∷ rs) p (w, ws) = elim (Bool-cases (r.1 p)) [
  | inl e ↦ ground (arith, e, w, weight_full rs p ws)
  | inr e ↦ ground (arith, e, w, weight_total rs p)
]

worth : All (λ r. 1 ≤ r.0) completion_rules
unfolding completion_rules
worth = (
  omega arith,
  (
    omega arith,
    (
      omega arith,
      (
        omega arith,
        (
          omega arith,
          (omega arith, (omega arith, (omega arith, (omega arith, (omega arith, tt))))),
        ),
      ),
    ),
  ),
)

hundred : total completion_rules ≡ 100
unfolding total completion_rules
hundred = refl

-- The completion of a profile is the sum of the weights of the rules that it meets: the cap at 100
-- never takes anything off, and it is 100 exactly when the profile meets every rule.
calculate_completion_exact :
    (p : Profile)
    → (calculate_completion p ≡ weight_of completion_rules p)
      × (calculate_completion p ≤ 100)
      × (leb 100 (calculate_completion p) ≡ meets completion_rules p)
unfolding calculate_completion
calculate_completion_exact p =
    let l = weight_total completion_rules p in
    let full : leb 100 (weight_of completion_rules p) ≡ meets completion_rules p =
      ap (λ n. leb n (weight_of completion_rules p)) (sym hundred)
      ∙ weight_full completion_rules p worth in
    (
      omega (arith, l, hundred),
      omega (arith, l, hundred),
      ap (leb 100) (omega (arith, l, hundred)) ∙ full,
    )

-- A coordinate is stored to three places: it is a whole number of thousandths, at most half a
-- thousandth from what was given, on the same side of zero, and storing it again changes nothing.
coarse_near :
    (d : Degrees)
    → let c = coarse d in
      (c.millionths % 1000 ≡ 0)
      × (c.millionths ≤ d.millionths + 500)
      × (d.millionths < c.millionths + 500)
      × (c.is_negative ≡ d.is_negative)
      × (coarse c ≡ c)
unfolding coarse
coarse_near d = (
  omega arith,
  omega arith,
  omega arith,
  refl,
  ap (λ n. record d { millionths = n }) (omega arith),
)
