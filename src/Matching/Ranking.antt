-- ===== src/Matching/Ranking.antt =====
-- The rankings: rank_candidates and invalidate_for of apps/matching/services.py.
use date_app.Common.{
  ℕ, ◌≡◌, Bool, true, false, not, ◌||◌, Option, some, List, [], ◌∷◌, arith, ◌==◌, Text, is_empty,
  length, take, first_where, filter_by, exists_where, exists-delete_self, Date, sort_by, Floats,
}
use date_app.Profiles.Models.{Degrees, Profile, MatchPreference}
use date_app.Profiles.Reads.{get_preferences}
use date_app.Matching.Payloads.{Payload}
use date_app.Matching.Service.{
  MatchingRun, CachedScore, Store, Row, ranks_before, payloads_of, consider_all, overridden,
  rank_candidates, is_cached, score_pair, concerns, invalidate_for,
}

module _ {F : Type 0} (fl : Floats F) (lower : Text → Text) (of_degrees : Degrees → F) (now : ℕ)
    (today : Date) (seeker : ℕ) (ids : List ℕ) (limit : ℕ) (hard : Bool) (km : Option ℕ)
    (s : Store F) where
  abbrev ranked : List (Row F) × Store F
  ranked = rank_candidates fl lower of_degrees now today seeker ids limit hard km s

  abbrev others : List ℕ
  others = filter_by (λ c. not (c == seeker)) ids

  abbrev payloads : List (Payload F)
  payloads = payloads_of fl lower of_degrees now today (seeker ∷ others) s

  abbrev prefs : Option MatchPreference
  prefs = overridden fl lower of_degrees km (get_preferences seeker s.profiles)

  abbrev kept : Payload F → List (Row F) × List (Text × ℕ)
  kept p = consider_all fl lower of_degrees today p prefs hard payloads s.users others ([], [])

  abbrev top : Payload F → List (Row F)
  top p = take limit (sort_by ranks_before (kept p).0)

  abbrev has_profile : Profile → Bool
  has_profile p = p.user == seeker

  -- There is nobody but the seeker, or the seeker has no profile.
  abbrev pub nobody : Bool
  nobody = is_empty others || not (exists_where has_profile s.profiles.profiles)

  abbrev run_of : Payload F → MatchingRun
  run_of p = record {
    seeker = seeker;
    candidates_considered = length others;
    candidates_scored = length (top p);
    filtered_out = (kept p).1;
    top_score = elim (top p) [ [] ↦ 0 | r ∷ _ ↦ r.score ];
    created_at = now;
  }

module _ {F : Type 0} (fl : Floats F) (lower : Text → Text) (of_degrees : Degrees → F) where
  -- `invalidate_for` drops the rows of the scores and leaves the cache of the scores alone: a score
  -- that was cached for a pair of two members is still the answer for the pair until it expires, even
  -- when the profile of one of the two has changed and its scores have been invalidated.
  pub invalidated_is_served :
      (now : ℕ) (today : Date) (seeker candidate user : ℕ) (c : CachedScore) (s : Store F)
      → (seeker == candidate) ≡ false
      → first_where (is_cached fl lower of_degrees now seeker candidate) s.cache ≡ some c
      → let t = invalidate_for fl lower of_degrees user s in
        (exists_where (concerns fl lower of_degrees user) t.scores ≡ false)
        × (score_pair fl lower of_degrees now today seeker candidate true t ≡ (some c.score, t))
  unfolding invalidate_for score_pair
  invalidated_is_served now today seeker candidate user c s h e =
      (exists-delete_self (concerns fl lower of_degrees user) s.scores, ground (arith, h, e))
