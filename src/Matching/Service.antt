-- ===== src/Matching/Service.antt =====
-- MatchingService of apps/matching/services.py, with the tables of apps/matching/models.py, the reads
-- of interface.py and the jobs of tasks.py. Floats, Python's `lower` and the float of a coordinate are
-- parameters.
use date_app.Common.{
  ℕ, ◌+◌, ◌*◌, Bool, not, ◌&&◌, ◌||◌, Option, none, some, List, [], ◌∷◌, ◌++◌, ltb, leb, ◌==◌,
  if◌then◌else◌, Text, codes, is_empty, length, take, first_where, filter_by, exists_where,
  update_where, delete_where, same_text, Date, sort_by, Floats,
}
use date_app.Accounts.Models.{is_verified, User, is_id}
use date_app.Accounts.Directory.{UserRef, to_ref, get_user_ref}
use date_app.Profiles.Models.{Degrees, MatchPreference, Store as ProfilesStore}
use date_app.Profiles.Reads.{get_preferences}
use date_app.Matching.Payloads.{Payload, get_match_payloads, is_payload_of}
use date_app.Matching.Engine.{Verdict, compatibility, rejection, prefs_or_empty}

pub record CompatibilityScore (F : Type 0) : Type 0 where
  pub seeker : ℕ
  pub candidate : ℕ
  pub score : ℕ
  pub distance_km : Option F
  pub expires_at : ℕ

-- `CompatibilityScore.is_fresh`
abbrev pub is_fresh : {F : Type 0} → ℕ → CompatibilityScore F → Bool
is_fresh now c = ltb now c.expires_at

pub record MatchingRun : Type 0 where
  pub seeker : ℕ
  pub candidates_considered : ℕ
  pub candidates_scored : ℕ
  pub filtered_out : List (Text × ℕ)
  pub top_score : ℕ
  pub created_at : ℕ

-- An entry of the cache of scores.
pub record CachedScore : Type 0 where
  pub seeker : ℕ
  pub candidate : ℕ
  pub score : ℕ
  pub expires_at : ℕ

pub record Store (F : Type 0) : Type 0 where
  pub scores : List (CompatibilityScore F)
  pub runs : List MatchingRun
  pub cache : List CachedScore
  pub profiles : ProfilesStore
  pub users : List User

-- A row of a ranking.
pub record Row (F : Type 0) : Type 0 where
  pub user_id : ℕ
  pub score : ℕ
  pub distance_km : Option F
  pub shared_interests : List Text
  pub is_boosted : Bool

-- `rejected[reason] = rejected.get(reason, 0) + 1`
unfoldable pub tallied : Text → List (Text × ℕ) → List (Text × ℕ)
tallied reason [] = (reason, 1) ∷ []
tallied reason (t ∷ ts) =
    let rest = tallied reason ts in if same_text t.0 reason then (t.0, t.1 + 1) ∷ ts else t ∷ rest

-- The sort key of a ranking, the greatest first.
abbrev pub ranks_before : {F : Type 0} → Row F → Row F → Bool
ranks_before a b =
    if a.is_boosted
    then not b.is_boosted || leb b.score a.score
    else not b.is_boosted && leb b.score a.score

abbrev pub is_pair : {F : Type 0} → ℕ → ℕ → CompatibilityScore F → Bool
is_pair seeker candidate c = c.seeker == seeker && c.candidate == candidate

-- `CompatibilityScore.objects.update_or_create`
unfoldable pub put_score :
    {F : Type 0} → CompatibilityScore F → List (CompatibilityScore F) → List (CompatibilityScore F)
put_score c cs =
    if exists_where (is_pair c.seeker c.candidate) cs
    then update_where (is_pair c.seeker c.candidate) (λ _. c) cs
    else c ∷ cs

abbrev pub ttl_seconds : ℕ
ttl_seconds = 12 * 3600

-- `MatchingService._persist_batch`
unfoldable pub persist_batch :
    {F : Type 0} → ℕ → ℕ → List (Row F) → List (CompatibilityScore F) → List (CompatibilityScore F)
unfolding put_score
persist_batch now seeker [] cs = cs
persist_batch now seeker (r ∷ rs) cs = persist_batch now seeker rs (
    put_score
      (record {
        seeker = seeker;
        candidate = r.user_id;
        score = r.score;
        distance_km = r.distance_km;
        expires_at = now + ttl_seconds;
      })
      cs)

module _ {F : Type 0} (fl : Floats F) (lower : Text → Text) (of_degrees : Degrees → F) where
  -- `MatchingService._recency_from_ref`
  abbrev pub recency_from_ref : Option UserRef → F
  recency_from_ref none = fl.lit 3 1
  recency_from_ref (some r) = if r.is_online then fl.lit 10 1 else fl.lit 6 1

  abbrev pub payloads_of : ℕ → Date → List ℕ → Store F → List (Payload F)
  payloads_of now today ids s =
      get_match_payloads of_degrees now today s.users s.profiles.interests s.profiles.profiles ids

  -- A candidate's row, and why the hard filters reject it, when they are applied.
  unfoldable pub row_of : Date → Payload F → Option MatchPreference → ℕ → Payload F → User → Row F
  unfolding compatibility
  row_of today seeker prefs id candidate u =
      let v =
        compatibility fl lower seeker prefs (recency_from_ref (some (to_ref today u))) candidate in
      record {
        user_id = id;
        score = v.score;
        distance_km = v.distance_km;
        shared_interests = v.shared_interests;
        is_boosted = candidate.is_boosted;
      }

  unfoldable pub rejected_for :
      Option MatchPreference → Bool → Payload F → User → Row F → Option Text
  unfolding rejection
  rejected_for prefs apply_hard_filters candidate u row =
      if apply_hard_filters
      then rejection fl lower prefs candidate (is_verified u) row.distance_km
      else none

  -- A row is kept, or its reason is counted.
  abbrev pub settled :
      Option Text → Row F → List (Row F) × List (Text × ℕ) → List (Row F) × List (Text × ℕ)
  settled none row (rows, rejected) = (rows ++ row ∷ [], rejected)
  settled (some reason) row (rows, rejected) = (rows, tallied reason rejected)

  -- One turn of the loop of `rank_candidates`: the rows so far and the tallies of the rejected.
  unfoldable pub consider :
      Date
      → Payload F
      → Option MatchPreference
      → Bool
      → List (Payload F)
      → List User
      → ℕ
      → List (Row F) × List (Text × ℕ)
      → List (Row F) × List (Text × ℕ)
  unfolding row_of rejected_for tallied
  consider today seeker prefs hard payloads users id (rows, rejected) =
      elim (first_where (is_payload_of of_degrees id) payloads) [
        | none ↦ (rows, tallied (codes "missing_data") rejected)
        | some candidate ↦ elim (first_where (is_id id) users) [
          | none ↦ (rows, tallied (codes "missing_data") rejected)
          | some u ↦
              let row = row_of today seeker prefs id candidate u in
              settled (rejected_for prefs hard candidate u row) row (rows, rejected)
        ]
      ]

  -- The loop.
  unfoldable pub consider_all :
      Date
      → Payload F
      → Option MatchPreference
      → Bool
      → List (Payload F)
      → List User
      → List ℕ
      → List (Row F) × List (Text × ℕ)
      → List (Row F) × List (Text × ℕ)
  unfolding consider
  consider_all today seeker prefs hard payloads users [] acc = acc
  consider_all today seeker prefs hard payloads users (id ∷ ids) acc =
      consider_all today seeker prefs hard payloads users ids
        (consider today seeker prefs hard payloads users id acc)

  -- The preferences with a wider distance, when one is given.
  abbrev pub overridden : Option ℕ → Option MatchPreference → Option MatchPreference
  overridden none prefs = prefs
  overridden (some km) none = some (record (prefs_or_empty none) { max_distance_km = km })
  overridden (some km) (some p) = some (record p { max_distance_km = km })

  -- What a ranking leaves: the scores of its rows, and the record of the run.
  unfoldable pub ran : ℕ → ℕ → ℕ → List (Row F) → List (Text × ℕ) → Store F → Store F
  unfolding persist_batch
  ran now seeker considered rows rejected s = record s {
    scores = persist_batch now seeker rows s.scores;
    runs =
        record {
          seeker = seeker;
          candidates_considered = considered;
          candidates_scored = length rows;
          filtered_out = rejected;
          top_score = elim rows [ [] ↦ 0 | r ∷ _ ↦ r.score ];
          created_at = now;
        }
        ∷ s.runs;
  }

  -- `MatchingService.rank_candidates`. The overrides are the distance, the only one that is ever given.
  unfoldable pub rank_candidates :
      ℕ → Date → ℕ → List ℕ → ℕ → Bool → Option ℕ → Store F → List (Row F) × Store F
  unfolding consider_all ran
  rank_candidates now today seeker ids limit hard max_distance s =
      let others = filter_by (λ c. not (c == seeker)) ids in
      let payloads = payloads_of now today (seeker ∷ others) s in
      let prefs = overridden max_distance (get_preferences seeker s.profiles) in
      if is_empty others
      then ([], s)
      else elim (first_where (is_payload_of of_degrees seeker) payloads) [
        | none ↦ ([], s)
        | some p ↦
            let (kept, rejected) =
              consider_all today p prefs hard payloads s.users others ([], []) in
            let rows = take limit (sort_by ranks_before kept) in
            (rows, ran now seeker (length others) rows rejected s)
      ]

  abbrev pub is_cached : ℕ → ℕ → ℕ → CachedScore → Bool
  is_cached now seeker candidate c =
      c.seeker == seeker && c.candidate == candidate && ltb now c.expires_at

  abbrev pub cached_as : ℕ → ℕ → ℕ → ℕ → CachedScore
  cached_as now seeker candidate score = record {
    seeker = seeker;
    candidate = candidate;
    score = score;
    expires_at = now + 600;
  }

  -- `MatchingService._store`
  unfoldable pub store_score : ℕ → ℕ → ℕ → Verdict F → Store F → Store F
  unfolding put_score
  store_score now seeker candidate v s = record s {
    scores =
        put_score
          (record {
            seeker = seeker;
            candidate = candidate;
            score = v.score;
            distance_km = v.distance_km;
            expires_at = now + ttl_seconds;
          })
          s.scores;
    cache = cached_as now seeker candidate v.score ∷ s.cache;
  }

  -- The score of a pair that is worked out anew.
  unfoldable pub compute_pair : ℕ → Date → ℕ → ℕ → Store F → Option ℕ × Store F
  unfolding compatibility store_score get_user_ref
  compute_pair now today seeker candidate s =
      let payloads = payloads_of now today (seeker ∷ candidate ∷ []) s in
      elim (first_where (is_payload_of of_degrees seeker) payloads) [
        | none ↦ (none, s)
        | some p ↦ elim (first_where (is_payload_of of_degrees candidate) payloads) [
          | none ↦ (none, s)
          | some q ↦
              let ref = elim (first_where (is_id candidate) s.users) as (λ _. Option UserRef) [
                | none ↦ none
                | some u ↦ some (to_ref today u)
              ] in
              let v =
                compatibility fl lower p (get_preferences seeker s.profiles) (recency_from_ref ref)
                  q in
              (some v.score, store_score now seeker candidate v s)
        ]
      ]

  -- `MatchingService.score_pair`
  unfoldable pub score_pair : ℕ → Date → ℕ → ℕ → Bool → Store F → Option ℕ × Store F
  unfolding compute_pair
  score_pair now today seeker candidate use_cache s =
      if seeker == candidate
      then (none, s)
      else if not use_cache
      then compute_pair now today seeker candidate s
      else elim (first_where (is_cached now seeker candidate) s.cache) [
        | some c ↦ (some c.score, s)
        | none ↦ elim (first_where (is_pair seeker candidate) s.scores) [
          | none ↦ compute_pair now today seeker candidate s
          | some c ↦
              if is_fresh now c
              then (
                some c.score,
                record s { cache = cached_as now seeker candidate c.score ∷ s.cache },
              )
              else compute_pair now today seeker candidate s
        ]
      ]

  abbrev pub concerns : ℕ → CompatibilityScore F → Bool
  concerns user c = c.seeker == user || c.candidate == user

  -- `MatchingService.invalidate_for`
  unfoldable pub invalidate_for : ℕ → Store F → Store F
  invalidate_for user s = record s { scores = delete_where (concerns user) s.scores }

  -- `MatchingInterface.last_run_diagnostics`: the runs are kept with the last one first.
  unfoldable pub last_run : ℕ → Store F → Option MatchingRun
  last_run seeker s = first_where (λ (r : MatchingRun). r.seeker == seeker) s.runs

  -- `MatchingInterface.cached_score`
  unfoldable pub cached_score : ℕ → ℕ → ℕ → Store F → Option ℕ
  cached_score now seeker candidate s = elim (first_where (is_pair seeker candidate) s.scores) [
    | none ↦ none
    | some c ↦ if is_fresh now c then some c.score else none
  ]

  -- The jobs `purge_expired_scores` and `prune_matching_runs`.
  unfoldable pub purge_expired_scores : ℕ → Store F → Store F
  purge_expired_scores now s = record s {
    scores = delete_where (λ c. ltb c.expires_at now) s.scores;
  }

  unfoldable pub prune_matching_runs : ℕ → ℕ → Store F → Store F
  prune_matching_runs now days s = record s {
    runs = delete_where (λ (r : MatchingRun). ltb (r.created_at + days * 86400) now) s.runs;
  }
