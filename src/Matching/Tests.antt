-- ===== src/Matching/Tests.antt =====
-- The theorems on scores and rankings, at small tables, with natural numbers in place of floats.
use date_app.Common.{
  ℕ, zero, suc, ◌+◌, ◌-◌, ◌*◌, ◌/◌, ◌≤◌, ◌≡◌, refl, true, false, none, some, [], ◌∷◌, arith, ltb,
  Text, codes, first_where, exists_where, Date, Floats,
}
use date_app.Accounts.Models.{AccountStatus, User, default_user}
use date_app.Profiles.Models.{Degrees, Profile, default_profile}
use date_app.Matching.Payloads.{Payload, payload_of}
use date_app.Matching.Engine.{compatibility}
use date_app.Matching.Service.{Store, score_pair, concerns, invalidate_for}
use date_app.Matching.Bounds.{compatibility_percent}
use date_app.Matching.Ranking.{invalidated_is_served}

-- Whole hundredths, with the trigonometry left at zero.
abbrev floats : Floats ℕ
floats = record {
  of_nat = λ n. n * 100;
  lit = λ n k. elim k [ zero ↦ n * 100 | suc j ↦ elim j [ zero ↦ n * 10 | suc _ ↦ n ] ];
  add = λ a b. a + b;
  sub = λ a b. a - b;
  mul = λ a b. a * b / 100;
  div = λ a b. a * 100 / b;
  abs = λ a. a;
  sqrt = λ a. a;
  sin = λ a. a;
  cos = λ a. a;
  asin = λ a. a;
  radians = λ a. a;
  lt = ltb;
  round_to = λ n a. a;
  round = λ a. a / 100;
}

abbrev same : Text → Text
same t = t

abbrev degrees : Degrees → ℕ
degrees d = d.millionths

abbrev today : Date
today = record { year = 2024; month = 5; day = 4 }

abbrev member : ℕ → User
member id = record (default_user 0 id) {
  status = AccountStatus.active;
  date_of_birth = some (record { year = 1994; month = 2; day = 1 });
}

abbrev shown : ℕ → Profile
shown user = record (default_profile user) { photo_count = 2; gender = codes "woman" }

abbrev table : Store ℕ
table = record {
  scores =
      record { seeker = 1; candidate = 2; score = 70; distance_km = none; expires_at = 900 } ∷ [];
  runs = [];
  cache = record { seeker = 1; candidate = 2; score = 70; expires_at = 900 } ∷ [];
  profiles = record {
    profiles = shown 1 ∷ shown 2 ∷ default_profile 3 ∷ [];
    photos = [];
    preferences = [];
    views = [];
    interests = [];
    events = [];
  };
  users = member 1 ∷ member 2 ∷ member 3 ∷ [];
}

abbrev seen : ℕ → Payload ℕ
seen user = payload_of degrees 100 today table.users [] (shown user)

compatibility_percent_example : (compatibility floats same (seen 1) none 60 (seen 2)).score ≤ 100
compatibility_percent_example =
    compatibility_percent floats same (λ a b. a ≤ b) (λ a b h. ground (arith, h)) (λ a. omega arith)
      (omega arith) (λ a h. omega (arith, h)) (seen 1) none 60 (seen 2)

invalidated_is_served_example :
    let t = invalidate_for floats same degrees 2 table in
    (exists_where (concerns floats same degrees 2) t.scores ≡ false)
    × (score_pair floats same degrees 100 today 1 2 true t ≡ (some 70, t))
unfolding first_where
invalidated_is_served_example =
    invalidated_is_served floats same degrees 100 today 1 2 2
      (record { seeker = 1; candidate = 2; score = 70; expires_at = 900 }) table refl refl
