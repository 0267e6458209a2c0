-- ===== src/Moderation/Trust.antt =====
-- TrustService of apps/moderation/services.py, and the handler `count_report` of
-- apps/moderation/signals.py. Each call reads the row of a member, or makes it, and saves it.
use date_app.Common.{
  ℕ, ◌+◌, min, Bool, false, ◌&&◌, Option, none, some, List, [], ◌∷◌, ◌==◌, if◌then◌else◌, Text,
  first_where, exists_where, update_where,
}
use date_app.Moderation.Models.{TrustScore, penalised}

abbrev pub is_of : ℕ → TrustScore → Bool
is_of user t = t.user == user

-- The row that `get_or_create` inserts, with the model's defaults.
abbrev pub new_score : ℕ → TrustScore
new_score user = record {
  user = user;
  score = 100;
  flags_received = 0;
  reports_received = 0;
  content_rejected = 0;
  is_shadow_banned = false;
  shadow_banned_at = none;
  notes = [];
}

unfoldable pub with_row : ℕ → Option TrustScore → List TrustScore → TrustScore × List TrustScore
with_row user (some t) ts = (t, ts)
with_row user none ts = (new_score user, new_score user ∷ ts)

-- `TrustService.get`
unfoldable pub get : ℕ → List TrustScore → TrustScore × List TrustScore
unfolding with_row
get user ts = with_row user (first_where (is_of user) ts) ts

-- A row is read or made, changed and saved.
unfoldable pub change :
    ℕ → (TrustScore → TrustScore) → List TrustScore → TrustScore × List TrustScore
unfolding get
change user f ts = let (t, us) = get user ts in (f t, update_where (is_of user) f us)

-- `TrustService.penalise`; the falsy id of no member is `none`.
unfoldable pub penalise : ℕ → Text → Option ℕ → ℕ → Text → List TrustScore → List TrustScore
unfolding change penalised
penalise now today none points reason ts = ts
penalise now today (some user) points reason ts =
    (change user (penalised now today points reason) ts).1

abbrev pub rewarded : ℕ → TrustScore → TrustScore
rewarded points t = record t { score = min (t.score + points) 100 }

-- `TrustService.reward`
unfoldable pub reward : ℕ → ℕ → List TrustScore → ℕ × List TrustScore
unfolding change
reward user points ts = let (t, us) = change user (rewarded points) ts in (t.score, us)

-- `TrustService.is_shadow_banned`
unfoldable pub is_shadow_banned : ℕ → List TrustScore → Bool
is_shadow_banned user ts = exists_where (λ t. is_of user t && t.is_shadow_banned) ts

abbrev pub with_ban : ℕ → Bool → TrustScore → TrustScore
with_ban now banned t = record t {
  is_shadow_banned = banned;
  shadow_banned_at = if banned then some now else none;
}

-- `TrustService.set_shadow_ban`
unfoldable pub set_shadow_ban : ℕ → ℕ → Bool → List TrustScore → List TrustScore
unfolding change
set_shadow_ban now user banned ts = (change user (with_ban now banned) ts).1

abbrev pub reported : TrustScore → TrustScore
reported t = record t { reports_received = t.reports_received + 1 }

-- The handler `count_report`.
unfoldable pub count_report : ℕ → List TrustScore → List TrustScore
unfolding change
count_report user ts = (change user reported ts).1
