-- ===== src/Reports/Ties.antt =====
-- What a block sets off in the other services: publish of apps/common/events.py with the handlers of
-- USER_BLOCKED in apps/likes/signals.py, apps/matches/signals.py and apps/reports/signals.py, and a swipe
-- that asks the reports service.
use date_app.Common.{
  ℕ, Bool, false, not, ◌&&◌, ◌||◌, ◌==◌, if◌then◌else◌, Text, codes, exists_where, delete_where,
  Action, ok, err,
}
use date_app.Matches
use date_app.Likes.Models.{Like, Store as LikesStore, Services, is_from_to}
use date_app.Likes.Swipes.{Request, SwipeResult, swipe}
use date_app.Reports.Models.{Block, Store as ReportsStore}
use date_app.Reports.Blocks.{is_block, invalidate, block, is_blocked_between}

-- The tables of the reports, the likes and the matches, which the likes hold.
pub record Platform : Type 0 where
  pub reports : ReportsStore
  pub likes : LikesStore

-- The filter of `drop_likes_between`.
abbrev pub is_tie : ℕ → ℕ → Like → Bool
is_tie a b l = is_from_to a b l || is_from_to b a l

-- The handler `drop_likes_between` of the likes.
unfoldable pub drop_likes_between : ℕ → ℕ → LikesStore → LikesStore
drop_likes_between blocker blocked s = record s {
  likes = delete_where (is_tie blocker blocked) s.likes;
}

-- The handler `purge_likes` of the likes, on a deletion that is scheduled or not.
unfoldable pub purge_likes : ℕ → Bool → LikesStore → LikesStore
purge_likes user scheduled s =
    if scheduled
    then s
    else record s { likes = delete_where (λ l. l.sender == user || l.receiver == user) s.likes }

-- The handlers `end_match_on_block` and `end_matches_on_exit` of the matches.
unfoldable pub end_match_on_block : ℕ → ℕ → ℕ → Matches.Store → Matches.Store
unfolding Matches.end_all_for_pair
end_match_on_block now blocker blocked s =
    (Matches.end_all_for_pair now blocker blocked (codes "blocked") s).1

unfoldable pub end_matches_on_exit : ℕ → ℕ → Matches.Store → Matches.Store
unfolding Matches.end_all_for_user
end_matches_on_exit now user s =
    (Matches.end_all_for_user now user (codes "account unavailable") s).1

-- The handler `warm_block_cache` of the reports.
unfoldable pub warm_block_cache : ℕ → ℕ → ℕ → ReportsStore → ReportsStore
unfolding invalidate is_blocked_between
warm_block_cache now blocker blocked s =
    (is_blocked_between now blocker blocked
      (record s { cache = invalidate blocker blocked s.cache })).1

-- `publish` of USER_BLOCKED: the handlers in the order of the installed apps.
unfoldable pub on_user_blocked : ℕ → ℕ → ℕ → Platform → Platform
unfolding drop_likes_between end_match_on_block warm_block_cache
on_user_blocked now blocker blocked p =
    let likes = drop_likes_between blocker blocked p.likes in
    record {
      reports = warm_block_cache now blocker blocked p.reports;
      likes = record likes { matches = end_match_on_block now blocker blocked likes.matches };
    }

-- `BlockService.block` with the handlers of the event, which it publishes for a new row only.
unfoldable pub block_member : ℕ → ℕ → ℕ → Text → Bool → Action Platform Block
unfolding block on_user_blocked
block_member now blocker blocked reason from_report p =
    let (r, t) = block blocker blocked reason from_report p.reports in
    let q = record p { reports = t } in
    elim r [
      | err x ↦ (err x, q)
      | ok k ↦ (
        ok k,
        if exists_where (is_block blocker blocked) p.reports.blocks
            then q
            else on_user_blocked now blocker blocked q,
      )
    ]

-- `LikeService.swipe`, whose check on blocks asks the reports service, if it comes to it.
unfoldable pub swipe_asking : Services → Request → Action Platform SwipeResult
unfolding is_blocked_between swipe
swipe_asking sv r p =
    let asks = not (r.sender == r.receiver) && sv.is_active_member r.receiver in
    let (blocked, reports) =
      if asks then is_blocked_between r.now r.sender r.receiver p.reports else (false, p.reports) in
    let (res, likes) = swipe (record sv { is_blocked_between = λ a b. blocked }) r p.likes in
    (res, record { reports = reports; likes = likes })
