-- ===== src/Reports/Blocks.antt =====
-- BlockService of apps/reports/services.py. The cache is an association list; an entry is read until
-- it expires. Members' ids are ordered as `sorted` orders their texts.
use date_app.Common.{
  ℕ, ◌+◌, min, max, Bool, not, ◌&&◌, ◌||◌, Option, none, some, List, ◌∷◌, ◌++◌, map, ltb, ◌==◌,
  Text, take, first_where, filter_by, exists_where, delete_where, Action, ZynoraError, pure, gets,
  atomic, ◌>>=◌, ◌>>◌, raise_if, modify,
}
use date_app.Reports.Models.{Block, SafetyEvent, CacheEntry, Store}

abbrev pub is_block : ℕ → ℕ → Block → Bool
is_block blocker blocked k = k.blocker == blocker && k.blocked == blocked

-- The filter of `is_blocked_between`.
abbrev pub is_between : ℕ → ℕ → Block → Bool
is_between a b k = is_block a b k || is_block b a k

abbrev pub has_key : ℕ → ℕ → CacheEntry → Bool
has_key a b e = e.low == min a b && e.high == max a b

-- `BlockService._invalidate`
unfoldable pub invalidate : ℕ → ℕ → List CacheEntry → List CacheEntry
invalidate a b c = delete_where (has_key a b) c

abbrev pub is_fresh : ℕ → ℕ → ℕ → CacheEntry → Bool
is_fresh now a b e = has_key a b e && ltb now e.expires

abbrev pub new_block : ℕ → ℕ → Text → Bool → Block
new_block blocker blocked reason from_report = record {
  blocker = blocker;
  blocked = blocked;
  reason = take 200 reason;
  from_report = from_report;
}

-- The row is inserted, the cached answer dropped and the event published.
unfoldable pub inserted : ℕ → ℕ → Text → Bool → Store → Store
unfolding invalidate
inserted blocker blocked reason from_report s = record s {
  blocks = new_block blocker blocked reason from_report ∷ s.blocks;
  cache = invalidate blocker blocked s.cache;
  events = SafetyEvent.user_blocked blocker blocked reason ∷ s.events;
}

-- `get_or_create` of the row, and what follows a creation.
unfoldable pub get_or_insert : ℕ → ℕ → Text → Bool → Option Block → Action Store Block
unfolding inserted
get_or_insert blocker blocked reason from_report (some k) = pure k
get_or_insert blocker blocked reason from_report none = do
  modify (inserted blocker blocked reason from_report)
  pure (new_block blocker blocked reason from_report)

-- `BlockService.block`
unfoldable pub block : ℕ → ℕ → Text → Bool → Action Store Block
unfolding get_or_insert
block blocker blocked reason from_report = atomic do
  raise_if (blocker == blocked) (ZynoraError.validation_error "You cannot block yourself.")
  found ← gets (λ s. first_where (is_block blocker blocked) s.blocks)
  get_or_insert blocker blocked reason from_report found

-- `BlockService.unblock`
unfoldable pub unblock : ℕ → ℕ → Store → Bool × Store
unfolding invalidate
unblock blocker blocked s = (
  exists_where (is_block blocker blocked) s.blocks,
  record s {
    blocks = delete_where (is_block blocker blocked) s.blocks;
    cache = invalidate blocker blocked s.cache;
  },
)

abbrev pub stored : ℕ → ℕ → ℕ → Bool → List CacheEntry → List CacheEntry
stored now a b value c =
    record { low = min a b; high = max a b; value = value; expires = now + 300 }
    ∷ delete_where (has_key a b) c

-- `BlockService.is_blocked_between`
unfoldable pub is_blocked_between : ℕ → ℕ → ℕ → Store → Bool × Store
is_blocked_between now a b s = elim (first_where (is_fresh now a b) s.cache) [
  | some e ↦ (e.value, s)
  | none ↦
      let found = exists_where (is_between a b) s.blocks in
      (found, record s { cache = stored now a b found s.cache })
]

-- `BlockService.blocked_ids`: a set, here in the order of the two queries.
unfoldable pub blocked_ids : ℕ → Store → List ℕ
blocked_ids user s =
    let made = map (λ k. k.blocked) (filter_by (λ k. k.blocker == user) s.blocks) in
    let received = map (λ k. k.blocker) (filter_by (λ k. k.blocked == user) s.blocks) in
    made ++ filter_by (λ x. not (exists_where (λ y. y == x) made)) received

-- The handler `purge_blocks` of apps/reports/signals.py.
unfoldable pub purge_blocks : ℕ → Store → Store
purge_blocks user s = record s {
  blocks = delete_where (λ k. k.blocker == user || k.blocked == user) s.blocks;
}
