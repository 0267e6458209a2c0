-- ===== src/Reports/Severance.antt =====
-- What is left between two members after a block: BlockService of apps/reports/services.py with the
-- handlers of its event, and LikeService.swipe of apps/likes/services.py.
use date_app.Common.{
  ℕ, ◌≡◌, refl, ap, ◌∙◌, ◌≢◌, inl, inr, Bool, true, false, not, ◌&&◌, List, ◌∷◌, arith, ◌==◌,
  ==_refl, eq_of_==, Bool-cases, Option-cases, Text, codes, first_where, exists_where,
  none_of_exists, exists_congr, Result, ok, err, ZynoraError, exists-delete_self, All-delete,
  exists-delete_apart,
}
use date_app.Matches.{are_matched, order_pair}
use date_app.Matches.Pairs.{order_pair_comm}
use date_app.Matches.Exit.{end_all_for_pair_ends}
use date_app.Likes.Models.{Like, Services, is_from_to, Store as LikesStore}
use date_app.Likes.Swipes.{Request, SwipeResult, check_swipe, swipe}
use date_app.Reports.Models.{Block, Store as ReportsStore}
use date_app.Reports.Blocks.{
  is_block, is_between, has_key, invalidate, is_fresh, new_block, inserted, block,
  is_blocked_between,
}
use date_app.Reports.Coherence.{IsTrue, IsCoherent, is_blocked_between_lem, inserted-IsCoherent}
use date_app.Reports.Ties.{
  Platform, is_tie, drop_likes_between, end_match_on_block, warm_block_cache, on_user_blocked,
  block_member, swipe_asking,
}

-- A swipe that is told of a block is refused, and changes nothing.
swipe_blocked :
    (sv : Services) (r : Request) (s : LikesStore)
    → sv.is_blocked_between r.sender r.receiver ≡ true
    → (x : ZynoraError) × (swipe sv r s ≡ (err x, s))
unfolding swipe check_swipe
swipe_blocked sv r s h = elim (Bool-cases (r.sender == r.receiver)) [
  | inl same ↦ (ZynoraError.validation_error "You cannot swipe on yourself.", ground (arith, same))
  | inr apart ↦ elim (Bool-cases (sv.is_active_member r.receiver)) [
    | inr gone ↦
        (ZynoraError.not_found "That member is no longer available.", ground (arith, apart, gone))
    | inl here ↦ (
      ZynoraError.validation_error "That member is not available.",
      ground (arith, apart, here, h),
    )
  ]
]

abbrev asks : Services → Request → Bool
asks sv r = not (r.sender == r.receiver) && sv.is_active_member r.receiver

-- One that does not come to the question is refused all the same.
swipe_unasked :
    (sv : Services) (r : Request) (s : LikesStore)
    → asks sv r ≡ false
    → (x : ZynoraError) × (swipe sv r s ≡ (err x, s))
unfolding swipe check_swipe
swipe_unasked sv r s h = elim (Bool-cases (r.sender == r.receiver)) [
  | inl same ↦ (ZynoraError.validation_error "You cannot swipe on yourself.", ground (arith, same))
  | inr apart ↦
      (ZynoraError.not_found "That member is no longer available.", ground (arith, apart, h))
]

-- A swipe between two members of whom one blocks the other is refused, and changes no like and no
-- match.
swipe_refused :
    (sv : Services) (r : Request) (p : Platform)
    → IsCoherent p.reports
    → exists_where (is_between r.sender r.receiver) p.reports.blocks ≡ true
    → let (res, q) = swipe_asking sv r p in (x : ZynoraError) × (res ≡ err x) × (q.likes ≡ p.likes)
unfolding swipe_asking
swipe_refused sv r p h e = elim (Bool-cases (asks sv r)) [
  | inl k ↦
      let told = (is_blocked_between_lem r.now r.sender r.receiver p.reports h).0 ∙ e in
      let sw : Services = record sv {
        is_blocked_between = λ a b. (is_blocked_between r.now r.sender r.receiver p.reports).0;
      } in
      let (x, f) = swipe_blocked sw r p.likes told in
      (
        x,
        rw k (ap (λ (z : Result SwipeResult × LikesStore). z.0) f),
        rw k (ap (λ (z : Result SwipeResult × LikesStore). z.1) f),
      )
  | inr k ↦
      let sw : Services = record sv { is_blocked_between = λ a b. false } in
      let (x, f) = swipe_unasked sw r p.likes k in
      (
        x,
        rw k (ap (λ (z : Result SwipeResult × LikesStore). z.0) f),
        rw k (ap (λ (z : Result SwipeResult × LikesStore). z.1) f),
      )
]

-- A question about a block changes no block.
asked_blocks : (now a b : ℕ) (s : ReportsStore) → (is_blocked_between now a b s).1.blocks ≡ s.blocks
unfolding is_blocked_between
asked_blocks now a b s = elim (Option-cases (first_where (is_fresh now a b) s.cache)) [
  | inl e ↦ ground (arith, e)
  | inr g ↦ ground (arith, g.1)
]

-- The cached answers are true once the handler has warmed one.
warmed :
    (now a b : ℕ) (s : ReportsStore)
    → IsCoherent s
    → let t = warm_block_cache now a b s in IsCoherent t × (t.blocks ≡ s.blocks)
unfolding warm_block_cache invalidate
warmed now a b s h =
    let u : ReportsStore = record s { cache = invalidate a b s.cache } in
    (
      (is_blocked_between_lem now a b u
          (All-delete (IsTrue s.blocks) (IsTrue s.blocks) (has_key a b) s.cache (λ e _ t. t) h)).1,
      asked_blocks now a b u,
    )

-- A like of another pair is none of the two members'.
tie_apart :
    (a b c d : ℕ) (l : Like)
    → order_pair c d ≢ order_pair a b
    → is_tie a b l ≡ true
    → is_from_to c d l ≡ false
tie_apart a b c d l ne h = elim (Bool-cases (is_from_to c d l)) [
  | inr e ↦ e
  | inl e ↦ absurd (
      ne (elim (Bool-cases (is_from_to a b l)) [
        | inl f ↦ ap (λ x. order_pair x d) (ground arith) ∙ ap (order_pair a) (ground arith)
        | inr f ↦
            ap (λ x. order_pair x d) (ground arith)
            ∙ ap (order_pair b) (ground arith)
            ∙ order_pair_comm b a
      ]))
]

module _ (now a b : ℕ) (reason : Text) (from_report : Bool) (p : Platform)
    (new : exists_where (is_block a b) p.reports.blocks ≡ false) (apart : a ≢ b) where
  abbrev row : Block
  row = new_block a b reason from_report

  abbrev added : ReportsStore
  added = inserted a b reason from_report p.reports

  abbrev after : Platform
  after = on_user_blocked now a b (record p { reports = added })

  -- A new row is inserted, and the handlers run.
  block_made : block a b reason from_report p.reports ≡ (ok row, added)
  unfolding block
  block_made = ground (
    arith,
    none_of_exists (is_block a b) p.reports.blocks new,
    λ (e : (a == b) ≡ true). apart (eq_of_== a b e),
  )

  block_member_made : block_member now a b reason from_report p ≡ (ok row, after)
  unfolding block_member
  block_member_made = ground (arith, block_made, new)

  -- The member of a block that meets the other's swipe.
  module _ (h : IsCoherent p.reports) where
    after_reports : IsCoherent after.reports × (after.reports.blocks ≡ row ∷ p.reports.blocks)
    unfolding on_user_blocked inserted
    after_reports = warmed now a b added (inserted-IsCoherent a b reason from_report p.reports h)

    blocked_there : exists_where (is_between a b) after.reports.blocks ≡ true
    unfolding exists_where
    blocked_there = rw (after_reports.1) (ground (arith, ==_refl a, ==_refl b))

same_between :
    (a b c d : ℕ) (ks : List Block)
    → order_pair c d ≡ order_pair a b
    → exists_where (is_between c d) ks ≡ exists_where (is_between a b) ks
unfolding order_pair
same_between a b c d ks e =
    let low = ap (λ (x : ℕ × ℕ). x.0) e in
    let high = ap (λ (x : ℕ × ℕ). x.1) e in
    exists_congr (is_between c d) (is_between a b) ks (λ k. ground (arith, low, high))

-- When every cached answer is the table's, a new block of one member by another severs them: no like
-- is left between them, they are not matched, and every swipe of one on the other, at any time, is
-- refused and changes no like and no match. The likes and the match of any other pair are as before.
pub block_severs :
    (now a b c d : ℕ) (reason : Text) (from_report : Bool) (sv : Services) (r : Request)
    (p : Platform)
    → IsCoherent p.reports
    → exists_where (is_block a b) p.reports.blocks ≡ false
    → a ≢ b
    → order_pair c d ≢ order_pair a b
    → order_pair r.sender r.receiver ≡ order_pair a b
    → let (k, q) = block_member now a b reason from_report p in
      (k ≡ ok (new_block a b reason from_report))
      × (exists_where (is_tie a b) q.likes.likes ≡ false)
      × (are_matched a b q.likes.matches ≡ false)
      × ((x : ZynoraError) × ((swipe_asking sv r q).0 ≡ err x)
          × ((swipe_asking sv r q).1.likes ≡ q.likes))
      × (exists_where (is_from_to c d) q.likes.likes ≡ exists_where (is_from_to c d) p.likes.likes)
      × (are_matched c d q.likes.matches ≡ are_matched c d p.likes.matches)
unfolding on_user_blocked drop_likes_between end_match_on_block
block_severs now a b c d reason from_report sv r p h new apart other pair =
    let q = after now a b reason from_report p new apart in
    let (ended, kept, _) =
      end_all_for_pair_ends now a b c d (codes "blocked") p.likes.matches other in
    rw (block_member_made now a b reason from_report p new apart) (
      refl,
      exists-delete_self (is_tie a b) p.likes.likes,
      ended,
      swipe_refused sv r q (after_reports now a b reason from_report p new apart h).0 (
          same_between a b r.sender r.receiver q.reports.blocks pair
          ∙ blocked_there now a b reason from_report p new apart h),
      exists-delete_apart (is_from_to c d) (is_tie a b) p.likes.likes
          (λ l. tie_apart a b c d l other),
      kept,
    )
