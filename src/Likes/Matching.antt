-- ===== src/Likes/Matching.antt =====
-- When a swipe becomes a match: the reciprocity test of LikeService.swipe (apps/likes/services.py), and
-- what it leaves in the matches' table.
use date_app.Common.{
  ◌>>=◌, ap, subst, ℕ, ◌≡◌, refl, ap, subst, inl, inr, Bool, true, false, not, ◌&&◌, Option, none,
  some, List, arith, ◌==◌, Bool-cases, exists_where, exists-update_apart, ok, ◌>>=◌,
}
use date_app.Common.Calls.Keeps.{Keeps, keeps_rules, Returned, bind-ok, atomic-ok}
use date_app.Matches
use mathlib.Core.Path.{subst₂}
use date_app.Matches.Lifecycle.{create-are_matched}
use date_app.Likes.Models.{LikeType, Like, Store, Services, is_pass, is_from_to, is_live_positive}
use date_app.Likes.Quotas.{get_quota, Field, consume, snapshot}
use date_app.Likes.Swipes.{
  Request, SwipeResult, origin_of, write_like, reswiped, charge, check_swipe, create_match,
  announce, announce_pass, record_like, publish, swipe, settle, tell,
}

-- The receiver has a live like or super like for the sender.
abbrev pub is_wanted : Request → List Like → Bool
is_wanted r ls = exists_where (λ l. is_from_to r.receiver r.sender l && is_live_positive l) ls

-- Writing the sender's row does not touch the other direction.
write_like-is_wanted :
    (r : Request) (found : Option Like) (score : Option ℕ) (ls : List Like)
    → (r.sender == r.receiver) ≡ false
    → is_wanted r (write_like found r score ls).1 ≡ is_wanted r ls
unfolding write_like exists_where
write_like-is_wanted r none score ls ne = ground arith
write_like-is_wanted r (some l) score ls ne =
    exists-update_apart (λ l. is_from_to r.receiver r.sender l && is_live_positive l)
      (is_from_to r.sender r.receiver) (reswiped r.kind r.message score) ls (λ x h. ground arith)
      (λ x h. ground arith)

-- The likes and the matches after a call that writes only quotas.
abbrev pub Same : List Like → Matches.Store → Store → Type 0
Same ls ms s = (s.likes ≡ ls) × (s.matches ≡ ms)

-- The result of a like or super like, by whether the receiver wants the sender.
abbrev pub Outcome : Request → Bool → Matches.Store → SwipeResult × Store → Type 0
Outcome r true ms (res, t) =
    (res.matched ≡ true) × (Matches.are_matched r.sender r.receiver t.matches ≡ true)
Outcome r false ms (res, t) = (res.matched ≡ false) × (t.matches ≡ ms)

module _ (sv : Services) where
  pub consume-Same :
      (ls : List Like) (ms : Matches.Store) (now user : ℕ) (field : Field)
      → Keeps (Same ls ms) (consume sv now user field)
  unfolding consume
  consume-Same ls ms now user field = record { at = λ s h. ground arith }

  pub charge-Same :
      (ls : List Like) (ms : Matches.Store) (now user : ℕ) (kind : LikeType)
      → Keeps (Same ls ms) (charge sv now user kind)
  unfolding charge
  charge-Same ls ms now user LikeType.like = search (keeps_rules, consume-Same)
  charge-Same ls ms now user LikeType.super_like = search (keeps_rules, consume-Same)
  charge-Same ls ms now user LikeType.pass = search keeps_rules

  announce-Outcome :
      (r : Request) (row : Like) (score : Option ℕ) (s t : Store) (res : SwipeResult)
      → announce sv r row score s ≡ (ok res, t)
      → Outcome r (is_wanted r s.likes) s.matches (res, t)
  unfolding announce create_match snapshot publish get_quota
  announce-Outcome r row score s t res e = elim (Bool-cases (is_wanted r s.likes)) [
    | inl wanted ↦ rw wanted (
        ground (
          arith,
          create-are_matched r.match_id r.now r.sender r.receiver (origin_of r)
              (sv.score_pair pair.0 pair.1) s.matches,
        ))
    | inr not_wanted ↦ rw not_wanted (ground arith)
  ]
    where
      pair : ℕ × ℕ
      pair = Matches.order_pair r.sender r.receiver

  pub check_swipe-ok :
      (r : Request) (s u : Store) (existing : Option Like)
      → check_swipe sv r s ≡ (ok existing, u)
      → (u ≡ s)
        × ((r.sender == r.receiver) ≡ false)
        × (sv.is_active_member r.receiver ≡ true)
        × (sv.is_blocked_between r.sender r.receiver ≡ false)
  unfolding check_swipe
  check_swipe-ok r s u existing e = ground arith

  tell-Outcome :
      (r : Request) (row : Like) (s t : Store) (res : SwipeResult)
      → tell sv r row s ≡ (ok res, t)
      → Outcome r (not (is_pass r.kind) && is_wanted r s.likes) s.matches (res, t)
  unfolding tell announce_pass publish snapshot get_quota
  tell-Outcome r row s t res e = elim (Bool-cases (is_pass r.kind)) [
    | inl pass ↦ rw pass (ground arith)
    | inr like ↦
        rw like (announce-Outcome r row (sv.score_pair r.sender r.receiver) s t res (ground arith))
  ]

  settle-Outcome :
      (r : Request) (existing : Option Like) (s t : Store) (res : SwipeResult)
      → (r.sender == r.receiver) ≡ false
      → Returned (settle sv r existing) s res t
      → Outcome r (not (is_pass r.kind) && is_wanted r s.likes) s.matches (res, t)
  unfolding settle record_like
  settle-Outcome r existing s t res ne e =
      let score = sv.score_pair r.sender r.receiver in
      let (_, v, charged, rest) =
        bind-ok {m = charge sv r.now r.sender r.kind}
          {f = λ _. record_like sv existing r score >>= tell sv r} e in
      let (row, w, written, told) =
        bind-ok {m = record_like sv existing r score} {f = tell sv r} rest in
      let same =
        subst (Same s.likes s.matches) (ap (λ p. p.1) charged.at)
          ((charge-Same s.likes s.matches r.now r.sender r.kind).at s (refl, refl)) in
      let wanted : is_wanted r w.likes ≡ is_wanted r s.likes =
        ground (arith, written.at, same, write_like-is_wanted r existing score s.likes ne) in
      let kept : w.matches ≡ s.matches = ground (arith, written.at, same) in
      subst₂ (λ b ms. Outcome r (not (is_pass r.kind) && b) ms (res, t)) wanted kept
        (tell-Outcome r row w t res told.at)

  -- A swipe that goes through matches the two exactly if it is no pass and the receiver has a live
  -- like or super like for the sender; then the match is active, and otherwise no match changes.
  pub swipe-Outcome :
      (r : Request) (s t : Store) (res : SwipeResult)
      → swipe sv r s ≡ (ok res, t)
      → Outcome r (not (is_pass r.kind) && is_wanted r s.likes) s.matches (res, t)
  unfolding swipe
  swipe-Outcome r s t res e =
      let (existing, u, checked, rest) =
        bind-ok {m = check_swipe sv r} {f = settle sv r}
          (atomic-ok {m = check_swipe sv r >>= settle sv r} (record { at = e })) in
      let (same, ne, _, _) = check_swipe-ok r s u existing checked.at in
      subst (λ x. Outcome r (not (is_pass r.kind) && is_wanted r x.likes) x.matches (res, t)) same
        (settle-Outcome r existing u t res ne rest)
