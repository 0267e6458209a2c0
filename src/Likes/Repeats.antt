-- ===== src/Likes/Repeats.antt =====
-- What a member may do after a swipe and after a rewind: repeat_error's branch of LikeService.swipe
-- and LikeService.rewind in apps/likes/services.py.
use date_app.Common.{
  ℕ, ◌≡◌, refl, sym, ap, subst, inl, inr, Bool, true, false, not, ◌&&◌, Option, none, some, arith,
  ◌==◌, if◌then◌else◌, ==_refl, Bool-cases, Option-cases, first_where, Distinct, first_where-holds,
  first-update_found, ok, err, ZynoraError, atomic, ◌>>=◌, raise_if, first_of_Distinct,
}
use date_app.Common.Calls.Keeps.{Keeps, keeps_rules, bind-ok, atomic-ok}
use date_app.Likes.Models.{
  LikeType, Like, LikeEvent, Store, Services, same_kind, is_like, is_super_like, is_from_to,
}
use date_app.Likes.Quotas.{Field, consume, Snapshot, get_quota, snapshot}
use date_app.Matches
use date_app.Likes.Swipes.{
  rewind, take_back, pay_and_take_back, rewound, is_last_of, new_like, Request, SwipeResult,
  repeat_error, write_like, reswiped, charge, check_swipe, create_match, announce, announce_pass,
  record_like, publish, swipe, settle, tell,
}
use date_app.Likes.Matching.{check_swipe-ok, charge-Same, consume-Same, Same}

-- The sender has one live row for the receiver, of the kind of the swipe.
abbrev pub IsWritten : Request → Store → Type 0
IsWritten r s =
    (l : Like) × (first_where (is_from_to r.sender r.receiver) s.likes ≡ some l)
    × (l.kind ≡ r.kind)
    × (l.is_rewound ≡ false)

-- What a swipe of the second kind is told after a live one of the first.
abbrev pub refusal : LikeType → LikeType → ZynoraError
refusal before kind =
    if same_kind before kind
    then (if is_super_like kind
        then ZynoraError.validation_error "You've already super liked this person."
        else ZynoraError.validation_error "You've already liked this person.")
    else ZynoraError.validation_error "You have already swiped on this person."

module _ (sv : Services) where
  record_like-IsWritten :
      (r : Request) (existing : Option Like) (score : Option ℕ) (s : Store)
      → existing ≡ first_where (is_from_to r.sender r.receiver) s.likes
      → IsWritten r (record_like sv existing r score s).1
  unfolding record_like write_like first_where
  record_like-IsWritten r none score s e = (
    new_like r.like_id r.sender r.receiver r.kind r.message r.source score,
    ground arith,
    refl,
    refl,
  )
  record_like-IsWritten r (some l) score s e = (
    reswiped r.kind r.message score l,
    first-update_found (is_from_to r.sender r.receiver) (is_from_to r.sender r.receiver)
        (reswiped r.kind r.message score) s.likes l (λ x. refl) (sym e)
        (first_where-holds (is_from_to r.sender r.receiver) s.likes l (sym e)),
    refl,
    refl,
  )

  snapshot-IsWritten : (r : Request) (now user : ℕ) → Keeps (IsWritten r) (snapshot sv now user)
  unfolding snapshot get_quota
  snapshot-IsWritten r now user = record { at = λ s h. h }

  publish-IsWritten : (r : Request) (e : LikeEvent) → Keeps (IsWritten r) (publish e)
  unfolding publish
  publish-IsWritten r e = record { at = λ s h. h }

  create_match-IsWritten : (r : Request) → Keeps (IsWritten r) (create_match sv r)
  unfolding create_match
  create_match-IsWritten r = record { at = λ s h. h }

  tell-IsWritten : (r : Request) (row : Like) → Keeps (IsWritten r) (tell sv r row)
  unfolding tell announce announce_pass
  tell-IsWritten r row =
      search (keeps_rules, snapshot-IsWritten, publish-IsWritten, create_match-IsWritten) depth 9

  check_swipe-finds :
      (r : Request) (s u : Store) (existing : Option Like)
      → check_swipe sv r s ≡ (ok existing, u)
      → existing ≡ first_where (is_from_to r.sender r.receiver) s.likes
  unfolding check_swipe
  check_swipe-finds r s u existing e = ground arith

  pub swipe-IsWritten :
      (r : Request) (s t : Store) (res : SwipeResult) → swipe sv r s ≡ (ok res, t) → IsWritten r t
  unfolding swipe settle
  swipe-IsWritten r s t res e =
      let score = sv.score_pair r.sender r.receiver in
      let (existing, u, checked, rest) =
        bind-ok {m = check_swipe sv r} {f = settle sv r}
          (atomic-ok {m = check_swipe sv r >>= settle sv r} (record { at = e })) in
      let (_, v, charged, rest') =
        bind-ok {m = charge sv r.now r.sender r.kind}
          {f = λ _. record_like sv existing r score >>= tell sv r} rest in
      let (row, w, written, told) =
        bind-ok {m = record_like sv existing r score} {f = tell sv r} rest' in
      let same_store = (check_swipe-ok sv r s u existing checked.at).0 in
      let found = check_swipe-finds r s u existing checked.at in
      let same = ((charge-Same sv u.likes u.matches r.now r.sender r.kind).at u (refl, refl)).0 in
      let here =
        record_like-IsWritten r existing score v
          (ground (arith, charged.at, same, same_store, found)) in
      subst (IsWritten r) (ap (λ p. p.1) told.at)
        ((tell-IsWritten r row).at w (subst (IsWritten r) (ap (λ p. p.1) written.at) here))

  check_swipe_refused :
      (r r' : Request) (t : Store) (l : Like)
      → (r.sender == r.receiver) ≡ false
      → sv.is_active_member r.receiver ≡ true
      → sv.is_blocked_between r.sender r.receiver ≡ false
      → first_where (is_from_to r.sender r.receiver) t.likes ≡ some l
      → l.kind ≡ r.kind
      → l.is_rewound ≡ false
      → r'.sender ≡ r.sender
      → r'.receiver ≡ r.receiver
      → (is_like r.kind && is_super_like r'.kind) ≡ false
      → check_swipe sv r' t ≡ (err (refusal r.kind r'.kind), t)
  unfolding check_swipe repeat_error
  check_swipe_refused r r' t l ne active open_pair found kind live ss sr no_upgrade =
      rw (ss, sr, ne, active, open_pair, found, live, kind, no_upgrade) (ground arith)

  -- After a swipe, the same member is refused every other swipe on that person but the upgrade of a
  -- like to a super like, and the refusal changes nothing.
  pub swipe_again :
      (r r' : Request) (s t : Store) (res : SwipeResult)
      → swipe sv r s ≡ (ok res, t)
      → r'.sender ≡ r.sender
      → r'.receiver ≡ r.receiver
      → (is_like r.kind && is_super_like r'.kind) ≡ false
      → swipe sv r' t ≡ (err (refusal r.kind r'.kind), t)
  unfolding swipe
  swipe_again r r' s t res done same_sender same_receiver no_upgrade =
      let (l, found, kind, live) = swipe-IsWritten r s t res done in
      let (existing, u, checked, rest) =
        bind-ok {m = check_swipe sv r} {f = settle sv r}
          (atomic-ok {m = check_swipe sv r >>= settle sv r} (record { at = done })) in
      let (_, ne, active, open_pair) = check_swipe-ok sv r s u existing checked.at in
      let refused =
        check_swipe_refused r r' t l ne active open_pair found kind live same_sender same_receiver
          no_upgrade in
      rw (refused, ◌>>=◌, atomic) refl

-- The unique constraint on the sender and the receiver.
abbrev pub same_edge : Like → Like → Bool
same_edge l m = is_from_to l.sender l.receiver m

module _ (sv : Services) (now user : ℕ) where
  take_back_frees :
      (s t : Store) (receiver : ℕ) (kind : LikeType) (quota : Snapshot)
      → take_back sv now user s ≡ (ok (receiver, kind, quota), t)
      → Distinct same_edge s.likes
      → (Matches.are_matched user receiver s.matches ≡ false)
        × (l : Like) × (first_where (is_from_to user receiver) t.likes ≡ some l)
        × (l.is_rewound ≡ true)
  unfolding take_back snapshot get_quota
  take_back_frees s t receiver kind quota e d =
      elim (Option-cases (first_where (is_last_of user) s.likes)) [
        | inl nothing ↦ absurd (ground arith)
        | inr (l, found) ↦ elim (Bool-cases (Matches.are_matched user l.receiver s.matches)) [
          | inl matched ↦ absurd (ground arith)
          | inr unmatched ↦
              let mine = first_where-holds (is_last_of user) s.likes l found in
              let row =
                first_of_Distinct same_edge (is_last_of user) s.likes l (λ x. ground arith)
                  (λ x y. ground arith) d found in
              let after =
                first-update_found (same_edge l) (λ r. r.id == l.id) rewound s.likes l (λ x. refl)
                  row (==_refl l.id) in
              (ground arith, rewound l, ground (arith, after), refl)
        ]
      ]

  allowed_lem :
      (s u : Store)
      → raise_if
          (not (sv.has_rewind user))
          (ZynoraError.quota_exceeded "Rewind is a premium feature.")
          s
        ≡ (ok tt, u)
      → (sv.has_rewind user ≡ true) × (u ≡ s)
  allowed_lem s u e = ground arith

  -- A rewind that goes through takes back a swipe that is no live match, and leaves nothing that
  -- refuses a new swipe of any kind on the same person.
  rewind_frees :
      (s t : Store) (receiver : ℕ) (kind : LikeType) (quota : Snapshot) (next : LikeType)
      → rewind sv now user s ≡ (ok (receiver, kind, quota), t)
      → Distinct same_edge s.likes
      → (sv.has_rewind user ≡ true)
        × (Matches.are_matched user receiver s.matches ≡ false)
        × (repeat_error (first_where (is_from_to user receiver) t.likes) next ≡ none)
  unfolding rewind pay_and_take_back repeat_error
  rewind_frees s t receiver kind quota next e d =
      let (a, u, allowed, rest) =
        bind-ok
          {m = raise_if (not (sv.has_rewind user))
            (ZynoraError.quota_exceeded "Rewind is a premium feature.")}
          {f = λ _. pay_and_take_back sv now user}
          (atomic-ok
            {m = raise_if (not (sv.has_rewind user))
                (ZynoraError.quota_exceeded "Rewind is a premium feature.")
              >>= λ _. pay_and_take_back sv now user}
            (record { at = e })) in
      let (has, same) = allowed_lem s u (allowed.at) in
      let (q, v, paid, back) =
        bind-ok {m = consume sv now user Field.rewinds_used} {f = λ _. take_back sv now user}
          rest in
      let kept =
        subst (Same u.likes u.matches) (ap (λ p. p.1) paid.at)
          ((consume-Same sv u.likes u.matches now user Field.rewinds_used).at u (refl, refl)) in
      let likes_kept : s.likes ≡ v.likes = ground (arith, kept, same) in
      let matches_kept : s.matches ≡ v.matches = ground (arith, kept, same) in
      let (free, l, found, dead) =
        take_back_frees v t receiver kind quota back.at (subst (Distinct same_edge) likes_kept d) in
      (has, rw (matches_kept) free, rw (found, repeat_error, dead) refl)
