-- ===== src/Likes/Swipes.antt =====
-- LikeService.swipe and LikeService.rewind of apps/likes/services.py. Both run under
-- `transaction.atomic`. A reciprocal swipe writes into the store of Matches, a part of this state.
use date_app.Common.{
  raise_some, ℕ, Bool, true, false, not, ◌&&◌, Option, none, some, List, ◌∷◌, Text, ◌==◌,
  if◌then◌else◌, is_some, take, first_where, exists_where, update_where, Action, ok, ZynoraError,
  pure, gets, or_raise, raise_if, atomic, modify, ◌>>=◌, ◌>>◌,
}
use date_app.Matches
use date_app.Matches.{MatchOrigin}
use date_app.Likes.Models.{
  is_from_to, is_live_positive, LikeType, Like, LikeEvent, Store, Services, is_like, is_super_like,
  is_pass, same_kind,
}
use date_app.Likes.Quotas.{Field, Snapshot, consume, snapshot}

pub record SwipeResult : Type 0 where
  pub matched : Bool
  pub match_id : Option ℕ
  pub kind : LikeType
  pub quota : Snapshot

-- The raise for a swipe on someone already swiped on, if there is one.
unfoldable pub repeat_error : Option Like → LikeType → Option ZynoraError
repeat_error none kind = none
repeat_error (some l) kind =
    if l.is_rewound
    then none
    else if same_kind l.kind kind
    then some (
        if is_super_like kind
        then ZynoraError.validation_error "You've already super liked this person."
        else ZynoraError.validation_error "You've already liked this person.")
    else if is_like l.kind && is_super_like kind
    then none
    else some (ZynoraError.validation_error "You have already swiped on this person.")

-- The write of an existing row, and the new row with the model's defaults.
abbrev pub reswiped : LikeType → Text → Option ℕ → Like → Like
reswiped kind message score l = record l {
  kind = kind;
  message = take 200 message;
  is_rewound = false;
  score_at_swipe = score;
  seen_by_receiver = false;
}

abbrev pub new_like : ℕ → ℕ → ℕ → LikeType → Text → Text → Option ℕ → Like
new_like id sender receiver kind message source score = record {
  id = id;
  sender = sender;
  receiver = receiver;
  kind = kind;
  message = take 200 message;
  source = source;
  score_at_swipe = score;
  is_rewound = false;
  seen_by_receiver = false;
}

-- A swipe, with the UUIDs that the call would draw for a new like and a new match.
pub record Request : Type 0 where
  pub now : ℕ
  pub like_id : ℕ
  pub match_id : ℕ
  pub sender : ℕ
  pub receiver : ℕ
  pub kind : LikeType
  pub message : Text
  pub source : Text

-- The origin that `swipe` gives a match.
abbrev pub origin_of : Request → MatchOrigin
origin_of r = if is_super_like r.kind then MatchOrigin.super_like else MatchOrigin.mutual_like

-- The row that stands after the swipe, and the table with it.
unfoldable pub write_like : Option Like → Request → Option ℕ → List Like → Like × List Like
write_like (some l) r score ls =
    let write = reswiped r.kind r.message score in
    (write l, update_where (is_from_to r.sender r.receiver) write ls)
write_like none r score ls =
    let row = new_like r.like_id r.sender r.receiver r.kind r.message r.source score in
    (row, row ∷ ls)

unfoldable pub publish : LikeEvent → Action Store (Unit {0})
publish e = modify λ s. record s { events = e ∷ s.events }

abbrev pub is_last_of : ℕ → Like → Bool
is_last_of user l = l.sender == user && not l.is_rewound

abbrev pub rewound : Like → Like
rewound l = record l { is_rewound = true }

module _ (sv : Services) where
  -- The quota that a swipe of this kind costs; a pass costs none.
  unfoldable pub charge : ℕ → ℕ → LikeType → Action Store (Unit {0})
  unfolding consume
  charge now user LikeType.like = do consume sv now user Field.likes_used; pure tt
  charge now user LikeType.super_like = do consume sv now user Field.super_likes_used; pure tt
  charge now user LikeType.pass = pure tt

  -- The checks at the top of `LikeService.swipe`, in their order.
  unfoldable pub check_swipe : Request → Action Store (Option Like)
  unfolding repeat_error
  check_swipe r = do
    raise_if (r.sender == r.receiver) (ZynoraError.validation_error "You cannot swipe on yourself.")
    raise_if (not (sv.is_active_member r.receiver))
        (ZynoraError.not_found "That member is no longer available.")
    raise_if (sv.is_blocked_between r.sender r.receiver)
        (ZynoraError.validation_error "That member is not available.")
    existing ← gets (λ s. first_where (is_from_to r.sender r.receiver) s.likes)
    raise_some (repeat_error existing r.kind)
    pure existing

  -- `services.matches.create_match`
  unfoldable pub create_match : Request → Action Store (Option ℕ)
  unfolding Matches.create
  create_match r s =
      let (low, high) = Matches.order_pair r.sender r.receiver in
      let (m, t) =
        Matches.create r.match_id r.now r.sender r.receiver (origin_of r) (sv.score_pair low high)
          s.matches in
      (ok (some m.id), record s { matches = t })

  -- What a like or super like does once it is written: it is announced, and if the receiver has
  -- a live like or super like for the sender, the two are matched.
  unfoldable pub announce : Request → Like → Option ℕ → Action Store SwipeResult
  unfolding create_match snapshot publish
  announce r row score = do
    publish (LikeEvent.like_sent r.kind row.id r.sender r.receiver row.message score)
    reciprocal ←
        gets
          (λ s. exists_where (λ l. is_from_to r.receiver r.sender l && is_live_positive l) s.likes)
    match_id ← if reciprocal then create_match r else pure none
    quota ← snapshot sv r.now r.sender
    pure (record { matched = is_some match_id; match_id = match_id; kind = r.kind; quota = quota })

  -- What a pass does once it is written.
  unfoldable pub announce_pass : Request → Action Store SwipeResult
  unfolding snapshot publish
  announce_pass r = do
    publish (LikeEvent.pass_sent r.sender r.receiver)
    quota ← snapshot sv r.now r.sender
    pure (record { matched = false; match_id = none; kind = r.kind; quota = quota })

  -- The row that the swipe writes.
  unfoldable pub record_like : Option Like → Request → Option ℕ → Action Store Like
  unfolding write_like
  record_like existing r score s =
      let (row, ls) = write_like existing r score s.likes in (ok row, record s { likes = ls })

  -- What the swipe does after its row is written.
  unfoldable pub tell : Request → Like → Action Store SwipeResult
  unfolding announce announce_pass
  tell r row =
      if is_pass r.kind then announce_pass r else announce r row (sv.score_pair r.sender r.receiver)

  -- What the swipe does once it is allowed: it is paid for, written and told.
  unfoldable pub settle : Request → Option Like → Action Store SwipeResult
  unfolding charge record_like tell
  settle r existing = do
    charge r.now r.sender r.kind
    row ← record_like existing r (sv.score_pair r.sender r.receiver)
    tell r row

  -- `LikeService.swipe`
  unfoldable pub swipe : Request → Action Store SwipeResult
  unfolding check_swipe settle
  swipe r = atomic do existing ← check_swipe r; settle r existing

  -- What `rewind` does once it is paid for: the receiver and the kind of the swipe taken back,
  -- with the quota left.
  unfoldable pub take_back : ℕ → ℕ → Action Store (ℕ × LikeType × Snapshot)
  unfolding Matches.are_matched
  take_back now user = do
    last ←
        or_raise (← gets (λ s. first_where (is_last_of user) s.likes))
          (ZynoraError.not_found "There is nothing to undo.")
    raise_if (← gets (λ s. Matches.are_matched user last.receiver s.matches))
        (ZynoraError.validation_error "You cannot undo a swipe that became a match.")
    modify λ s. record s { likes = update_where (λ l. l.id == last.id) rewound s.likes }
    quota ← snapshot sv now user
    pure (last.receiver, last.kind, quota)

  unfoldable pub pay_and_take_back : ℕ → ℕ → Action Store (ℕ × LikeType × Snapshot)
  unfolding take_back
  pay_and_take_back now user = do consume sv now user Field.rewinds_used; take_back now user

  -- `LikeService.rewind`
  unfoldable pub rewind : ℕ → ℕ → Action Store (ℕ × LikeType × Snapshot)
  unfolding pay_and_take_back
  rewind now user = atomic do
    raise_if (not (sv.has_rewind user)) (ZynoraError.quota_exceeded "Rewind is a premium feature.")
    pay_and_take_back now user
