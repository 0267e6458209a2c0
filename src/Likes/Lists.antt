-- ===== src/Likes/Lists.antt =====
-- Who swiped on whom: swiped_ids, admirer_ids and mark_admirers_seen of apps/likes/services.py.
use date_app.Common.{
  ℕ, Bool, true, not, ◌&&◌, ◌||◌, List, [], ◌∷◌, ◌==◌, if◌then◌else◌, update_where, count_where,
}
use date_app.Likes.Models.{is_live_positive, Like}

-- `LikeService.swiped_ids`
unfoldable pub swiped_ids : ℕ → Bool → List Like → List ℕ
swiped_ids user include_rewound [] = []
swiped_ids user include_rewound (l ∷ ls) =
    let rest = swiped_ids user include_rewound ls in
    if l.sender == user && (include_rewound || not l.is_rewound) then l.receiver ∷ rest else rest

-- The filter of `LikeService.admirer_ids`.
abbrev pub is_admirer : ℕ → Bool → Like → Bool
is_admirer user unseen_only l =
    l.receiver == user && is_live_positive l && (not unseen_only || not l.seen_by_receiver)

-- `LikeService.admirer_ids`
unfoldable pub admirer_ids : ℕ → Bool → List Like → List ℕ
admirer_ids user unseen_only [] = []
admirer_ids user unseen_only (l ∷ ls) =
    let rest = admirer_ids user unseen_only ls in
    if is_admirer user unseen_only l then l.sender ∷ rest else rest

abbrev pub seen : Like → Like
seen l = record l { seen_by_receiver = true }

-- `LikeService.mark_admirers_seen`
unfoldable pub mark_admirers_seen : ℕ → List Like → ℕ × List Like
mark_admirers_seen user ls =
    (count_where (is_admirer user true) ls, update_where (is_admirer user true) seen ls)
