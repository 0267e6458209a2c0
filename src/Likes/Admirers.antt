-- ===== src/Likes/Admirers.antt =====
-- Admirers: admirer_ids and mark_admirers_seen of apps/likes/services.py.
use date_app.Common.{
  ℕ, ◌≡◌, refl, Bool, true, false, List, [], ◌∷◌, arith, length, count_where, update_where,
}
use date_app.Likes.Models.{Like}
use date_app.Likes.Lists.{is_admirer, admirer_ids, seen, mark_admirers_seen}

none_unseen :
    (user : ℕ) (ls : List Like)
    → admirer_ids user true (update_where (is_admirer user true) seen ls) ≡ []
unfolding admirer_ids update_where
none_unseen user [] = refl
none_unseen user (l ∷ ls) = ground (arith, none_unseen user ls)

same_admirers :
    (user : ℕ) (ls : List Like)
    → admirer_ids user false (update_where (is_admirer user true) seen ls)
      ≡ admirer_ids user false ls
unfolding admirer_ids update_where
same_admirers user [] = refl
same_admirers user (l ∷ ls) = ground (arith, same_admirers user ls)

count_admirers :
    (user : ℕ) (unseen : Bool) (ls : List Like)
    → count_where (is_admirer user unseen) ls ≡ length (admirer_ids user unseen ls)
unfolding admirer_ids count_where
count_admirers user unseen [] = refl
count_admirers user unseen (l ∷ ls) = ground (arith, count_admirers user unseen ls)

-- Marking the admirers seen leaves none unseen, loses no admirer, and returns how many were unseen.
pub mark_admirers_seen_lem :
    (user : ℕ) (ls : List Like)
    → let (n, t) = mark_admirers_seen user ls in
      (admirer_ids user true t ≡ [])
      × (admirer_ids user false t ≡ admirer_ids user false ls)
      × (n ≡ length (admirer_ids user true ls))
unfolding mark_admirers_seen
mark_admirers_seen_lem user ls =
    (none_unseen user ls, same_admirers user ls, count_admirers user true ls)
