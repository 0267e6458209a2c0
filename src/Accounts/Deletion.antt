-- ===== src/Accounts/Deletion.antt =====
-- The end of an account: request_deletion of apps/accounts/services.py and purge_pending_deletions of
-- apps/accounts/tasks.py.
use date_app.Common.{
  ℕ, ◌+◌, ◌*◌, ◌<◌, ◌≡◌, refl, true, false, some, List, [], ◌∷◌, arith, length, first_where,
  filter_by, exists_where, update_where, delete_where, first-update_self, length-append,
  first-delete, exists-delete_self,
}
use date_app.Accounts.Models.{User, AccountEvent, Store, is_id}
use date_app.Accounts.Standing.{activate_found, request_deletion_found, reactivate_found}
use date_app.Accounts.Lifecycle.{
  saved, activated, activate, returned, reactivate, leaving, request_deletion, account_exists,
  is_doomed, purge_events, purge_pending_deletions,
}

length-purge_events : (us : List User) → length (purge_events us) ≡ length us
unfolding purge_events
length-purge_events [] = refl
length-purge_events (u ∷ us) = omega (
  arith,
  length-append (purge_events us) (AccountEvent.user_deleted u.id false ∷ []),
  length-purge_events us,
)

-- The job deletes exactly the accounts past their grace period: none of those is left, an account
-- that is not among them is found as before, and one event is published for each deletion.
purge_deletes :
    (now id : ℕ) (u : User) (s : Store)
    → first_where (is_id id) s.users ≡ some u
    → is_doomed now u ≡ false
    → let (n, t) = purge_pending_deletions now s in
      (exists_where (is_doomed now) t.users ≡ false)
      × (first_where (is_id id) t.users ≡ some u)
      × (length t.events ≡ n + length s.events)
unfolding purge_pending_deletions
purge_deletes now id u s e h = (
  exists-delete_self (is_doomed now) s.users,
  first-delete (is_id id) (is_doomed now) s.users u e h,
  omega (
    arith,
    length-append (purge_events (filter_by (is_doomed now) s.users)) s.events,
    length-purge_events (filter_by (is_doomed now) s.users),
  ),
)

gone :
    (now later id : ℕ) (f : User → User)
    → ((u : User) → ((f u).id ≡ u.id) × ((f u).deletion_requested_at ≡ u.deletion_requested_at))
    → now + 30 * 86400 < later
    → (us : List User)
    → exists_where (is_id id) (
        delete_where
          (is_doomed later)
          (update_where (is_id id) f (update_where (is_id id) (leaving now) us)))
      ≡ false
unfolding exists_where delete_where update_where
gone now later id f k h [] = refl
gone now later id f k h (x ∷ us) = ground (arith, k (leaving now x), gone now later id f k h us)

-- `reactivate` and `activate` leave the deletion request in place: an account that asked for its
-- deletion and has come back by either is still deleted when the grace period of the request is over.
pub reactivated_is_purged :
    (now later id : ℕ) (u : User) (s : Store)
    → first_where (is_id id) s.users ≡ some u
    → now + 30 * 86400 < later
    → let t = (request_deletion now id s).1 in
      (account_exists id (purge_pending_deletions later (reactivate id t).1).1 ≡ false)
      × (account_exists id (purge_pending_deletions later (activate id t).1).1 ≡ false)
unfolding purge_pending_deletions account_exists
reactivated_is_purged now later id u s e h =
    let t = saved id (leaving now) (AccountEvent.user_deleted id true) s in
    let row = first-update_self (is_id id) (leaving now) s.users u (λ x. refl) e in
    rw (request_deletion_found id s u e now) (
      rw (reactivate_found id t (leaving now u) row refl)
          (gone now later id returned (λ x. (refl, refl)) h s.users),
      rw (activate_found id t (leaving now u) row)
          (gone now later id activated (λ x. (refl, refl)) h s.users),
    )
