-- ===== src/Chat/Threads.antt =====
-- The one thread of two members: ConversationService of apps/chat/services.py.
use date_app.Common.{
  ℕ, ◌≡◌, refl, ap, ◌∙◌, inl, inr, true, ◌&&◌, none, some, List, [], ◌∷◌, arith, ==_refl,
  Option-cases, Text, first_where, exists_where, update_where, exists-update, first-update_self,
  first_congr,
}
use date_app.Chat.Models.{Conversation, ConversationMember, Store}
use date_app.Chat.Conversations.{
  is_conversation, has_match, is_membership, takes_part, between, new_conversation, join_all,
  opened, get_or_create, rejoined, find_or_open, closed, close_for_match,
}

closed_same :
    (now id : ℕ) (reason : Text) (c : Conversation)
    → is_conversation id (closed now reason c) ≡ is_conversation id c
closed_same now id reason c = refl

-- When a match with a conversation ends and comes back, `get_or_create` returns its conversation as
-- it was closed, and changes nothing.
revived_is_closed :
    (now id match_id : ℕ) (reason : Text) (users : List ℕ) (s : Store) (c : Conversation)
    → first_where (has_match match_id) s.conversations ≡ some c
    → get_or_create id match_id users (close_for_match now match_id reason s)
      ≡ (closed now reason c, close_for_match now match_id reason s)
unfolding get_or_create close_for_match
revived_is_closed now id match_id reason users s c e =
    rw
      (
        first-update_self (has_match match_id) (closed now reason) s.conversations c (λ x. refl) e,
        get_or_create,
      )
      refl

module _ (id a b : ℕ) (s : Store) where
  open_found :
      (c : Conversation)
      → between a b s ≡ some c
      → find_or_open id a b s
        ≡ (c, record s { members = update_where (is_membership c.id a) rejoined s.members })
  unfolding find_or_open
  open_found c e = rw (e, find_or_open) refl

  open_new :
      between a b s ≡ none
      → find_or_open id a b s ≡ (new_conversation id none, opened id none (a ∷ b ∷ []) s)
  unfolding find_or_open
  open_new e = rw (e, find_or_open) refl

-- Whether somebody takes part does not depend on what a rejoin writes.
rejoin_takes :
    (i u c v : ℕ) (s : Store)
    → takes_part i u (record s { members = update_where (is_membership c v) rejoined s.members })
      ≡ takes_part i u s
rejoin_takes i u c v s =
    exists-update (is_membership i u) (is_membership c v) rejoined s.members (λ x. refl)

-- The conversation found between two members is the same in either order.
between_comm : (a b : ℕ) (s : Store) → between b a s ≡ between a b s
unfolding between
between_comm a b s =
    first_congr (λ c. takes_part c.id b s && takes_part c.id a s)
      (λ c. takes_part c.id a s && takes_part c.id b s) s.conversations (λ c. ground arith)

between_rejoin :
    (a b c v : ℕ) (s : Store)
    → between a b (record s { members = update_where (is_membership c v) rejoined s.members })
      ≡ between a b s
unfolding between
between_rejoin a b c v s =
    first_congr _ _ s.conversations
      (λ x. ground (arith, rejoin_takes x.id a c v s, rejoin_takes x.id b c v s))

joined :
    (id a b : ℕ) (ms : List ConversationMember)
    → (exists_where (is_membership id a) (join_all id (a ∷ b ∷ []) ms) ≡ true)
      × (exists_where (is_membership id b) (join_all id (a ∷ b ∷ []) ms) ≡ true)
unfolding join_all exists_where
joined id a b ms = (
  ground (arith, ==_refl id, ==_refl a, ==_refl b),
  ground (arith, ==_refl id, ==_refl a, ==_refl b),
)

between-opened :
    (id a b : ℕ) (s : Store)
    → between a b (opened id none (a ∷ b ∷ []) s) ≡ some (new_conversation id none)
unfolding between opened first_where
between-opened id a b s = ground (arith, joined id a b s.members)

-- Opening a conversation once more, from either side, finds the one that the first opening found or
-- made, and makes no other.
pub open_twice :
    (id id' a b : ℕ) (s : Store)
    → let (c, t) = find_or_open id a b s in
      ((find_or_open id' a b t).0 ≡ c)
      × ((find_or_open id' b a t).0 ≡ c)
      × ((find_or_open id' b a t).1.conversations ≡ t.conversations)
open_twice id id' a b s = elim (Option-cases (between a b s)) [
  | inl e ↦ rw (open_new id a b s e) (again (new_conversation id none) _ (between-opened id a b s))
  | inr (c, e) ↦ rw (open_found id a b s c e) (again c _ (between_rejoin a b c.id a s ∙ e))
]
  where
    again :
        (c : Conversation) (t : Store)
        → between a b t ≡ some c
        → ((find_or_open id' a b t).0 ≡ c)
          × ((find_or_open id' b a t).0 ≡ c)
          × ((find_or_open id' b a t).1.conversations ≡ t.conversations)
    again c t e =
        let p = open_found id' a b t c e in
        let q = open_found id' b a t c (between_comm a b t ∙ e) in
        (ap (λ x. x.0) p, ap (λ x. x.0) q, ap (λ x. x.1.conversations) q)
