-- ===== src/Chat/Marks.antt =====
-- Read marks and reactions: `mark_read` and `react` of apps/chat/services.py.
use date_app.Common.{
  ℕ, ◌≡◌, refl, ap, ◌∙◌, Bool, true, false, some, List, [], ◌∷◌, arith, ==_refl, Text, first_where,
  exists_where, count_where, update_where, delete_where, first_where-holds, exists_of_first,
  first-update_self, same_text_refl,
}
use date_app.Chat.Models.{ConversationMember, Message, MessageReaction, Store}
use date_app.Chat.Conversations.{is_membership, takes_part}
use date_app.Chat.Upkeep.{is_unread, read_message, all_read, mark_read, is_reaction, toggled}

no_unread :
    (now conversation reader : ℕ) (ms : List Message)
    → exists_where
        (is_unread conversation reader)
        (update_where (is_unread conversation reader) (read_message now) ms)
      ≡ false
unfolding exists_where update_where
no_unread now conversation reader [] = refl
no_unread now conversation reader (m ∷ ms) = ground (arith, no_unread now conversation reader ms)

none_counted :
    (p : Message → Bool) (ms : List Message) → exists_where p ms ≡ false → count_where p ms ≡ 0
unfolding exists_where count_where
none_counted p [] h = refl
none_counted p (m ∷ ms) h = ground (arith, none_counted p ms)

mark_read_open :
    (now conversation reader : ℕ) (s : Store)
    → takes_part conversation reader s ≡ true
    → ((mark_read now conversation reader s).0
        ≡ count_where (is_unread conversation reader) s.messages)
      × ((mark_read now conversation reader s).1.messages
          ≡ update_where (is_unread conversation reader) (read_message now) s.messages)
      × ((mark_read now conversation reader s).1.members
          ≡ update_where (is_membership conversation reader) (all_read now) s.members)
unfolding mark_read
mark_read_open now conversation reader s h =
    (rw (h, mark_read) refl, rw (h, mark_read) refl, rw (h, mark_read) refl)

-- When a member of a conversation marks it read, the number returned is that of the messages of the
-- others that were unread; none is left, the member's counter is 0, and a second call marks nothing.
mark_read_lem :
    (now later conversation reader : ℕ) (s : Store) (m : ConversationMember)
    → first_where (is_membership conversation reader) s.members ≡ some m
    → let (n, t) = mark_read now conversation reader s in
      (n ≡ count_where (is_unread conversation reader) s.messages)
      × (exists_where (is_unread conversation reader) t.messages ≡ false)
      × (first_where (is_membership conversation reader) t.members ≡ some (all_read now m))
      × ((mark_read later conversation reader t).0 ≡ 0)
mark_read_lem now later conversation reader s m e =
    let p = is_membership conversation reader in
    let here = exists_of_first p p s.members m e (first_where-holds p s.members m e) in
    let (n, ms, us) = mark_read_open now conversation reader s here in
    let t = (mark_read now conversation reader s).1 in
    let row =
      ap (first_where p) us ∙ first-update_self p (all_read now) s.members m (λ x. refl) e in
    let gone =
      ap (exists_where (is_unread conversation reader)) ms
      ∙ no_unread now conversation reader s.messages in
    let again =
      mark_read_open later conversation reader t
        (exists_of_first p p t.members (all_read now m) row (first_where-holds p s.members m e)) in
    (n, gone, row, again.0 ∙ none_counted (is_unread conversation reader) t.messages gone)

abbrev reaction : ℕ → ℕ → Text → MessageReaction
reaction message user emoji = record { message = message; user = user; emoji = emoji }

module _ (message user : ℕ) (emoji : Text) where
  toggled_new :
      (rs : List MessageReaction)
      → exists_where (is_reaction message user emoji) rs ≡ false
      → toggled message user emoji rs ≡ (true, reaction message user emoji ∷ rs)
  unfolding toggled
  toggled_new rs h = rw (h, toggled) refl

  toggled_old :
      (rs : List MessageReaction)
      → exists_where (is_reaction message user emoji) rs ≡ true
      → toggled message user emoji rs ≡ (false, delete_where (is_reaction message user emoji) rs)
  unfolding toggled
  toggled_old rs h = rw (h, toggled) refl

  own : is_reaction message user emoji (reaction message user emoji) ≡ true
  unfolding is_reaction
  own = ground (arith, ==_refl message, ==_refl user, same_text_refl emoji)

  delete_absent :
      (rs : List MessageReaction)
      → exists_where (is_reaction message user emoji) rs ≡ false
      → delete_where (is_reaction message user emoji) rs ≡ rs
  unfolding exists_where delete_where
  delete_absent [] h = refl
  delete_absent (r ∷ rs) h = ground (arith, delete_absent rs)

  there :
      (rs : List MessageReaction)
      → exists_where (is_reaction message user emoji) (reaction message user emoji ∷ rs) ≡ true
  unfolding exists_where
  there rs = ground (arith, own)

  deleted :
      (rs : List MessageReaction)
      → exists_where (is_reaction message user emoji) rs ≡ false
      → delete_where (is_reaction message user emoji) (reaction message user emoji ∷ rs) ≡ rs
  unfolding delete_where
  deleted rs h = ground (arith, own, delete_absent rs h)

  -- A reaction given twice is taken back, and the reactions are what they were.
  pub toggled_twice :
      (rs : List MessageReaction)
      → exists_where (is_reaction message user emoji) rs ≡ false
      → let (r, us) = toggled message user emoji rs in
        (r ≡ true)
        × (exists_where (is_reaction message user emoji) us ≡ true)
        × (toggled message user emoji us ≡ (false, rs))
  toggled_twice rs h = rw (toggled_new rs h) (
    refl,
    there rs,
    toggled_old (reaction message user emoji ∷ rs) (there rs) ∙ ap (λ x. (false, x)) (deleted rs h),
  )
