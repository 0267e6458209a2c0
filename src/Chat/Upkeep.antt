-- ===== src/Chat/Upkeep.antt =====
-- `mark_read` of ConversationService, and `delete` and `react` of MessageService, of
-- apps/chat/services.py.
use date_app.Common.{
  ℕ, Bool, true, false, not, ◌&&◌, some, List, ◌∷◌, ◌==◌, if◌then◌else◌, Text, take, first_where,
  exists_where, count_where, update_where, delete_where, Action, ok, ZynoraError, pure, gets,
  or_raise, ◌>>=◌, ◌>>◌, modify, same_text,
}
use date_app.Chat.Models.{ConversationMember, Message, MessageReaction, ChatEvent, Store}
use date_app.Chat.Conversations.{is_membership, takes_part, get_for_user}

abbrev pub is_unread : ℕ → ℕ → Message → Bool
is_unread conversation reader m =
    m.conversation == conversation && not m.is_read && not m.is_deleted && not (m.sender == reader)

abbrev pub read_message : ℕ → Message → Message
read_message now m = record m { is_read = true; read_at = some now }

abbrev pub all_read : ℕ → ConversationMember → ConversationMember
all_read now m = record m { unread_count = 0; last_read_at = some now }

-- `ConversationService.mark_read`: the number of messages that it has marked.
unfoldable pub mark_read : ℕ → ℕ → ℕ → Store → ℕ × Store
mark_read now conversation reader s =
    let n = count_where (is_unread conversation reader) s.messages in
    if takes_part conversation reader s
    then (
      n,
      record s {
        messages = update_where (is_unread conversation reader) (read_message now) s.messages;
        members = update_where (is_membership conversation reader) (all_read now) s.members;
        events =
            if n == 0 then s.events else ChatEvent.message_read conversation reader n ∷ s.events;
      },
    )
    else (0, s)

-- The messages that the default manager shows.
abbrev pub is_message : ℕ → Message → Bool
is_message id m = m.id == id && not m.is_deleted

-- `MessageService.delete`
unfoldable pub delete : ℕ → ℕ → Action Store Bool
delete user id = do
  m ←
      or_raise (← gets (λ s. first_where (λ m. is_message id m && m.sender == user) s.messages))
        (ZynoraError.not_found "Message not found.")
  modify λ s. record s {
    messages = update_where (λ x. x.id == m.id) (λ x. record x { is_deleted = true }) s.messages;
  }
  pure true

unfoldable pub is_reaction : ℕ → ℕ → Text → MessageReaction → Bool
unfolding same_text
is_reaction message user emoji r = r.message == message && r.user == user && same_text r.emoji emoji

-- A reaction that is there is taken away, and one that is not is added.
unfoldable pub toggled : ℕ → ℕ → Text → List MessageReaction → Bool × List MessageReaction
unfolding is_reaction
toggled message user emoji rs =
    if exists_where (is_reaction message user emoji) rs
    then (false, delete_where (is_reaction message user emoji) rs)
    else (true, record { message = message; user = user; emoji = emoji } ∷ rs)

-- `MessageService.react`
unfoldable pub react : ℕ → ℕ → Text → Action Store Bool
unfolding get_for_user toggled
react user id emoji = do
  m ←
      or_raise (← gets (λ s. first_where (is_message id) s.messages))
        (ZynoraError.not_found "Message not found.")
  get_for_user m.conversation user
  λ s.
      let (created, rs) = toggled m.id user (take 8 emoji) s.reactions in
      (ok created, record s { reactions = rs })
