-- ===== src/Chat/Conversations.antt =====
-- ConversationService of apps/chat/services.py, and the handlers of apps/chat/signals.py.
use date_app.Common.{
  ℕ, Bool, true, false, not, ◌&&◌, ◌||◌, Option, none, some, List, [], ◌∷◌, ◌==◌, if◌then◌else◌,
  is_some, Text, take, first_where, filter_by, exists_where, update_where, Action, ok, ZynoraError,
  pure, gets, or_raise, atomic, ◌>>=◌, ◌>>◌, raise_if,
}
use date_app.Accounts.Lifecycle.{is_active_member}
use date_app.Reports.Blocks.{is_blocked_between}
use date_app.Chat.Models.{Conversation, ConversationMember, ChatEvent, Store}

abbrev pub is_conversation : ℕ → Conversation → Bool
is_conversation id c = c.id == id

abbrev pub has_match : ℕ → Conversation → Bool
has_match m c = elim c.match_id [ none ↦ false | some k ↦ k == m ]

abbrev pub is_membership : ℕ → ℕ → ConversationMember → Bool
is_membership conversation user m = m.conversation == conversation && m.user == user

abbrev pub takes_part : ℕ → ℕ → Store → Bool
takes_part conversation user s = exists_where (is_membership conversation user) s.members

-- `ConversationService.between`. The table is in the order in which its rows were made, the newest
-- first; where two members share several conversations, the source takes the one of the latest
-- message.
unfoldable pub between : ℕ → ℕ → Store → Option Conversation
between a b s = first_where (λ c. takes_part c.id a s && takes_part c.id b s) s.conversations

abbrev pub new_conversation : ℕ → Option ℕ → Conversation
new_conversation id match_id = record {
  id = id;
  match_id = match_id;
  is_active = true;
  last_message_at = none;
  last_message_preview = [];
  message_count = 0;
  closed_at = none;
  close_reason = [];
}

abbrev pub new_member : ℕ → ℕ → ConversationMember
new_member conversation user = record {
  conversation = conversation;
  user = user;
  unread_count = 0;
  last_read_at = none;
  last_typed_at = none;
  is_muted = false;
  is_archived = false;
  left_at = none;
}

-- The `get_or_create` of each membership.
unfoldable pub join_all : ℕ → List ℕ → List ConversationMember → List ConversationMember
join_all conversation [] ms = ms
join_all conversation (u ∷ us) ms =
    join_all conversation us (
      if exists_where (is_membership conversation u) ms then ms else new_member conversation u ∷ ms)

-- A new conversation with its members, and the event.
unfoldable pub opened : ℕ → Option ℕ → List ℕ → Store → Store
unfolding join_all
opened id match_id users s = record s {
  conversations = new_conversation id match_id ∷ s.conversations;
  members = join_all id users s.members;
  events = ChatEvent.conversation_started id match_id users ∷ s.events;
}

abbrev pub adopted : ℕ → Conversation → Conversation
adopted m c = record c { match_id = some m; is_active = true }

-- The conversation of two members that a new match may adopt.
unfoldable pub adoptable : List ℕ → Store → Option Conversation
unfolding between
adoptable (a ∷ b ∷ []) s = elim (between a b s) [
  | none ↦ none
  | some c ↦ elim c.match_id [ none ↦ some c | some m ↦ none ]
]
adoptable _ s = none

-- `ConversationService.get_or_create`: the conversation, and the tables.
unfoldable pub get_or_create : ℕ → ℕ → List ℕ → Store → Conversation × Store
unfolding adoptable opened
get_or_create id match_id users s = elim (first_where (has_match match_id) s.conversations) [
  | some c ↦ (c, s)
  | none ↦ elim (adoptable users s) [
    | some c ↦ (
      adopted match_id c,
      record s {
        conversations = update_where (is_conversation c.id) (adopted match_id) s.conversations;
      },
    )
    | none ↦ (new_conversation id (some match_id), opened id (some match_id) users s)
  ]
]

-- The answer of the reports service, whose cache it may fill.
unfoldable pub ask_blocked : ℕ → ℕ → ℕ → Action Store Bool
unfolding is_blocked_between
ask_blocked now a b s =
    let (r, t) = is_blocked_between now a b s.safety in (ok r, record s { safety = t })

-- `ConversationService.assert_can_chat`
unfoldable pub assert_can_chat : ℕ → ℕ → ℕ → Action Store (Unit {0})
unfolding is_active_member ask_blocked
assert_can_chat now viewer target = do
  raise_if (viewer == target) (ZynoraError.validation_error "You cannot message yourself.")
  active ← gets (λ s. is_active_member target s.safety.accounts)
  raise_if (not active) (ZynoraError.not_found "That member is no longer available.")
  blocked ← ask_blocked now viewer target
  raise_if blocked (ZynoraError.permission_denied "You cannot message this person.")

abbrev pub rejoined : ConversationMember → ConversationMember
rejoined m = record m { left_at = none; is_archived = false }

-- The conversation of two members, rejoined, or a new one.
unfoldable pub find_or_open : ℕ → ℕ → ℕ → Store → Conversation × Store
unfolding between opened
find_or_open id viewer target s = elim (between viewer target s) [
  | some c ↦ (c, record s { members = update_where (is_membership c.id viewer) rejoined s.members })
  | none ↦ (new_conversation id none, opened id none (viewer ∷ target ∷ []) s)
]

-- `ConversationService.open_with`
unfoldable pub open_with : ℕ → ℕ → ℕ → ℕ → Action Store Conversation
unfolding assert_can_chat find_or_open
open_with now id viewer target = atomic do
  assert_can_chat now viewer target
  λ s. let (c, t) = find_or_open id viewer target s in (ok c, t)

abbrev pub is_present : ℕ → ℕ → ConversationMember → Bool
is_present conversation user m = is_membership conversation user m && not (is_some m.left_at)

-- `ConversationService.get_for_user`
unfoldable pub get_for_user : ℕ → ℕ → Action Store Conversation
get_for_user conversation user = do
  c ←
      or_raise (← gets (λ s. first_where (is_conversation conversation) s.conversations))
        (ZynoraError.not_found "Conversation not found.")
  present ← gets (λ s. exists_where (is_present conversation user) s.members)
  raise_if (not present) (ZynoraError.permission_denied "You are not part of this conversation.")
  pure c

-- `ConversationService.list_for_user`, in the order of the table.
unfoldable pub list_for_user : ℕ → Bool → Store → List Conversation
list_for_user user include_archived s =
    filter_by
      (λ c.
        c.is_active
        && exists_where (λ m. is_present c.id user m && (include_archived || not m.is_archived))
            s.members)
      s.conversations

-- `ConversationService.set_typing`, `archive` and `mute`
abbrev pub on_membership : ℕ → ℕ → (ConversationMember → ConversationMember) → Store → Store
on_membership conversation user f s = record s {
  members = update_where (is_membership conversation user) f s.members;
}

unfoldable pub set_typing : ℕ → ℕ → ℕ → Bool → Store → Store
set_typing now conversation user is_typing s =
    on_membership conversation user
      (λ m. record m { last_typed_at = if is_typing then some now else none }) s

unfoldable pub archive : ℕ → ℕ → Bool → Store → Store
archive conversation user archived s =
    on_membership conversation user (λ m. record m { is_archived = archived }) s

unfoldable pub mute : ℕ → ℕ → Bool → Store → Store
mute conversation user muted s =
    on_membership conversation user (λ m. record m { is_muted = muted }) s

abbrev pub closed : ℕ → Text → Conversation → Conversation
closed now reason c = record c {
  is_active = false;
  closed_at = some now;
  close_reason = take 140 reason;
}

-- `ConversationService.close`
unfoldable pub close : ℕ → ℕ → Text → Store → Store
close now conversation reason s = record s {
  conversations = update_where (is_conversation conversation) (closed now reason) s.conversations;
}

-- `ConversationService.close_for_match`
unfoldable pub close_for_match : ℕ → ℕ → Text → Store → Store
close_for_match now match_id reason s = record s {
  conversations = update_where (has_match match_id) (closed now reason) s.conversations;
}

-- The handler `close_all_conversations`.
unfoldable pub close_all_conversations : ℕ → Store → Store
close_all_conversations user s = record s {
  conversations =
      update_where (λ c. takes_part c.id user s) (λ c. record c { is_active = false })
        s.conversations;
}
