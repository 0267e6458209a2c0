-- ===== src/Chat/Messages.antt =====
-- Sending in MessageService of apps/chat/services.py. The screening's
-- regular expressions are the section's parameters, as in Moderation/Screening.
use date_app.Common.{
  ℕ, ◌+◌, Bool, false, not, ◌&&◌, Option, none, some, List, ◌∷◌, ◌==◌, if◌then◌else◌, Text, codes,
  is_empty, take, first_where, update_where, Action, ok, ZynoraError, pure, raise, gets, or_raise,
  atomic, ◌>>=◌, ◌>>◌, raise_if, modify, strip,
}
use date_app.Moderation.Models.{BannedTerm}
use date_app.Moderation.Screening.{screen}
use date_app.Subscriptions.Gates.{can_send_message}
use date_app.Chat.Models.{Conversation, ConversationMember, MessageType, Message, ChatEvent, Store}
use date_app.Chat.Conversations.{is_conversation, is_membership, get_for_user, ask_blocked}

-- The arguments of `MessageService.send`; a document's name goes with its path.
pub record Draft : Type 0 where
  pub sender : ℕ
  pub conversation : ℕ
  pub body : Text
  pub kind : MessageType
  pub upload : Option Text
  pub document_name : Text
  pub gif_url : Text
  pub voice_duration_seconds : Option ℕ
  pub reply_to : Option ℕ

-- `MessageService.preview_for`
unfoldable pub preview_for : Message → Text
preview_for m = elim m.kind [
  | MessageType.text ↦ take 140 m.body
  | MessageType.image ↦ codes "Photo"
  | MessageType.voice ↦ codes "Voice note"
  | MessageType.video ↦ codes "Video"
  | MessageType.document ↦ if is_empty m.document_name then codes "Document" else m.document_name
  | MessageType.gif ↦ codes "GIF"
  | MessageType.system ↦ take 140 m.body
]

abbrev pub new_message : ℕ → ℕ → Draft → Text → Message
new_message now id d body = record {
  id = id;
  conversation = d.conversation;
  sender = d.sender;
  kind = d.kind;
  body = body;
  upload = d.upload;
  document_name = take 255 d.document_name;
  gif_url = d.gif_url;
  voice_duration_seconds = d.voice_duration_seconds;
  reply_to = d.reply_to;
  is_read = false;
  read_at = none;
  is_deleted = false;
  created_at = now;
}

-- The row of the conversation after a message.
unfoldable pub bumped : Message → Conversation → Conversation
unfolding preview_for
bumped m c = record c {
  last_message_at = some m.created_at;
  last_message_preview = preview_for m;
  message_count = c.message_count + 1;
}

-- The members of a conversation other than one.
abbrev pub is_other : ℕ → ℕ → ConversationMember → Bool
is_other conversation user m = m.conversation == conversation && not (m.user == user)

abbrev pub one_unread : ConversationMember → ConversationMember
one_unread m = record m { unread_count = m.unread_count + 1 }

abbrev pub read_now : ℕ → ConversationMember → ConversationMember
read_now now m = record m { last_read_at = some now }

-- What `send` writes once the message may go.
unfoldable pub delivered : ℕ → Message → ℕ → Store → Store
unfolding bumped
delivered now m receiver s = record s {
  messages = m ∷ s.messages;
  conversations = update_where (is_conversation m.conversation) (bumped m) s.conversations;
  members =
      update_where (is_membership m.conversation m.sender) (read_now now)
        (update_where (is_other m.conversation m.sender) one_unread s.members);
  events = ChatEvent.message_sent m.id m.conversation m.sender receiver ∷ s.events;
}

-- The daily allowance of the sender's plan.
unfoldable pub spend_message : ℕ → ℕ → ℕ → Action Store Bool
unfolding can_send_message
spend_message now day user s =
    let (r, t) = can_send_message now day user s.subscriptions in
    (ok r, record s { subscriptions = t })

module _ (search : Text → Text → Bool) (escape : Text → Text)
    (sub : Text → Text → Text → Text) where
  -- The verdict of the moderation service on a text: the clean text, unless it is blocked.
  unfoldable pub screened : ℕ → Text → Option (List BannedTerm) → ℕ → Text → Action Store Text
  unfolding screen
  screened now today cached sender body s =
      let (v, t) =
        screen search escape sub now today cached body (some sender) s.safety.moderation in
      let s' = record s { safety = record s.safety { moderation = t } } in
      if v.blocked
      then raise (ZynoraError.moderation_blocked "That message was blocked by our safety filters.")
          s'
      else (ok v.clean_text, s')

  -- The body as it is stored: only a text is stripped and screened.
  unfoldable pub prepared : ℕ → Text → Option (List BannedTerm) → Draft → Action Store Text
  unfolding screened strip
  prepared now today cached d = elim d.kind as (λ _. Action Store Text) [
    | MessageType.text ↦ do
      raise_if (is_empty (strip d.body)) (ZynoraError.validation_error "Write something first.")
      screened now today cached d.sender (strip d.body)
    | _ ↦ pure d.body
  ]

  -- `MessageService.send` after it has found the other member.
  unfoldable pub send_to :
      ℕ
      → Text
      → ℕ
      → ℕ
      → Option (List BannedTerm)
      → Draft
      → ConversationMember
      → Action Store Message
  unfolding prepared ask_blocked spend_message delivered
  send_to now today day id cached d other = do
    blocked ← ask_blocked now d.sender other.user
    raise_if blocked (ZynoraError.permission_denied "You cannot message this person.")
    body ← prepared now today cached d
    may_send ← spend_message now day d.sender
    raise_if (not may_send) (
        ZynoraError.quota_exceeded
          "You've reached your daily message limit. Upgrade to keep chatting.")
    modify (delivered now (new_message now id d body) other.user)
    pure (new_message now id d body)

  -- `MessageService.send`
  unfoldable pub send : ℕ → Text → ℕ → ℕ → Option (List BannedTerm) → Draft → Action Store Message
  unfolding get_for_user send_to
  send now today day id cached d = atomic do
    c ← get_for_user d.conversation d.sender
    raise_if (not c.is_active) (ZynoraError.validation_error "This conversation is closed.")
    other ←
        or_raise (← gets (λ s. first_where (is_other d.conversation d.sender) s.members))
          (ZynoraError.validation_error "There is nobody to message.")
    send_to now today day id cached d other
