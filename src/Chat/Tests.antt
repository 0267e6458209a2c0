-- ===== src/Chat/Tests.antt =====
-- The theorems on chat, at small tables.
use date_app.Common.{
  ◌+◌, ◌≡◌, refl, inr, true, false, none, some, List, [], ◌∷◌, codes, first_where, filter_by,
  exists_where, Result, ok, err, ZynoraError, strip,
}
use date_app.Moderation.Models.{TermAction, Severity, BannedTerm}
use date_app.Moderation.Screening.{contains, risk_patterns}
use date_app.Reports.Models.{Block}
use date_app.Reports.Blocks.{new_block}
use date_app.Chat.Models.{Conversation, ConversationMember, MessageType, Message, Store}
use date_app.Chat.Conversations.{
  is_conversation, is_membership, new_conversation, new_member, ask_blocked, find_or_open,
}
use date_app.Chat.Messages.{Draft, preview_for, new_message, spend_message, prepared, send}
use date_app.Chat.Threads.{open_twice}
use date_app.Chat.Sending.{send_between_blocked}
use date_app.Chat.Delivery.{send_delivers}

abbrev thread : Conversation
thread = new_conversation 1 (some 6)

abbrev draft : Draft
draft = record {
  sender = 4;
  conversation = 1;
  body = codes " cash ";
  kind = MessageType.text;
  upload = none;
  document_name = [];
  gif_url = [];
  voice_duration_seconds = none;
  reply_to = none;
}

abbrev banned : BannedTerm
banned = record {
  id = 1;
  term = codes "cash";
  action = TermAction.block;
  severity = Severity.high;
  is_regex = false;
  is_active = true;
  hit_count = 0;
}

abbrev table : List Block → Store
table ks = record {
  conversations = thread ∷ [];
  members = new_member 1 4 ∷ record (new_member 1 9) { unread_count = 1 } ∷ [];
  messages = new_message 5 1 draft (codes "hello") ∷ [];
  reactions = [];
  events = [];
  safety = record {
    blocks = ks;
    cache = [];
    reports = [];
    events = [];
    accounts = record { users = []; devices = []; events = [] };
    moderation = record { terms = banned ∷ []; cases = []; scores = []; events = [] };
  };
  subscriptions = record {
    plans = [];
    subscriptions = [];
    coupons = [];
    redemptions = [];
    entitlements = [];
    limits = [];
    messages = [];
    events = [];
  };
}

abbrev sent : Store → Result Message × Store
sent s = send contains (λ t. t) (λ p r t. t) 50 [] 1 2 none draft s

send_between_blocked_example : sent (table (new_block 9 4 [] false ∷ [])) ≡ (
  err (ZynoraError.permission_denied "You cannot message this person."),
  table (new_block 9 4 [] false ∷ []),
)
unfolding first_where exists_where
send_between_blocked_example =
    send_between_blocked contains (λ t. t) (λ p r t. t) 50 [] 1 2 none draft
      (table (new_block 9 4 [] false ∷ [])) thread (record (new_member 1 9) { unread_count = 1 })
      refl refl refl refl tt refl

open_twice_example :
    let (c, t) = find_or_open 3 4 7 (table []) in
    ((find_or_open 8 4 7 t).0 ≡ c)
    × ((find_or_open 8 7 4 t).0 ≡ c)
    × ((find_or_open 8 7 4 t).1.conversations ≡ t.conversations)
open_twice_example = open_twice 3 8 4 7 (table [])

stripped : strip (codes " cash ") ≡ codes "cash"
unfolding strip
stripped = refl

abbrev hello : Draft
hello = record draft { body = codes "hello" }

abbrev friend : ConversationMember
friend = record (new_member 1 9) { unread_count = 1 }

send_delivers_example :
    let (r, w) = send contains (λ t. t) (λ p r t. t) 50 [] 1 2 none hello (table []) in
    (m : Message) × (r ≡ ok m)
    × (m.conversation ≡ 1)
    × (m.sender ≡ 4)
    × (m.kind ≡ MessageType.text)
    × (m.body ≡ codes "hello")
    × (w.messages ≡ m ∷ (table []).messages)
    × ((k : Conversation) × (first_where (is_conversation 1) w.conversations ≡ some k)
        × (k.message_count ≡ thread.message_count + 1)
        × (k.last_message_at ≡ some 50)
        × (k.last_message_preview ≡ preview_for m))
    × ((o : ConversationMember) × (first_where (is_membership 1 9) w.members ≡ some o)
        × (o.unread_count ≡ 1 + 1))
unfolding first_where exists_where ask_blocked prepared spend_message filter_by risk_patterns
send_delivers_example =
    send_delivers contains (λ t. t) (λ p r t. t) 50 [] 1 2 none hello (table []) thread friend
      (codes "hello") refl refl refl refl tt refl (inr (refl, refl, refl, refl)) refl
