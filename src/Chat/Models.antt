-- ===== src/Chat/Models.antt =====
-- The tables of apps/chat/models.py, with the tables of the services that chat calls.
use date_app.Common.{ℕ, Bool, Option, List, Text}
use date_app.Reports.Models.{Store as SafetyStore}
use date_app.Subscriptions.Models.{Store as SubscriptionsStore}

pub record Conversation : Type 0 where
  pub id : ℕ
  pub match_id : Option ℕ
  pub is_active : Bool
  pub last_message_at : Option ℕ
  pub last_message_preview : Text
  pub message_count : ℕ
  pub closed_at : Option ℕ
  pub close_reason : Text

pub record ConversationMember : Type 0 where
  pub conversation : ℕ
  pub user : ℕ
  pub unread_count : ℕ
  pub last_read_at : Option ℕ
  pub last_typed_at : Option ℕ
  pub is_muted : Bool
  pub is_archived : Bool
  pub left_at : Option ℕ

pub data MessageType : Type 0 where
  text image voice video document gif system : MessageType

-- A message; the uploads are their paths, and a reply names the message that it answers.
pub record Message : Type 0 where
  pub id : ℕ
  pub conversation : ℕ
  pub sender : ℕ
  pub kind : MessageType
  pub body : Text
  pub upload : Option Text
  pub document_name : Text
  pub gif_url : Text
  pub voice_duration_seconds : Option ℕ
  pub reply_to : Option ℕ
  pub is_read : Bool
  pub read_at : Option ℕ
  pub is_deleted : Bool
  pub created_at : ℕ

pub record MessageReaction : Type 0 where
  pub message : ℕ
  pub user : ℕ
  pub emoji : Text

pub data ChatEvent : Type 0 where
  conversation_started : ℕ → Option ℕ → List ℕ → ChatEvent
  message_sent : ℕ → ℕ → ℕ → ℕ → ChatEvent
  message_read : ℕ → ℕ → ℕ → ChatEvent

pub record Store : Type 0 where
  pub conversations : List Conversation
  pub members : List ConversationMember
  pub messages : List Message
  pub reactions : List MessageReaction
  pub events : List ChatEvent
  pub safety : SafetyStore
  pub subscriptions : SubscriptionsStore
