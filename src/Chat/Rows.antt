-- ===== src/Chat/Rows.antt =====
-- What the checks of `send` of apps/chat/services.py leave alone: the chat's own rows.
use date_app.Common.{
  ℕ, ◌≡◌, refl, sym, ap, ◌∙◌, inl, inr, Bool, Option, some, List, Bool-cases, Text, Action, ok,
}
use date_app.Common.Calls.Keeps.{Keeps, keeps_rules}
use date_app.Moderation.Models.{BannedTerm}
use date_app.Moderation.Screening.{screen}
use date_app.Chat.Models.{Conversation, ConversationMember, MessageType, Message, Store}
use date_app.Chat.Conversations.{ask_blocked}
use date_app.Chat.Messages.{Draft, spend_message, screened, prepared}

-- The chat's own rows.
abbrev pub Rows : Type 0
Rows = List Conversation × List ConversationMember × List Message

abbrev pub rows : Store → Rows
rows s = (s.conversations, s.members, s.messages)

abbrev pub Same : Rows → Store → Type 0
Same r s = rows s ≡ r

pub ask-Keeps : (now a b : ℕ) (r : Rows) → Keeps (Same r) (ask_blocked now a b)
unfolding ask_blocked
ask-Keeps now a b r = record { at = λ s h. h }

pub spend-Keeps : (now day user : ℕ) (r : Rows) → Keeps (Same r) (spend_message now day user)
unfolding spend_message
spend-Keeps now day user r = record { at = λ s h. h }

module _ (re_search : Text → Text → Bool) (escape : Text → Text) (sub : Text → Text → Text → Text)
    (now : ℕ) (today : Text) (cached : Option (List BannedTerm)) (r : Rows) where
  screened-Keeps :
      (sender : ℕ) (body : Text)
      → Keeps (Same r) (screened re_search escape sub now today cached sender body)
  unfolding screened
  screened-Keeps sender body = record {
    at = λ s h.
        elim (Bool-cases
          (screen re_search escape sub now today cached body (some sender)
            s.safety.moderation).0.blocked) [
              | inl e ↦ rw (e, screened) h
              | inr e ↦ rw (e, screened) h
            ];
  }

  kind-Keeps :
      (d : Draft) (k : MessageType)
      → d.kind ≡ k
      → Keeps (Same r) (prepared re_search escape sub now today cached d)
  unfolding prepared
  kind-Keeps d MessageType.text e = rw (e, prepared) (search (keeps_rules, screened-Keeps) depth 6)
  kind-Keeps d MessageType.image e = rw (e, prepared) (search (keeps_rules) depth 3)
  kind-Keeps d MessageType.voice e = rw (e, prepared) (search (keeps_rules) depth 3)
  kind-Keeps d MessageType.video e = rw (e, prepared) (search (keeps_rules) depth 3)
  kind-Keeps d MessageType.document e = rw (e, prepared) (search (keeps_rules) depth 3)
  kind-Keeps d MessageType.gif e = rw (e, prepared) (search (keeps_rules) depth 3)
  kind-Keeps d MessageType.system e = rw (e, prepared) (search (keeps_rules) depth 3)

  pub prepared-Keeps :
      (d : Draft) → Keeps (Same r) (prepared re_search escape sub now today cached d)
  prepared-Keeps d = kind-Keeps d d.kind refl

pub kept :
    {A : Type 0} (m : Action Store A) (s t : Store) (a : A)
    → Keeps (Same (rows s)) m
    → m s ≡ (ok a, t)
    → rows t ≡ rows s
kept m s t a k e = sym (ap (λ x. rows x.1) e) ∙ k.at s refl
