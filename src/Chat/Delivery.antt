-- ===== src/Chat/Delivery.antt =====
-- What a message that goes through writes: `send` of apps/chat/services.py.
use date_app.Common.{
  ℕ, ◌+◌, ◌≡◌, refl, sym, ap, subst, ◌∙◌, Bool, true, false, Option, some, List, [], ◌∷◌, arith,
  ==_refl, Text, first_where, exists_where, update_where, first_where-holds, first-update_self,
  first-update_found, first-update_other, ok, atomic,
}
use date_app.Moderation.Models.{BannedTerm}
use date_app.Chat.Models.{Conversation, ConversationMember, Message, Store}
use date_app.Chat.Conversations.{is_conversation, is_membership, is_present, ask_blocked}
use date_app.Chat.Messages.{
  Draft, preview_for, new_message, bumped, is_other, one_unread, read_now, delivered, spend_message,
  prepared, send_to, send,
}
use date_app.Chat.Sending.{send_found}
use date_app.Subscriptions.Gates.{can_send_message}
use date_app.Reports.Blocks.{is_between}
use date_app.Reports.Coherence.{IsCoherent}
use date_app.Chat.Rows.{rows, ask-Keeps, spend-Keeps, prepared-Keeps, kept}
use date_app.Chat.Allowed.{IsReadable, prepared_readable, asked_free, spent}

-- The first row that meets a test is the first that meets a narrower one, if it meets it.
first_narrow :
    (p q : ConversationMember → Bool) (xs : List ConversationMember) (a : ConversationMember)
    → ((x : ConversationMember) → q x ≡ true → p x ≡ true)
    → first_where p xs ≡ some a
    → q a ≡ true
    → first_where q xs ≡ some a
unfolding first_where
first_narrow p q [] a h e t = cc
first_narrow p q (x ∷ xs) a h e t = ground (arith, h x, first_narrow p q xs a h)

module _ (now : ℕ) (m : Message) (s : Store) where
  abbrev posted : ℕ → Store
  posted receiver = delivered now m receiver s

  bumped_id :
      (c : Conversation)
      → is_conversation m.conversation (bumped m c) ≡ is_conversation m.conversation c
  unfolding bumped
  bumped_id c = refl

  delivered_conversation :
      (receiver : ℕ) (c : Conversation)
      → first_where (is_conversation m.conversation) s.conversations ≡ some c
      → first_where (is_conversation m.conversation) (posted receiver).conversations
        ≡ some (bumped m c)
  unfolding delivered
  delivered_conversation receiver c e =
      first-update_self (is_conversation m.conversation) (bumped m) s.conversations c bumped_id e

  delivered_member :
      (receiver : ℕ) (other : ConversationMember)
      → first_where (is_other m.conversation m.sender) s.members ≡ some other
      → first_where (is_membership m.conversation other.user) (posted receiver).members
        ≡ some (one_unread other)
  unfolding delivered
  delivered_member receiver other e =
      let q = is_membership m.conversation other.user in
      let h = first_where-holds (is_other m.conversation m.sender) s.members other e in
      let row =
        first_narrow (is_other m.conversation m.sender) q s.members other (λ x k. ground arith) e
          (ground (arith, ==_refl other.user)) in
      first-update_other q (is_membership m.conversation m.sender) (read_now now)
        (update_where (is_other m.conversation m.sender) one_unread s.members) (λ x. refl)
        (λ x k. ground arith)
      ∙ first-update_found q (is_other m.conversation m.sender) one_unread s.members other
          (λ x. refl) row h

newest :
    (now : ℕ) (m : Message) (s : Store) (receiver : ℕ)
    → (delivered now m receiver s).messages ≡ m ∷ s.messages
unfolding delivered
newest now m s receiver = refl

sent_to :
    (re_search : Text → Text → Bool) (escape : Text → Text) (sub : Text → Text → Text → Text)
    (now : ℕ) (today : Text) (day id : ℕ) (cached : Option (List BannedTerm)) (d : Draft)
    (s : Store) (other : ConversationMember) (body : Text) (t u v : Store)
    → ask_blocked now d.sender other.user s ≡ (ok false, t)
    → prepared re_search escape sub now today cached d t ≡ (ok body, u)
    → spend_message now day d.sender u ≡ (ok true, v)
    → atomic (send_to re_search escape sub now today day id cached d other) s
      ≡ (ok (new_message now id d body), delivered now (new_message now id d body) other.user v)
unfolding send_to
sent_to re_search escape sub now today day id cached d s other body t u v h k n =
    ground (arith, h, k, n)

delivers :
    (re_search : Text → Text → Bool) (escape : Text → Text) (sub : Text → Text → Text → Text)
    (now : ℕ) (today : Text) (day id : ℕ) (cached : Option (List BannedTerm)) (d : Draft)
    (s : Store) (c : Conversation) (other : ConversationMember) (body : Text) (t u v : Store)
    → first_where (is_conversation d.conversation) s.conversations ≡ some c
    → exists_where (is_present d.conversation d.sender) s.members ≡ true
    → c.is_active ≡ true
    → first_where (is_other d.conversation d.sender) s.members ≡ some other
    → ask_blocked now d.sender other.user s ≡ (ok false, t)
    → prepared re_search escape sub now today cached d t ≡ (ok body, u)
    → spend_message now day d.sender u ≡ (ok true, v)
    → let m = new_message now id d body in
      let (r, w) = send re_search escape sub now today day id cached d s in
      (r ≡ ok m)
      × (w.messages ≡ m ∷ s.messages)
      × (first_where (is_conversation d.conversation) w.conversations ≡ some (bumped m c))
      × (first_where (is_membership d.conversation other.user) w.members ≡ some (one_unread other))
delivers re_search escape sub now today day id cached d s c other body t u v f p a r h k n =
    let m = new_message now id d body in
    let same =
      kept (spend_message now day d.sender) u v true (spend-Keeps now day d.sender (rows u)) n
      ∙ kept (prepared re_search escape sub now today cached d) t u body
          (prepared-Keeps re_search escape sub now today cached (rows t) d) k
      ∙ kept (ask_blocked now d.sender other.user) s t false
          (ask-Keeps now d.sender other.user (rows s)) h in
    rw
      (send_found re_search escape sub now today day id cached d s c other f p a r
        ∙ sent_to re_search escape sub now today day id cached d s other body t u v h k n)
      (
        refl,
        newest now m v other.user ∙ ap (λ x. m ∷ x.2) same,
        delivered_conversation now m v other.user c
            (ap (λ x. first_where (is_conversation d.conversation) x.0) same ∙ f),
        delivered_member now m v other.user other
            (ap (λ x. first_where (is_other d.conversation d.sender) x.1) same ∙ r),
      )

-- In an active conversation with another member, where neither of the two blocks the other and every
-- cached answer on blocks is the table's, a present member whose draft is readable (a text that is
-- not empty and passes the screening, or anything that is not a text) and whose plan allows a message
-- sends it: a message with that body is the newest; its conversation counts one more, and shows its
-- time and its preview; and the other member has one more unread.
pub send_delivers :
    (re_search : Text → Text → Bool) (escape : Text → Text) (sub : Text → Text → Text → Text)
    (now : ℕ) (today : Text) (day id : ℕ) (cached : Option (List BannedTerm)) (d : Draft)
    (s : Store) (c : Conversation) (other : ConversationMember) (body : Text)
    → first_where (is_conversation d.conversation) s.conversations ≡ some c
    → exists_where (is_present d.conversation d.sender) s.members ≡ true
    → c.is_active ≡ true
    → first_where (is_other d.conversation d.sender) s.members ≡ some other
    → IsCoherent s.safety
    → exists_where (is_between d.sender other.user) s.safety.blocks ≡ false
    → IsReadable re_search escape sub now today cached d s.safety.moderation body
    → (can_send_message now day d.sender s.subscriptions).0 ≡ true
    → let (r, w) = send re_search escape sub now today day id cached d s in
      (m : Message) × (r ≡ ok m)
      × (m.conversation ≡ d.conversation)
      × (m.sender ≡ d.sender)
      × (m.kind ≡ d.kind)
      × (m.body ≡ body)
      × (w.messages ≡ m ∷ s.messages)
      × ((k : Conversation) × (first_where (is_conversation d.conversation) w.conversations
            ≡ some k)
          × (k.message_count ≡ c.message_count + 1)
          × (k.last_message_at ≡ some now)
          × (k.last_message_preview ≡ preview_for m))
      × ((o : ConversationMember) × (first_where (is_membership d.conversation other.user) w.members
            ≡ some o)
          × (o.unread_count ≡ other.unread_count + 1))
unfolding bumped
send_delivers re_search escape sub now today day id cached d s c other body f p a r h free readable
      allowed =
    let (t, asked, same, plan) = asked_free now d.sender other.user s h free in
    let read =
      subst (λ m. IsReadable re_search escape sub now today cached d m body) (sym same) readable in
    let (u, ready, left) = prepared_readable re_search escape sub now today cached d body t read in
    let pays = ap (λ x. (can_send_message now day d.sender x).0) (left ∙ plan) ∙ allowed in
    let (v, paid) = spent now day d.sender u pays in
    let m = new_message now id d body in
    let (e, ms, cs, os) =
      delivers re_search escape sub now today day id cached d s c other body t u v f p a r asked
        ready paid in
    (
      m,
      e,
      refl,
      refl,
      refl,
      refl,
      ms,
      (bumped m c, cs, refl, refl, refl),
      (one_unread other, os, refl),
    )
