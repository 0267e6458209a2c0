-- ===== src/Chat/Sending.antt =====
-- Sending a message: `send` of apps/chat/services.py.
use date_app.Common.{
  ℕ, ◌≡◌, refl, ap, ◌∙◌, Bool, true, false, Option, some, List, arith, Text, is_empty, first_where,
  exists_where, Action, ok, err, ZynoraError, atomic, strip,
}
use date_app.Moderation.Models.{BannedTerm, Store as ModerationStore}
use date_app.Moderation.Screening.{screen, Verdict}
use date_app.Reports.Blocks.{is_blocked_between, is_between}
use date_app.Reports.Coherence.{IsCoherent, is_blocked_between_lem}
use date_app.Chat.Models.{Conversation, ConversationMember, MessageType, Store}
use date_app.Chat.Conversations.{is_conversation, is_present, get_for_user, ask_blocked}
use date_app.Chat.Messages.{Draft, is_other, screened, prepared, send_to, send}

atomic_err :
    {A : Type 0} (m : Action Store A) (s t : Store) (e : ZynoraError)
    → m s ≡ (err e, t)
    → atomic m s ≡ (err e, s)
atomic_err m s t e h = ground (arith, h)

-- The answer of the reports service is that of its table.
ask_blocked_lem :
    (now a b : ℕ) (s : Store)
    → IsCoherent s.safety
    → (t : Store) × (ask_blocked now a b s
        ≡ (ok (exists_where (is_between a b) s.safety.blocks), t))
unfolding ask_blocked
ask_blocked_lem now a b s h =
    let t = record s { safety = (is_blocked_between now a b s.safety).1 } in
    (t, ap (λ x. (ok x, t)) (is_blocked_between_lem now a b s.safety h).0)

module _ (search : Text → Text → Bool) (escape : Text → Text) (sub : Text → Text → Text → Text)
    (now : ℕ) (today : Text) (day id : ℕ) (cached : Option (List BannedTerm)) (d : Draft)
    (s : Store) where
  pub send_found :
      (c : Conversation) (other : ConversationMember)
      → first_where (is_conversation d.conversation) s.conversations ≡ some c
      → exists_where (is_present d.conversation d.sender) s.members ≡ true
      → c.is_active ≡ true
      → first_where (is_other d.conversation d.sender) s.members ≡ some other
      → send search escape sub now today day id cached d s
        ≡ atomic (send_to search escape sub now today day id cached d other) s
  unfolding send get_for_user
  send_found c other f p a r = ground (arith, f, p, a, r)

  pub send_closed :
      (c : Conversation)
      → first_where (is_conversation d.conversation) s.conversations ≡ some c
      → exists_where (is_present d.conversation d.sender) s.members ≡ true
      → c.is_active ≡ false
      → send search escape sub now today day id cached d s
        ≡ (err (ZynoraError.validation_error "This conversation is closed."), s)
  unfolding send get_for_user
  send_closed c f p a = ground (arith, f, p, a)

  send_to_refused :
      (other : ConversationMember) (t : Store)
      → ask_blocked now d.sender other.user s ≡ (ok true, t)
      → send_to search escape sub now today day id cached d other s
        ≡ (err (ZynoraError.permission_denied "You cannot message this person."), t)
  unfolding send_to
  send_to_refused other t h = ground (arith, h)

  -- Where either of the two members blocks the other, and every cached answer on blocks is the
  -- table's, a member who is present in an active conversation cannot send to the other, and
  -- nothing is written.
  pub send_between_blocked :
      (c : Conversation) (other : ConversationMember)
      → first_where (is_conversation d.conversation) s.conversations ≡ some c
      → exists_where (is_present d.conversation d.sender) s.members ≡ true
      → c.is_active ≡ true
      → first_where (is_other d.conversation d.sender) s.members ≡ some other
      → IsCoherent s.safety
      → exists_where (is_between d.sender other.user) s.safety.blocks ≡ true
      → send search escape sub now today day id cached d s
        ≡ (err (ZynoraError.permission_denied "You cannot message this person."), s)
  send_between_blocked c other f p a r h b =
      let (t, e) = ask_blocked_lem now d.sender other.user s h in
      send_found c other f p a r
      ∙ atomic_err (send_to search escape sub now today day id cached d other) s t _
          (send_to_refused other t (e ∙ ap (λ x. (ok x, t)) b))

  abbrev pub verdict : ModerationStore → Verdict × ModerationStore
  verdict m = screen search escape sub now today cached (strip d.body) (some d.sender) m

  screened_blocked :
      (t : Store)
      → (verdict t.safety.moderation).0.blocked ≡ true
      → screened search escape sub now today cached d.sender (strip d.body) t ≡ (
        err (ZynoraError.moderation_blocked "That message was blocked by our safety filters."),
        record t { safety = record t.safety { moderation = (verdict t.safety.moderation).1 } },
      )
  unfolding screened
  screened_blocked t h = rw (h, screened) refl

  send_to_screened :
      (other : ConversationMember) (t : Store)
      → ask_blocked now d.sender other.user s ≡ (ok false, t)
      → d.kind ≡ MessageType.text
      → is_empty (strip d.body) ≡ false
      → (verdict t.safety.moderation).0.blocked ≡ true
      → send_to search escape sub now today day id cached d other s ≡ (
        err (ZynoraError.moderation_blocked "That message was blocked by our safety filters."),
        record t { safety = record t.safety { moderation = (verdict t.safety.moderation).1 } },
      )
  unfolding send_to prepared
  send_to_screened other t h k n v = ground (arith, h, k, n, screened_blocked t v)

  -- Where a present member of an active conversation is not blocked, a text that is not empty and
  -- that the screening blocks is not sent, and nothing is written: the penalty that the screening
  -- has just given the sender, and the counters of the terms, are taken back with the rest of the
  -- call.
  send_forgives :
      (c : Conversation) (other : ConversationMember) (t : Store)
      → first_where (is_conversation d.conversation) s.conversations ≡ some c
      → exists_where (is_present d.conversation d.sender) s.members ≡ true
      → c.is_active ≡ true
      → first_where (is_other d.conversation d.sender) s.members ≡ some other
      → ask_blocked now d.sender other.user s ≡ (ok false, t)
      → d.kind ≡ MessageType.text
      → is_empty (strip d.body) ≡ false
      → (verdict t.safety.moderation).0.blocked ≡ true
      → send search escape sub now today day id cached d s ≡ (
        err (ZynoraError.moderation_blocked "That message was blocked by our safety filters."),
        s,
      )
  send_forgives c other t f p a r h k n v =
      send_found c other f p a r
      ∙ atomic_err (send_to search escape sub now today day id cached d other) s _ _
          (send_to_screened other t h k n v)
