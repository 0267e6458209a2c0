-- ===== src/Chat/Allowed.antt =====
-- When a message may be sent, said on the tables before it: the checks of `send` of
-- apps/chat/services.py.
use date_app.Common.{
  ℕ, ◌≡◌, refl, sym, ap, ◌∙◌, ◌⊎◌, inl, inr, Bool, true, false, Option, some, List, arith,
  Option-cases, Text, is_empty, first_where, exists_where, ok, strip,
}
use date_app.Moderation.Models.{BannedTerm, Store as ModerationStore}
use date_app.Moderation.Screening.{screen}
use date_app.Subscriptions.Gates.{can_send_message}
use date_app.Reports.Blocks.{is_blocked_between, is_between, is_fresh}
use date_app.Reports.Coherence.{IsCoherent, is_blocked_between_lem}
use date_app.Reports.Models.{Store as SafetyStore}
use date_app.Chat.Models.{MessageType, Store}
use date_app.Chat.Conversations.{ask_blocked}
use date_app.Chat.Messages.{Draft, spend_message, screened, prepared}

abbrev pub is_text : MessageType → Bool
is_text k = elim k [ MessageType.text ↦ true | _ ↦ false ]

text_of : (k : MessageType) → is_text k ≡ true → k ≡ MessageType.text
text_of MessageType.text h = refl
text_of MessageType.image h = absurd (ground (arith, h))
text_of MessageType.voice h = absurd (ground (arith, h))
text_of MessageType.video h = absurd (ground (arith, h))
text_of MessageType.document h = absurd (ground (arith, h))
text_of MessageType.gif h = absurd (ground (arith, h))
text_of MessageType.system h = absurd (ground (arith, h))

module _ (re_search : Text → Text → Bool) (escape : Text → Text) (sub : Text → Text → Text → Text)
    (now : ℕ) (today : Text) (cached : Option (List BannedTerm)) (d : Draft) where
  -- The body that a draft is stored with: a text is stripped, is not empty and passes the screening;
  -- anything else goes as it is.
  abbrev pub IsReadable : ModerationStore → Text → Type 0
  IsReadable m body =
      let v = (screen re_search escape sub now today cached (strip d.body) (some d.sender) m).0 in
      ((is_text d.kind ≡ false) × (body ≡ d.body))
      ⊎ ((is_text d.kind ≡ true)
          × (is_empty (strip d.body) ≡ false)
          × (v.blocked ≡ false)
          × (body ≡ v.clean_text))

  screened_readable :
      (body : Text) (s : Store)
      → let v =
          (screen re_search escape sub now today cached
            (strip d.body)
            (some d.sender)
            s.safety.moderation).0 in
        v.blocked ≡ false
        → body ≡ v.clean_text
        → (u : Store) × (screened re_search escape sub now today cached d.sender (strip d.body) s
            ≡ (ok body, u))
          × (u.subscriptions ≡ s.subscriptions)
  unfolding screened
  screened_readable body s h e =
      let m =
        (screen re_search escape sub now today cached (strip d.body) (some d.sender)
          s.safety.moderation).1 in
      let u = record s { safety = record s.safety { moderation = m } } in
      (u, rw (h, e, screened) refl, refl)

  plain :
      (k : MessageType) (s : Store)
      → d.kind ≡ k
      → is_text k ≡ false
      → prepared re_search escape sub now today cached d s ≡ (ok d.body, s)
  unfolding prepared
  plain MessageType.text s e f = absurd (ground (arith, f))
  plain MessageType.image s e f = rw (e, prepared) refl
  plain MessageType.voice s e f = rw (e, prepared) refl
  plain MessageType.video s e f = rw (e, prepared) refl
  plain MessageType.document s e f = rw (e, prepared) refl
  plain MessageType.gif s e f = rw (e, prepared) refl
  plain MessageType.system s e f = rw (e, prepared) refl

  textual :
      (body : Text) (s u : Store)
      → d.kind ≡ MessageType.text
      → is_empty (strip d.body) ≡ false
      → screened re_search escape sub now today cached d.sender (strip d.body) s ≡ (ok body, u)
      → prepared re_search escape sub now today cached d s ≡ (ok body, u)
  unfolding prepared
  textual body s u e n h = rw (e, prepared) (ground (arith, n, h))

  -- What is readable is prepared, and the allowances are left alone.
  pub prepared_readable :
      (body : Text) (s : Store)
      → IsReadable s.safety.moderation body
      → (u : Store) × (prepared re_search escape sub now today cached d s ≡ (ok body, u))
        × (u.subscriptions ≡ s.subscriptions)
  prepared_readable body s h = elim h [
    | inl (f, e) ↦ (s, plain d.kind s refl f ∙ ap (λ x. (ok x, s)) (sym e), refl)
    | inr (t, n, v, e) ↦
        let (u, g, k) = screened_readable body s v e in
        (u, textual body s u (text_of d.kind t) n g, k)
  ]

unmoderated :
    (now a b : ℕ) (s : SafetyStore) → (is_blocked_between now a b s).1.moderation ≡ s.moderation
unfolding is_blocked_between
unmoderated now a b s = elim (Option-cases (first_where (is_fresh now a b) s.cache)) [
  | inl e ↦ rw (e, is_blocked_between) refl
  | inr (c, e) ↦ rw (e, is_blocked_between) refl
]

-- Two members of whom neither blocks the other are not found blocked.
pub asked_free :
    (now a b : ℕ) (s : Store)
    → IsCoherent s.safety
    → exists_where (is_between a b) s.safety.blocks ≡ false
    → (t : Store) × (ask_blocked now a b s ≡ (ok false, t))
      × (t.safety.moderation ≡ s.safety.moderation)
      × (t.subscriptions ≡ s.subscriptions)
unfolding ask_blocked
asked_free now a b s h f =
    let t = record s { safety = (is_blocked_between now a b s.safety).1 } in
    (
      t,
      ap (λ x. (ok x, t)) ((is_blocked_between_lem now a b s.safety h).0 ∙ f),
      unmoderated now a b s.safety,
      refl,
    )

-- A message that the plan allows is counted.
pub spent :
    (now day user : ℕ) (s : Store)
    → (can_send_message now day user s.subscriptions).0 ≡ true
    → (v : Store) × (spend_message now day user s ≡ (ok true, v))
unfolding spend_message
spent now day user s h =
    let v = record s { subscriptions = (can_send_message now day user s.subscriptions).1 } in
    (v, ap (λ x. (ok x, v)) h)
