-- ===== src/Authentication/Codes.antt =====
-- What a one-time code is accepted for: apps/authentication/totp.py.
use date_app.Common.{
  ℕ, ◌+◌, ◌%◌, ◌≤◌, ◌<◌, ◌≡◌, refl, sym, ap, ◌∙◌, ◌≢◌, inl, inr, Bool, true, List, [], ◌∷◌, arith,
  ltb, leb, ◌==◌, ==_refl, Bool-cases, Text, length, exists_where, same_text, same_text_refl,
  without_spaces, is_ascii_digit, all_of, digits_of_zfill, tens, length-zfill, strip-digits,
  without_spaces-digits, all_weaken, eq_of_same_text,
}
use date_app.Authentication.Totp.{
  digits, CodeCheck, current_counter, counters, truncated, hotp, is_digit, cleaned, try_counters,
  verify_code,
}

eq_of_matched : {c d : ℕ} → CodeCheck.matched c ≡ CodeCheck.matched d → c ≡ d
eq_of_matched e = cc

module _ (hmac_sha1 : Text → ℕ → List ℕ) (is_other_digit : ℕ → Bool) (secret : Text) where
  abbrev pub code_at : ℕ → Text
  code_at = hotp hmac_sha1 is_other_digit secret

  digits_of_code : (c : ℕ) → all_of is_ascii_digit (code_at c) ≡ true
  unfolding hotp
  digits_of_code c = digits_of_zfill 6 _

  length-code : (c : ℕ) → length (code_at c) ≡ 6
  unfolding hotp tens
  length-code c =
      length-zfill 5 (truncated hmac_sha1 is_other_digit (hmac_sha1 secret c) % tens digits)
        (omega arith)

  module _ (code : Text) (last : ℕ) where
    abbrev pub tried : List ℕ → CodeCheck
    tried = try_counters hmac_sha1 is_other_digit secret code last

    -- A counter that matched is past the last one, is among those tried, and has the code.
    pub tried_matched :
        (cs : List ℕ) (c : ℕ)
        → tried cs ≡ CodeCheck.matched c
        → (last < c) × (code_at c ≡ code) × (exists_where (λ x. x == c) cs ≡ true)
    unfolding try_counters exists_where
    tried_matched [] c e = cc
    tried_matched (d ∷ cs) c e = elim (Bool-cases (leb d last)) [
      | inl old ↦
          let (l, h, x) = tried_matched cs c (ground (arith, old)) in (l, h, ground (arith, x))
      | inr new ↦ elim (Bool-cases (all_of (λ x. ltb x 128) code)) [
        | inr odd ↦ absurd (ground (arith, new, odd))
        | inl ascii ↦ elim (Bool-cases (same_text (code_at d) code)) [
          | inl same ↦
              let at : d ≡ c = eq_of_matched (ground (arith, e, new, ascii, same)) in
              (
                ground arith,
                ap code_at (sym at) ∙ eq_of_same_text (code_at d) code same,
                ground arith,
              )
          | inr other ↦
              let (l, h, x) = tried_matched cs c (ground (arith, new, ascii, other)) in
              (l, h, ground (arith, x))
        ]
      ]
    ]

    -- A text that is not ASCII matches no counter.
    pub tried_ascii :
        (cs : List ℕ) (c : ℕ) → tried cs ≡ CodeCheck.matched c → all_of (λ x. ltb x 128) code ≡ true
    unfolding try_counters
    tried_ascii [] c e = absurd (ground (arith, e))
    tried_ascii (d ∷ cs) c e = elim (Bool-cases (all_of (λ x. ltb x 128) code)) [
      | inl ascii ↦ ascii
      | inr odd ↦ elim (Bool-cases (leb d last)) [
        | inl old ↦ tried_ascii cs c (ground (arith, e, old))
        | inr new ↦ absurd (ground (arith, e, odd, new))
      ]
    ]

    -- A code that a counter past the last one has is matched.
    matched_some :
        (cs : List ℕ) (c : ℕ)
        → all_of (λ x. ltb x 128) code ≡ true
        → exists_where (λ x. x == c) cs ≡ true
        → last < c
        → code_at c ≡ code
        → (d : ℕ) × (tried cs ≡ CodeCheck.matched d)
    unfolding try_counters exists_where
    matched_some [] c a x l h = cc
    matched_some (d ∷ cs) c a x l h = elim (Bool-cases (leb d last)) [
      | inl old ↦
          let (b, e) = matched_some cs c a (ground (arith, old)) l h in (b, ground (arith, e, old))
      | inr new ↦ elim (Bool-cases (same_text (code_at d) code)) [
        | inl same ↦ (d, ground (arith, new, a, same))
        | inr other ↦
            let apart = ap (λ t. same_text t code) h ∙ same_text_refl code in
            let (b, e) = matched_some cs c a (ground (arith, x, other, apart)) l h in
            (b, ground (arith, new, a, other, e))
      ]
    ]

    -- When no counter past the last one has the code, it is not matched.
    pub unmatched_all :
        (cs : List ℕ)
        → all_of (λ x. ltb x 128) code ≡ true
        → ((c : ℕ) → last < c → exists_where (λ x. x == c) cs ≡ true → code_at c ≢ code)
        → tried cs ≡ CodeCheck.unmatched
    unfolding try_counters exists_where
    unmatched_all [] a h = refl
    unmatched_all (d ∷ cs) a h =
        let rest = unmatched_all cs a (λ c l x. h c l (ground (arith, x))) in
        elim (Bool-cases (leb d last)) [
          | inl old ↦ ground (arith, old, rest)
          | inr new ↦ elim (Bool-cases (same_text (code_at d) code)) [
            | inl same ↦ absurd (
                h d (ground arith) (ground (arith, ==_refl d))
                  (eq_of_same_text (code_at d) code same))
            | inr other ↦ ground (arith, new, a, other, rest)
          ]
        ]

  module _ (now : ℕ) where
    abbrev pub near : List ℕ
    near = counters now 1 0 3

    -- The counters tried by default are the present one and its neighbours.
    near_has : (c : ℕ) → now ≤ c + 1 → c ≤ now + 1 → 0 < c → exists_where (λ x. x == c) near ≡ true
    unfolding counters exists_where
    near_has c l h z = ground arith

    pub near_only : (c : ℕ) → exists_where (λ x. x == c) near ≡ true → (now ≤ c + 1) × (c ≤ now + 1)
    unfolding counters exists_where
    near_only c e = (ground arith, ground arith)

  -- The code of a counter is accepted while the clock is within one step of it, if the counter is past
  -- the last one that was used: it matches a counter that is past the last one too, within one step of
  -- the clock, and that has the same code.
  pub code_accepted :
      (now last counter : ℕ)
      → current_counter now ≤ counter + 1
      → counter ≤ current_counter now + 1
      → last < counter
      → (c : ℕ) × (verify_code hmac_sha1 is_other_digit 1 now secret
            (hotp hmac_sha1 is_other_digit secret counter)
            last
          ≡ CodeCheck.matched c)
        × (last < c)
        × (current_counter now ≤ c + 1)
        × (c ≤ current_counter now + 1)
        × (hotp hmac_sha1 is_other_digit secret c ≡ hotp hmac_sha1 is_other_digit secret counter)
  unfolding verify_code
  code_accepted now last counter l h b =
      let code = code_at counter in
      let ds = digits_of_code counter in
      let clean : cleaned hmac_sha1 is_other_digit code ≡ code =
        ap without_spaces (strip-digits code ds) ∙ without_spaces-digits code ds in
      let ascii = all_weaken is_ascii_digit (λ x. ltb x 128) code (λ x e. ground arith) ds in
      let digit =
        all_weaken is_ascii_digit (is_digit hmac_sha1 is_other_digit) code (λ x e. ground arith)
          ds in
      let (c, e) =
        matched_some code last (near (current_counter now)) counter ascii
          (near_has (current_counter now) counter l h (omega arith)) b refl in
      let (past, same, within) = tried_matched code last (near (current_counter now)) c e in
      let (low, high) = near_only (current_counter now) c within in
      (c, rw (clean, digit, length-code counter) e, past, low, high, same)
