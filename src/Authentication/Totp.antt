-- ===== src/Authentication/Totp.antt =====
-- The one-time codes of apps/authentication/totp.py. HMAC-SHA1 of a counter under a base32 secret is
-- the section's parameter, as the bytes of its digest; so are the code points beyond ASCII that
-- `str.isdigit` takes for digits.
use date_app.Common.{
  ℕ, zero, suc, ◌+◌, ◌-◌, ◌*◌, ◌/◌, ◌%◌, Bool, not, ◌&&◌, ◌||◌, List, [], ◌∷◌, ltb, leb, ◌==◌,
  if◌then◌else◌, Text, length, decimal, same_text, strip, without_spaces, zfill, is_ascii_digit,
  all_of, tens,
}

-- `DIGITS`, `PERIOD` and `DEFAULT_WINDOW`
abbrev pub digits : ℕ
digits = 6

abbrev pub period : ℕ
period = 30

abbrev pub default_window : ℕ
default_window = 1

-- The byte at a position of a digest.
abbrev pub byte_at : ℕ → List ℕ → ℕ
byte_at n [] = 0
byte_at zero (b ∷ bs) = b
byte_at (suc n) (b ∷ bs) = byte_at n bs

-- `digest[-1]`
abbrev pub last_byte : List ℕ → ℕ
last_byte [] = 0
last_byte (b ∷ bs) = elim bs [ [] ↦ b | c ∷ cs ↦ last_byte bs ]

-- The counter that a code matched, no match, or the TypeError of `hmac.compare_digest` on a text that
-- is not ASCII.
pub data CodeCheck : Type 0 where
  matched : ℕ → CodeCheck
  unmatched raises : CodeCheck

-- `current_counter`
abbrev pub current_counter : ℕ → ℕ
current_counter now = now / period

-- The counters of `range(-window, window + 1)` from a drift on; one below zero is never above the
-- last counter that was used, and neither is 0.
unfoldable pub counters : ℕ → ℕ → ℕ → ℕ → List ℕ
counters now window drift zero = []
counters now window drift (suc n) = (now + drift - window) ∷ counters now window (drift + 1) n

module _ (hmac_sha1 : Text → ℕ → List ℕ) (is_other_digit : ℕ → Bool) where
  -- The number that `_hotp` cuts from the digest.
  unfoldable pub truncated : List ℕ → ℕ
  truncated digest =
      let offset = last_byte digest % 16 in
      (byte_at offset digest * 16777216
        + byte_at (offset + 1) digest * 65536
        + byte_at (offset + 2) digest * 256
        + byte_at (offset + 3) digest)
      % 2147483648

  -- `_hotp`
  unfoldable pub hotp : Text → ℕ → Text
  hotp secret counter = zfill digits (decimal (truncated (hmac_sha1 secret counter) % tens digits))

  -- `generate_code`
  unfoldable pub generate_code : ℕ → Text → Text
  generate_code now secret = hotp secret (current_counter now)

  -- `str.isdigit` of a character.
  abbrev pub is_digit : ℕ → Bool
  is_digit c = is_ascii_digit c || is_other_digit c

  abbrev pub cleaned : Text → Text
  cleaned code = without_spaces (strip code)

  -- The loop of `verify_code` over the counters.
  unfoldable pub try_counters : Text → Text → ℕ → List ℕ → CodeCheck
  try_counters secret code last_counter [] = CodeCheck.unmatched
  try_counters secret code last_counter (c ∷ cs) =
      let rest = try_counters secret code last_counter cs in
      if leb c last_counter
      then rest
      else if not (all_of (λ x. ltb x 128) code)
      then CodeCheck.raises
      else if same_text (hotp secret c) code
      then CodeCheck.matched c
      else rest

  -- `verify_code`
  unfoldable pub verify_code : ℕ → ℕ → Text → Text → ℕ → CodeCheck
  unfolding try_counters counters
  verify_code window now secret code last_counter =
      let text = cleaned code in
      if not (all_of is_digit text && length text == digits)
      then CodeCheck.unmatched
      else try_counters secret text last_counter
          (counters (current_counter now) window 0 (2 * window + 1))
