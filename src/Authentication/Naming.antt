-- ===== src/Authentication/Naming.antt =====
-- The loop over the usernames ends: connect_or_create of apps/authentication/services.py.
use date_app.Common.{
  ℕ, zero, suc, ◌+◌, ◌≤◌, ◌<◌, ◌≡◌, refl, sym, ap, subst, ◌∙◌, inl, inr, Bool, true, false, none,
  some, List, [], ◌∷◌, ◌++◌, arith, ◌==◌, if◌then◌else◌, Bool-cases, Option-cases, get_or, Text,
  is_empty, length, take, All, length-append, decimal, same_text, tens, read, read-decimal,
  append_cancel, take_all, length-take_text, length-decimal, from, from-Distinct, length-from,
  pigeonhole, eq_of_same_text,
}
use date_app.Accounts.Models.{User}
use date_app.Authentication.Social.{before_at, base_name, with_suffix, is_taken, free_name}

-- What is appended to the base: nothing first, then the suffixes from 2 on.
abbrev ending : ℕ → Text
ending i = if i == 1 then [] else decimal i

abbrev named : Text → ℕ → Text
named base i = take 30 (base ++ ending i)

-- The largest suffix that leaves the username within its thirty letters.
abbrev pub most : ℕ
most = 9999999999

length-ending : (i : ℕ) → i ≤ most → length (ending i) ≤ 10
unfolding tens
length-ending i h = elim (Bool-cases (i == 1)) [
  | inl e ↦ rw e (omega arith)
  | inr e ↦ rw e (length-decimal (i + 1) 9 i (ground arith))
]

read-ending : (i : ℕ) → 0 < i → read (ending i) 0 ≡ (if i == 1 then 0 else i)
unfolding read
read-ending i h = elim (Bool-cases (i == 1)) [ inl e ↦ rw e refl | inr e ↦ rw e (read-decimal i) ]

append_nil : (t : Text) → t ++ [] ≡ t
append_nil [] = refl
append_nil (c ∷ t) = ap (λ u. c ∷ u) (append_nil t)

module _ (base : Text) (short : length base ≤ 20) where
  named_whole : (i : ℕ) → i ≤ most → named base i ≡ base ++ ending i
  named_whole i h =
      take_all 30 (base ++ ending i)
        (omega (arith, length-append base (ending i), length-ending i h, short))

  -- No two suffixes give the same username.
  named_apart :
      (i j : ℕ) → 0 < i → i ≤ most → 0 < j → j ≤ most → named base i ≡ named base j → i ≡ j
  named_apart i j a b c d e =
      let f =
        append_cancel base (ending i) (ending j) (sym (named_whole i b) ∙ e ∙ named_whole j d) in
      let g = sym (read-ending i a) ∙ ap (λ t. read t 0) f ∙ read-ending j c in ground (arith, g)

  IsSuffix : ℕ → Type 0
  IsSuffix i = (0 < i) × (i ≤ most)

  abbrev has_name : User → ℕ → Bool
  has_name u i = same_text u.username (named base i)

  at_most_one :
      (u : User) (i j : ℕ)
      → IsSuffix i
      → IsSuffix j
      → has_name u i ≡ true
      → has_name u j ≡ true
      → i ≡ j
  unfolding IsSuffix
  at_most_one u i j (a, b) (c, d) h k = named_apart i j a b c d (
      sym (eq_of_same_text u.username (named base i) h)
      ∙ eq_of_same_text u.username (named base j) k)

  suffixes : (i n : ℕ) → 0 < i → i + n ≤ most + 1 → All IsSuffix (from i n)
  unfolding from IsSuffix
  suffixes i zero a b = tt
  suffixes i (suc n) a b = ((a, omega arith), suffixes (i + 1) n (omega arith) (omega arith))

  next_named : (i : ℕ) → 0 < i → with_suffix base (i + 1) ≡ named base (i + 1)
  next_named i h = ground arith

  -- The loop that gives up has found every name taken.
  All-taken :
      (us : List User) (fuel i : ℕ)
      → 0 < i
      → free_name us base fuel i (named base i) ≡ none
      → All (λ j. is_taken us (named base j) ≡ true) (from i fuel)
  unfolding free_name from
  All-taken us zero i h e = tt
  All-taken us (suc fuel) i h e = elim (Bool-cases (is_taken us (named base i))) [
    | inr free ↦ absurd (ground (arith, e, free))
    | inl taken ↦ (
      taken,
      All-taken us fuel (i + 1) (omega arith)
          (ap (free_name us base fuel (i + 1)) (sym (next_named i h)) ∙ ground (arith, e, taken)),
    )
  ]

  free_found :
      (us : List User) (fuel i : ℕ) (name : Text)
      → is_taken us name ≡ false
      → free_name us base (suc fuel) i name ≡ some name
  unfolding free_name
  free_found us fuel i name h = rw h refl

  free_is_free :
      (us : List User) (fuel i : ℕ) (name n : Text)
      → free_name us base fuel i name ≡ some n
      → is_taken us n ≡ false
  unfolding free_name
  free_is_free us zero i name n e = cc
  free_is_free us (suc fuel) i name n e = elim (Bool-cases (is_taken us name)) [
    | inl taken ↦
        free_is_free us fuel (i + 1) (with_suffix base (i + 1)) n (ground (arith, e, taken))
    | inr free ↦
        subst (λ t. is_taken us t ≡ false)
          (ap (λ o. get_or o []) (sym (free_found us fuel i name free) ∙ e)) free
  ]

  base_first : base ≡ named base 1
  base_first = sym (named_whole 1 (omega arith) ∙ append_nil base)

base_name_short : (email : Text) → length (base_name email) ≤ 20
unfolding base_name
base_name_short email = elim (Bool-cases (is_empty (take 20 (before_at email)))) [
  | inl e ↦ rw e (omega arith)
  | inr e ↦ rw e (length-take_text 20 (before_at email))
]

-- The loop for a username ends: with one turn more than there are accounts it finds a name that no
-- account has, whatever the address, as long as there are fewer than 9999999998 accounts.
pub free_name_found :
    (us : List User) (email : Text)
    → length us < 9999999998
    → (n : Text) × (free_name us (base_name email) (length us + 1) 1 (base_name email) ≡ some n)
      × (is_taken us n ≡ false)
free_name_found us email few = elim (Option-cases (free_name us base (length us + 1) 1 base)) [
  | inr g ↦ let (n, e) = g in (n, e, free_is_free base short us (length us + 1) 1 base n e)
  | inl e ↦
      let taken =
        All-taken base short us (length us + 1) 1 (omega arith)
          (ap (free_name us base (length us + 1) 1) (sym (base_first base short)) ∙ e) in
      let many =
        pigeonhole (has_name base short) (IsSuffix base short) (at_most_one base short) us
          (from 1 (length us + 1))
          (suffixes base short 1 (length us + 1) (omega arith) (omega arith))
          (from-Distinct 1 (length us + 1)) taken in
      absurd (omega (arith, many, length-from 1 (length us + 1)))
]
  where
    base : Text
    base = base_name email

    short : length base ≤ 20
    short = base_name_short email
