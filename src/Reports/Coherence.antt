-- ===== src/Reports/Coherence.antt =====
-- The cache of the answers on blocks: BlockService of apps/reports/services.py.
use date_app.Common.{
  ℕ, ◌≤◌, min, max, ◌≡◌, refl, sym, ap, subst, ◌∙◌, inl, inr, Bool, true, false, none, some, List,
  [], ◌∷◌, arith, ◌==◌, ==_refl, eq_of_==, Bool-cases, Option-cases, Text, first_where,
  exists_where, delete_where, All, first_where-holds, exists_congr, ok, All-first, All-delete,
  exists-delete_apart,
}
use date_app.Reports.Models.{Block, CacheEntry, Store}
use date_app.Reports.Blocks.{
  is_block, is_between, has_key, invalidate, is_fresh, new_block, inserted, get_or_insert, block,
  unblock, stored, is_blocked_between,
}

-- A cached answer has its key in order and is the table's.
abbrev pub IsTrue : List Block → CacheEntry → Type 0
IsTrue ks e = (e.low ≤ e.high) × (e.value ≡ exists_where (is_between e.low e.high) ks)

abbrev pub IsCoherent : Store → Type 0
IsCoherent s = All (IsTrue s.blocks) s.cache

pub between_comm : (a b : ℕ) (k : Block) → is_between a b k ≡ is_between b a k
between_comm a b k = ground arith

pub exists-between_comm :
    (a b : ℕ) (ks : List Block)
    → exists_where (is_between a b) ks ≡ exists_where (is_between b a) ks
exists-between_comm a b ks = exists_congr (is_between a b) (is_between b a) ks (between_comm a b)

-- The table's answer under the key in order.
exists-between_sorted :
    (a b : ℕ) (ks : List Block)
    → exists_where (is_between (min a b) (max a b)) ks ≡ exists_where (is_between a b) ks
exists-between_sorted a b ks =
    exists_congr (is_between (min a b) (max a b)) (is_between a b) ks (λ k. ground (arith))

invalidate-IsTrue :
    (a b : ℕ) (ks ls : List Block) (c : List CacheEntry)
    → ((e : CacheEntry)
        → has_key a b e ≡ false
        → e.low ≤ e.high
        → exists_where (is_between e.low e.high) ls ≡ exists_where (is_between e.low e.high) ks)
    → All (IsTrue ks) c
    → All (IsTrue ls) (invalidate a b c)
unfolding invalidate
invalidate-IsTrue a b ks ls c h l =
    All-delete (IsTrue ks) (IsTrue ls) (has_key a b) c (λ e f t. (t.0, t.1 ∙ sym (h e f t.0))) l

-- A block of another pair is not between the two members of a key.
apart :
    (a b : ℕ) (k : Block) (e : CacheEntry)
    → has_key a b e ≡ false
    → e.low ≤ e.high
    → is_block a b k ≡ true
    → is_between e.low e.high k ≡ false
apart a b k e f o h = ground arith

pub inserted-IsCoherent :
    (a b : ℕ) (reason : Text) (r : Bool) (s : Store)
    → IsCoherent s
    → IsCoherent (inserted a b reason r s)
unfolding inserted exists_where
inserted-IsCoherent a b reason r s h =
    let k = new_block a b reason r in
    invalidate-IsTrue a b s.blocks (k ∷ s.blocks) s.cache
      (λ e f o. ground (arith, apart a b k e f o (ground (arith, ==_refl a, ==_refl b)))) h

module _ (a b : ℕ) (reason : Text) (r : Bool) (s : Store) where
  block_self : (a == b) ≡ true → (block a b reason r s).1 ≡ s
  unfolding block
  block_self e = ground arith

  pub block_old :
      (k : Block)
      → (a == b) ≡ false
      → first_where (is_block a b) s.blocks ≡ some k
      → block a b reason r s ≡ (ok k, s)
  unfolding block get_or_insert
  block_old k e o = ground arith

  pub block_new :
      (a == b) ≡ false
      → first_where (is_block a b) s.blocks ≡ none
      → block a b reason r s ≡ (ok (new_block a b reason r), inserted a b reason r s)
  unfolding block get_or_insert
  block_new e o = ground arith

  -- The ways the call ends.
  pub block_cases :
      (Q : Store → Type 0)
      → ((a == b) ≡ true → Q s)
      → ((k : Block) → first_where (is_block a b) s.blocks ≡ some k → Q s)
      → Q (inserted a b reason r s)
      → Q (block a b reason r s).1
  block_cases Q h k l = elim (Bool-cases (a == b)) [
    | inl e ↦ subst Q (sym (block_self e)) (h e)
    | inr e ↦ elim (Option-cases (first_where (is_block a b) s.blocks)) [
      | inl o ↦ rw (block_new e o) l
      | inr (x, o) ↦ rw (block_old x e o) (k x o)
    ]
  ]

pub block-IsCoherent :
    (a b : ℕ) (reason : Text) (r : Bool) (s : Store)
    → IsCoherent s
    → IsCoherent (block a b reason r s).1
block-IsCoherent a b reason r s h =
    block_cases a b reason r s IsCoherent (λ e. h) (λ k o. h) (inserted-IsCoherent a b reason r s h)

pub unblock-IsCoherent : (a b : ℕ) (s : Store) → IsCoherent s → IsCoherent (unblock a b s).1
unfolding unblock
unblock-IsCoherent a b s h =
    invalidate-IsTrue a b s.blocks (delete_where (is_block a b) s.blocks) s.cache
      (λ e f o.
        exists-delete_apart (is_between e.low e.high) (is_block a b) s.blocks
          (λ k. apart a b k e f o))
      h

-- A cached answer under the pair's key is the table's.
answer_lem :
    (a b : ℕ) (ks : List Block) (e : CacheEntry)
    → IsTrue ks e
    → has_key a b e ≡ true
    → e.value ≡ exists_where (is_between a b) ks
answer_lem a b ks e (o, t) k =
    let l = eq_of_== e.low (min a b) (ground arith) in
    let h = eq_of_== e.high (max a b) (ground arith) in
    t
    ∙ ap (λ x. exists_where (is_between x e.high) ks) l
    ∙ ap (λ x. exists_where (is_between (min a b) x) ks) h
    ∙ exists-between_sorted a b ks

module _ (now a b : ℕ) (s : Store) where
  ask_cached :
      (e : CacheEntry)
      → first_where (is_fresh now a b) s.cache ≡ some e
      → is_blocked_between now a b s ≡ (e.value, s)
  unfolding is_blocked_between
  ask_cached e o = rw (o, is_blocked_between) refl

  ask_table :
      first_where (is_fresh now a b) s.cache ≡ none
      → let found = exists_where (is_between a b) s.blocks in
        is_blocked_between now a b s ≡ (found, record s { cache = stored now a b found s.cache })
  unfolding is_blocked_between
  ask_table o = rw (o, is_blocked_between) refl

  -- When every cached answer is the table's, so is the answer of the call, and it leaves them so.
  pub is_blocked_between_lem :
      IsCoherent s
      → ((is_blocked_between now a b s).0 ≡ exists_where (is_between a b) s.blocks)
        × IsCoherent (is_blocked_between now a b s).1
  is_blocked_between_lem h = elim (Option-cases (first_where (is_fresh now a b) s.cache)) [
    | inl o ↦ rw (ask_table o) (
      refl,
      (
        (omega arith, sym (exists-between_sorted a b s.blocks)),
        All-delete (IsTrue s.blocks) (IsTrue s.blocks) (has_key a b) s.cache (λ e _ t. t) h,
      ),
    )
    | inr (e, o) ↦ rw (ask_cached e o) (
      answer_lem a b s.blocks e (All-first (IsTrue s.blocks) (is_fresh now a b) s.cache e h o)
          (ground (arith, first_where-holds (is_fresh now a b) s.cache e o)),
      h,
    )
  ]

-- A call of BlockService.
pub data Step : Store → Store → Type 0 where
  do_block : (a b : ℕ) (reason : Text) (r : Bool) (s : Store) → Step s (block a b reason r s).1
  do_unblock : (a b : ℕ) (s : Store) → Step s (unblock a b s).1
  do_ask : (now a b : ℕ) (s : Store) → Step s (is_blocked_between now a b s).1

pub data Reach : Store → Store → Type 0 where
  stay : (s : Store) → Reach s s
  then_step : (s t u : Store) → Reach s t → Step t u → Reach s u

Step-IsCoherent : (s t : Store) → Step s t → IsCoherent s → IsCoherent t
Step-IsCoherent _ _ (Step.do_block a b reason r s) h = block-IsCoherent a b reason r s h
Step-IsCoherent _ _ (Step.do_unblock a b s) h = unblock-IsCoherent a b s h
Step-IsCoherent _ _ (Step.do_ask now a b s) h = (is_blocked_between_lem now a b s h).1

Reach-IsCoherent : (s t : Store) → Reach s t → IsCoherent s → IsCoherent t
Reach-IsCoherent _ _ (Reach.stay s) h = h
Reach-IsCoherent _ _ (Reach.then_step s t u r st) h =
    Step-IsCoherent t u st (Reach-IsCoherent s t r h)

-- From a store whose cache is empty, after any calls of the service and at any time, the cached check
-- answers as the table does, whichever of the two members comes first.
pub Reach-answer :
    (s t : Store)
    → Reach s t
    → s.cache ≡ []
    → (now a b : ℕ)
    → ((is_blocked_between now a b t).0 ≡ exists_where (is_between a b) t.blocks)
      × ((is_blocked_between now b a t).0 ≡ (is_blocked_between now a b t).0)
Reach-answer s t r e now a b =
    let h = Reach-IsCoherent s t r (subst (All (IsTrue s.blocks)) (sym e) tt) in
    let p = (is_blocked_between_lem now a b t h).0 in
    let q = (is_blocked_between_lem now b a t h).0 in
    (p, q ∙ exists-between_comm b a t.blocks ∙ sym p)
