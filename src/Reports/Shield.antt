-- ===== src/Reports/Shield.antt =====
-- What a block and its removal do to the two members: BlockService of apps/reports/services.py.
use date_app.Common.{
  ℕ, ◌≡◌, refl, ◌∙◌, ◌≢◌, Bool, true, false, List, [], ◌∷◌, arith, ==_refl, eq_of_==, Text,
  exists_where, delete_where, first_where-holds, exists_of_first,
}
use date_app.Reports.Models.{Block, Store}
use date_app.Reports.Blocks.{is_block, is_between, inserted, block, unblock, is_blocked_between}
use date_app.Reports.Coherence.{
  IsCoherent, exists-between_comm, block_cases, block-IsCoherent, unblock-IsCoherent,
  is_blocked_between_lem,
}

inserted_there :
    (a b : ℕ) (reason : Text) (r : Bool) (s : Store)
    → exists_where (is_between a b) (inserted a b reason r s).blocks ≡ true
unfolding inserted exists_where
inserted_there a b reason r s = ground (arith, ==_refl a, ==_refl b)

block_there :
    (a b : ℕ) (reason : Text) (r : Bool) (s : Store)
    → a ≢ b
    → exists_where (is_between a b) (block a b reason r s).1.blocks ≡ true
block_there a b reason r s d =
    block_cases a b reason r s (λ t. exists_where (is_between a b) t.blocks ≡ true)
      (λ e. absurd (d (eq_of_== a b e)))
      (λ k o.
        exists_of_first (is_block a b) (is_between a b) s.blocks k o
          (ground (arith, first_where-holds (is_block a b) s.blocks k o)))
      (inserted_there a b reason r s)

between_none :
    (a b : ℕ) (ks : List Block)
    → exists_where (is_block b a) ks ≡ false
    → exists_where (is_between a b) (delete_where (is_block a b) ks) ≡ false
unfolding exists_where delete_where
between_none a b [] h = refl
between_none a b (k ∷ ks) h = ground (arith, between_none a b ks)

unblock_gone :
    (a b : ℕ) (s : Store)
    → exists_where (is_block b a) s.blocks ≡ false
    → exists_where (is_between a b) (unblock a b s).1.blocks ≡ false
unfolding unblock
unblock_gone a b s h = between_none a b s.blocks h

-- When every cached answer is the table's, a block by one of two different members hides each from
-- the other, at any time and in either order, though the opposite answer was cached.
pub block_hides :
    (now a b : ℕ) (reason : Text) (r : Bool) (s : Store)
    → IsCoherent s
    → a ≢ b
    → ((is_blocked_between now a b (block a b reason r s).1).0 ≡ true)
      × ((is_blocked_between now b a (block a b reason r s).1).0 ≡ true)
block_hides now a b reason r s h d =
    let t = (block a b reason r s).1 in
    let c = block-IsCoherent a b reason r s h in
    let p = (is_blocked_between_lem now a b t c).0 in
    let q = (is_blocked_between_lem now b a t c).0 in
    (p ∙ there, q ∙ exists-between_comm b a t.blocks ∙ there)
  where
    there : exists_where (is_between a b) (block a b reason r s).1.blocks ≡ true
    there = block_there a b reason r s d

-- When every cached answer is the table's and the second of two members does not block the first,
-- an unblock by the first shows each to the other, though the opposite answer was cached.
unblock_shows :
    (now a b : ℕ) (s : Store)
    → IsCoherent s
    → exists_where (is_block b a) s.blocks ≡ false
    → ((is_blocked_between now a b (unblock a b s).1).0 ≡ false)
      × ((is_blocked_between now b a (unblock a b s).1).0 ≡ false)
unblock_shows now a b s h d =
    let t = (unblock a b s).1 in
    let c = unblock-IsCoherent a b s h in
    let p = (is_blocked_between_lem now a b t c).0 in
    let q = (is_blocked_between_lem now b a t c).0 in
    (p ∙ gone, q ∙ exists-between_comm b a t.blocks ∙ gone)
  where
    gone : exists_where (is_between a b) (unblock a b s).1.blocks ≡ false
    gone = unblock_gone a b s d
