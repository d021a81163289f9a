-- ===== src/Abci/ChainState/Agreement.antt =====
-- The pending transactions, and the block that a node proposes from them.
use mathlib.Core.Path.{ap₂}
use threshold.Prelude.{
  Bool-cases, inl, inr, ◌≡◌, refl, false, ◌||◌, Option, List, [], ◌∷◌, ◌++◌, arith, Bytes, Eq, ◌==◌,
  ==_iff, ==_refl, contains, contains-append, Distinct, bytes_ord, Permᴰ, add64,
}
use threshold.Prelude.Sorting.{NoClash, sort_by_key-perm}
use threshold.Protocol.Codec.{Codec}
use threshold.Protocol.Transaction.{Transaction, transaction_eq, id}
use threshold.Protocol.Block.{Block, new_block}
use threshold.Abci.ChainState.{
  ChainState, add_transaction_to_block, get_proposed_block, previous_hash,
}

Distinct-append_one :
    {A : Type 0} ⦃e : Eq A⦄ (xs : List A) (a : A)
    → Distinct xs
    → contains xs a ≡ false
    → Distinct (xs ++ a ∷ [])
Distinct-append_one [] a d h = (refl, tt)
Distinct-append_one (x ∷ xs) a d h = (
  ground (arith, contains-append xs (a ∷ []) x, ==_iff x a, ==_iff a x),
  Distinct-append_one xs a d.1 (ground arith),
)

module _ {J : Type 0} ⦃e : Eq J⦄ (tx : Transaction J) (s : ChainState J) where
  -- Adding a transaction makes it pending, and no other; adding it again changes nothing.
  pub add_transaction_to_block_lem :
      (other : Transaction J)
      → (contains (add_transaction_to_block tx s).proposed_transactions other
          ≡ (tx == other || contains s.proposed_transactions other))
        × (add_transaction_to_block tx (add_transaction_to_block tx s)
            ≡ add_transaction_to_block tx s)
  unfolding add_transaction_to_block
  add_transaction_to_block_lem other = (
    ground (arith, contains-append s.proposed_transactions (tx ∷ []) other, ==_iff tx other),
    ground (arith, contains-append s.proposed_transactions (tx ∷ []) tx, ==_refl tx),
  )

  -- Adding a transaction does not make one pending twice.
  pub add_transaction_to_block-Distinct :
      Distinct s.proposed_transactions
      → Distinct (add_transaction_to_block tx s).proposed_transactions
  unfolding add_transaction_to_block
  add_transaction_to_block-Distinct h = elim (Bool-cases (contains s.proposed_transactions tx)) [
    | inl old ↦ rw old h
    | inr new ↦ rw new (Distinct-append_one s.proposed_transactions tx h new)
  ]

module _ {J : Type 0} (c : Codec J) where
  -- Two nodes at the same height whose pending transactions are the same, in any order, propose the
  -- same block for a proposer, provided that no two of those transactions share an id.
  pub get_proposed_block-perm :
      (previous_block : Option (Block J)) (proposer : Bytes) (s t : ChainState J)
      → Permᴰ s.proposed_transactions t.proposed_transactions
      → NoClash (id c) s.proposed_transactions
      → s.block_height ≡ t.block_height
      → get_proposed_block c previous_block proposer s
        ≡ get_proposed_block c previous_block proposer t
  unfolding get_proposed_block
  get_proposed_block-perm previous_block proposer s t p h same =
      ap₂ (λ height txs. new_block c (previous_hash c previous_block) (add64 height 1) txs proposer)
        same (sort_by_key-perm (id c) p h)
