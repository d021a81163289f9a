-- ===== src/Oracle/Esplora/Validation.antt =====
-- crates/oracle/src/esplora.rs: which deposits the oracle verifies.
use threshold.Prelude.{
  ℕ, ◌≡◌, refl, true, Option, none, some, Bytes, Text, ok, Result-cases, inl, inr, ◌↔◌, and_then,
  ok_or, ==_iff, arith, nat_eq, ◌+◌, ◌%◌, ◌<◌, ◌∙◌, List, [], ◌∷◌, u64_mod, add64,
}
use threshold.Oracle.Esplora.{Vout, TxInfo, Client, total_output, check_info, validate_transaction}

-- The sum of the values, as a number.
abbrev pub worth : List Vout → ℕ
worth [] = 0
worth (output ∷ outputs) = output.value + worth outputs

-- The loop adds up what the outputs are worth, as u64.
total_output-worth :
    (total : ℕ) (outputs : List Vout)
    → total < u64_mod
    → total_output total outputs ≡ (total + worth outputs) % u64_mod
unfolding total_output
total_output-worth total [] h = omega arith
total_output-worth total (output ∷ outputs) h =
    omega (arith, total_output-worth (add64 total output.value) outputs (omega arith))

total_output-exact : (outputs : List Vout) → total_output 0 outputs ≡ worth outputs % u64_mod
total_output-exact outputs = omega (arith, total_output-worth 0 outputs (omega arith))

-- A confirmed transaction that the client finds, whose outputs are together worth the amount, as u64.
unfoldable pub Pays : {T F : Type 0} → Client T F → ℕ → Bytes → Type 0
Pays client amount tx_hash =
    (tx : TxInfo) × (client.get_tx_info tx_hash ≡ ok (some tx))
    × (tx.confirmed ≡ true)
    × (worth tx.vout % u64_mod ≡ amount)

module _ {T F : Type 0} (client : Client T F) where
  check_info-ok :
      (amount : ℕ) (tx : TxInfo)
      → check_info client amount tx ≡ ok true
      → (tx.confirmed ≡ true) × (worth tx.vout % u64_mod ≡ amount)
  check_info-ok amount tx h =
      let same = ==_iff (total_output 0 tx.vout) amount in
      let exact = total_output-exact tx.vout in ground (arith, same, exact)

  found-ok :
      (amount : ℕ) (tx_hash : Bytes) (found : Option TxInfo)
      → client.get_tx_info tx_hash ≡ ok found
      → and_then (ok_or found "Transaction not found") (check_info client amount) ≡ ok true
      → Pays client amount tx_hash
  unfolding Pays
  found-ok amount tx_hash none seen h = absurd (cc)
  found-ok amount tx_hash (some tx) seen h =
      let paid = check_info-ok amount tx h in (tx, seen, paid.0, paid.1)

  validated-Pays :
      (address : Text) (amount : ℕ) (tx_hash : Bytes)
      → validate_transaction client address amount tx_hash ≡ ok true
      → Pays client amount tx_hash
  unfolding validate_transaction
  validated-Pays address amount tx_hash h = elim (Result-cases (client.get_tx_info tx_hash)) [
    | inl (found, seen) ↦ found-ok amount tx_hash found seen (rw seen at h)
    | inr (e, failed) ↦ absurd (cc)
  ]

  Pays-validated :
      (address : Text) (amount : ℕ) (tx_hash : Bytes)
      → Pays client amount tx_hash
      → validate_transaction client address amount tx_hash ≡ ok true
  unfolding validate_transaction Pays
  Pays-validated address amount tx_hash (tx, seen, confirmed, paid) =
      let same = ==_iff (total_output 0 tx.vout) amount in
      let exact = total_output-exact tx.vout in rw (seen, confirmed, same.1 (exact ∙ paid)) refl

  -- A deposit is verified, for whatever address, exactly if the client finds the transaction, which is
  -- confirmed, and all its outputs together are worth the amount, as u64.
  pub validate_transaction_lem :
      (address : Text) (amount : ℕ) (tx_hash : Bytes)
      → (validate_transaction client address amount tx_hash ≡ ok true) ↔ Pays client amount tx_hash
  validate_transaction_lem address amount tx_hash =
      (validated-Pays address amount tx_hash, Pays-validated address amount tx_hash)
