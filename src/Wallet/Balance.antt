-- ===== src/Wallet/Balance.antt =====
-- taproot.rs: what goes into a spend and what comes out.
use threshold.Prelude.{
  ℕ, ◌+◌, ◌-◌, ◌≤◌, ◌<◌, ◌≡◌, ap, ◌∙◌, refl, arith, inl, inr, Bool, true, Bool-cases, Option-cases,
  none, some, List, [], ◌∷◌, ◌++◌, map, Bytes, Permᴰ, Ord, ltb, add64, u64_mod, ok, err, error,
}
use threshold.Prelude.Moves.{Preorder, Moves, moves_rules}
use threshold.Wallet.Coins.{TrackedUtxo, TaprootWallet, value_of, select_utxos}
use threshold.Wallet.Selection.{worth, worth-append, worth-perm, select_utxos_lem}
use threshold.Wallet.Spend.{
  TxOut, BitcoinTransaction, Bitcoin, sub64, input_sum, spent_input, change_address_of,
  change_output, spend_transaction, create_spend,
}

abbrev pub paid : List TxOut → ℕ
paid [] = 0
paid (out ∷ outs) = out.value + paid outs

module _ {A : Type 0} where
  input_sum-worth :
      (acc : ℕ) (us : List (TrackedUtxo A))
      → acc + worth us < u64_mod
      → input_sum acc us ≡ acc + worth us
  input_sum-worth acc [] h = omega arith
  input_sum-worth acc (u ∷ us) h =
      omega (arith, input_sum-worth (add64 acc (value_of u)) us (omega arith))

abbrev SameWallet : {A : Type 0} → TaprootWallet A → TaprootWallet A → Type 0
SameWallet v w = w ≡ v

SameWallet-preorder : {A : Type 0} → Preorder (SameWallet {A = A})
SameWallet-preorder = record { stay = λ v. refl; chain = λ u v w h k. k ∙ h }

module _ {A : Type 0} ⦃o : Ord A⦄ (b : Bitcoin A) where
  create_spend-SameWallet :
      (amount_sat estimated_fee_sat : ℕ) (recipient : A)
      → Moves SameWallet (create_spend b amount_sat estimated_fee_sat recipient true)
  unfolding create_spend
  create_spend-SameWallet amount_sat estimated_fee_sat recipient =
      search (moves_rules, SameWallet-preorder) depth 14

  -- A dry run leaves the wallet as it was, whether it fails or not.
  pub create_spend-dry_run :
      (amount_sat estimated_fee_sat : ℕ) (recipient : A) (w : TaprootWallet A)
      → (create_spend b amount_sat estimated_fee_sat recipient true w).1 ≡ w
  create_spend-dry_run amount_sat estimated_fee_sat recipient w =
      (create_spend-SameWallet amount_sat estimated_fee_sat recipient).at w

  create_spend-poor :
      (amount_sat estimated_fee_sat : ℕ) (recipient : A) (dry_run : Bool) (w : TaprootWallet A)
      → select_utxos w (add64 amount_sat estimated_fee_sat) ≡ none
      → create_spend b amount_sat estimated_fee_sat recipient dry_run w
        ≡ (err (error "Not enough funds to create transaction"), w)
  unfolding create_spend
  create_spend-poor amount_sat estimated_fee_sat recipient dry_run w h = rw (h, create_spend) refl

  create_spend-made :
      (amount_sat estimated_fee_sat : ℕ) (recipient : A) (dry_run : Bool) (w : TaprootWallet A)
      {selected : List (TrackedUtxo A)} {tx : BitcoinTransaction} {sighash : Bytes}
      → select_utxos w (add64 amount_sat estimated_fee_sat) ≡ some selected
      → (create_spend b amount_sat estimated_fee_sat recipient dry_run w).0 ≡ ok (tx, sighash)
      → (change_address : A) × (tx
          ≡ spend_transaction b selected amount_sat recipient change_address
              (sub64 (sub64 (input_sum 0 selected) amount_sat) estimated_fee_sat))
  unfolding create_spend
  create_spend-made amount_sat estimated_fee_sat recipient dry_run w {selected} h made =
      elim (Option-cases (change_address_of w.utxos)) [
        | inl missing ↦ absurd (ground arith)
        | inr (a, found) ↦ (a, ground arith)
      ]

module _ {A : Type 0} (b : Bitcoin A) where
  change_output-paid :
      (change_address : A) (change_sat : ℕ)
      → (dust : ℕ) × (dust ≤ 546)
        × (change_sat ≡ paid (change_output b change_address change_sat) + dust)
  change_output-paid change_address change_sat = elim (Bool-cases (ltb 546 change_sat)) [
    | inl large ↦ (0, omega arith, rw large (omega arith))
    | inr small ↦ (change_sat, ground arith, rw small (omega arith))
  ]

sub64-twice :
    (total a f : ℕ) → total < u64_mod → a + f ≤ total → sub64 (sub64 total a) f ≡ total - (a + f)
sub64-twice total a f h k = omega arith

module _ {A : Type 0} ⦃o : Ord A⦄ (b : Bitcoin A) where
  -- A spend that succeeds takes coins of the wallet, none twice, and what they are worth is what the
  -- outputs pay, the fee and a rest of at most 546 that is not worth an output. The sum of the amount
  -- and the fee, and what the coins of the wallet are worth, are below 2 ^ 64.
  pub create_spend-balance :
      (amount_sat estimated_fee_sat : ℕ) (recipient : A) (dry_run : Bool) (w : TaprootWallet A)
      {tx : BitcoinTransaction} {sighash : Bytes}
      → amount_sat + estimated_fee_sat < u64_mod
      → worth w.utxos < u64_mod
      → (create_spend b amount_sat estimated_fee_sat recipient dry_run w).0 ≡ ok (tx, sighash)
      → (selected : List (TrackedUtxo A)) × (rest : List (TrackedUtxo A)) × (dust : ℕ) × Permᴰ
          (selected ++ rest)
          w.utxos
        × (tx.input ≡ map spent_input selected)
        × (dust ≤ 546)
        × (worth selected ≡ paid tx.output + estimated_fee_sat + dust)
  unfolding spend_transaction
  create_spend-balance amount_sat estimated_fee_sat recipient dry_run w fits bound made =
      elim (select_utxos_lem w (add64 amount_sat estimated_fee_sat) bound) [
        | inr (nothing, poor) ↦
            let refused =
              create_spend-poor b amount_sat estimated_fee_sat recipient dry_run w nothing in
            absurd (cc)
        | inl (selected, rest, found, part, covers) ↦
            let (change_address, form) =
              create_spend-made b amount_sat estimated_fee_sat recipient dry_run w found made in
            let below : worth selected < u64_mod =
              omega (arith, worth-append selected rest, worth-perm part) in
            let all_of_it : input_sum 0 selected ≡ worth selected =
              omega (arith, input_sum-worth 0 selected (omega arith)) in
            let change : ℕ = sub64 (sub64 (input_sum 0 selected) amount_sat) estimated_fee_sat in
            let exact : change ≡ worth selected - (amount_sat + estimated_fee_sat) =
              ap (λ n. sub64 (sub64 n amount_sat) estimated_fee_sat) all_of_it
              ∙ sub64-twice (worth selected) amount_sat estimated_fee_sat below (omega arith) in
            let (dust, small, left) = change_output-paid b change_address change in
            (
              selected,
              rest,
              dust,
              part,
              ap (λ t. t.input) form,
              small,
              omega (arith, ap (λ t. paid t.output) form, left, exact),
            )
      ]

  -- A wallet whose coins are worth less than the amount and the fee refuses the spend and keeps its
  -- coins; the sum of the amount and the fee is below 2 ^ 64.
  pub create_spend-refused :
      (amount_sat estimated_fee_sat : ℕ) (recipient : A) (dry_run : Bool) (w : TaprootWallet A)
      → amount_sat + estimated_fee_sat < u64_mod
      → worth w.utxos < amount_sat + estimated_fee_sat
      → create_spend b amount_sat estimated_fee_sat recipient dry_run w
        ≡ (err (error "Not enough funds to create transaction"), w)
  create_spend-refused amount_sat estimated_fee_sat recipient dry_run w fits poor =
      elim (select_utxos_lem w (add64 amount_sat estimated_fee_sat) (omega arith)) [
        | inl (selected, rest, found, part, covers) ↦
            absurd (omega (arith, worth-append selected rest, worth-perm part))
        | inr (nothing, short) ↦
            create_spend-poor b amount_sat estimated_fee_sat recipient dry_run w nothing
      ]
