-- ===== src/Wallet/Selection.antt =====
-- taproot.rs: what the selection of coins owes.
use threshold.Prelude.{
  ℕ, ◌+◌, ◌≤◌, ◌<◌, ◌≡◌, ap, ◌∙◌, refl, arith, ◌⊎◌, inl, inr, Bool-cases, none, some, List, [], ◌∷◌,
  ◌++◌, Permᴰ, leb, ltb, add64, u64_mod,
}
use threshold.Prelude.Sorting.{sort_by_key-Perm}
use threshold.Wallet.Coins.{
  TrackedUtxo, TaprootWallet, value_of, select_loop, select_utxos, sorted_coins, descending,
}

module _ {A : Type 0} where
  -- The coins' values together, without a bound.
  abbrev pub worth : List (TrackedUtxo A) → ℕ
  worth [] = 0
  worth (u ∷ us) = value_of u + worth us

  pub worth-append : (us vs : List (TrackedUtxo A)) → worth (us ++ vs) ≡ worth us + worth vs
  worth-append [] vs = omega arith
  worth-append (u ∷ us) vs = omega (arith, worth-append us vs)

  pub worth-perm : {us vs : List (TrackedUtxo A)} → Permᴰ us vs → worth us ≡ worth vs
  worth-perm Permᴰ.nil = refl
  worth-perm (Permᴰ.cons e p) = omega (arith, worth-perm p, ap value_of e)
  worth-perm (Permᴰ.swap e f) = omega (arith, ap value_of e, ap value_of f)
  worth-perm (Permᴰ.trans p q) = worth-perm p ∙ worth-perm q

  -- What a run of the loop selects: a first part of the coins, that reaches the target or is all.
  record Selected (target total : ℕ) (us selected : List (TrackedUtxo A)) (sum : ℕ) : Type 0 where
    rest : List (TrackedUtxo A)
    first_part : selected ++ rest ≡ us
    sum_kept : sum ≡ total + worth selected
    enough : (target ≤ sum) ⊎ (rest ≡ [])

  select_loop-Selected :
      (target total : ℕ) (us : List (TrackedUtxo A))
      → total + worth us < u64_mod
      → let (selected, sum) = select_loop target total us in Selected target total us selected sum
  unfolding select_loop
  select_loop-Selected target total [] h = record {
    rest = [];
    first_part = refl;
    sum_kept = omega arith;
    enough = inr refl;
  }
  select_loop-Selected target total (u ∷ us) h = elim (Bool-cases (ltb total target)) [
    | inl short ↦
        let more = select_loop-Selected target (add64 total (value_of u)) us (omega arith) in
        rw short (record {
          rest = more.rest;
          first_part = ap (λ vs. u ∷ vs) more.first_part;
          sum_kept = omega (arith, more.sum_kept);
          enough = more.enough;
        })
    | inr reached ↦ rw reached (record {
      rest = u ∷ us;
      first_part = refl;
      sum_kept = omega arith;
      enough = inl (ground arith);
    })
  ]

  all_worth :
      {target : ℕ} {us selected : List (TrackedUtxo A)} {sum : ℕ}
      → Selected target 0 us selected sum
      → sum < target
      → worth us < target
  all_worth {selected} s short = elim s.enough [
    | inl reached ↦ absurd (omega arith)
    | inr nothing ↦
        omega
          (arith, worth-append selected s.rest, ap worth s.first_part, ap worth nothing, s.sum_kept)
  ]

  -- A selection takes coins of the wallet, none twice, that are worth the target; there is none
  -- exactly if all the wallet's coins are worth less than the target. The coins together are worth
  -- less than 2 ^ 64.
  pub select_utxos_lem :
      (w : TaprootWallet A) (target : ℕ)
      → worth w.utxos < u64_mod
      → ((selected : List (TrackedUtxo A)) × (rest : List (TrackedUtxo A)) × (select_utxos w target
            ≡ some selected)
          × Permᴰ (selected ++ rest) w.utxos
          × (target ≤ worth selected))
        ⊎ ((select_utxos w target ≡ none) × (worth w.utxos < target))
  unfolding select_utxos
  select_utxos_lem w target h =
      let coins = sorted_coins w.utxos in
      let sorted = sort_by_key-Perm ⦃o = descending⦄ value_of w.utxos in
      let (selected, sum) = select_loop target 0 coins in
      let found = select_loop-Selected target 0 coins (omega (arith, worth-perm sorted)) in
      elim (Bool-cases (leb target sum)) [
        | inl reached ↦ inl (
          selected,
          found.rest,
          rw (reached, select_utxos) refl,
          rw found.first_part sorted,
          ground (arith, found.sum_kept),
        )
        | inr short ↦ inr (
          rw (short, select_utxos) refl,
          omega (arith, worth-perm sorted, all_worth found (ground arith)),
        )
      ]
