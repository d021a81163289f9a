-- ===== src/Wallet/Coins.antt =====
-- crates/node/src/wallet/taproot.rs: the coins of a wallet and their selection. `A` is
-- `bitcoin::Address`. The wallet's oracle, network and database play no part here.
use threshold.Prelude.{
  ℕ, Option, none, some, List, [], ◌∷◌, Ord, nat_eq, list_eq, leb, ltb, add64, sort_by_key,
  if◌then◌else◌, nat_leb_total, nat_leb_trans, nat_leb_antisymm,
}
use threshold.Abci.Db.{Utxo}

pub record TrackedUtxo (A : Type 0) : Type 0 where
  pub utxo : Utxo
  pub address : A

pub record TaprootWallet (A : Type 0) : Type 0 where
  pub addresses : List A
  pub utxos : List (TrackedUtxo A)

-- The largest first: `b.cmp(&a)`.
abbrev pub descending : Ord ℕ
descending = record {
  ord_leb = λ a b. leb b a;
  leb_total = λ a b. nat_leb_total b a;
  leb_trans = λ a b c h k. nat_leb_trans c b a k h;
  leb_antisymm = λ a b h k. nat_leb_antisymm a b k h;
}

module _ {A : Type 0} where
  abbrev pub value_of : TrackedUtxo A → ℕ
  value_of u = u.utxo.value

  -- The loop of `select_utxos`: what it selects, and the sum that it keeps.
  unfoldable pub select_loop : (target total : ℕ) → List (TrackedUtxo A) → List (TrackedUtxo A) × ℕ
  select_loop target total [] = ([], total)
  select_loop target total (u ∷ us) =
      let (selected, sum) = select_loop target (add64 total (value_of u)) us in
      if ltb total target then (u ∷ selected, sum) else ([], total)

  abbrev pub sorted_coins : List (TrackedUtxo A) → List (TrackedUtxo A)
  sorted_coins us = sort_by_key ⦃o = descending⦄ value_of us

  unfoldable pub select_utxos : TaprootWallet A → ℕ → Option (List (TrackedUtxo A))
  unfolding select_loop
  select_utxos w target =
      let (selected, total) = select_loop target 0 (sorted_coins w.utxos) in
      if leb target total then some selected else none
