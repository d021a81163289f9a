-- ===== src/Oracle/Esplora/Tests.antt =====
-- A server that has one confirmed transaction, on one page.
use threshold.Prelude.{
  list_eq, nat_eq, ◌==◌, if◌then◌else◌, from_utf8, ℕ, ◌≡◌, refl, true, false, Option, none, some,
  List, [], ◌∷◌, Bytes, Result, ok, err, error, arith,
}
use threshold.Oracle.Esplora.{TxInfo, Client, validate_transaction, get_confirmed_transactions}
use threshold.Oracle.Esplora.Paging.{PagesAdvance, get_confirmed_transactions-some}
use threshold.Oracle.Esplora.Validation.{Pays, validate_transaction_lem}
use threshold.Prelude.Dict.{lookup}
use threshold.Protocol.Transaction.{create_deposit_transaction}
use threshold.Abci.ChainState.{get_account}
use threshold.Abci.Executor.{execute_transaction}
use threshold.Abci.Executor.Effects.{account_of, credited}
use threshold.Samples.{alice, bob, two_accounts, idle, metadata}
use threshold.Oracle.Polling.{Polling, poll_height, Forward, poll_height-Forward}
use threshold.Oracle.Credits.{esplora_oracle, esplora-deposit_credits}

abbrev payment : TxInfo
payment = record {
  txid = 9 ∷ [];
  vout =
      record { value = 30; scriptpubkey = 1 ∷ [] }
      ∷ record { value = 12; scriptpubkey = 2 ∷ [] }
      ∷ [];
  confirmed = true;
  block_height = some 50;
}

abbrev first_page : Option Bytes → Result (List TxInfo)
first_page none = ok (payment ∷ [])
first_page (some txid) = ok []

abbrev server : Client ℕ ℕ
server = record {
  get_tx_info = λ txid. ok (some payment);
  get_fee_estimates = ok [];
  scripthash_txs = λ script last_seen. first_page last_seen;
  get_tx = λ txid. ok (some 5);
  get_tx_status = λ txid. ok true;
  get_output_status = λ txid vout. ok (some false);
  get_height = ok 60;
  outputs = λ tx. payment.vout;
  reencode = λ tx. ok tx;
}

-- The output that pays address 2 is worth 12, and the change 30.
validate_transaction_example : validate_transaction server (7 ∷ []) 42 (9 ∷ []) ≡ ok true
unfolding Pays
validate_transaction_example =
    (validate_transaction_lem server (7 ∷ []) 42 (9 ∷ [])).1 (payment, refl, refl, refl)

own_output_refused :
    validate_transaction server (2 ∷ []) 12 (9 ∷ [])
    ≡ err (error "Transaction output value mismatch")
unfolding validate_transaction
own_output_refused = refl

abbrev pages_left : Option Bytes → ℕ
pages_left none = 1
pages_left (some txid) = 0

server_advances : PagesAdvance server (λ script last_seen. pages_left last_seen)
unfolding PagesAdvance
server_advances script none tx txs h = omega arith
server_advances script (some txid) tx txs h = absurd (cc)

found_once : get_confirmed_transactions server 6 2 ((1 ∷ []) ∷ []) 40 100 ≡ some (ok (5 ∷ []))
unfolding get_confirmed_transactions
found_once = refl

get_confirmed_transactions-some_example :
    (s : Result (List ℕ)) × (get_confirmed_transactions server 6 2 ((1 ∷ []) ∷ []) 40 100 ≡ some s)
get_confirmed_transactions-some_example =
    get_confirmed_transactions-some server (λ script last_seen. pages_left last_seen)
      server_advances 6 2 ((1 ∷ []) ∷ []) 40 100 (λ script m. omega arith)

-- No output of the payment is Alice's.
esplora-deposit_credits_example :
    let (r, e') =
      execute_transaction
        (esplora_oracle server (λ bs. ok bs))
        (create_deposit_transaction metadata 5 alice 42)
        two_accounts
        idle in
    (r ≡ ok e'.new_chain_state)
    × (get_account e'.new_chain_state bob ≡ (
        if alice == bob
        then some (credited (account_of two_accounts alice) 42)
        else get_account two_accounts bob))
unfolding lookup from_utf8 Pays
esplora-deposit_credits_example =
    esplora-deposit_credits server (λ bs. ok bs) metadata two_accounts idle 5 alice 42 {h = 5 ∷ []}
      bob (omega arith) refl refl (payment, refl, refl, refl) (omega arith) (omega arith)

abbrev watching : Polling
watching = record { last_confirmed_height = 30; addresses = (1 ∷ []) ∷ [] }

sent_on :
    poll_height server 6 0 2 watching
    ≡ some (5 ∷ [], record watching { last_confirmed_height = 54 })
unfolding poll_height
sent_on = refl

poll_height-Forward_example :
    (turn : List ℕ × Polling) × (poll_height server 6 0 2 watching ≡ some turn)
    × Forward server 6 0 watching turn
poll_height-Forward_example =
    poll_height-Forward server 6 0 (λ script last_seen. pages_left last_seen) server_advances 2
      watching (λ script m. omega arith)
