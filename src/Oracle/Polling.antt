-- ===== src/Oracle/Polling.antt =====
-- crates/oracle/src/esplora.rs: the loop that looks for deposits, `poll_new_transactions`, one turn at a time.
-- Each turn is started by the timer or by a deposit intent that arrives.
use threshold.Prelude.{
  ℕ, ◌≡◌, ◌≤◌, ◌<◌, refl, Bool, true, false, Option, none, some, List, [], ◌∷◌, Bytes, Result, ok,
  err, ltb, add32, if◌then◌else◌, contains, list_eq, nat_eq, inl, inr, ◌⊎◌, arith, Memᴰ,
}
use threshold.Oracle.Esplora.{Client, sub32, get_confirmed_transactions}
use threshold.Oracle.Esplora.Paging.{PagesAdvance, get_confirmed_transactions-some}

-- What `poll_new_transactions` keeps between two turns of its loop. An address is its script.
pub record Polling : Type 0 where
  pub last_confirmed_height : ℕ
  pub addresses : List Bytes

module _ {T F : Type 0} (client : Client T F) (confirmation_depth monitor_start_block : ℕ) where
  -- The loop starts if the height is known.
  unfoldable pub start_polling : (addresses : List Bytes) → Option Polling
  start_polling addresses = elim client.get_height [
    | ok height ↦ some (record {
      last_confirmed_height = sub32 client height confirmation_depth;
      addresses = addresses;
    })
    | err e ↦ none
  ]

  abbrev pub first_height : Polling → ℕ
  first_height p =
      if ltb 0 monitor_start_block then monitor_start_block else add32 p.last_confirmed_height 1

  -- The transactions that are sent on as ConfirmDeposit, and the state after the turn.
  abbrev pub after_search :
      (new_confirmed_height : ℕ) → Polling → Option (Result (List T)) → Option (List T × Polling)
  after_search new_confirmed_height p none = none
  after_search new_confirmed_height p (some (err e)) = some ([], p)
  after_search new_confirmed_height p (some (ok new_txs)) =
      some (new_txs, record p { last_confirmed_height = new_confirmed_height })

  -- For what the client says of the height.
  unfoldable pub poll_at : (fuel : ℕ) → Polling → Result ℕ → Option (List T × Polling)
  unfolding get_confirmed_transactions
  poll_at fuel p (err e) = some ([], p)
  poll_at fuel p (ok current_height) =
      let new_confirmed_height = sub32 client current_height confirmation_depth in
      if ltb p.last_confirmed_height new_confirmed_height
      then after_search new_confirmed_height p (
          get_confirmed_transactions client confirmation_depth fuel p.addresses (first_height p)
            new_confirmed_height)
      else some ([], p)

  -- The turn that the timer starts.
  unfoldable pub poll_height : (fuel : ℕ) → Polling → Option (List T × Polling)
  unfolding poll_at
  poll_height fuel p = poll_at fuel p client.get_height

  -- The turn that a deposit intent starts.
  unfoldable pub watch_deposit : (deposit_address : Bytes) → Polling → Polling
  watch_deposit deposit_address p =
      if contains p.addresses deposit_address
      then p
      else record p { addresses = deposit_address ∷ p.addresses }

module _ {T F : Type 0} (client : Client T F) (confirmation_depth monitor_start_block : ℕ) where
  -- What a turn of the timer leaves: it keeps the addresses and never goes back, and goes forward if it
  -- sends anything.
  unfoldable pub Forward : Polling → List T × Polling → Type 0
  Forward p (sent, after) =
      (after.addresses ≡ p.addresses)
      × (p.last_confirmed_height ≤ after.last_confirmed_height)
      × ((sent ≡ []) ⊎ (p.last_confirmed_height < after.last_confirmed_height))

  after_search-Forward :
      (height : ℕ) (p : Polling) {search : Option (Result (List T))} (found : Result (List T))
      → p.last_confirmed_height < height
      → search ≡ some found
      → (turn : List T × Polling) × (after_search client confirmation_depth monitor_start_block
            height p search
          ≡ some turn)
        × Forward p turn
  unfolding Forward
  after_search-Forward height p (ok new_txs) later h = (
    (new_txs, record p { last_confirmed_height = height }),
    rw h refl,
    (refl, omega arith, inr later),
  )
  after_search-Forward height p (err e) later h =
      (([], p), rw h refl, (refl, omega arith, inl refl))

  stays : (p : Polling) → Forward p ([], p)
  unfolding Forward
  stays p = (refl, omega arith, inl refl)

  if_later-Forward :
      (later : Bool) (height : ℕ) (p : Polling) {search : Option (Result (List T))}
      (found : Result (List T))
      → (later ≡ true → p.last_confirmed_height < height)
      → search ≡ some found
      → (turn : List T × Polling) × ((if later
            then after_search client confirmation_depth monitor_start_block height p search
            else some ([], p))
          ≡ some turn)
        × Forward p turn
  if_later-Forward true height p found above h = after_search-Forward height p found (above refl) h
  if_later-Forward false height p found above h = (([], p), refl, stays p)

  poll_at-Forward :
      (rank : Bytes → Option Bytes → ℕ)
      → PagesAdvance client rank
      → (fuel : ℕ) (p : Polling) (answer : Result ℕ)
      → ((script : Bytes) → Memᴰ script p.addresses → rank script none < fuel)
      → (turn : List T × Polling) × (poll_at client confirmation_depth monitor_start_block fuel p
            answer
          ≡ some turn)
        × Forward p turn
  unfolding poll_at
  poll_at-Forward rank advance fuel p (err e) enough = (([], p), refl, stays p)
  poll_at-Forward rank advance fuel p (ok height) enough =
      let confirmed = sub32 client height confirmation_depth in
      let found =
        get_confirmed_transactions-some client rank advance confirmation_depth fuel p.addresses
          (first_height client confirmation_depth monitor_start_block p) confirmed enough in
      if_later-Forward (ltb p.last_confirmed_height confirmed) confirmed p found.0
        (λ h. ground arith) found.1

  -- If each page that is asked for comes later in what the server has for an address, a turn of the timer
  -- ends, on fuel for more pages than there are for any address that is watched: it keeps the addresses,
  -- the height that it has searched to does not fall, and it rises if anything is sent.
  pub poll_height-Forward :
      (rank : Bytes → Option Bytes → ℕ)
      → PagesAdvance client rank
      → (fuel : ℕ) (p : Polling)
      → ((script : Bytes) → Memᴰ script p.addresses → rank script none < fuel)
      → (turn : List T × Polling) × (poll_height client confirmation_depth monitor_start_block fuel
            p
          ≡ some turn)
        × Forward p turn
  unfolding poll_height
  poll_height-Forward rank advance fuel p enough =
      poll_at-Forward rank advance fuel p client.get_height enough
