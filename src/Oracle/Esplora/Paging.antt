-- ===== src/Oracle/Esplora/Paging.antt =====
-- crates/oracle/src/esplora.rs: the search of confirmed transactions ends.
use threshold.Prelude.{
  ℕ, zero, suc, ◌<◌, ◌≡◌, refl, true, false, Bool, Option, none, some, List, [], ◌∷◌, ◌++◌, Bytes,
  Result, ok, err, if◌then◌else◌, Memᴰ, error, arith, Result-cases, inl, inr, not, ◌&&◌,
}
use threshold.Oracle.Esplora.{
  TxInfo, Client, last_of, confirmed_of_page, confirmed_pages, after_page, add_page, is_older,
  add_address, confirmed_of_all, get_confirmed_transactions, min32, sub32,
}

-- Each page that is asked for next comes later in what the server has for the script.
unfoldable pub PagesAdvance : {T F : Type 0} → Client T F → (Bytes → Option Bytes → ℕ) → Type 0
PagesAdvance client rank =
    (script : Bytes) (last_seen : Option Bytes) (tx : TxInfo) (txs : List TxInfo)
    → client.scripthash_txs script last_seen ≡ ok (tx ∷ txs)
    → rank script (some (last_of tx txs).txid) < rank script last_seen

stop_or_add-some :
    {A : Type 0} (stop : Bool) (found : List A) {rest : Option (Result (List A))}
    (r : Result (List A))
    → rest ≡ some r
    → (s : Result (List A)) × ((if stop then some (ok found) else add_page found rest) ≡ some s)
stop_or_add-some true found r h = (ok found, refl)
stop_or_add-some false found (ok more) h = (ok (found ++ more), rw h refl)
stop_or_add-some false found (err e) h = (err e, rw h refl)

add_address-some :
    {A : Type 0} (here rest : Result (List A))
    → (s : Result (List A)) × (add_address (some here) (some rest) ≡ some s)
add_address-some (ok found) rest = (_, refl)
add_address-some (err e) rest = (err e, refl)

module _ {T F : Type 0} (client : Client T F) where
  after_page-some :
      (min_height max_height : ℕ) (last : TxInfo) (page : Result (List T × Bool))
      {rest : Option (Result (List T))} {r : Result (List T)}
      → rest ≡ some r
      → (s : Result (List T)) × (after_page client min_height max_height last page rest ≡ some s)
  after_page-some min_height max_height last (err e) h = (err e, refl)
  after_page-some min_height max_height last (ok (found, any)) {rest} {r} h =
      stop_or_add-some (not any && is_older min_height last.block_height) found r h

  confirmed_pages-some :
      (rank : Bytes → Option Bytes → ℕ)
      → PagesAdvance client rank
      → (min_height max_height fuel : ℕ) (script : Bytes) (last_seen : Option Bytes)
      → rank script last_seen < fuel
      → (s : Result (List T)) × (confirmed_pages client min_height max_height fuel script last_seen
          ≡ some s)
  unfolding confirmed_pages PagesAdvance
  confirmed_pages-some rank advance min_height max_height zero script last_seen h =
      absurd (omega arith)
  confirmed_pages-some rank advance min_height max_height (suc fuel) script last_seen h =
      elim (Result-cases (client.scripthash_txs script last_seen)) [
        | inr (e, failed) ↦ (
          err (error "Cannot retrieve transactions for address"),
          rw (failed, confirmed_pages) refl,
        )
        | inl ([], found) ↦ (ok [], rw (found, confirmed_pages) refl)
        | inl (tx ∷ txs, found) ↦
            let more =
              confirmed_pages-some rank advance min_height max_height fuel script
                (some (last_of tx txs).txid)
                (let a = advance script last_seen tx txs found in omega arith) in
            let all =
              after_page-some min_height max_height (last_of tx txs)
                (confirmed_of_page client min_height max_height (tx ∷ txs)) more.1 in
            (all.0, rw (found, confirmed_pages) all.1)
      ]

  confirmed_of_all-some :
      (rank : Bytes → Option Bytes → ℕ)
      → PagesAdvance client rank
      → (fuel min_height max_height : ℕ) (scripts : List Bytes)
      → ((script : Bytes) → Memᴰ script scripts → rank script none < fuel)
      → (s : Result (List T)) × (confirmed_of_all client fuel min_height max_height scripts
          ≡ some s)
  unfolding confirmed_of_all
  confirmed_of_all-some rank advance fuel min_height max_height [] h = (_, refl)
  confirmed_of_all-some rank advance fuel min_height max_height (script ∷ scripts) h =
      let here =
        confirmed_pages-some rank advance min_height max_height fuel script none
          (h script (Memᴰ.head refl)) in
      let rest =
        confirmed_of_all-some rank advance fuel min_height max_height scripts
          (λ s m. h s (Memᴰ.tail m)) in
      let all = add_address-some here.0 rest.0 in (all.0, rw (here.1, rest.1) all.1)

  -- If each page that is asked for comes later in what the server has for an address, the search of
  -- confirmed transactions ends, with a result or an error, on fuel for more pages than there are for any
  -- address.
  pub get_confirmed_transactions-some :
      (rank : Bytes → Option Bytes → ℕ)
      → PagesAdvance client rank
      → (confirmation_depth fuel : ℕ) (addresses : List Bytes) (min_height max_height : ℕ)
      → ((script : Bytes) → Memᴰ script addresses → rank script none < fuel)
      → (s : Result (List T)) × (get_confirmed_transactions client confirmation_depth fuel addresses
            min_height max_height
          ≡ some s)
  unfolding get_confirmed_transactions
  get_confirmed_transactions-some rank advance confirmation_depth fuel addresses min_height
        max_height h =
      elim (Result-cases client.get_height) [
        | inr (e, failed) ↦ (err (error "Cannot retrieve height of blockchain"), rw failed refl)
        | inl (height, found) ↦
            let all =
              confirmed_of_all-some rank advance fuel min_height
                (min32 client max_height (sub32 client height confirmation_depth)) addresses h in
            (all.0, rw found all.1)
      ]
