-- ===== src/Consensus/Once.antt =====
-- consensus_interface.rs: how often a node asks its chain to finalize a block.
use threshold.Prelude.{
  ℕ, ◌+◌, ◌≤◌, ◌≡◌, ◌∙◌, refl, arith, Bool, true, false, not, ◌&&◌, Option, none, some, List, [],
  ◌∷◌, Bytes, Eq, nat_eq, contains, Result, ok, err, Action, lift, then_do, ◌>>=◌, if◌then◌else◌,
}
use threshold.Prelude.Moves.{Moves}
use threshold.Protocol.Block.{Block}
use threshold.Abci.Messages.{ChainMessage}
use threshold.Types.Consensus as Net
use threshold.Types.Consensus.{Vote, VoteType, prevote, precommit}
use threshold.Consensus.Engine.{
  Env, Engine, Channel, set_state, send_broadcast, ask_chain, ask_on, send_on, get_proposed_block,
  finalize_block, peer_bytes,
}
use threshold.Consensus.Voting.{
  has_quorum, handle_vote, process_vote, process_prevote_vote, process_precommit_vote, finalize_own,
  vote_now,
}

abbrev finalizes : {J K : Type 0} → ChainMessage J K → ℕ
finalizes (ChainMessage.finalize_block block) = 1
finalizes _ = 0

-- The same surroundings, with a count of the blocks that the chain was asked to finalize.
abbrev pub counting : {P S J K : Type 0} → Env P S J K → Env P (S × ℕ) J K
counting env = record {
  to_bytes = env.to_bytes;
  from_bytes = env.from_bytes;
  serialize = env.serialize;
  deserialize = env.deserialize;
  ask = λ message (s, n). let (r, s') = env.ask message s in (r, (s', n + finalizes message));
}

abbrev requests_of : {S : Type 0} → Option (S × ℕ) → ℕ
requests_of none = 0
requests_of (some (s, n)) = n

abbrev pub requests : {P S : Type 0} → Engine P (S × ℕ) → ℕ
requests e = requests_of e.chain_interface_tx

-- The requests that are left to a round.
abbrev pub left : {P S : Type 0} → Engine P S → ℕ
left e = if e.state.block_finalized then 0 else 1

-- At most `k` requests more, in the same round.
abbrev Adds : {P S : Type 0} → ℕ → Engine P (S × ℕ) → Engine P (S × ℕ) → Type 0
Adds k e f = (requests f ≤ requests e + k) × (f.state.block_finalized ≡ e.state.block_finalized)

module _ {P S A B : Type 0} where
  then_do-Adds :
      (j k : ℕ) (e : Engine P (S × ℕ)) (r : Result A) (f : Engine P (S × ℕ))
      (g : A → Action (Engine P (S × ℕ)) B)
      → Adds j e f
      → ((a : A) → Moves (Adds k) (g a))
      → Adds (j + k) e (then_do (r, f) g).1
  then_do-Adds j k e (ok a) f g (h, i) m = let (h', i') = (m a).at f in (omega arith, i' ∙ i)
  then_do-Adds j k e (err x) f g (h, i) m = (omega arith, i)

  bind-Adds :
      (j k : ℕ) (m : Action (Engine P (S × ℕ)) A) (g : A → Action (Engine P (S × ℕ)) B)
      → Moves (Adds j) m
      → ((a : A) → Moves (Adds k) (g a))
      → Moves (Adds (j + k)) (m >>= g)
  bind-Adds j k m g hm hg = record { at = λ e. then_do-Adds j k e (m e).0 (m e).1 g (hm.at e) hg }

module _ {P S : Type 0} where
  lift-Adds : {A : Type 0} (r : Result A) → Moves (Adds {P = P} {S = S} 0) (lift r)
  lift-Adds r = record { at = λ e. (omega arith, refl) }

  send_on-Adds :
      (channel : Option Channel) (message : Net.ConsensusMessage) (e : Engine P (S × ℕ))
      → Adds 0 e (send_on channel message e).1
  send_on-Adds none message e = (omega arith, refl)
  send_on-Adds (some channel) message e = ground arith

module _ {P S J K : Type 0} (env : Env P S J K) where
  ask_on-Adds :
      (chain : Option (S × ℕ)) (message : ChainMessage J K) (e : Engine P (S × ℕ))
      → e.chain_interface_tx ≡ chain
      → Adds (finalizes message) e (ask_on (counting env) chain message e).1
  ask_on-Adds none message e h = (omega arith, refl)
  ask_on-Adds (some (s, n)) message e h = ground arith

  ask_chain-Adds :
      (message : ChainMessage J K)
      → Moves (Adds (finalizes message)) (ask_chain {P = P} (counting env) message)
  unfolding ask_chain
  ask_chain-Adds message = record { at = λ e. ask_on-Adds e.chain_interface_tx message e refl }

  get_proposed_block-Adds :
      (proposer : Bytes) → Moves (Adds 0) (get_proposed_block {P = P} (counting env) proposer)
  unfolding get_proposed_block
  get_proposed_block-Adds proposer =
      bind-Adds 0 0 (ask_chain (counting env) (ChainMessage.get_proposed_block none proposer)) _
        (ask_chain-Adds _) (λ r. lift-Adds _)

  finalize_block-Adds :
      (block : Block J) → Moves (Adds 1) (finalize_block {P = P} (counting env) block)
  unfolding finalize_block
  finalize_block-Adds block =
      bind-Adds 1 0 (ask_chain (counting env) (ChainMessage.finalize_block block)) _
        (ask_chain-Adds _) (λ r. lift-Adds _)

-- No more requests than the round has left.
pub record Spends {P S : Type 0} (e f : Engine P (S × ℕ)) : Type 0 where
  pub spent : requests f + left f ≤ requests e + left e

module _ {P S : Type 0} where
  if-Spends :
      (b : Bool) (e x y : Engine P (S × ℕ))
      → (b ≡ true → Spends e x)
      → (b ≡ false → Spends e y)
      → Spends e (if b then x else y)
  if-Spends true e x y h k = h refl
  if-Spends false e x y h k = k refl

  Spends-from :
      (e e' : Engine P (S × ℕ)) {f : Engine P (S × ℕ)}
      → requests e' ≡ requests e
      → left e' ≡ left e
      → Spends e' f
      → Spends e f
  Spends-from e e' h i s = record { spent = omega (arith, s.spent) }

  Adds-Spends : (e f : Engine P (S × ℕ)) → Adds 0 e f → Spends e f
  Adds-Spends e f (h, i) = record { spent = rw i (omega arith) }

module _ {P S J K : Type 0} ⦃q : Eq P⦄ (env : Env P S J K) where
  finalize_own-Adds : Moves (Adds 1) (finalize_own {P = P} (counting env))
  unfolding finalize_own
  finalize_own-Adds = record {
    at = λ e.
        (let own = peer_bytes env e.peer_id in
            bind-Adds 0 1 (get_proposed_block (counting env) own) _
              (get_proposed_block-Adds env own)
              (λ block.
                bind-Adds 1 0 (finalize_block (counting env) block) _
                  (finalize_block-Adds env block)
                  (λ done. record { at = λ e'. (omega arith, refl) }))).at
          e;
  }

  process_prevote_vote-Spends :
      (sender : P) (vote : Vote) (e : Engine P (S × ℕ))
      → Spends e (process_prevote_vote (counting env) sender vote e)
  unfolding process_prevote_vote send_broadcast
  process_prevote_vote-Spends sender vote e =
      if-Spends (contains e.state.prevotes sender) e e _ (λ old. record { spent = omega arith })
        λ new.
          let e' = set_state (λ st. record st { prevotes = sender ∷ st.prevotes }) e in
          if-Spends (has_quorum e'.state.prevotes e'.state.validators) e _ e'
            (λ enough.
              let message = Net.vote (vote_now (counting env) vote.block_hash precommit e') in
              let after = (send_broadcast message e').1 in
              Spends-from e e' refl refl
                (Adds-Spends e' after (send_on-Adds e.network_events_tx message e')))
            (λ short. record { spent = omega arith })

  finalize_own-Spends :
      (e : Engine P (S × ℕ))
      → e.state.block_finalized ≡ false
      → Spends e
          (finalize_own (counting env) (set_state (λ st. record st { block_finalized = true }) e)).1
  finalize_own-Spends e h =
      let (spent, kept) =
        finalize_own-Adds.at (set_state (λ st. record st { block_finalized = true }) e) in
      record { spent = rw (h, kept) (omega arith) }

  process_precommit_vote-Spends :
      (sender : P) (vote : Vote) (e : Engine P (S × ℕ))
      → Spends e (process_precommit_vote (counting env) sender vote e)
  unfolding process_precommit_vote
  process_precommit_vote-Spends sender vote e =
      if-Spends (contains e.state.precommits sender) e e _ (λ old. record { spent = omega arith })
        λ new.
          let e' = set_state (λ st. record st { precommits = sender ∷ st.precommits }) e in
          if-Spends
            (has_quorum e'.state.precommits e'.state.validators && not e'.state.block_finalized) e _
            e' (λ enough. Spends-from e e' refl refl (finalize_own-Spends e' (ground arith)))
            (λ short. record { spent = omega arith })

  process_vote-Spends :
      (kind : VoteType) (sender : P) (vote : Vote) (e : Engine P (S × ℕ))
      → Spends e (process_vote (counting env) kind sender vote e)
  process_vote-Spends prevote sender vote e = process_prevote_vote-Spends sender vote e
  process_vote-Spends precommit sender vote e = process_precommit_vote-Spends sender vote e

  pub handle_vote-Spends :
      (sender : P) (vote : Vote) (e : Engine P (S × ℕ))
      → Spends e (handle_vote (counting env) sender vote e)
  unfolding handle_vote
  handle_vote-Spends sender vote e =
      if-Spends (contains e.state.validators sender) e _ e
        (λ known. process_vote-Spends vote.vote_type sender vote e)
        (λ unknown. record { spent = omega arith })

  -- The votes that arrive one after the other.
  unfoldable pub handle_votes : List (P × Vote) → Engine P (S × ℕ) → Engine P (S × ℕ)
  unfolding handle_vote
  handle_votes [] e = e
  handle_votes ((sender, vote) ∷ votes) e =
      handle_votes votes (handle_vote (counting env) sender vote e)

  -- Whatever votes arrive in a round, a node asks its chain to finalize at most one block, and
  -- none if it finalized one before.
  pub handle_votes-once :
      (votes : List (P × Vote)) (e : Engine P (S × ℕ))
      → requests (handle_votes votes e) + left (handle_votes votes e) ≤ requests e + left e
  unfolding handle_votes
  handle_votes-once [] e = omega arith
  handle_votes-once ((sender, vote) ∷ votes) e = omega (
    arith,
    (handle_vote-Spends sender vote e).spent,
    handle_votes-once votes (handle_vote (counting env) sender vote e),
  )
