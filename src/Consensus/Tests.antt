-- ===== src/Consensus/Tests.antt =====
-- The theorems about the consensus, each at a concrete input: three validators, 1, 2 and 3, where node
-- 1 has no other surroundings than a chain that always proposes the same block.
use threshold.Prelude.{
  ℕ, ◌+◌, ◌*◌, ◌≤◌, ◌<◌, ◌≡◌, ◌⊎◌, refl, true, false, none, some, List, [], ◌∷◌, Bytes, Memᴰ, Permᴰ,
  nat_eq, nat_ord, Result, ok, err, error,
}
use threshold.Protocol.Block.{Block}
use threshold.Abci.Messages.{ChainMessage, ChainResponse}
use threshold.Types.Consensus.{Vote, precommit}
use threshold.Consensus.State.{ConsensusState, waiting_for_propose, select_leader}
use threshold.Consensus.Messages.{ConsensusMessage}
use threshold.Consensus.Engine.{Env, Engine}
use threshold.Consensus.Voting.{handle_vote, has_quorum}
use threshold.Consensus.Handler.{handle_message}
use threshold.Consensus.Leader.{select_leader-perm, select_leader-fair}
use threshold.Consensus.Votes.{IsValid, AreVotes-nil}
use threshold.Consensus.Votes.Messages.{handle_message-IsValid}
use threshold.Consensus.Quorum.{has_quorum_lem}
use threshold.Consensus.Precommits.{handle_votes-finalizes}
use threshold.Consensus.Heard.{Heard, Reaches, voted, announced, hear_all, hear_all-once}
use threshold.Consensus.Once.{handle_votes, handle_votes-once, requests, left}
use threshold.Consensus.Duplicates.{handle_vote-again}
use threshold.Prelude.{arith}
use threshold.Consensus.Forward.{handle_message-forward}
use threshold.Prelude.{◌≤◌}
use threshold.Protocol.Block.{block_eqb}
use threshold.Consensus.Voting.{handle_block_proposal}
use threshold.Consensus.Proposals.{handle_block_proposal-votes, own_proposal, sent_by}
use threshold.Samples.{codec}

abbrev sample_block : Block ℕ
sample_block = record {
  header = record {
    version = 1;
    previous_block_hash = [];
    state_root = [];
    height = 4;
    proposer = [];
  };
  body = record { transactions = [] };
}

abbrev peer_of : Bytes → Result ℕ
peer_of [] = err (error "empty")
peer_of (b ∷ bs) = ok b

abbrev answer_of : ChainMessage ℕ ℕ → Result (ChainResponse ℕ)
answer_of (ChainMessage.get_proposed_block previous proposer) =
    ok (ChainResponse.get_proposed_block sample_block)
answer_of (ChainMessage.finalize_block block) = ok (ChainResponse.finalize_and_store_block none)
answer_of _ = err (error "not asked")

abbrev env : Env ℕ ℕ ℕ ℕ
env = record {
  to_bytes = λ p. p ∷ [];
  from_bytes = peer_of;
  serialize = λ block. ok [];
  deserialize = λ bs. ok sample_block;
  ask = λ message s. (answer_of message, s);
}

abbrev three : List ℕ
three = 2 ∷ 3 ∷ 1 ∷ []

abbrev state : ConsensusState ℕ
state = record {
  current_state = waiting_for_propose;
  current_round = 5;
  current_height = 3;
  proposer = none;
  validators = three;
  broadcast_topic = "broadcast";
  round_timeout = 10;
  round_start_time = none;
  is_leader = false;
  prevotes = [];
  precommits = [];
  current_block_hash = none;
  block_finalized = false;
}

abbrev node : {S : Type 0} → S → Engine ℕ S
node s = record {
  state = state;
  network_events_tx = none;
  chain_interface_tx = some s;
  peer_id = some 1;
  max_validators = none;
}

abbrev commits : Bytes → Vote
commits block_hash = record {
  round = 5;
  height = 3;
  block_hash = block_hash;
  voter = 2 ∷ [];
  vote_type = precommit;
}

select_leader-perm_example :
    select_leader state 7 ≡ select_leader (record state { validators = 3 ∷ 2 ∷ 1 ∷ [] }) 7
select_leader-perm_example =
    select_leader-perm state (record state { validators = 3 ∷ 2 ∷ 1 ∷ [] }) 7 (Permᴰ.swap refl refl)

select_leader-fair_example : (round : ℕ) × (round < 3) × (select_leader state round ≡ some 3)
select_leader-fair_example = select_leader-fair state (Memᴰ.tail (Memᴰ.head refl))

handle_message-IsValid_example :
    IsValid
      (handle_message codec env 60
        (ConsensusMessage.handle_vote (2 ∷ []) (commits []))
        (node 0)).1.state
handle_message-IsValid_example =
    handle_message-IsValid env codec 60 (ConsensusMessage.handle_vote (2 ∷ []) (commits []))
      (node 0)
      (record {
        validators_distinct = (refl, (refl, (refl, tt)));
        prevotes_valid = AreVotes-nil three;
        precommits_valid = AreVotes-nil three;
      })

has_quorum_lem_example :
    (has_quorum (2 ∷ 3 ∷ []) (1 ∷ three) ≡ true → 2 * 4 ≤ 3 * 2 + 2)
    × (2 * 4 ≤ 3 * 2 + 2 → has_quorum (2 ∷ 3 ∷ []) (1 ∷ three) ≡ true)
has_quorum_lem_example = has_quorum_lem (2 ∷ 3 ∷ []) (1 ∷ three)

abbrev all_commit : List (ℕ × Vote)
all_commit = (2, commits []) ∷ (3, commits []) ∷ (1, commits []) ∷ []

handle_votes-once_example :
    let e = handle_votes env all_commit (node (0, 0)) in requests e + left e ≤ 0 + 1
handle_votes-once_example = handle_votes-once env all_commit (node (0, 0))

handle_vote-again_example :
    let e = handle_vote env 2 (commits []) (node 0) in handle_vote env 2 (commits []) e ≡ e
handle_vote-again_example = handle_vote-again env 2 (commits []) (node 0)

-- Two precommits for two blocks, of three validators.
handle_votes-finalizes_example :
    (handle_votes env
      ((2, commits (7 ∷ [])) ∷ (3, commits (8 ∷ [])) ∷ [])
      (node (0, 0))).state.block_finalized
    ≡ true
handle_votes-finalizes_example =
    handle_votes-finalizes env 2 (commits (7 ∷ [])) ((3, commits (8 ∷ [])) ∷ []) (node (0, 0))
      (refl, refl, (refl, refl, tt)) (refl, (refl, tt)) (omega arith)

-- The node finalizes in its round, 5, and hears the votes again in round 6.
abbrev two_rounds : List (Heard ℕ)
two_rounds =
    voted 2 (commits [])
    ∷ voted 3 (commits [])
    ∷ announced 60 3 6
    ∷ voted 2 (commits [])
    ∷ voted 3 (commits [])
    ∷ voted 1 (commits [])
    ∷ []

hear_all-once_example :
    let e = hear_all env two_rounds (node (0, 0)) in
    (requests e + left e ≤ 0 + 1)
    × (5 ≤ e.state.current_round)
    × Reaches two_rounds e.state.current_round
hear_all-once_example = hear_all-once env two_rounds (node (0, 0))

handle_message-forward_example :
    let (response, e) =
      handle_message codec env 60 (ConsensusMessage.handle_new_round (2 ∷ []) 9) (node 0) in
    5 ≤ e.state.current_round
handle_message-forward_example =
    handle_message-forward env codec 60 (ConsensusMessage.handle_new_round (2 ∷ []) 9) (node 0)
      (omega arith) (omega arith)

handle_block_proposal-votes_example :
    (sent_by (handle_block_proposal codec env (1 ∷ []) (node 0)).1 ≡ sent_by {S = ℕ} (node 0))
    ⊎ ((block : Block ℕ) × (own : Block ℕ) × (env.deserialize (1 ∷ []) ≡ ok block)
        × (own_proposal codec env (node 0) ≡ ok own)
        × (block_eqb codec own block ≡ true))
handle_block_proposal-votes_example = handle_block_proposal-votes codec env (1 ∷ []) (node 0)
