-- ===== src/Consensus/Quorum.antt =====
-- consensus_interface.rs: how many votes are enough.
use threshold.Prelude.{◌+◌, ◌*◌, ◌≤◌, ◌≡◌, arith, true, List, nat_eq, length}
use threshold.Consensus.Voting.{has_quorum}

-- Votes are a quorum exactly if three times their number and two more reach twice the number of
-- validators: of 3 * f + 1 validators 2 * f are enough.
pub has_quorum_lem :
    {P : Type 0} (votes validators : List P)
    → (has_quorum votes validators ≡ true → 2 * length validators ≤ 3 * length votes + 2)
      × (2 * length validators ≤ 3 * length votes + 2 → has_quorum votes validators ≡ true)
unfolding has_quorum
has_quorum_lem votes validators = (λ h. ground arith, λ h. ground arith)
