-- ===== src/Consensus/Heard.antt =====
-- consensus_interface.rs: votes and leader announcements that a node hears, over any number of rounds.
use threshold.Prelude.{ℕ, ◌+◌, ◌≤◌, ◌≡◌, arith, List, [], ◌∷◌, Eq}
use threshold.Types.Consensus.{Vote}
use threshold.Consensus.Engine.{Env, Engine}
use threshold.Consensus.Voting.{handle_vote}
use threshold.Consensus.Handler.{handle_leader_announcement}
use threshold.Consensus.SameRound.{handle_vote-SameRound}
use threshold.Consensus.Once.{counting, requests, left, handle_vote-Spends}

pub data Heard (P : Type 0) : Type 0 where
  voted : (sender : P) (vote : Vote) → Heard P
  announced : (now : ℕ) (leader : P) (round : ℕ) → Heard P

-- A round that is as late as every one announced.
abbrev pub Reaches : {P : Type 0} → List (Heard P) → ℕ → Type 0
Reaches [] n = Unit
Reaches (voted sender vote ∷ more) n = Reaches more n
Reaches (announced now leader round ∷ more) n = (round ≤ n) × Reaches more n

module _ {P S J K : Type 0} ⦃q : Eq P⦄ (env : Env P S J K) where
  unfoldable pub hear_all : List (Heard P) → Engine P (S × ℕ) → Engine P (S × ℕ)
  unfolding handle_vote handle_leader_announcement
  hear_all [] e = e
  hear_all (voted sender vote ∷ more) e = hear_all more (handle_vote (counting env) sender vote e)
  hear_all (announced now leader round ∷ more) e =
      hear_all more (handle_leader_announcement now leader round e)

  announcement-same :
      (now : ℕ) (leader : P) (round : ℕ) (e : Engine P (S × ℕ))
      → let f = handle_leader_announcement now leader round e in
        requests f + left f ≡ requests e + left e
  unfolding handle_leader_announcement
  announcement-same now leader round e = ground arith

  heard_once :
      (heard : List (Heard P)) (e : Engine P (S × ℕ))
      → requests (hear_all heard e) + left (hear_all heard e) ≤ requests e + left e
  unfolding hear_all
  heard_once [] e = omega arith
  heard_once (voted sender vote ∷ more) e = omega (
    arith,
    (handle_vote-Spends env sender vote e).spent,
    heard_once more (handle_vote (counting env) sender vote e),
  )
  heard_once (announced now leader round ∷ more) e = omega (
    arith,
    announcement-same now leader round e,
    heard_once more (handle_leader_announcement now leader round e),
  )

  announced_round :
      (now : ℕ) (leader : P) (round : ℕ) (e : Engine P (S × ℕ))
      → let f = handle_leader_announcement now leader round e in
        (e.state.current_round ≤ f.state.current_round) × (round ≤ f.state.current_round)
  unfolding handle_leader_announcement
  announced_round now leader round e = ground arith

  hear_all-forward :
      (heard : List (Heard P)) (e : Engine P (S × ℕ))
      → (e.state.current_round ≤ (hear_all heard e).state.current_round)
        × Reaches heard (hear_all heard e).state.current_round
  unfolding hear_all
  hear_all-forward [] e = (omega arith, tt)
  hear_all-forward (voted sender vote ∷ more) e =
      let rest = hear_all-forward more (handle_vote (counting env) sender vote e) in
      let same = handle_vote-SameRound (counting env) sender vote e in
      (omega (arith, same, rest.0), rest.1)
  hear_all-forward (announced now leader round ∷ more) e =
      let here = announced_round now leader round e in
      let rest = hear_all-forward more (handle_leader_announcement now leader round e) in
      (omega (arith, here.0, rest.0), (omega (arith, here.1, rest.0), rest.1))

  -- Whatever votes and leader announcements a node hears, it comes at least to every round announced, and
  -- in all these rounds together it asks its chain to finalize at most one block, and none if
  -- one counts as finalized before.
  pub hear_all-once :
      (heard : List (Heard P)) (e : Engine P (S × ℕ))
      → (requests (hear_all heard e) + left (hear_all heard e) ≤ requests e + left e)
        × (e.state.current_round ≤ (hear_all heard e).state.current_round)
        × Reaches heard (hear_all heard e).state.current_round
  hear_all-once heard e =
      let forward = hear_all-forward heard e in (heard_once heard e, forward.0, forward.1)
