-- ===== src/Consensus/Announcements.antt =====
-- consensus_interface.rs: a round that the node starts itself.
use threshold.Prelude.{
  ℕ, ◌≡◌, refl, arith, false, Option, none, some, [], Eq, Ord, add32, Result, ok, err, then_do,
  modify, ◌∙◌,
}
use threshold.Prelude.Moves.{Preorder, Moves, moves_rules}
use threshold.Types.Consensus as Net
use threshold.Consensus.State.{select_leader}
use threshold.Consensus.Engine.{Env, Engine, set_state, send_broadcast}
use threshold.Consensus.Starting.{elect, reset_round, start_new_round}

-- The state of a round that has just begun.
record Fresh {P S : Type 0} (round : ℕ) (e : Engine P S) : Type 0 where
  round_number : e.state.current_round ≡ round
  no_prevotes : e.state.prevotes ≡ []
  no_precommits : e.state.precommits ≡ []
  not_finalized : e.state.block_finalized ≡ false

abbrev pub SameRound : {P S : Type 0} → Engine P S → Engine P S → Type 0
SameRound e f = f.state.current_round ≡ e.state.current_round

module _ {P S : Type 0} where
  pub SameRound-preorder : Preorder (SameRound {P = P} {S = S})
  SameRound-preorder = record { stay = λ e. refl; chain = λ d e f h k. k ∙ h }

  pub send_broadcast-SameRound :
      (message : Net.ConsensusMessage) → Moves (SameRound {P = P} {S = S}) (send_broadcast message)
  unfolding send_broadcast
  send_broadcast-SameRound message = record { at = λ e. ground arith }

  pub ruleset round_rules = (moves_rules, SameRound-preorder, send_broadcast-SameRound)

  then_reset-Fresh :
      (now : ℕ) (round : ℕ) (r : Result (Unit {0})) (e : Engine P S)
      → e.state.current_round ≡ round
      → (then_do (r, e) (λ done. modify (set_state (reset_round now)))).0 ≡ ok tt
      → Fresh round (then_do (r, e) (λ done. modify (set_state (reset_round now)))).1
  unfolding reset_round
  then_reset-Fresh now round (ok a) e h k = record {
    round_number = h;
    no_prevotes = refl;
    no_precommits = refl;
    not_finalized = refl;
  }
  then_reset-Fresh now round (err x) e h k = absurd (cc)

module _ {P S J K : Type 0} ⦃q : Eq P⦄ ⦃o : Ord P⦄ (env : Env P S J K) where
  pub elect-SameRound : (leader : Option P) → Moves (SameRound {P = P} {S = S}) (elect env leader)
  unfolding elect
  elect-SameRound none = search round_rules
  elect-SameRound (some p) = search (round_rules, same_round) depth 12
    where
      same_round : (e : Engine P S) → SameRound e e
      same_round e = refl

  -- A round that the node starts itself, if that succeeds, has the next number and no votes, and no
  -- block is finalized in it.
  pub start_new_round_lem :
      (now : ℕ) (e : Engine P S)
      → (start_new_round env now e).0 ≡ ok tt
      → let s = (start_new_round env now e).1.state in
        (s.current_round ≡ add32 e.state.current_round 1)
        × (s.prevotes ≡ [])
        × (s.precommits ≡ [])
        × (s.block_finalized ≡ false)
  unfolding start_new_round
  start_new_round_lem now e h =
      let e' = set_state (λ st. record st { current_round = add32 st.current_round 1 }) e in
      let leader = select_leader e'.state e'.state.current_round in
      let (r, f) = elect env leader e' in
      let fresh =
        then_reset-Fresh now e'.state.current_round r f ((elect-SameRound leader).at e') h in
      (fresh.round_number, fresh.no_prevotes, fresh.no_precommits, fresh.not_finalized)
