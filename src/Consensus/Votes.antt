-- ===== src/Consensus/Votes.antt =====
-- crates/consensus/src/lib.rs: what the votes that a node has counted satisfy.
use threshold.Prelude.{
  ℕ, ◌+◌, ◌≡◌, ◌⊎◌, inl, inr, ap, refl, ◌∙◌, arith, Bool, true, false, not, ◌&&◌, Bool-cases,
  Option, none, some, List, [], ◌∷◌, Bytes, String, Eq, Ord, ◌==◌, ==_iff, ==_refl, nat_eq, leb,
  ltb, length, contains, set_insert, Distinct, Result, ok, err, error, NodeError, Result-cases,
  Action, pure, lift, gets, modify, then_do, ◌>>=◌, ◌>>◌, if◌then◌else◌,
}
use threshold.Consensus.State.{ConsensusState}
pub mod Casting
pub mod Rounds
pub mod Messages

-- The votes of one kind: nobody is counted twice, and only validators are counted.
pub record AreVotes {P : Type 0} ⦃e : Eq P⦄ (validators votes : List P) : Type 0 where
  pub votes_distinct : Distinct votes
  pub votes_known : (p : P) → contains votes p ≡ true → contains validators p ≡ true

pub record ValidVotes {P : Type 0} ⦃e : Eq P⦄ (validators prevotes precommits : List P)
    : Type 0 where
  pub validators_distinct : Distinct validators
  pub prevotes_valid : AreVotes validators prevotes
  pub precommits_valid : AreVotes validators precommits

abbrev pub IsValid : {P : Type 0} ⦃e : Eq P⦄ → ConsensusState P → Type 0
IsValid s = ValidVotes s.validators s.prevotes s.precommits

module _ {P : Type 0} ⦃e : Eq P⦄ where
  pub AreVotes-nil : (validators : List P) → AreVotes validators []
  AreVotes-nil validators = record { votes_distinct = tt; votes_known = λ p h. absurd (cc) }

  pub AreVotes-cons :
      {validators votes : List P} (p : P)
      → contains validators p ≡ true
      → contains votes p ≡ false
      → AreVotes validators votes
      → AreVotes validators (p ∷ votes)
  AreVotes-cons p known new v = record {
    votes_distinct = (new, v.votes_distinct);
    votes_known = λ q h. ground (arith, v.votes_known q, ==_iff p q);
  }

  pub AreVotes-insert :
      {validators votes : List P} (p : P)
      → AreVotes validators votes
      → AreVotes (set_insert p validators) votes
  AreVotes-insert p v = record {
    votes_distinct = v.votes_distinct;
    votes_known = λ q h. ground (arith, v.votes_known q h);
  }

  pub Distinct-insert : (p : P) (l : List P) → Distinct l → Distinct (set_insert p l)
  Distinct-insert p l d = elim (Bool-cases (contains l p)) [
    | inl old ↦ rw old d
    | inr new ↦ rw new (new, d)
  ]
