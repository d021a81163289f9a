-- ===== src/Consensus/Leader.antt =====
-- The choice of a round's leader.
use native.Mathlib.Nat.{mod-lt, mod-eq_of_lt, add-mod_right}
use mathlib.Core.Path.{ap₂}
use threshold.Prelude.{
  ℕ, ◌+◌, ◌%◌, ◌<◌, ◌≡◌, ◌⊎◌, inl, inr, refl, arith, none, some, List, [], ◌∷◌, Memᴰ, Permᴰ, Ord,
  length, get_elem?, get_elem?-lt_length, get_elem?-mem, mem-position, sort_by_key,
}
use threshold.Prelude.Sorting.{
  mem-perm, perm_sym, length-perm, length-sort_by_key, sort_by_key-Perm, sort_by_key-perm,
}
use threshold.Consensus.State.{ConsensusState, select_leader, leader_of, leader_at}

module _ {P : Type 0} ⦃o : Ord P⦄ where
  leader_of-mem :
      (vs : List P) (round : ℕ)
      → ((vs ≡ []) × (leader_of vs round ≡ none))
        ⊎ ((p : P) × (leader_of vs round ≡ some p) × Memᴰ p vs)
  unfolding leader_at
  leader_of-mem [] round = inl (refl, refl)
  leader_of-mem (v ∷ vs) round =
      let sorted = sort_by_key (λ p. p) (v ∷ vs) in
      let i = round % length (v ∷ vs) in
      let fits : i < length sorted = omega (
        arith,
        length-sort_by_key (λ p. p) (v ∷ vs),
        mod-lt round {m = length (v ∷ vs)} (omega arith),
      ) in
      let (p, found) = get_elem?-lt_length sorted i fits in
      inr (
        p,
        found,
        mem-perm (perm_sym (sort_by_key-Perm (λ p. p) (v ∷ vs))) (get_elem?-mem sorted i found),
      )

  leader_of-perm :
      (vs ws : List P) (round : ℕ) → Permᴰ vs ws → leader_of vs round ≡ leader_of ws round
  unfolding leader_at
  leader_of-perm [] [] round p = refl
  leader_of-perm [] (w ∷ ws) round p = absurd (omega (arith, length-perm p))
  leader_of-perm (v ∷ vs) [] round p = absurd (omega (arith, length-perm p))
  leader_of-perm (v ∷ vs) (w ∷ ws) round p =
      ap₂ (λ sorted n. get_elem? sorted (round % n)) (sort_by_key-perm (λ q. q) p (λ a b m n e. e))
        (length-perm p)

  leader_of-fair :
      (vs : List P) {p : P}
      → Memᴰ p vs
      → (round : ℕ) × (round < length vs) × (leader_of vs round ≡ some p)
  unfolding leader_at
  leader_of-fair [] m = elim m [ ]
  leader_of-fair (v ∷ vs) {p} m =
      let sorted = sort_by_key (λ q. q) (v ∷ vs) in
      let (i, bound, found) =
        mem-position sorted (mem-perm (sort_by_key-Perm (λ q. q) (v ∷ vs)) m) in
      let fits : i < length (v ∷ vs) = omega (arith, length-sort_by_key (λ q. q) (v ∷ vs)) in
      (i, fits, rw (mod-eq_of_lt fits) found)

  leader_of-periodic :
      (vs : List P) (round : ℕ) → leader_of vs (round + length vs) ≡ leader_of vs round
  unfolding leader_at
  leader_of-periodic [] round = refl
  leader_of-periodic (v ∷ vs) round = rw (add-mod_right round (length (v ∷ vs)))

  -- A round has no leader exactly while there are no validators; its leader is one of them.
  pub select_leader_lem :
      (s : ConsensusState P) (round : ℕ)
      → ((s.validators ≡ []) × (select_leader s round ≡ none))
        ⊎ ((p : P) × (select_leader s round ≡ some p) × Memᴰ p s.validators)
  unfolding select_leader
  select_leader_lem s round = leader_of-mem s.validators round

  -- Two nodes with the same validators, found in any order, choose the same leader for a round.
  pub select_leader-perm :
      (s t : ConsensusState P) (round : ℕ)
      → Permᴰ s.validators t.validators
      → select_leader s round ≡ select_leader t round
  unfolding select_leader
  select_leader-perm s t round p = leader_of-perm s.validators t.validators round p

  -- Every validator leads one of the first rounds, as many as there are validators.
  pub select_leader-fair :
      (s : ConsensusState P) {p : P}
      → Memᴰ p s.validators
      → (round : ℕ) × (round < length s.validators) × (select_leader s round ≡ some p)
  unfolding select_leader
  select_leader-fair s m = leader_of-fair s.validators m

  -- The leaders repeat after as many rounds as there are validators.
  pub select_leader-periodic :
      (s : ConsensusState P) (round : ℕ)
      → select_leader s (round + length s.validators) ≡ select_leader s round
  unfolding select_leader
  select_leader-periodic s round = leader_of-periodic s.validators round
