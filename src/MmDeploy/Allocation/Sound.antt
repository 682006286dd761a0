-- ===== src/MmDeploy/Allocation/Sound.antt =====
-- What `allocation_for_lambda` returns, for every state of the board.
use evore_program.Prelude.{
  ℕ, zero, suc, ◌+◌, ◌%◌, ◌≤◌, ◌<◌, ◌≡◌, refl, ◌∙◌, arith, inl, inr, true, false, some, Bool-cases,
  Option-cases, ltb, leb, ℤ, get_or, length, length-set, get_or-set_ne, set-entries, sum, sum-set,
  get_or-replicate, u64_max, sat_add64,
}
use evore_program.MmDeploy.Allocation.{
  Allocation, Inputs, bet, accept, visit, visit_from, allocation_for_lambda, no_bets,
}
use evore_program.MmDeploy.Allocation.Bets.{IsStake, IsProfitable, bet-IsStake}

module _ (inputs : Inputs) where
  open inputs use {t, active, bankroll, min_bet, max_per_square, tick_size}

  -- What holds of a square with a stake x on it.
  pub record IsBet (i x : ℕ) : Type 0 where
    pub chosen : get_or active i false ≡ true
    pub populated : 0 < get_or t i 0
    pub least : min_bet ≤ x
    pub capped : 0 < max_per_square → x ≤ max_per_square
    pub on_tick : 0 < tick_size → x % tick_size ≡ 0
    pub profitable : IsProfitable inputs (get_or t i 0) x

  -- The state of the pass before square i.
  pub record IsSound (i : ℕ) (a : Allocation) : Type 0 where
    pub squares : length a.per_square ≡ 25
    pub accounted : sum a.per_square ≡ a.spent
    pub within : a.spent ≤ bankroll
    pub untouched : (j : ℕ) → i ≤ j → get_or a.per_square j 0 ≡ 0
    pub bets : (j : ℕ) → 0 < get_or a.per_square j 0 → IsBet j (get_or a.per_square j 0)

  IsSound-mono : (i k : ℕ) (a : Allocation) → i ≤ k → IsSound i a → IsSound k a
  IsSound-mono i k a le s = record {
    squares = s.squares;
    accounted = s.accounted;
    within = s.within;
    untouched = λ j h. s.untouched j (omega arith);
    bets = s.bets;
  }

  no_bets-IsSound : IsSound 0 no_bets
  no_bets-IsSound = record {
    squares = refl;
    accounted = refl;
    within = omega arith;
    untouched = λ j _. get_or-replicate {A = ℕ} 25 j 0;
    bets = λ j h. absurd (omega (arith, get_or-replicate {A = ℕ} 25 j 0));
  }

  accept-IsSound :
      (i : ℕ) (a : Allocation) (x : ℕ) (ev : ℤ)
      → i < 25
      → bankroll ≤ u64_max
      → get_or active i false ≡ true
      → bet inputs i a ≡ some (x, ev)
      → IsSound i a
      → IsSound (suc i) (accept inputs i a x ev)
  unfolding sat_add64
  accept-IsSound i a x ev lt fits on h s =
      let (st, pr, busy) = bet-IsStake inputs i a h in
      let z = s.untouched i (omega arith) in
      let value : sat_add64 (get_or a.per_square i 0) x ≡ x = omega (arith, z, st.affordable) in
      let total : sat_add64 a.spent x ≡ a.spent + x = omega (arith, s.within, st.affordable) in
      rw (value, total)
        (record {
          squares = length-set a.per_square i x ∙ s.squares;
          accounted = omega (arith, sum-set a.per_square i x (rw s.squares lt), z, s.accounted);
          within = omega (arith, s.within, st.affordable);
          untouched = λ j le.
              get_or-set_ne a.per_square i j x 0 (λ e. absurd (omega (arith, e, le)))
              ∙ s.untouched j (omega arith);
          bets = set-entries IsBet a.per_square i x (rw s.squares lt) (fresh st pr busy) s.bets;
        })
    where
      fresh :
          IsStake inputs (get_or t i 0) (get_or a.per_square i 0) a.spent x
          → IsProfitable inputs (get_or t i 0) x
          → 0 < get_or t i 0
          → IsBet i x
      fresh st pr busy = record {
        chosen = on;
        populated = busy;
        least = st.least;
        capped = λ m. omega (arith, st.capped m);
        on_tick = st.on_tick;
        profitable = pr;
      }

  visit-IsSound :
      (i : ℕ) (a : Allocation)
      → i < 25
      → bankroll ≤ u64_max
      → IsSound i a
      → IsSound (suc i) (visit inputs i a).0
  unfolding visit
  visit-IsSound i a lt fits s = elim (Bool-cases (get_or active i false)) [
    | inr off ↦ rw off (weaken s)
    | inl on ↦ rw on (elim (Bool-cases (leb bankroll a.spent)) [
      | inl full ↦ rw full (weaken s)
      | inr room ↦ rw room (elim (Option-cases (bet inputs i a)) [
        | inl e ↦ rw e (weaken s)
        | inr ((x, ev), e) ↦ rw e (accept-IsSound i a x ev lt fits on e s)
      ])
    ])
  ]
    where
      weaken : IsSound i a → IsSound (suc i) a
      weaken = IsSound-mono i (suc i) a (omega arith)

  visit_from-IsSound :
      (rounds i : ℕ) (a : Allocation)
      → i + rounds ≡ 25
      → bankroll ≤ u64_max
      → IsSound i a
      → IsSound 25 (visit_from inputs rounds i a)
  unfolding visit_from
  visit_from-IsSound zero i a e fits s = IsSound-mono i 25 a (omega arith) s
  visit_from-IsSound (suc rounds) i a e fits s =
      let next = visit-IsSound i a (omega arith) fits s in
      elim (Bool-cases (visit inputs i a).1) [
        | inl stop ↦ rw stop (IsSound-mono (suc i) 25 (visit inputs i a).0 (omega arith) next)
        | inr go ↦
            rw go (visit_from-IsSound rounds (suc i) (visit inputs i a).0 (omega arith) fits next)
      ]

  -- For a bankroll that fits a u64, the allocation for any lambda has 25 entries that sum to what
  -- it reports as spent, spends no more than the bankroll, and bets only on chosen, populated
  -- squares, there at least the least bet and at most the cap (if one is set), on a tick, with a
  -- positive expected profit and the required margin.
  pub allocation_for_lambda-IsSound : bankroll ≤ u64_max → IsSound 25 (allocation_for_lambda inputs)
  unfolding allocation_for_lambda
  allocation_for_lambda-IsSound fits = elim (Bool-cases (ltb bankroll min_bet)) [
    | inl poor ↦ rw poor (IsSound-mono 0 25 no_bets (omega arith) no_bets-IsSound)
    | inr rich ↦ rw rich (visit_from-IsSound 25 0 no_bets refl fits no_bets-IsSound)
  ]

-- A bankroll below the least bet places no bets.
pub allocation_for_lambda-poor :
    (inputs : Inputs)
    → ltb inputs.bankroll inputs.min_bet ≡ true
    → no_bets ≡ allocation_for_lambda inputs
unfolding allocation_for_lambda
allocation_for_lambda-poor inputs h = rw h refl
