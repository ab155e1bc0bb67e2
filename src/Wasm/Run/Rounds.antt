-- ===== src/Wasm/Run/Rounds.antt =====
-- crates/deed-codegen/src/run.rs: the budget over a whole body, and over the rounds of a loop.
use deed.Prelude.{ℕ, zero, suc, ◌+◌, ◌*◌, ◌≤◌, ◌<◌, ◌≡◌, refl, arith, Option}
use deed.Wasm.{Body, nil, cons, Module}
use deed.Wasm.Run.{State, Result}
use deed.Wasm.Run.Machine.{
  Host, Flow, normal, break, returned, after_round, go_on, spend, run, repeat,
}
use deed.Wasm.Run.Ends.{returns, traps, Ends-bind, Ends-weaken}
use deed.Wasm.Run.Budget.{Finishes, Left, LeftAfter, execute-Finishes}

spend-Finishes : (st : State) → Finishes (λ st'. suc st'.run.fuel ≡ st.run.fuel) (spend st)
unfolding spend
spend-Finishes st = fuel_from st.run.fuel refl
  where
    fuel_from :
        (fuel : ℕ)
        → st.run.fuel ≡ fuel
        → Finishes (λ st'. suc st'.run.fuel ≡ st.run.fuel) (spend st)
    fuel_from zero e = rw e traps
    fuel_from (suc fuel) e = rw e (returns refl)

pub LeftAfter-Left : (n : ℕ) (p : Flow × State) → LeftAfter n p → Left n p
LeftAfter-Left n (normal, st) h = h
LeftAfter-Left n (break depth, st) h = omega arith
LeftAfter-Left n (returned, st) h = omega arith

-- The rest of a body starts below the bound, and ends so far below it as it says.
go_on-Finishes :
    (n : ℕ) (rest : State → Result (Flow × State)) (p : Flow × State)
    → Left n p
    → ((st : State) → st.run.fuel ≤ n → Finishes (LeftAfter st.run.fuel) (rest st))
    → Finishes (LeftAfter (suc n)) (go_on rest p)
go_on-Finishes n rest (normal, st) h k =
    Ends-weaken (λ q left. lower st.run.fuel q left (omega arith)) (k st h)
  where
    lower : (l : ℕ) (q : Flow × State) → LeftAfter l q → l ≤ suc n → LeftAfter (suc n) q
    lower l (normal, st') left e = omega arith
    lower l (break depth, st') left e = omega arith
    lower l (returned, st') left e = omega arith
go_on-Finishes n rest (break depth, st) h k = returns (omega arith)
go_on-Finishes n rest (returned, st) h k = returns (omega arith)

after_round-Finishes :
    (n : ℕ) (again : State → Result (Flow × State)) (p : Flow × State)
    → LeftAfter n p
    → ((st : State) → st.run.fuel < n → Finishes (Left st.run.fuel) (again st))
    → Finishes (Left n) (after_round again p)
after_round-Finishes n again (normal, st) h k = returns h
after_round-Finishes n again (returned, st) h k = returns (omega arith)
after_round-Finishes n again (break zero, st) h k = Ends-weaken (λ q left. omega arith) (k st h)
after_round-Finishes n again (break (suc depth), st) h k = returns (omega arith)

mutual
  unfolding run repeat

  pub run-Finishes :
      (m : Module) (host : Option Host) (gas function : ℕ) (body : Body) (st : State)
      → 2 * st.run.fuel < gas
      → Finishes (LeftAfter st.run.fuel) (run m host gas function body st)
  run-Finishes m host zero function body st h = absurd (omega arith)
  run-Finishes m host (suc gas) function nil st h = returns (omega arith)
  run-Finishes m host (suc gas) function (cons ins body) st h =
      Ends-bind (spend-Finishes st) λ st' spent.
        Ends-bind
          (execute-Finishes m host (run m host gas) st'.run.fuel
            (λ f b s le.
              Ends-weaken (λ q left. LeftAfter-Left s.run.fuel q left)
                (run-Finishes m host gas f b s (omega arith)))
            (repeat m host gas) (λ f b s le. repeat-Finishes m host gas f b s (omega arith))
            function ins st' (omega arith))
          λ p left. rw (← spent) (
            go_on-Finishes st'.run.fuel (run m host gas function body) p left
              λ s le. run-Finishes m host gas function body s (omega arith))

  repeat-Finishes :
      (m : Module) (host : Option Host) (gas function : ℕ) (body : Body) (st : State)
      → 2 * st.run.fuel + 1 < gas
      → Finishes (Left st.run.fuel) (repeat m host gas function body st)
  repeat-Finishes m host zero function body st h = absurd (omega arith)
  repeat-Finishes m host (suc gas) function body st h =
      Ends-bind (run-Finishes m host gas function body st (omega arith)) λ p left.
        after_round-Finishes st.run.fuel (repeat m host gas function body) p left
          λ s le. repeat-Finishes m host gas function body s (omega arith)
