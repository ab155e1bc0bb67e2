-- ===== src/Wasm/Run/Termination.antt =====
-- crates/deed-codegen/src/run.rs: calls from outside, for every module, valid or not.
use deed.Prelude.{ℕ, Option, List, arith}
use deed.Wasm.{Module}
use deed.Wasm.Memory.{Value, Memory}
use deed.Wasm.Run.Machine.{Host, run}
use deed.Wasm.Run.Ends.{Ends-weaken}
use deed.Wasm.Run.Budget.{Finishes, AnswerLeft, enter-Finishes}
use deed.Wasm.Run.Rounds.{LeftAfter-Left, run-Finishes}
use deed.Wasm.Run.Export.{start, enough}

-- A call from outside always ends at the gas that goes with its budget, for every module, host,
-- function, arguments and memory: with an answer that leaves no more than the budget, with a
-- trap, or with a panic, and never because the model's recursion was cut short.
pub start-Finishes :
    (m : Module) (host : Option Host) (index : ℕ) (args : List Value) (budget : ℕ) (memory : Memory)
    → Finishes (AnswerLeft budget) (start m host index args budget memory)
unfolding start
start-Finishes m host index args budget memory =
    enter-Finishes m host (run m host (enough budget)) budget
      (λ f b st le.
        Ends-weaken (λ p left. LeftAfter-Left st.run.fuel p left)
          (run-Finishes m host (enough budget) f b st (omega arith)))
      index args (record { fuel = budget; memory = memory }) (omega arith)
