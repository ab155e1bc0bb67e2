-- ===== src/Wasm/Run/Execute.antt =====
-- crates/deed-codegen/src/run.rs: an instruction with its marker, if it has one.
use deed.Prelude.{ℕ, ◌≤◌, ◌≡◌, Option, none, some, length, get_elem?}
use deed.Wasm.{
  FuncType, Func, Module, Ins, marked, unreachable, nop, block, loop, if_else, br, br_if, return,
  call, call_indirect, drop, local_get, local_set, local_tee, i32_const, i64_const, i32_add,
  i32_sub, i32_mul, i32_eq, i32_ne, i32_lt_s, i32_le_s, i32_gt_s, i32_ge_s, i32_and, i32_or,
  i32_eqz, i64_add, i64_sub, i64_mul, i64_xor, i64_div_s, i64_rem_s, i64_eq, i64_ne, i64_lt_s,
  i64_le_s, i64_gt_s, i64_ge_s, i64_eqz, i32_wrap_i64, i64_extend_i32_s, i32_load, i64_load,
  i32_store, i64_store, i32_load8_u, i32_store8, memory_size, memory_grow,
}
use deed.Wasm.Checker.{Checker}
use deed.Wasm.Checker.Frames.{Allows, Allows-weaken}
use deed.Wasm.Validate.{instruction}
use deed.Wasm.Run.{State}
use deed.Wasm.Run.Machine.{Host, Runner, execute}
use deed.Wasm.Run.Moved.{Safe}
use deed.Wasm.Run.Landing.{Sound, Fits, Lands}
use deed.Wasm.Run.Calls.{HostKeeps, BodiesValid, RunnerSafe}
use deed.Wasm.Run.Safety.{Runnable, RunnableBody}
use deed.Wasm.Run.Stepping.{RoundsSafe, StepSafe, step-Safe}

module _ (m : Module) (host : Option Host) (keeps : HostKeeps m host) (bodies : BodiesValid m)
    (runnable : (at : ℕ) (func : Func)
      → get_elem? m.funcs at ≡ some func
      → RunnableBody m func.body)
    (single : (i : ℕ) (ty : FuncType) → get_elem? m.types i ≡ some ty → length ty.results ≤ 1)
    (runner : Runner) (safe : RunnerSafe m (RunnableBody m) runner) (rounds : Runner)
    (safe_rounds : RoundsSafe m rounds) (function : ℕ) where
  at_none :
      (ins : Ins) (c : Checker)
      → Allows
          (λ c'.
            StepSafe m host keeps bodies runnable single runner safe rounds safe_rounds function c
              c' none ins)
          (instruction m ins c)
  at_none =
      step-Safe m host keeps bodies runnable single runner safe rounds safe_rounds function none

  pub execute-Safe :
      (ins : Ins) (c : Checker)
      → Allows
          (λ c'.
            (rets : ℕ) (st : State)
            → Runnable m ins
            → Sound rets c
            → Fits c st
            → Safe (Lands c c' rets) (execute m host runner rounds function ins st))
          (instruction m ins c)
  unfolding execute instruction Runnable
  execute-Safe (marked site inner) c =
      Allows-weaken (λ c' k rets st run sound f. k rets st run sound f)
        (step-Safe m host keeps bodies runnable single runner safe rounds safe_rounds function
          (some site) inner c)
  execute-Safe unreachable c =
      Allows-weaken (λ c' k rets st r. k rets st (tt, r)) (at_none unreachable c)
  execute-Safe nop c = Allows-weaken (λ c' k rets st r. k rets st (tt, r)) (at_none nop c)
  execute-Safe (block r b) c =
      Allows-weaken (λ c' k rets st r. k rets st (tt, r)) (at_none (block r b) c)
  execute-Safe (loop r b) c =
      Allows-weaken (λ c' k rets st r. k rets st (tt, r)) (at_none (loop r b) c)
  execute-Safe (if_else r b d) c =
      Allows-weaken (λ c' k rets st r. k rets st (tt, r)) (at_none (if_else r b d) c)
  execute-Safe (br v) c = Allows-weaken (λ c' k rets st r. k rets st (tt, r)) (at_none (br v) c)
  execute-Safe (br_if v) c =
      Allows-weaken (λ c' k rets st r. k rets st (tt, r)) (at_none (br_if v) c)
  execute-Safe return c = Allows-weaken (λ c' k rets st r. k rets st (tt, r)) (at_none return c)
  execute-Safe (call v) c = Allows-weaken (λ c' k rets st r. k rets st (tt, r)) (at_none (call v) c)
  execute-Safe (call_indirect v) c =
      Allows-weaken (λ c' k rets st r. k rets st (tt, r)) (at_none (call_indirect v) c)
  execute-Safe drop c = Allows-weaken (λ c' k rets st r. k rets st (tt, r)) (at_none drop c)
  execute-Safe (local_get v) c =
      Allows-weaken (λ c' k rets st r. k rets st (tt, r)) (at_none (local_get v) c)
  execute-Safe (local_set v) c =
      Allows-weaken (λ c' k rets st r. k rets st (tt, r)) (at_none (local_set v) c)
  execute-Safe (local_tee v) c =
      Allows-weaken (λ c' k rets st r. k rets st (tt, r)) (at_none (local_tee v) c)
  execute-Safe (i32_const v) c =
      Allows-weaken (λ c' k rets st r. k rets st (tt, r)) (at_none (i32_const v) c)
  execute-Safe (i64_const v) c =
      Allows-weaken (λ c' k rets st r. k rets st (tt, r)) (at_none (i64_const v) c)
  execute-Safe i32_add c = Allows-weaken (λ c' k rets st r. k rets st (tt, r)) (at_none i32_add c)
  execute-Safe i32_sub c = Allows-weaken (λ c' k rets st r. k rets st (tt, r)) (at_none i32_sub c)
  execute-Safe i32_mul c = Allows-weaken (λ c' k rets st r. k rets st (tt, r)) (at_none i32_mul c)
  execute-Safe i32_eq c = Allows-weaken (λ c' k rets st r. k rets st (tt, r)) (at_none i32_eq c)
  execute-Safe i32_ne c = Allows-weaken (λ c' k rets st r. k rets st (tt, r)) (at_none i32_ne c)
  execute-Safe i32_lt_s c = Allows-weaken (λ c' k rets st r. k rets st (tt, r)) (at_none i32_lt_s c)
  execute-Safe i32_le_s c = Allows-weaken (λ c' k rets st r. k rets st (tt, r)) (at_none i32_le_s c)
  execute-Safe i32_gt_s c = Allows-weaken (λ c' k rets st r. k rets st (tt, r)) (at_none i32_gt_s c)
  execute-Safe i32_ge_s c = Allows-weaken (λ c' k rets st r. k rets st (tt, r)) (at_none i32_ge_s c)
  execute-Safe i32_and c = Allows-weaken (λ c' k rets st r. k rets st (tt, r)) (at_none i32_and c)
  execute-Safe i32_or c = Allows-weaken (λ c' k rets st r. k rets st (tt, r)) (at_none i32_or c)
  execute-Safe i32_eqz c = Allows-weaken (λ c' k rets st r. k rets st (tt, r)) (at_none i32_eqz c)
  execute-Safe i64_add c = Allows-weaken (λ c' k rets st r. k rets st (tt, r)) (at_none i64_add c)
  execute-Safe i64_sub c = Allows-weaken (λ c' k rets st r. k rets st (tt, r)) (at_none i64_sub c)
  execute-Safe i64_mul c = Allows-weaken (λ c' k rets st r. k rets st (tt, r)) (at_none i64_mul c)
  execute-Safe i64_xor c = Allows-weaken (λ c' k rets st r. k rets st (tt, r)) (at_none i64_xor c)
  execute-Safe i64_div_s c =
      Allows-weaken (λ c' k rets st r. k rets st (tt, r)) (at_none i64_div_s c)
  execute-Safe i64_rem_s c =
      Allows-weaken (λ c' k rets st r. k rets st (tt, r)) (at_none i64_rem_s c)
  execute-Safe i64_eq c = Allows-weaken (λ c' k rets st r. k rets st (tt, r)) (at_none i64_eq c)
  execute-Safe i64_ne c = Allows-weaken (λ c' k rets st r. k rets st (tt, r)) (at_none i64_ne c)
  execute-Safe i64_lt_s c = Allows-weaken (λ c' k rets st r. k rets st (tt, r)) (at_none i64_lt_s c)
  execute-Safe i64_le_s c = Allows-weaken (λ c' k rets st r. k rets st (tt, r)) (at_none i64_le_s c)
  execute-Safe i64_gt_s c = Allows-weaken (λ c' k rets st r. k rets st (tt, r)) (at_none i64_gt_s c)
  execute-Safe i64_ge_s c = Allows-weaken (λ c' k rets st r. k rets st (tt, r)) (at_none i64_ge_s c)
  execute-Safe i64_eqz c = Allows-weaken (λ c' k rets st r. k rets st (tt, r)) (at_none i64_eqz c)
  execute-Safe i32_wrap_i64 c =
      Allows-weaken (λ c' k rets st r. k rets st (tt, r)) (at_none i32_wrap_i64 c)
  execute-Safe i64_extend_i32_s c =
      Allows-weaken (λ c' k rets st r. k rets st (tt, r)) (at_none i64_extend_i32_s c)
  execute-Safe (i32_load v) c =
      Allows-weaken (λ c' k rets st r. k rets st (tt, r)) (at_none (i32_load v) c)
  execute-Safe (i64_load v) c =
      Allows-weaken (λ c' k rets st r. k rets st (tt, r)) (at_none (i64_load v) c)
  execute-Safe (i32_store v) c =
      Allows-weaken (λ c' k rets st r. k rets st (tt, r)) (at_none (i32_store v) c)
  execute-Safe (i64_store v) c =
      Allows-weaken (λ c' k rets st r. k rets st (tt, r)) (at_none (i64_store v) c)
  execute-Safe (i32_load8_u v) c =
      Allows-weaken (λ c' k rets st r. k rets st (tt, r)) (at_none (i32_load8_u v) c)
  execute-Safe (i32_store8 v) c =
      Allows-weaken (λ c' k rets st r. k rets st (tt, r)) (at_none (i32_store8 v) c)
  execute-Safe memory_size c =
      Allows-weaken (λ c' k rets st r. k rets st (tt, r)) (at_none memory_size c)
  execute-Safe memory_grow c =
      Allows-weaken (λ c' k rets st r. k rets st (tt, r)) (at_none memory_grow c)
