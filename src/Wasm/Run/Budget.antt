-- ===== src/Wasm/Run/Budget.antt =====
-- crates/deed-codegen/src/run.rs: the budget of instructions, as the measure of the recursion.
use deed.Prelude.{
  ℕ, zero, suc, ◌-◌, ◌≤◌, ◌<◌, ◌≡◌, refl, ap, arith, Bool-cases, ltb, Option, none, some, List, [],
  ◌∷◌, length, get_elem?, split_at?, ◌⊎◌, inl, inr, if◌then◌else◌,
}
use mathlib.Core.List.{reverse}
use deed.Ast.{Span}
use deed.Wasm.{
  ValType, Ins, Body, Func, Import, Module, marked, unreachable, nop, block, loop, if_else, br,
  br_if, return, call, call_indirect, drop, local_get, local_set, local_tee, i32_const, i64_const,
  i32_add, i32_sub, i32_mul, i32_eq, i32_ne, i32_lt_s, i32_le_s, i32_gt_s, i32_ge_s, i32_and,
  i32_or, i32_eqz, i64_add, i64_sub, i64_mul, i64_xor, i64_div_s, i64_rem_s, i64_eq, i64_ne,
  i64_lt_s, i64_le_s, i64_gt_s, i64_ge_s, i64_eqz, i32_wrap_i64, i64_extend_i32_s, i32_load,
  i64_load, i32_store, i64_store, i32_load8_u, i32_store8, memory_size, memory_grow,
}
use deed.Wasm.Memory.{Value, as_bool, Memory}
use deed.Wasm.Run.{
  Trap, Run, State, Result, done, trapped, panicked, out_of_gas, or_panic, out_of_bounds, simple,
  pop,
}
use deed.Wasm.Run.Machine.{
  Host, Runner, Flow, normal, break, returned, Answer, leave, branch_if, run_if, table_at,
  fall_through, HostFn, type_index_of, arity, call_offered, host_for, host_answer, answer_of,
  push_answer, call_import, call_defined, enter, call_function, step, execute,
}
use deed.Wasm.Run.Ends.{
  Ends, returns, traps, panics, Ends-bind, Ends-map_trap, Ends-or_trap, Ends-weaken,
}
use deed.Wasm.Run.Simple.{SpendsNothing, simple-Spends}

abbrev pub Finishes {ℓ} : {A : Type ℓ} → (A → Type 0) → Result A → Type ℓ
Finishes P r = Ends (Unit {0}) ⊥ P r

or_panic-Finishes {ℓ} : {A : Type ℓ} (o : Option A) → Finishes (λ _. Unit {0}) (or_panic o)
or_panic-Finishes none = panics tt
or_panic-Finishes (some a) = returns tt

-- No more is left than so much.
abbrev pub Left : ℕ → Flow × State → Type 0
Left n p = p.1.run.fuel ≤ n

-- At a branch or a return something has been spent.
abbrev pub LeftAfter : ℕ → Flow × State → Type 0
LeftAfter n (normal, st) = st.run.fuel ≤ n
LeftAfter n (break depth, st) = st.run.fuel < n
LeftAfter n (returned, st) = st.run.fuel < n

abbrev pub Quick : ℕ → Runner → Type 0
Quick n runner =
    (function : ℕ) (body : Body) (st : State)
    → st.run.fuel ≤ n
    → Finishes (Left st.run.fuel) (runner function body st)

abbrev pub AnswerLeft : ℕ → Answer → Type 0
AnswerLeft n answer = answer.1.fuel ≤ n

host_answer-Finishes :
    (fuel : ℕ) (memory : Memory) (a : (Option Value ⊎ Trap) × (ℕ → ℕ))
    → Finishes (AnswerLeft fuel) (host_answer fuel memory a)
host_answer-Finishes fuel memory (inl value, bytes) = returns (omega arith)
host_answer-Finishes fuel memory (inr trap, bytes) = traps

call_offered-Finishes :
    (args : List Value) (r : Run) (i : Import) (offered : Option HostFn)
    → Finishes (AnswerLeft r.fuel) (call_offered args r i offered)
call_offered-Finishes args r i none = traps
call_offered-Finishes args r i (some func) =
    host_answer-Finishes r.fuel r.memory (func args r.memory)

SpendsNothing-Finishes :
    (st : State) (r : Result State)
    → SpendsNothing st r
    → Finishes (λ st'. st'.run.fuel ≤ st.run.fuel) r
SpendsNothing-Finishes st (done st') h = returns (omega arith)
SpendsNothing-Finishes st (trapped why memory) h = traps
SpendsNothing-Finishes st panicked h = panics tt
SpendsNothing-Finishes st out_of_gas h = absurd h

answer_of-Left :
    {n : ℕ} (results : List ValType) (st : State)
    → st.run.fuel ≤ n
    → AnswerLeft n (answer_of results st)
answer_of-Left [] st h = h
answer_of-Left (ty ∷ tys) st h = h

push_answer-Left :
    {n : ℕ} (st : State) (answer : Answer)
    → AnswerLeft n answer
    → (push_answer st answer).run.fuel ≤ n
push_answer-Left st (none, r) h = h
push_answer-Left st (some value, r) h = h

module _ (m : Module) (host : Option Host) where
  type_index_of-Finishes :
      (index : ℕ) (st : State) → Finishes (λ _. Unit {0}) (type_index_of m index st)
  unfolding type_index_of
  type_index_of-Finishes index st = elim (Bool-cases (ltb index (length m.imports))) [
    | inl e ↦ rw e (Ends-bind (or_panic-Finishes (get_elem? m.imports index)) λ _ _. returns tt)
    | inr e ↦ rw e (
        Ends-bind (Ends-or_trap out_of_bounds st (get_elem? m.funcs (index - length m.imports)))
          λ _ _. returns tt)
  ]

  arity-Finishes : (index : ℕ) (st : State) → Finishes (λ _. Unit {0}) (arity m index st)
  unfolding arity
  arity-Finishes index st =
      Ends-bind (type_index_of-Finishes index st) λ type_index _.
        Ends-bind (or_panic-Finishes (get_elem? m.types type_index)) λ _ _. returns tt

  module _ (runner : Runner) (n : ℕ) (quick : Quick n runner) where
    call_import-Finishes :
        (args : List Value) (r : Run) (i : Import)
        → Finishes (AnswerLeft r.fuel) (call_import host args r i)
    unfolding call_import
    call_import-Finishes args r i = call_offered-Finishes args r i (host_for i host)

    call_defined-Finishes :
        (index : ℕ) (args : List Value) (r : Run) (func : Func)
        → r.fuel ≤ n
        → Finishes (AnswerLeft r.fuel) (call_defined m runner index args r func)
    unfolding call_defined
    call_defined-Finishes index args r func h =
        Ends-bind (or_panic-Finishes (get_elem? m.types func.type_index)) λ signature _.
          Ends-bind (quick index func.body _ h)
            λ p left. returns (answer_of-Left signature.results p.1 left)

    pub enter-Finishes :
        (index : ℕ) (args : List Value) (r : Run)
        → r.fuel ≤ n
        → Finishes (AnswerLeft r.fuel) (enter m host runner index args r)
    unfolding enter
    enter-Finishes index args r h = elim (Bool-cases (ltb index (length m.imports))) [
      | inl e ↦ rw e (Ends-bind (or_panic-Finishes _) λ i _. call_import-Finishes args r i)
      | inr e ↦
          rw e (Ends-bind (or_panic-Finishes _) λ func _. call_defined-Finishes index args r func h)
    ]

    call_function-Finishes :
        (call_site : Option Span) (index : ℕ) (st : State)
        → st.run.fuel ≤ n
        → Finishes
            (λ st'. st'.run.fuel ≤ st.run.fuel)
            (call_function m host runner call_site index st)
    unfolding call_function
    call_function-Finishes call_site index st h = Ends-bind (arity-Finishes index st) λ count _.
        Ends-bind (or_panic-Finishes (split_at? count st.stack)) λ split _.
          Ends-bind (Ends-map_trap _ (enter-Finishes index (reverse split.0) st.run h))
            λ answer left. returns (push_answer-Left (record st { stack = split.1 }) answer left)

    pop-Finishes : (st : State) → Finishes (λ p. p.1.run ≡ st.run) (pop st)
    unfolding pop
    pop-Finishes st = pop_from st st.stack refl
      where
        pop_from :
            (st : State) (stack : List Value)
            → st.stack ≡ stack
            → Finishes (λ p. p.1.run ≡ st.run) (pop st)
        pop_from st [] e = rw e traps
        pop_from st (value ∷ stack) e = rw e (returns refl)

    fall_through-Finishes :
        (n : ℕ) (r : Result State)
        → Finishes (λ st'. st'.run.fuel ≤ n) r
        → Finishes (Left n) (fall_through r)
    fall_through-Finishes n r h = Ends-bind h λ st' left. returns left

    fuel_of : (p : Value × State) (st : State) → p.1.run ≡ st.run → p.1.run.fuel ≡ st.run.fuel
    fuel_of p st same = ap (λ (r : Run). r.fuel) same

    table_at-Finishes : (slot : Value) (st : State) → Finishes (λ _. Unit {0}) (table_at m slot st)
    unfolding table_at
    table_at-Finishes slot st = Ends-weaken (λ _ _. tt) (Ends-or_trap out_of_bounds st _)

    simple-Finishes :
        (ins : Ins) (st : State) → Finishes (Left st.run.fuel) (fall_through (simple ins st))
    simple-Finishes ins st =
        fall_through-Finishes _ _ (SpendsNothing-Finishes st _ (simple-Spends ins st))

    leave-Left : (n : ℕ) (p : Flow × State) → Left n p → Finishes (Left n) (leave p)
    leave-Left n (normal, st) h = returns h
    leave-Left n (returned, st) h = returns h
    leave-Left n (break zero, st) h = returns h
    leave-Left n (break (suc depth), st) h = returns h

    run_if-Finishes :
        (bound function : ℕ) (taken otherwise : Body) (p : Value × State)
        → p.1.run.fuel ≡ bound
        → bound ≤ n
        → Finishes (Left bound) (run_if runner function taken otherwise p)
    unfolding run_if
    run_if-Finishes bound function taken otherwise (value, st) e h =
        Ends-bind (quick function (if as_bool value then taken else otherwise) st (omega arith))
          λ p left. leave-Left bound p (omega arith)

    module _ (rounds : Runner) (quick_rounds : Quick n rounds) where
      step-Finishes :
          (function : ℕ) (site : Option ℕ) (ins : Ins) (st : State)
          → st.run.fuel ≤ n
          → Finishes (Left st.run.fuel) (step m host runner rounds function site ins st)
      unfolding step branch_if
      step-Finishes function site (marked s inner) st h = panics tt
      step-Finishes function site unreachable st h = traps
      step-Finishes function site return st h = returns (omega arith)
      step-Finishes function site (br depth) st h = returns (omega arith)
      step-Finishes function site (br_if depth) st h =
          Ends-bind (pop-Finishes st)
            λ p same. returns (omega (arith, ap (λ (r : Run). r.fuel) same))
      step-Finishes function site (block result body) st h =
          Ends-bind (quick function body st h) λ p left. leave-Left st.run.fuel p left
      step-Finishes function site (loop result body) st h = quick_rounds function body st h
      step-Finishes function site (if_else result taken otherwise) st h =
          Ends-bind (pop-Finishes st)
            λ p same. run_if-Finishes st.run.fuel function taken otherwise p (fuel_of p st same) h
      step-Finishes function site (call index) st h =
          fall_through-Finishes _ _ (call_function-Finishes _ index st h)
      step-Finishes function site (call_indirect type_index) st h =
          Ends-bind (pop-Finishes st) λ p same. Ends-bind (table_at-Finishes p.0 p.1) λ index _.
            fall_through-Finishes st.run.fuel (call_function m host runner _ index p.1) (
              Ends-weaken (λ st' left. omega (arith, fuel_of p st same))
                (call_function-Finishes _ index p.1 (omega (arith, fuel_of p st same))))
      step-Finishes function site nop st h = simple-Finishes nop st
      step-Finishes function site drop st h = simple-Finishes drop st
      step-Finishes function site (local_get v) st h = simple-Finishes (local_get v) st
      step-Finishes function site (local_set v) st h = simple-Finishes (local_set v) st
      step-Finishes function site (local_tee v) st h = simple-Finishes (local_tee v) st
      step-Finishes function site (i32_const v) st h = simple-Finishes (i32_const v) st
      step-Finishes function site (i64_const v) st h = simple-Finishes (i64_const v) st
      step-Finishes function site i32_add st h = simple-Finishes i32_add st
      step-Finishes function site i32_sub st h = simple-Finishes i32_sub st
      step-Finishes function site i32_mul st h = simple-Finishes i32_mul st
      step-Finishes function site i32_eq st h = simple-Finishes i32_eq st
      step-Finishes function site i32_ne st h = simple-Finishes i32_ne st
      step-Finishes function site i32_lt_s st h = simple-Finishes i32_lt_s st
      step-Finishes function site i32_le_s st h = simple-Finishes i32_le_s st
      step-Finishes function site i32_gt_s st h = simple-Finishes i32_gt_s st
      step-Finishes function site i32_ge_s st h = simple-Finishes i32_ge_s st
      step-Finishes function site i32_and st h = simple-Finishes i32_and st
      step-Finishes function site i32_or st h = simple-Finishes i32_or st
      step-Finishes function site i32_eqz st h = simple-Finishes i32_eqz st
      step-Finishes function site i64_add st h = simple-Finishes i64_add st
      step-Finishes function site i64_sub st h = simple-Finishes i64_sub st
      step-Finishes function site i64_mul st h = simple-Finishes i64_mul st
      step-Finishes function site i64_xor st h = simple-Finishes i64_xor st
      step-Finishes function site i64_div_s st h = simple-Finishes i64_div_s st
      step-Finishes function site i64_rem_s st h = simple-Finishes i64_rem_s st
      step-Finishes function site i64_eq st h = simple-Finishes i64_eq st
      step-Finishes function site i64_ne st h = simple-Finishes i64_ne st
      step-Finishes function site i64_lt_s st h = simple-Finishes i64_lt_s st
      step-Finishes function site i64_le_s st h = simple-Finishes i64_le_s st
      step-Finishes function site i64_gt_s st h = simple-Finishes i64_gt_s st
      step-Finishes function site i64_ge_s st h = simple-Finishes i64_ge_s st
      step-Finishes function site i64_eqz st h = simple-Finishes i64_eqz st
      step-Finishes function site i32_wrap_i64 st h = simple-Finishes i32_wrap_i64 st
      step-Finishes function site i64_extend_i32_s st h = simple-Finishes i64_extend_i32_s st
      step-Finishes function site (i32_load v) st h = simple-Finishes (i32_load v) st
      step-Finishes function site (i64_load v) st h = simple-Finishes (i64_load v) st
      step-Finishes function site (i32_store v) st h = simple-Finishes (i32_store v) st
      step-Finishes function site (i64_store v) st h = simple-Finishes (i64_store v) st
      step-Finishes function site (i32_load8_u v) st h = simple-Finishes (i32_load8_u v) st
      step-Finishes function site (i32_store8 v) st h = simple-Finishes (i32_store8 v) st
      step-Finishes function site memory_size st h = simple-Finishes memory_size st
      step-Finishes function site memory_grow st h = simple-Finishes memory_grow st

      pub execute-Finishes :
          (function : ℕ) (ins : Ins) (st : State)
          → st.run.fuel ≤ n
          → Finishes (Left st.run.fuel) (execute m host runner rounds function ins st)
      unfolding execute
      execute-Finishes function (marked site inner) st h =
          step-Finishes function (some site) inner st h
      execute-Finishes function unreachable st h = step-Finishes function none unreachable st h
      execute-Finishes function nop st h = step-Finishes function none nop st h
      execute-Finishes function (block r b) st h = step-Finishes function none (block r b) st h
      execute-Finishes function (loop r b) st h = step-Finishes function none (loop r b) st h
      execute-Finishes function (if_else r b c) st h =
          step-Finishes function none (if_else r b c) st h
      execute-Finishes function (br v) st h = step-Finishes function none (br v) st h
      execute-Finishes function (br_if v) st h = step-Finishes function none (br_if v) st h
      execute-Finishes function return st h = step-Finishes function none return st h
      execute-Finishes function (call v) st h = step-Finishes function none (call v) st h
      execute-Finishes function (call_indirect v) st h =
          step-Finishes function none (call_indirect v) st h
      execute-Finishes function drop st h = step-Finishes function none drop st h
      execute-Finishes function (local_get v) st h = step-Finishes function none (local_get v) st h
      execute-Finishes function (local_set v) st h = step-Finishes function none (local_set v) st h
      execute-Finishes function (local_tee v) st h = step-Finishes function none (local_tee v) st h
      execute-Finishes function (i32_const v) st h = step-Finishes function none (i32_const v) st h
      execute-Finishes function (i64_const v) st h = step-Finishes function none (i64_const v) st h
      execute-Finishes function i32_add st h = step-Finishes function none i32_add st h
      execute-Finishes function i32_sub st h = step-Finishes function none i32_sub st h
      execute-Finishes function i32_mul st h = step-Finishes function none i32_mul st h
      execute-Finishes function i32_eq st h = step-Finishes function none i32_eq st h
      execute-Finishes function i32_ne st h = step-Finishes function none i32_ne st h
      execute-Finishes function i32_lt_s st h = step-Finishes function none i32_lt_s st h
      execute-Finishes function i32_le_s st h = step-Finishes function none i32_le_s st h
      execute-Finishes function i32_gt_s st h = step-Finishes function none i32_gt_s st h
      execute-Finishes function i32_ge_s st h = step-Finishes function none i32_ge_s st h
      execute-Finishes function i32_and st h = step-Finishes function none i32_and st h
      execute-Finishes function i32_or st h = step-Finishes function none i32_or st h
      execute-Finishes function i32_eqz st h = step-Finishes function none i32_eqz st h
      execute-Finishes function i64_add st h = step-Finishes function none i64_add st h
      execute-Finishes function i64_sub st h = step-Finishes function none i64_sub st h
      execute-Finishes function i64_mul st h = step-Finishes function none i64_mul st h
      execute-Finishes function i64_xor st h = step-Finishes function none i64_xor st h
      execute-Finishes function i64_div_s st h = step-Finishes function none i64_div_s st h
      execute-Finishes function i64_rem_s st h = step-Finishes function none i64_rem_s st h
      execute-Finishes function i64_eq st h = step-Finishes function none i64_eq st h
      execute-Finishes function i64_ne st h = step-Finishes function none i64_ne st h
      execute-Finishes function i64_lt_s st h = step-Finishes function none i64_lt_s st h
      execute-Finishes function i64_le_s st h = step-Finishes function none i64_le_s st h
      execute-Finishes function i64_gt_s st h = step-Finishes function none i64_gt_s st h
      execute-Finishes function i64_ge_s st h = step-Finishes function none i64_ge_s st h
      execute-Finishes function i64_eqz st h = step-Finishes function none i64_eqz st h
      execute-Finishes function i32_wrap_i64 st h = step-Finishes function none i32_wrap_i64 st h
      execute-Finishes function i64_extend_i32_s st h =
          step-Finishes function none i64_extend_i32_s st h
      execute-Finishes function (i32_load v) st h = step-Finishes function none (i32_load v) st h
      execute-Finishes function (i64_load v) st h = step-Finishes function none (i64_load v) st h
      execute-Finishes function (i32_store v) st h = step-Finishes function none (i32_store v) st h
      execute-Finishes function (i64_store v) st h = step-Finishes function none (i64_store v) st h
      execute-Finishes function (i32_load8_u v) st h =
          step-Finishes function none (i32_load8_u v) st h
      execute-Finishes function (i32_store8 v) st h =
          step-Finishes function none (i32_store8 v) st h
      execute-Finishes function memory_size st h = step-Finishes function none memory_size st h
      execute-Finishes function memory_grow st h = step-Finishes function none memory_grow st h
