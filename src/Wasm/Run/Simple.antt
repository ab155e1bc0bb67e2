-- ===== src/Wasm/Run/Simple.antt =====
-- crates/deed-codegen/src/run.rs: what the plain instructions do to the budget.
use deed.Prelude.{◌≡◌, arith}
use deed.Wasm.{
  Ins, marked, unreachable, nop, block, loop, if_else, br, br_if, return, call, call_indirect, drop,
  local_get, local_set, local_tee, i32_const, i64_const, i32_add, i32_sub, i32_mul, i32_eq, i32_ne,
  i32_lt_s, i32_le_s, i32_gt_s, i32_ge_s, i32_and, i32_or, i32_eqz, i64_add, i64_sub, i64_mul,
  i64_xor, i64_div_s, i64_rem_s, i64_eq, i64_ne, i64_lt_s, i64_le_s, i64_gt_s, i64_ge_s, i64_eqz,
  i32_wrap_i64, i64_extend_i32_s, i32_load, i64_load, i32_store, i64_store, i32_load8_u, i32_store8,
  memory_size, memory_grow,
}
use deed.Wasm.Run.{
  State, Result, done, trapped, panicked, out_of_gas, pop, unary, arithmetic, simple,
}

-- The budget is left as it is, and the recursion is not cut short.
abbrev pub SpendsNothing : State → Result State → Type 0
SpendsNothing st (done st') = st'.run.fuel ≡ st.run.fuel
SpendsNothing st (trapped why memory) = Unit
SpendsNothing st panicked = Unit
SpendsNothing st out_of_gas = ⊥

arithmetic-Spends : (ins : Ins) (st : State) → SpendsNothing st (arithmetic ins st)
unfolding arithmetic
arithmetic-Spends ins st = ground arith

pub simple-Spends : (ins : Ins) (st : State) → SpendsNothing st (simple ins st)
unfolding simple pop unary
simple-Spends nop st = ground arith
simple-Spends drop st = ground arith
simple-Spends (local_get v) st = ground arith
simple-Spends (local_set v) st = ground arith
simple-Spends (local_tee v) st = ground arith
simple-Spends (i32_const v) st = ground arith
simple-Spends (i64_const v) st = ground arith
simple-Spends i32_eqz st = ground arith
simple-Spends i64_eqz st = ground arith
simple-Spends i32_wrap_i64 st = ground arith
simple-Spends i64_extend_i32_s st = ground arith
simple-Spends (i32_load v) st = ground arith
simple-Spends (i64_load v) st = ground arith
simple-Spends (i32_store v) st = ground arith
simple-Spends (i64_store v) st = ground arith
simple-Spends (i32_load8_u v) st = ground arith
simple-Spends (i32_store8 v) st = ground arith
simple-Spends memory_size st = ground arith
simple-Spends memory_grow st = ground arith
simple-Spends i32_add st = arithmetic-Spends i32_add st
simple-Spends i32_sub st = arithmetic-Spends i32_sub st
simple-Spends i32_mul st = arithmetic-Spends i32_mul st
simple-Spends i32_eq st = arithmetic-Spends i32_eq st
simple-Spends i32_ne st = arithmetic-Spends i32_ne st
simple-Spends i32_lt_s st = arithmetic-Spends i32_lt_s st
simple-Spends i32_le_s st = arithmetic-Spends i32_le_s st
simple-Spends i32_gt_s st = arithmetic-Spends i32_gt_s st
simple-Spends i32_ge_s st = arithmetic-Spends i32_ge_s st
simple-Spends i32_and st = arithmetic-Spends i32_and st
simple-Spends i32_or st = arithmetic-Spends i32_or st
simple-Spends i64_add st = arithmetic-Spends i64_add st
simple-Spends i64_sub st = arithmetic-Spends i64_sub st
simple-Spends i64_mul st = arithmetic-Spends i64_mul st
simple-Spends i64_xor st = arithmetic-Spends i64_xor st
simple-Spends i64_div_s st = arithmetic-Spends i64_div_s st
simple-Spends i64_rem_s st = arithmetic-Spends i64_rem_s st
simple-Spends i64_eq st = arithmetic-Spends i64_eq st
simple-Spends i64_ne st = arithmetic-Spends i64_ne st
simple-Spends i64_lt_s st = arithmetic-Spends i64_lt_s st
simple-Spends i64_le_s st = arithmetic-Spends i64_le_s st
simple-Spends i64_gt_s st = arithmetic-Spends i64_gt_s st
simple-Spends i64_ge_s st = arithmetic-Spends i64_ge_s st
simple-Spends (marked site inner) st = arithmetic-Spends (marked site inner) st
simple-Spends unreachable st = arithmetic-Spends unreachable st
simple-Spends (block r b) st = arithmetic-Spends (block r b) st
simple-Spends (loop r b) st = arithmetic-Spends (loop r b) st
simple-Spends (if_else r b c) st = arithmetic-Spends (if_else r b c) st
simple-Spends (br v) st = arithmetic-Spends (br v) st
simple-Spends (br_if v) st = arithmetic-Spends (br_if v) st
simple-Spends return st = arithmetic-Spends return st
simple-Spends (call v) st = arithmetic-Spends (call v) st
simple-Spends (call_indirect v) st = arithmetic-Spends (call_indirect v) st
