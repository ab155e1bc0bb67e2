-- ===== src/Wasm/Validate.antt =====
-- crates/deed-codegen/src/validate.rs: every instruction of a body against the two stacks, and a
-- module function by function.
pub mod Kept
use deed.Prelude.{
  ℕ, suc, ◌+◌, ◌==◌, leb, String, Option, none, some, List, [], ◌∷◌, ◌++◌, length, if◌then◌else◌,
}
use mathlib.Core.List.{reverse}
use deed.Wasm.{
  ValType, i32, i64, FuncType, Func, Module, Ins, Body, nil, cons, marked, unreachable, nop, block,
  loop, if_else, br, br_if, return, call, call_indirect, drop, local_get, local_set, local_tee,
  i32_const, i64_const, i32_add, i32_sub, i32_mul, i32_eq, i32_ne, i32_lt_s, i32_le_s, i32_gt_s,
  i32_ge_s, i32_and, i32_or, i32_eqz, i64_add, i64_sub, i64_mul, i64_xor, i64_div_s, i64_rem_s,
  i64_eq, i64_ne, i64_lt_s, i64_le_s, i64_gt_s, i64_ge_s, i64_eqz, i32_wrap_i64, i64_extend_i32_s,
  i32_load, i64_load, i32_store, i64_store, i32_load8_u, i32_store8, memory_size, memory_grow,
}
use deed.Wasm.Checker.{
  no_indirect_type, no_signature, no_table_function, in_function, Verdict, ok, invalid, panicked,
  ◌>>=◌, Checker, push, pop, pop_expect, pop_all, push_all, consume, apply_type, local_type,
  type_at, func_type, push_frame, pop_frame, set_unreachable, branch_target, function_results,
  of_result, has_else, require_memory,
}

unfoldable mutual
  pub instruction : Module → Ins → Checker → Verdict Checker
  instruction m (marked site inner) c = instruction m inner c
  instruction m unreachable c = set_unreachable c
  instruction m nop c = ok c
  instruction m (block result body) c = do
    inner ← instructions m body (push_frame (of_result result) (of_result result) c)
    (produced, c') ← pop_frame inner
    ok (push_all produced c')
  instruction m (loop result body) c = do
    inner ← instructions m body (push_frame [] (of_result result) c)
    (produced, c') ← pop_frame inner
    ok (push_all produced c')
  instruction m (if_else result taken otherwise) c = do
    tested ← pop_expect i32 c
    entered ← has_else result otherwise (push_frame (of_result result) (of_result result) tested)
    inner ← instructions m taken entered
    (produced, outer) ← pop_frame inner
    inner' ← instructions m otherwise (push_frame (of_result result) (of_result result) outer)
    (_, c') ← pop_frame inner'
    ok (push_all produced c')
  instruction m (br depth) c = do
    target ← branch_target depth c
    c' ← pop_all (reverse target) c
    set_unreachable c'
  instruction m (br_if depth) c = do
    tested ← pop_expect i32 c
    target ← branch_target depth tested
    c' ← pop_all (reverse target) tested
    ok (push_all target c')
  instruction m return c = do
    results ← function_results c.frames
    c' ← pop_all (reverse results) c
    set_unreachable c'
  instruction m (call index) c = do ty ← func_type m index; apply_type ty c
  instruction m (call_indirect type_index) c = do
    indexed ← pop_expect i32 c
    ty ← type_at (no_indirect_type type_index) m type_index
    apply_type ty indexed
  instruction m drop c = do (_, c') ← pop c; ok c'
  instruction m (local_get index) c = do ty ← local_type index c; ok (push ty c)
  instruction m (local_set index) c = do ty ← local_type index c; pop_expect ty c
  instruction m (local_tee index) c = do ty ← local_type index c; consume (ty ∷ []) (ty ∷ []) c
  instruction m (i32_const value) c = ok (push i32 c)
  instruction m (i64_const value) c = ok (push i64 c)
  instruction m i32_add c = consume (i32 ∷ i32 ∷ []) (i32 ∷ []) c
  instruction m i32_sub c = consume (i32 ∷ i32 ∷ []) (i32 ∷ []) c
  instruction m i32_mul c = consume (i32 ∷ i32 ∷ []) (i32 ∷ []) c
  instruction m i32_and c = consume (i32 ∷ i32 ∷ []) (i32 ∷ []) c
  instruction m i32_or c = consume (i32 ∷ i32 ∷ []) (i32 ∷ []) c
  instruction m i32_eq c = consume (i32 ∷ i32 ∷ []) (i32 ∷ []) c
  instruction m i32_ne c = consume (i32 ∷ i32 ∷ []) (i32 ∷ []) c
  instruction m i32_lt_s c = consume (i32 ∷ i32 ∷ []) (i32 ∷ []) c
  instruction m i32_le_s c = consume (i32 ∷ i32 ∷ []) (i32 ∷ []) c
  instruction m i32_gt_s c = consume (i32 ∷ i32 ∷ []) (i32 ∷ []) c
  instruction m i32_ge_s c = consume (i32 ∷ i32 ∷ []) (i32 ∷ []) c
  instruction m i32_eqz c = consume (i32 ∷ []) (i32 ∷ []) c
  instruction m i64_add c = consume (i64 ∷ i64 ∷ []) (i64 ∷ []) c
  instruction m i64_sub c = consume (i64 ∷ i64 ∷ []) (i64 ∷ []) c
  instruction m i64_mul c = consume (i64 ∷ i64 ∷ []) (i64 ∷ []) c
  instruction m i64_xor c = consume (i64 ∷ i64 ∷ []) (i64 ∷ []) c
  instruction m i64_div_s c = consume (i64 ∷ i64 ∷ []) (i64 ∷ []) c
  instruction m i64_rem_s c = consume (i64 ∷ i64 ∷ []) (i64 ∷ []) c
  instruction m i64_eq c = consume (i64 ∷ i64 ∷ []) (i32 ∷ []) c
  instruction m i64_ne c = consume (i64 ∷ i64 ∷ []) (i32 ∷ []) c
  instruction m i64_lt_s c = consume (i64 ∷ i64 ∷ []) (i32 ∷ []) c
  instruction m i64_le_s c = consume (i64 ∷ i64 ∷ []) (i32 ∷ []) c
  instruction m i64_gt_s c = consume (i64 ∷ i64 ∷ []) (i32 ∷ []) c
  instruction m i64_ge_s c = consume (i64 ∷ i64 ∷ []) (i32 ∷ []) c
  instruction m i64_eqz c = consume (i64 ∷ []) (i32 ∷ []) c
  instruction m i32_wrap_i64 c = consume (i64 ∷ []) (i32 ∷ []) c
  instruction m i64_extend_i32_s c = consume (i32 ∷ []) (i64 ∷ []) c
  instruction m (i32_load offset) c = do
    checked ← require_memory m c
    consume (i32 ∷ []) (i32 ∷ []) checked
  instruction m (i64_load offset) c = do
    checked ← require_memory m c
    consume (i32 ∷ []) (i64 ∷ []) checked
  instruction m (i32_store offset) c = do
    checked ← require_memory m c
    consume (i32 ∷ i32 ∷ []) ([]) checked
  instruction m (i64_store offset) c = do
    checked ← require_memory m c
    consume (i64 ∷ i32 ∷ []) ([]) checked
  instruction m (i32_load8_u offset) c = do
    checked ← require_memory m c
    consume (i32 ∷ []) (i32 ∷ []) checked
  instruction m (i32_store8 offset) c = do
    checked ← require_memory m c
    consume (i32 ∷ i32 ∷ []) ([]) checked
  instruction m memory_size c = do checked ← require_memory m c; ok (push i32 checked)
  instruction m memory_grow c = do
    checked ← require_memory m c
    consume (i32 ∷ []) (i32 ∷ []) checked

  pub instructions : Module → Body → Checker → Verdict Checker
  instructions m nil c = ok c
  instructions m (cons ins body) c = instruction m ins c >>= instructions m body

abbrev pub named {ℓ} : {A : Type ℓ} → Option String → Verdict A → Verdict A
named name (ok a) = ok a
named name (invalid why) = invalid (in_function name why)
named name panicked = panicked

unfoldable pub debug_name : ℕ → List (ℕ × String) → Option String
debug_name index [] = none
debug_name index ((one, name) ∷ names) = if one == index then some name else debug_name index names

abbrev pub start : FuncType → Func → Checker
start signature func =
    push_frame signature.results signature.results
      (record { locals = signature.params ++ func.locals; stack = []; frames = [] })

-- The body of a function, from its first instruction to the end of its own frame.
unfoldable pub validate_body : Module → FuncType → Func → Verdict (List ValType × Checker)
unfolding push_frame
validate_body m signature func = instructions m func.body (start signature func) >>= pop_frame

unfoldable pub validate_func : Module → ℕ → Func → Verdict (List ValType × Checker)
unfolding debug_name
validate_func m at func = do
  signature ← type_at (no_signature func.type_index) m func.type_index
  named (debug_name (length m.imports + at) m.names) (validate_body m signature func)

unfoldable pub validate_funcs : Module → ℕ → List Func → Verdict (Unit {0})
validate_funcs m at [] = ok tt
validate_funcs m at (func ∷ funcs) =
    validate_func m at func >>= λ _. validate_funcs m (suc at) funcs

unfoldable pub validate_table : Module → List ℕ → Verdict (Unit {0})
validate_table m [] = ok tt
validate_table m (index ∷ table) =
    if leb (length m.imports + length m.funcs) index
    then invalid (no_table_function index)
    else validate_table m table

unfoldable pub validate : Module → Verdict (Unit {0})
validate m = validate_funcs m 0 m.funcs >>= λ _. validate_table m m.table
