-- ===== src/Wasm/Edges.antt =====
-- Where the runner is more permissive than the format: modules that the validator passes.
use deed.Prelude.{◌≡◌, refl, Option, none, some, [], ◌∷◌, split_at?}
use deed.Prelude.Int.{pos, negsuc}
use deed.Wasm.{
  i64, Module, empty_module, call_indirect, i32_const, i64_const, i32_store, i64_store, i64_load,
}
use deed.Wasm.Examples.{body_of}
use deed.Wasm.Checker.{
  type_at, local_type, push, pop_expect, consume, pop_all, push_all, pop_frame, push_frame,
  require_memory,
}
use deed.Wasm.Validate.{
  validate, validate_funcs, validate_func, validate_body, instructions, validate_table,
}
use deed.Wasm.Run.Machine.{
  run, execute, step, spend, call_function, arity, type_index_of, enter, call_defined, table_at,
}
use deed.Wasm.Memory.{Value, Memory}
use deed.Wasm.Run.{Result, done, panicked, simple}
use deed.Wasm.Run.Export.{Outcome, call_within, validated_export, run_export, start, memory_of}

-- The table's only function takes a value; the call names a type without one.
abbrev mismatched : Module
mismatched = record empty_module {
  types = record { params = []; results = [] } ∷ record { params = i64 ∷ []; results = [] } ∷ [];
  funcs =
      record {
        type_index = 0;
        locals = [];
        body = body_of (i32_const (pos 0) ∷ call_indirect 0 ∷ []);
      }
      ∷ record { type_index = 1; locals = []; body = body_of [] }
      ∷ [];
  exports = ("run", 0) ∷ ("gone", 9) ∷ [];
  table = 1 ∷ [];
}

-- A word of ones, of which four bytes are then overwritten.
abbrev narrow_store : Module
narrow_store = record empty_module {
  types = record { params = []; results = i64 ∷ [] } ∷ [];
  funcs =
      record {
        type_index = 0;
        locals = [];
        body = body_of (
            i32_const (pos 64)
            ∷ i64_const (negsuc 0)
            ∷ i64_store 0
            ∷ i32_const (pos 64)
            ∷ i32_const (pos 0)
            ∷ i32_store 0
            ∷ i32_const (pos 64)
            ∷ i64_load 0
            ∷ []);
      }
      ∷ [];
  exports = ("run", 0) ∷ [];
  memory_pages = some 1;
}

mismatched_panics : call_within mismatched "run" [] 100 ≡ panicked
unfolding validate validate_funcs validate_func validate_body instructions validate_table type_at
    local_type push pop_expect consume pop_all push_all pop_frame push_frame require_memory run
    execute step spend call_function arity type_index_of enter call_defined table_at simple
    call_within validated_export run_export start memory_of split_at?
mismatched_panics = refl

gone_panics : call_within mismatched "gone" [] 100 ≡ panicked
unfolding validate validate_funcs validate_func validate_body instructions validate_table type_at
    local_type push pop_expect consume pop_all push_all pop_frame push_frame require_memory run
    execute step spend call_function arity type_index_of enter call_defined table_at simple
    call_within validated_export run_export start memory_of split_at?
gone_panics = refl

abbrev value_of : Result (Outcome × Memory) → Option Value
value_of (done (outcome, memory)) = outcome.value
value_of r = none

-- All eight bytes are overwritten.
narrow_store_clears : value_of (call_within narrow_store "run" [] 100) ≡ some (Value.i64 (pos 0))
unfolding validate validate_funcs validate_func validate_body instructions validate_table type_at
    local_type push pop_expect consume pop_all push_all pop_frame push_frame require_memory run
    execute step spend call_function arity type_index_of enter call_defined table_at simple
    call_within validated_export run_export start memory_of split_at?
narrow_store_clears = refl
