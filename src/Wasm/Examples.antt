-- ===== src/Wasm/Examples.antt =====
-- Small modules for the encoder, the validator and the runner.
use deed.Prelude.{◌==◌, inr, ℕ, ◌≡◌, refl, arith, none, some, List, [], ◌∷◌, ◌++◌, split_at?}
use deed.Prelude.Int.{pos, negsuc}
use deed.Wasm.{
  FuncType, Func, eq_func_type, intern_type, intern_table, i64, Module, empty_module, Ins, Body,
  nil, cons, block, loop, br, br_if, call, local_get, local_set, i64_const, i64_eqz, i64_sub,
  i64_add, i64_mul,
}
use deed.Wasm.Checker.{
  type_at, local_type, push, pop_expect, consume, pop_all, push_all, branch_target, set_unreachable,
  pop_frame, push_frame, func_type, function_results, require_memory, has_else,
}
use deed.Wasm.Validate.{
  validate, validate_funcs, validate_func, validate_body, instructions, validate_table,
}
use deed.Wasm.Memory.{Value, Memory}
use deed.Wasm.Run.Machine.{
  run, repeat, execute, step, spend, call_function, arity, type_index_of, enter, call_defined,
  branch_if, run_if, implementation_for, why, site_of,
}
use deed.Wasm.Run.{done, simple}
use deed.Wasm.Run.Export.{call_within, validated_export, run_export, start, memory_of}
use deed.Wasm.Run.Budget.{Finishes, AnswerLeft}
use deed.Wasm.Run.Termination.{start-Finishes}
use deed.Wasm.Checker.{ok}
use deed.Wasm.Run.Ends.{Ends}
use deed.Wasm.Run.Calls.{HostKeeps, AnswerOf}
use deed.Wasm.Run.Safety.{Runnable, RunnableBody}
use deed.Wasm.Run.NoPanic.{start-Answers}
use deed.Wasm.Interning.{Interned, intern_type-Interned, intern_table-Interned}
use deed.Wasm.Leb.{write_u32, write_i64, read_u32, read_i64, read_u32-write_u32, read_i64-write_i64}
use deed.Wasm.Encode.{
  encode, magic, write_vec, write_all, write_func_type, write_func, write_bytes, exports_body,
  write_name, as_bytes, write, compress_locals,
}
use deed.Wasm.Sections.{read_sections, sections_of, read_sections-encode}

abbrev pub empty_memory : Memory
empty_memory = record { size = 0; bytes = λ _. 0 }

abbrev pub body_of : List Ins → Body
body_of [] = nil
body_of (ins ∷ rest) = cons ins (body_of rest)

-- The factorial of the argument, by a loop: the second local is the product so far.
abbrev pub factorial : Func
factorial = record {
  type_index = 0;
  locals = i64 ∷ [];
  body = body_of (
      i64_const (pos 1)
      ∷ local_set 1
      ∷ block none (
          body_of (
            loop none (
              body_of (
                local_get 0
                ∷ i64_eqz
                ∷ br_if 1
                ∷ local_get 1
                ∷ local_get 0
                ∷ i64_mul
                ∷ local_set 1
                ∷ local_get 0
                ∷ i64_const (pos 1)
                ∷ i64_sub
                ∷ local_set 0
                ∷ br 0
                ∷ []))
            ∷ []))
      ∷ local_get 1
      ∷ []);
}

abbrev pub twice : Func
twice = record {
  type_index = 0;
  locals = [];
  body = body_of (local_get 0 ∷ call 0 ∷ local_get 0 ∷ call 0 ∷ i64_add ∷ []);
}

abbrev pub value_to_value : FuncType
value_to_value = record { params = i64 ∷ []; results = i64 ∷ [] }

-- A signature that the program does not have.
abbrev nothing : FuncType
nothing = record { params = []; results = [] }

abbrev pub program : Module
program = record empty_module {
  types = value_to_value ∷ [];
  funcs = factorial ∷ twice ∷ [];
  exports = ("twice", 1) ∷ [];
}

two_factorials :
    call_within program "twice" (Value.i64 (pos 5) ∷ []) 200
    ≡ done (record { value = some (Value.i64 (pos 240)); allocated = 0; steps = 141 }, empty_memory)
unfolding validate validate_funcs validate_func validate_body instructions validate_table type_at
    local_type push pop_expect consume pop_all push_all branch_target set_unreachable pop_frame
    push_frame func_type function_results require_memory has_else run repeat execute step spend
    call_function arity type_index_of enter call_defined branch_if run_if simple implementation_for
    why site_of call_within validated_export run_export start memory_of split_at?
two_factorials = refl

read_u32-write_u32_example : read_u32 (write_u32 624_485 ++ 7 ∷ []) ≡ some (624_485, 7 ∷ [])
read_u32-write_u32_example = read_u32-write_u32 624_485 (7 ∷ []) (omega arith)

read_i64-write_i64_example :
    read_i64 (write_i64 (negsuc 123_455) ++ 7 ∷ []) ≡ some (negsuc 123_455, 7 ∷ [])
read_i64-write_i64_example =
    read_i64-write_i64 (negsuc 123_455) (7 ∷ []) (record { low = omega arith; high = omega arith })

read_sections-encode_example :
    (bytes : List ℕ) × (encode program ≡ magic ++ bytes)
    × (read_sections 10 bytes ≡ some (sections_of program))
unfolding sections_of write_u32 write_i64 write_vec write_all write_func_type write_func write_bytes
    exports_body write_name as_bytes write compress_locals
read_sections-encode_example = read_sections-encode program 10 (omega arith) (omega arith)

start-Finishes_example :
    Finishes (AnswerLeft 200) (start program none 1 (Value.i64 (pos 5) ∷ []) 200 empty_memory)
start-Finishes_example = start-Finishes program none 1 (Value.i64 (pos 5) ∷ []) 200 empty_memory

program_keeps : HostKeeps program none
program_keeps i ty func args memory offered t = cc

program_is_valid : validate program ≡ ok tt
unfolding validate validate_funcs validate_func validate_body instructions validate_table type_at
    local_type push pop_expect consume pop_all push_all branch_target set_unreachable pop_frame
    push_frame func_type function_results require_memory has_else
program_is_valid = refl

start-Answers_example :
    Ends ⊥ ⊥
      (λ answer. AnswerOf 1 answer × AnswerLeft 200 answer)
      (start program none 1 (Value.i64 (pos 5) ∷ []) 200 empty_memory)
unfolding Runnable RunnableBody
start-Answers_example =
    start-Answers program none program_is_valid program_keeps (omega arith) (omega arith) 1
      value_to_value (Value.i64 (pos 5) ∷ []) 200 empty_memory (inr (twice, refl, refl, refl)) refl

intern_type-Interned_example :
    Interned
      (λ existing. eq_func_type existing nothing)
      nothing
      program.types
      (intern_type nothing program).1.types
      (intern_type nothing program).0
intern_type-Interned_example = intern_type-Interned nothing program

intern_table-Interned_example :
    Interned
      (λ found. found == 1)
      1
      program.table
      (intern_table 1 program).1.table
      (intern_table 1 program).0
intern_table-Interned_example = intern_table-Interned 1 program
