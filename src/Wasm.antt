-- ===== src/Wasm.antt =====
-- crates/deed-codegen/src/wasm.rs: a WebAssembly module under construction, its instructions, and
-- the operations that number what goes into it. A `u32` is a native number, an `i32` and an `i64`
-- an integer. The vectors of instructions inside an instruction are the lists `Body`.
pub mod Leb
pub mod Encode
pub mod Sections
pub mod Checker
pub mod Validate
pub mod Memory
pub mod Interning
pub mod Run
mod Examples
mod Edges
use deed.Prelude.{
  ℕ, suc, ◌+◌, ◌-◌, ◌==◌, ◌&&◌, Bool, true, false, String, Option, none, some, List, [], ◌∷◌, ◌++◌,
  length, if◌then◌else◌,
}
use deed.Prelude.Int.{ℤ}
use deed.Ast.{Span}
use text.Mathlib.Text.{◌==◌ as str_eq}

pub data ValType : Type 0 where
  i32 i64 : ValType

mutual
  pub data Ins : Type 0 where
    marked : ℕ → Ins → Ins
    unreachable nop : Ins
    block loop : Option ValType → Body → Ins
    if_else : Option ValType → Body → Body → Ins
    br br_if : ℕ → Ins
    return : Ins
    call call_indirect : ℕ → Ins
    drop : Ins
    local_get local_set local_tee : ℕ → Ins
    i32_const i64_const : ℤ → Ins
    i32_add i32_sub i32_mul i32_eq i32_ne i32_lt_s i32_le_s i32_gt_s i32_ge_s : Ins
    i32_and i32_or i32_eqz : Ins
    i64_add i64_sub i64_mul i64_xor i64_div_s i64_rem_s : Ins
    i64_eq i64_ne i64_lt_s i64_le_s i64_gt_s i64_ge_s i64_eqz : Ins
    i32_wrap_i64 i64_extend_i32_s : Ins
    i32_load i64_load i32_store i64_store i32_load8_u i32_store8 : ℕ → Ins
    memory_size memory_grow : Ins

  pub data Body : Type 0 where
    nil : Body
    cons : Ins → Body → Body

pub data SpanRole : Type 0 where
  trap call : SpanRole

pub record InstructionSpan : Type 0 where
  pub offset : ℕ
  pub span : Span
  pub role : SpanRole

pub record FunctionSpans : Type 0 where
  pub function : ℕ
  pub sites : List InstructionSpan

pub record FuncType : Type 0 where
  pub params : List ValType
  pub results : List ValType

pub record Func : Type 0 where
  pub type_index : ℕ
  pub locals : List ValType
  pub body : Body

pub record Import : Type 0 where
  pub namespace : String
  pub name : String
  pub type_index : ℕ

-- `segments` is the field `data` of the source.
pub record Module : Type 0 where
  pub types : List FuncType
  pub imports : List Import
  pub funcs : List Func
  pub exports : List (String × ℕ)
  pub memory_pages : Option ℕ
  pub exported_memory : Option String
  pub segments : List (ℕ × List ℕ)
  pub table : List ℕ
  pub names : List (ℕ × String)
  pub spans : List FunctionSpans

abbrev pub empty_module : Module
empty_module = record {
  types = [];
  imports = [];
  funcs = [];
  exports = [];
  memory_pages = none;
  exported_memory = none;
  segments = [];
  table = [];
  names = [];
  spans = [];
}

abbrev pub eq_val_type : ValType → ValType → Bool
eq_val_type i32 i32 = true
eq_val_type i64 i64 = true
eq_val_type _ _ = false

abbrev pub eq_val_types : List ValType → List ValType → Bool
eq_val_types [] [] = true
eq_val_types (x ∷ xs) (y ∷ ys) = eq_val_type x y && eq_val_types xs ys
eq_val_types _ _ = false

abbrev pub eq_func_type : FuncType → FuncType → Bool
eq_func_type a b = eq_val_types a.params b.params && eq_val_types a.results b.results

-- The first index whose element passes the test.
unfoldable pub position {ℓ} : {A : Type ℓ} → (A → Bool) → List A → Option ℕ
position p [] = none
position p (x ∷ xs) =
    if p x then some 0 else (elim (position p xs) [ none ↦ none | some i ↦ some (suc i) ])

abbrev pub known_type : FuncType → Module → Option ℕ → ℕ × Module
known_type ty m (some found) = (found, m)
known_type ty m none = (length m.types, record m { types = m.types ++ ty ∷ [] })

-- The index of a signature, which is put at the end if it is new.
unfoldable pub intern_type : FuncType → Module → ℕ × Module
unfolding position
intern_type ty m = known_type ty m (position (λ existing. eq_func_type existing ty) m.types)

abbrev pub known_entry : ℕ → Module → Option ℕ → ℕ × Module
known_entry func m (some at) = (at, m)
known_entry func m none = (length m.table, record m { table = m.table ++ func ∷ [] })

unfoldable pub intern_table : ℕ → Module → ℕ × Module
unfolding position
intern_table func m = known_entry func m (position (λ found. found == func) m.table)

abbrev pub same_import : String → String → Import → Bool
same_import namespace name found = str_eq found.namespace namespace && str_eq found.name name

-- `none` where the source's assertion stops the program: a function has been added already.
unfoldable pub add_import : String → String → ℕ → Module → Option (ℕ × Module)
unfolding position
add_import namespace name type_index m = elim m.funcs [
  | _ ∷ _ ↦ none
  | [] ↦ some (elim (position (same_import namespace name) m.imports) [
    | some at ↦ (at, m)
    | none ↦ (
      length m.imports,
      record m {
        imports =
            m.imports
            ++ record { namespace = namespace; name = name; type_index = type_index } ∷ [];
      },
    )
  ])
]

unfoldable pub add_func : Func → Module → ℕ × Module
add_func func m = (length m.imports + length m.funcs, record m { funcs = m.funcs ++ func ∷ [] })

unfoldable pub export : String → ℕ → Module → Module
export name func m = record m { exports = m.exports ++ (name, func) ∷ [] }
