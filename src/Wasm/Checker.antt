-- ===== src/Wasm/Checker.antt =====
-- crates/deed-codegen/src/validate.rs: what loading a module checks. The value stack and the stack
-- of frames have their tops in front. A message is a constructor with what it prints; `panicked` is
-- where the source would stop on an `expect` or an index.
pub mod Frames
pub mod Kept
use deed.Prelude.{
  ℕ, ◌-◌, ◌==◌, Bool, true, false, ltb, leb, String, Option, none, some, List, [], ◌∷◌, length,
  get_elem?, if◌then◌else◌,
}
use mathlib.Core.List.{reverse}
use deed.Wasm.{ValType, FuncType, Func, Import, Module, Body, nil, cons, eq_val_type}

pub data Reason : Type 0 where
  no_value values_left_behind no_else no_memory : Reason
  mismatch : ValType → ValType → Reason
  no_local no_function no_type no_indirect_type no_block no_signature no_table_function : ℕ → Reason
  in_function : Option String → Reason → Reason

pub data Verdict {ℓ} (A : Type ℓ) : Type ℓ where
  ok : A → Verdict A
  invalid : Reason → Verdict A
  panicked : Verdict A

infixl 20 ◌>>=◌
abbrev pub ◌>>=◌ {ℓ κ} : {A : Type ℓ} {B : Type κ} → Verdict A → (A → Verdict B) → Verdict B
ok a >>= f = f a
invalid why >>= f = invalid why
panicked >>= f = panicked

pub data Slot : Type 0 where
  val : ValType → Slot
  unknown : Slot

pub record Frame : Type 0 where
  pub label_types : List ValType
  pub end_types : List ValType
  pub height : ℕ
  pub unreachable : Bool

pub record Checker : Type 0 where
  pub locals : List ValType
  pub stack : List Slot
  pub frames : List Frame

unfoldable pub push : ValType → Checker → Checker
push ty c = record c { stack = val ty ∷ c.stack }

abbrev pub take_top : Checker → List Slot → Verdict (Slot × Checker)
take_top c [] = panicked
take_top c (slot ∷ stack) = ok (slot, record c { stack = stack })

unfoldable pub pop_from : Frame → Checker → Verdict (Slot × Checker)
pop_from frame c =
    if length c.stack == frame.height
    then if frame.unreachable then ok (unknown, c) else invalid no_value
    else take_top c c.stack

abbrev pub pop_with : Checker → List Frame → Verdict (Slot × Checker)
pop_with c [] = panicked
pop_with c (frame ∷ frames) = pop_from frame c

unfoldable pub pop : Checker → Verdict (Slot × Checker)
unfolding pop_from
pop c = pop_with c c.frames

abbrev pub expect : ValType → Slot × Checker → Verdict Checker
expect expected (unknown, c) = ok c
expect expected (val found, c) =
    if eq_val_type found expected then ok c else invalid (mismatch expected found)

unfoldable pub pop_expect : ValType → Checker → Verdict Checker
unfolding pop
pop_expect expected c = pop c >>= expect expected

-- The loops over a list of types: each is expected on the stack, or put there.
unfoldable pub pop_all : List ValType → Checker → Verdict Checker
pop_all [] c = ok c
pop_all (ty ∷ tys) c = pop_expect ty c >>= pop_all tys

unfoldable pub push_all : List ValType → Checker → Checker
unfolding push
push_all [] c = c
push_all (ty ∷ tys) c = push_all tys (push ty c)

unfoldable pub consume : List ValType → List ValType → Checker → Verdict Checker
consume expected produced c = do c' ← pop_all expected c; ok (push_all produced c')

abbrev pub apply_type : FuncType → Checker → Verdict Checker
apply_type ty c = consume (reverse ty.params) ty.results c

abbrev pub or_invalid {ℓ} : {A : Type ℓ} → Reason → Option A → Verdict A
or_invalid why none = invalid why
or_invalid why (some a) = ok a

abbrev pub or_panic {ℓ} : {A : Type ℓ} → Option A → Verdict A
or_panic none = panicked
or_panic (some a) = ok a

unfoldable pub local_type : ℕ → Checker → Verdict ValType
local_type index c = or_invalid (no_local index) (get_elem? c.locals index)

unfoldable pub type_at : Reason → Module → ℕ → Verdict FuncType
type_at why m type_index = or_invalid why (get_elem? m.types type_index)

abbrev pub import_type : Option Import → Verdict ℕ
import_type found = or_panic found >>= λ i. ok i.type_index

abbrev pub defined_type : ℕ → Option Func → Verdict ℕ
defined_type index found = or_invalid (no_function index) found >>= λ func. ok func.type_index

unfoldable pub func_type_index : Module → ℕ → Verdict ℕ
func_type_index m index =
    if ltb index (length m.imports)
    then import_type (get_elem? m.imports index)
    else defined_type index (get_elem? m.funcs (index - length m.imports))

unfoldable pub func_type : Module → ℕ → Verdict FuncType
unfolding func_type_index type_at
func_type m index = do
  type_index ← func_type_index m index
  type_at (no_type type_index) m type_index

unfoldable pub push_frame : List ValType → List ValType → Checker → Checker
push_frame label_types end_types c = record c {
  frames =
      record {
        label_types = label_types;
        end_types = end_types;
        height = length c.stack;
        unreachable = false;
      }
      ∷ c.frames;
}

-- The frame is closed when nothing stands above it.
abbrev pub close_frame : List ValType → Checker → List Frame → Verdict (List ValType × Checker)
close_frame end_types c [] = panicked
close_frame end_types c (frame ∷ frames) =
    if length c.stack == frame.height
    then ok (end_types, record c { frames = frames })
    else invalid values_left_behind

abbrev pub end_frame : Checker → List Frame → Verdict (List ValType × Checker)
end_frame c [] = panicked
end_frame c (frame ∷ frames) =
    pop_all (reverse frame.end_types) c >>= λ c'. close_frame frame.end_types c' c'.frames

unfoldable pub pop_frame : Checker → Verdict (List ValType × Checker)
pop_frame c = end_frame c c.frames

-- The elements below the topmost ones, so many of them.
unfoldable pub truncate {ℓ} : {A : Type ℓ} → ℕ → List A → List A
truncate height [] = []
truncate height (x ∷ xs) =
    let rest = truncate height xs in if leb (length (x ∷ xs)) height then x ∷ xs else rest

abbrev pub cut_off : Checker → List Frame → Verdict Checker
cut_off c [] = panicked
cut_off c (frame ∷ frames) = ok (record c {
  stack = truncate frame.height c.stack;
  frames = record frame { unreachable = true } ∷ frames;
})

unfoldable pub set_unreachable : Checker → Verdict Checker
unfolding truncate
set_unreachable c = cut_off c c.frames

unfoldable pub branch_target : ℕ → Checker → Verdict (List ValType)
branch_target depth c =
    or_invalid (no_block depth) (get_elem? c.frames depth) >>= λ frame. ok frame.label_types

-- What the frame of the function itself ends with.
unfoldable pub function_results : List Frame → Verdict (List ValType)
function_results [] = panicked
function_results (frame ∷ []) = ok frame.end_types
function_results (frame ∷ outer ∷ frames) = function_results (outer ∷ frames)

abbrev pub of_result : Option ValType → List ValType
of_result none = []
of_result (some ty) = ty ∷ []

unfoldable pub has_else : Option ValType → Body → Checker → Verdict Checker
has_else (some ty) nil c = invalid no_else
has_else (some ty) (cons ins body) c = ok c
has_else none body c = ok c

unfoldable pub require_memory : Module → Checker → Verdict Checker
require_memory m c = or_invalid no_memory m.memory_pages >>= λ _. ok c
