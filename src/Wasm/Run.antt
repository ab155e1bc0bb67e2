-- ===== src/Wasm/Run.antt =====
-- crates/deed-codegen/src/run.rs: what running can end in, and every instruction that neither
-- branches nor calls. The value stack has its top in front. `panicked` is where the source would
-- stop on an index or on an `unreachable!`.
pub mod Machine
pub mod Export
pub mod Ends
pub mod Simple
pub mod Budget
pub mod Rounds
pub mod Termination
pub mod Moved
pub mod Landing
pub mod Calls
pub mod Safety
pub mod Stepping
pub mod Execute
pub mod NoPanic
use deed.Prelude.{
  ℕ, zero, suc, ◌+◌, ◌-◌, ◌*◌, ◌/◌, ◌%◌, ◌^◌, ◌⊎◌, inl, inr, ◌&&◌, ◌||◌, not, Bool, true, false,
  ltb, leb, String, Option, none, some, List, [], ◌∷◌, length, get_elem?, if◌then◌else◌,
}
use deed.Prelude.Int.{ℤ, pos, negsuc, ◌+ℤ◌, ◌-ℤ◌, ◌*ℤ◌, ltb_ℤ, leb_ℤ}
use deed.Machine.{eqb_ℤ}
use deed.Machine.Division.{quot, rem}
use deed.Ast.{Span}
use deed.Wasm.{
  Ins, nop, drop, local_get, local_set, local_tee, i32_const, i64_const, i32_add, i32_sub, i32_mul,
  i32_eq, i32_ne, i32_lt_s, i32_le_s, i32_gt_s, i32_ge_s, i32_and, i32_or, i32_eqz, i64_add,
  i64_sub, i64_mul, i64_xor, i64_div_s, i64_rem_s, i64_eq, i64_ne, i64_lt_s, i64_le_s, i64_gt_s,
  i64_ge_s, i64_eqz, i32_wrap_i64, i64_extend_i32_s, i32_load, i64_load, i32_store, i64_store,
  i32_load8_u, i32_store8, memory_size, memory_grow,
}
use deed.Wasm.Checker.{Reason}
use deed.Wasm.Memory.{
  Value, as_i64, as_bool, Memory, wrap_usize, bits64, wrap64, wrap32, xor64, page, load, store,
  resize, copy_from,
}

-- `refused` is for a host to answer with. The names of an import are kept apart.
pub data Trap : Type 0 where
  unreachable : Trap
  failed : List ℕ → List ℕ → Option Span → Bool → Trap
  divide_by_zero out_of_bounds too_long : Trap
  needs_a_host : String → String → Trap
  refused : String → Trap
  unimplemented : Ins → Trap
  no_export : String → Trap
  invalid : Reason → Trap

-- What is left of the budget, and the memory.
pub record Run : Type 0 where
  pub fuel : ℕ
  pub memory : Memory

pub record State : Type 0 where
  pub run : Run
  pub locals : List Value
  pub stack : List Value

-- `out_of_gas` is the model's own: its recursion went deeper than it was given leave to.
pub data Result {ℓ} (A : Type ℓ) : Type ℓ where
  done : A → Result A
  trapped : Trap → Memory → Result A
  panicked out_of_gas : Result A

infixl 20 ◌>>=◌
abbrev pub ◌>>=◌ {ℓ κ} : {A : Type ℓ} {B : Type κ} → Result A → (A → Result B) → Result B
done a >>= f = f a
trapped why memory >>= f = trapped why memory
panicked >>= f = panicked
out_of_gas >>= f = out_of_gas

abbrev pub or_trap {ℓ} : {A : Type ℓ} → Trap → State → Option A → Result A
or_trap why st none = trapped why st.run.memory
or_trap why st (some a) = done a

abbrev pub or_panic {ℓ} : {A : Type ℓ} → Option A → Result A
or_panic none = panicked
or_panic (some a) = done a

abbrev pub push : Value → State → State
push value st = record st { stack = value ∷ st.stack }

abbrev pub set_memory : Memory → State → State
set_memory memory st = record st { run = record { fuel = st.run.fuel; memory = memory } }

unfoldable pub pop : State → Result (Value × State)
pop st = elim st.stack [
  | [] ↦ trapped Trap.unreachable st.run.memory
  | value ∷ stack ↦ done (value, record st { stack = stack })
]

-- One value is taken, and what is made of it put in its place.
unfoldable pub unary : (ℤ → Value) → State → Result State
unfolding pop
unary f st = do (value, st') ← pop st; done (push (f (as_i64 value)) st')

abbrev pub boolean : Bool → Value
boolean true = Value.i32 (pos 1)
boolean false = Value.i32 (pos 0)

abbrev pub is_zero : ℤ → Bool
is_zero value = eqb_ℤ value (pos 0)

-- The value, or what stops the program. The quotient of the least number by -1 wraps.
unfoldable pub operate : Ins → ℤ → ℤ → Value ⊎ Trap
unfolding wrap64 wrap32 xor64 quot rem ◌+ℤ◌ ◌-ℤ◌ ◌*ℤ◌
operate i32_add left right = inl (Value.i32 (wrap32 (wrap64 (left +ℤ right))))
operate i64_add left right = inl (Value.i64 (wrap64 (left +ℤ right)))
operate i32_sub left right = inl (Value.i32 (wrap32 (wrap64 (left -ℤ right))))
operate i64_sub left right = inl (Value.i64 (wrap64 (left -ℤ right)))
operate i32_mul left right = inl (Value.i32 (wrap32 (wrap64 (left *ℤ right))))
operate i64_mul left right = inl (Value.i64 (wrap64 (left *ℤ right)))
operate i64_xor left right = inl (Value.i64 (xor64 left right))
operate i64_div_s left right =
    if is_zero right then inr divide_by_zero else inl (Value.i64 (wrap64 (quot left right)))
operate i64_rem_s left right =
    if is_zero right then inr divide_by_zero else inl (Value.i64 (rem left right))
operate i32_eq left right = inl (boolean (eqb_ℤ left right))
operate i32_ne left right = inl (boolean (not (eqb_ℤ left right)))
operate i32_lt_s left right = inl (boolean (ltb_ℤ left right))
operate i32_le_s left right = inl (boolean (leb_ℤ left right))
operate i32_gt_s left right = inl (boolean (ltb_ℤ right left))
operate i32_ge_s left right = inl (boolean (leb_ℤ right left))
operate i64_eq left right = inl (boolean (eqb_ℤ left right))
operate i64_ne left right = inl (boolean (not (eqb_ℤ left right)))
operate i64_lt_s left right = inl (boolean (ltb_ℤ left right))
operate i64_le_s left right = inl (boolean (leb_ℤ left right))
operate i64_gt_s left right = inl (boolean (ltb_ℤ right left))
operate i64_ge_s left right = inl (boolean (leb_ℤ right left))
operate i32_and left right = inl (boolean (not (is_zero left) && not (is_zero right)))
operate i32_or left right = inl (boolean (not (is_zero left) || not (is_zero right)))
operate ins left right = inr (unimplemented ins)

abbrev pub push_operated : State → Value ⊎ Trap → Result State
push_operated st (inl value) = done (push value st)
push_operated st (inr why) = trapped why st.run.memory

-- The right operand is on top.
unfoldable pub arithmetic : Ins → State → Result State
unfolding pop operate
arithmetic ins st = do
  (right, st₁) ← pop st
  (left, st₂) ← pop st₁
  push_operated st₂ (operate ins (as_i64 left) (as_i64 right))

-- `as usize` of an `i64`, and the offset of the instruction.
abbrev pub address : Value → ℕ → ℕ
address base offset = wrap_usize (bits64 (as_i64 base) + offset)

abbrev pub load_value : (ℤ → Value) → ℕ → State → Result State
load_value f at st = do
  value ← or_trap out_of_bounds st (load at st.run.memory)
  done (push (f value) st)

abbrev pub store_value : ℕ → ℤ → State → Result State
store_value at value st = do
  memory ← or_trap out_of_bounds st (store at value st.run.memory)
  done (set_memory memory st)

abbrev pub load_byte : ℕ → State → Result State
load_byte at st =
    if ltb at st.run.memory.size
    then done (push (Value.i32 (pos (st.run.memory.bytes at))) st)
    else trapped out_of_bounds st.run.memory

abbrev pub store_byte : ℕ → ℤ → State → Result State
store_byte at value st =
    if ltb at st.run.memory.size
    then done (set_memory (copy_from at (bits64 value % 256 ∷ []) st.run.memory) st)
    else trapped out_of_bounds st.run.memory

abbrev pub page_count : State → ℤ
page_count st = wrap32 (pos (st.run.memory.size / page))

-- At most so many pages.
abbrev pub pages_ceiling : ℤ
pages_ceiling = pos 4096

-- How many pages there would be.
abbrev pub wanted_pages : ℤ → State → ℤ
wanted_pages pages st = wrap64 (page_count st +ℤ pages)

abbrev pub grow : ℤ → State → State
grow pages st =
    if ltb_ℤ pages (pos 0) || ltb_ℤ pages_ceiling (wanted_pages pages st)
    then push (Value.i32 (negsuc 0)) st
    else push (Value.i32 (page_count st))
        (set_memory (resize (wrap_usize (bits64 (wanted_pages pages st) * page)) st.run.memory) st)

unfoldable pub set_at {ℓ} : {A : Type ℓ} → List A → ℕ → A → List A
set_at [] i v = []
set_at (x ∷ xs) zero v = v ∷ xs
set_at (x ∷ xs) (suc i) v = x ∷ set_at xs i v

unfoldable pub set_local : ℕ → Value → State → Result State
unfolding set_at
set_local index value st =
    if ltb index (length st.locals)
    then done (record st { locals = set_at st.locals index value })
    else panicked

-- An instruction that neither branches nor calls.
unfoldable pub simple : Ins → State → Result State
unfolding pop unary arithmetic set_local wrap32 wrap64 load store bits64
simple nop st = done st
simple drop st = elim st.stack [ [] ↦ done st | value ∷ stack ↦ done (record st { stack = stack }) ]
simple (local_get index) st = do value ← or_panic (get_elem? st.locals index); done (push value st)
simple (local_set index) st = do (value, st') ← pop st; set_local index value st'
simple (local_tee index) st = do (value, _) ← pop st; set_local index value st
simple (i32_const value) st = done (push (Value.i32 value) st)
simple (i64_const value) st = done (push (Value.i64 value) st)
simple i32_eqz st = unary (λ value. boolean (is_zero value)) st
simple i64_eqz st = unary (λ value. boolean (is_zero value)) st
simple i32_wrap_i64 st = unary (λ value. Value.i32 (wrap32 value)) st
simple i64_extend_i32_s st = unary (λ value. Value.i64 value) st
simple (i64_load offset) st = do
  (base, st') ← pop st
  load_value Value.i64 (address base offset) st'
simple (i32_load offset) st = do
  (base, st') ← pop st
  load_value (λ value. Value.i32 (wrap32 value)) (address base offset) st'
simple (i64_store offset) st = do
  (value, st₁) ← pop st
  (base, st₂) ← pop st₁
  store_value (address base offset) (as_i64 value) st₂
simple (i32_store offset) st = do
  (value, st₁) ← pop st
  (base, st₂) ← pop st₁
  store_value (address base offset) (as_i64 value) st₂
simple (i32_load8_u offset) st = do (base, st') ← pop st; load_byte (address base offset) st'
simple (i32_store8 offset) st = do
  (value, st₁) ← pop st
  (base, st₂) ← pop st₁
  store_byte (address base offset) (as_i64 value) st₂
simple memory_size st = done (push (Value.i32 (page_count st)) st)
simple memory_grow st = do (pages, st') ← pop st; done (grow (as_i64 pages) st')
simple ins st = arithmetic ins st
