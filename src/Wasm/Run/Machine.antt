-- ===== src/Wasm/Run/Machine.antt =====
-- crates/deed-codegen/src/run.rs: blocks, loops, branches and calls. The recursion is on gas; the
-- budget of instructions is the source's own, and what a body ends with is a `Flow`. A host is what
-- its offers answer, with a memory whose size they cannot change.
use deed.Prelude.{
  ℕ, zero, suc, ◌-◌, ◌==◌, ◌&&◌, Bool, true, false, ltb, String, Option, none, some, List, [], ◌∷◌,
  ◌++◌, map, length, get_elem?, split_at?, ◌⊎◌, inl, inr, if◌then◌else◌,
}
use mathlib.Core.List.{reverse}
use text.Mathlib.Text.{◌==◌ as str_eq}
use deed.Ast.{Span}
use deed.Wasm.{
  Ins, Body, nil, cons, Func, Import, Module, SpanRole, InstructionSpan, FunctionSpans, marked,
  unreachable, block, loop, if_else, br, br_if, return, call, call_indirect,
}
use deed.Wasm.Memory.{Value, as_i64, as_bool, zero_of, Memory, bits64, string_at}
use deed.Wasm.Run.{
  Trap, failed, out_of_bounds, too_long, needs_a_host, Run, State, Result, done, trapped, panicked,
  out_of_gas, ◌>>=◌, or_trap, or_panic, pop, simple,
}

abbrev pub HostFn : Type 0
HostFn = List Value → Memory → (Option Value ⊎ Trap) × (ℕ → ℕ)

pub record HostOffer : Type 0 where
  pub namespace : String
  pub name : String
  pub func : HostFn

abbrev pub Host : Type 0
Host = List HostOffer

unfoldable pub implementation_for : String → String → Host → Option HostFn
implementation_for namespace name [] = none
implementation_for namespace name (o ∷ offers) =
    if str_eq o.namespace namespace && str_eq o.name name
    then some o.func
    else implementation_for namespace name offers

-- `deed_mir::codes::PRECONDITION_FAILED`, "DEED6002".
abbrev pub precondition_failed : List ℕ
precondition_failed = 68 ∷ 69 ∷ 69 ∷ 68 ∷ 54 ∷ 48 ∷ 48 ∷ 50 ∷ []

abbrev pub failure_code : ℕ
failure_code = 16

abbrev pub failure_message : ℕ
failure_message = 24

abbrev pub same_text : List ℕ → List ℕ → Bool
same_text [] [] = true
same_text (a ∷ s) (b ∷ t) = a == b && same_text s t
same_text _ _ = false

-- What the program left in memory about why it stopped.
unfoldable pub why : Option Span → Memory → Option Trap
unfolding string_at
why span memory = elim (string_at failure_code memory) [
  | none ↦ none
  | some code ↦ elim (string_at failure_message memory) [
    | none ↦ none
    | some message ↦ some (failed code message span (same_text code precondition_failed))
  ]
]

abbrev pub or_unreachable : Option Trap → Trap
or_unreachable none = Trap.unreachable
or_unreachable (some trap) = trap

unfoldable pub sites_of : ℕ → List FunctionSpans → List InstructionSpan
sites_of function [] = []
sites_of function (mapped ∷ spans) =
    if mapped.function == function then mapped.sites else sites_of function spans

unfoldable pub site_of : Module → ℕ → Option ℕ → Option InstructionSpan
unfolding sites_of
site_of m function none = none
site_of m function (some site) = get_elem? (sites_of function m.spans) site

abbrev pub span_of : Option InstructionSpan → Option Span
span_of none = none
span_of (some mapped) = some mapped.span

abbrev pub call_span_of : InstructionSpan → SpanRole → Option Span
call_span_of mapped SpanRole.call = some mapped.span
call_span_of mapped SpanRole.trap = none

abbrev pub call_span : Option InstructionSpan → Option Span
call_span none = none
call_span (some mapped) = call_span_of mapped mapped.role

abbrev pub or_span : Option Span → Option Span → Option Span
or_span (some span) other = some span
or_span none other = other

unfoldable pub blame_call_site : Option Span → Trap → Trap
blame_call_site call_site (failed code message span blame_caller) =
    if same_text code precondition_failed && blame_caller
    then failed code message (or_span call_site span) false
    else failed code message span blame_caller
blame_call_site call_site trap = trap

abbrev pub map_trap {ℓ} : {A : Type ℓ} → (Trap → Trap) → Result A → Result A
map_trap f (done a) = done a
map_trap f (trapped trap memory) = trapped (f trap) memory
map_trap f panicked = panicked
map_trap f out_of_gas = out_of_gas

-- How many arguments the function takes, whether it is imported or defined.
unfoldable pub type_index_of : Module → ℕ → State → Result ℕ
type_index_of m index st =
    if ltb index (length m.imports)
    then or_panic (get_elem? m.imports index) >>= (λ i. done i.type_index)
    else or_trap out_of_bounds st (get_elem? m.funcs (index - length m.imports))
      >>= (λ func. done func.type_index)

unfoldable pub arity : Module → ℕ → State → Result ℕ
arity m index st = do
  type_index ← type_index_of m index st
  ty ← or_panic (get_elem? m.types type_index)
  done (length ty.params)

pub data Flow : Type 0 where
  normal : Flow
  break : ℕ → Flow
  returned : Flow

-- How a body of a function is run: by the function's index, from a state.
abbrev pub Runner : Type 0
Runner = ℕ → Body → State → Result (Flow × State)

-- A call's answer, and what it leaves of the run.
abbrev pub Answer : Type 0
Answer = Option Value × Run

abbrev pub host_answer : ℕ → Memory → (Option Value ⊎ Trap) × (ℕ → ℕ) → Result Answer
host_answer fuel memory (inl value, bytes) =
    done (value, record { fuel = fuel; memory = record { size = memory.size; bytes = bytes } })
host_answer fuel memory (inr trap, bytes) =
    trapped trap (record { size = memory.size; bytes = bytes })

abbrev pub host_for : Import → Option Host → Option HostFn
host_for i none = none
host_for i (some host) = implementation_for i.namespace i.name host

abbrev pub call_offered : List Value → Run → Import → Option HostFn → Result Answer
call_offered args run i none = trapped (needs_a_host i.namespace i.name) run.memory
call_offered args run i (some func) = host_answer run.fuel run.memory (func args run.memory)

unfoldable pub call_import : Option Host → List Value → Run → Import → Result Answer
unfolding implementation_for
call_import host args run i = call_offered args run i (host_for i host)

abbrev pub top_of : List Value → Option Value
top_of [] = none
top_of (value ∷ stack) = some value

-- What a function's body leaves, if its type has a result.
abbrev pub answer_of {ℓ} : {A : Type ℓ} → List A → State → Answer
answer_of [] st = (none, st.run)
answer_of (ty ∷ tys) st = (top_of st.stack, st.run)

unfoldable pub call_defined : Module → Runner → ℕ → List Value → Run → Func → Result Answer
call_defined m runner index args run func = do
  signature ← or_panic (get_elem? m.types func.type_index)
  (_, st) ←
      runner index func.body
        (record { run = run; locals = args ++ map zero_of func.locals; stack = [] })
  done (answer_of signature.results st)

-- `Run::call`.
unfoldable pub enter : Module → Option Host → Runner → ℕ → List Value → Run → Result Answer
enter m host runner index args run =
    if ltb index (length m.imports)
    then or_panic (get_elem? m.imports index) >>= call_import host args run
    else or_panic (get_elem? m.funcs (index - length m.imports))
      >>= call_defined m runner index args run

abbrev pub push_answer : State → Answer → State
push_answer st (none, run) = record st { run = run }
push_answer st (some value, run) = record st { run = run; stack = value ∷ st.stack }

-- The arguments come off the stack, the first one deepest.
unfoldable pub call_function :
    Module → Option Host → Runner → Option Span → ℕ → State → Result State
call_function m host runner call_site index st = do
  count ← arity m index st
  (args, below) ← or_panic (split_at? count st.stack)
  answer ← map_trap (blame_call_site call_site) (enter m host runner index (reverse args) st.run)
  done (push_answer (record st { stack = below }) answer)

-- One block further out.
abbrev pub leave : Flow × State → Result (Flow × State)
leave (normal, st) = done (normal, st)
leave (returned, st) = done (returned, st)
leave (break zero, st) = done (normal, st)
leave (break (suc depth), st) = done (break depth, st)

-- A loop starts over when the branch is to itself.
abbrev pub after_round : (State → Result (Flow × State)) → Flow × State → Result (Flow × State)
after_round again (break zero, st) = again st
after_round again (flow, st) = leave (flow, st)

abbrev pub fall_through : Result State → Result (Flow × State)
fall_through r = r >>= λ st. done (normal, st)

unfoldable pub branch_if : ℕ → Value × State → Result (Flow × State)
branch_if depth (value, st) = done ((if as_bool value then break depth else normal), st)

unfoldable pub run_if : Runner → ℕ → Body → Body → Value × State → Result (Flow × State)
run_if runner function taken otherwise (value, st) =
    runner function (if as_bool value then taken else otherwise) st >>= leave

-- The function that an entry of the table names.
unfoldable pub table_at : Module → Value → State → Result ℕ
unfolding bits64
table_at m slot st = or_trap out_of_bounds st (get_elem? m.table (bits64 (as_i64 slot)))

-- One instruction with its marker taken off: `runner` runs a block's body, `rounds` a loop's.
unfoldable pub step :
    Module → Option Host → Runner → Runner → ℕ → Option ℕ → Ins → State → Result (Flow × State)
step m host runner rounds function site (marked _ _) st = panicked
step m host runner rounds function site unreachable st =
    trapped (or_unreachable (why (span_of (site_of m function site)) st.run.memory)) st.run.memory
step m host runner rounds function site return st = done (returned, st)
step m host runner rounds function site (br depth) st = done (break depth, st)
step m host runner rounds function site (br_if depth) st = pop st >>= branch_if depth
step m host runner rounds function site (block result body) st = runner function body st >>= leave
step m host runner rounds function site (loop result body) st = rounds function body st
step m host runner rounds function site (if_else result taken otherwise) st =
    pop st >>= run_if runner function taken otherwise
step m host runner rounds function site (call index) st =
    fall_through (call_function m host runner (call_span (site_of m function site)) index st)
step m host runner rounds function site (call_indirect type_index) st = do
  (slot, st') ← pop st
  index ← table_at m slot st'
  fall_through (call_function m host runner (call_span (site_of m function site)) index st')
step m host runner rounds function site ins st = fall_through (simple ins st)

unfoldable pub execute :
    Module → Option Host → Runner → Runner → ℕ → Ins → State → Result (Flow × State)
execute m host runner rounds function (marked site inner) st =
    step m host runner rounds function (some site) inner st
execute m host runner rounds function ins st = step m host runner rounds function none ins st

-- One instruction of the budget.
unfoldable pub spend : State → Result State
spend st = elim st.run.fuel [
  | zero ↦ trapped too_long st.run.memory
  | suc fuel ↦ done (record st { run = record { fuel = fuel; memory = st.run.memory } })
]

abbrev pub go_on : (State → Result (Flow × State)) → Flow × State → Result (Flow × State)
go_on rest (normal, st) = rest st
go_on rest (break depth, st) = done (break depth, st)
go_on rest (returned, st) = done (returned, st)

unfoldable mutual
  -- `Run::run`.
  pub run : Module → Option Host → ℕ → ℕ → Body → State → Result (Flow × State)
  run m host zero function body st = out_of_gas
  run m host (suc gas) function nil st = done (normal, st)
  run m host (suc gas) function (cons ins body) st = do
    st' ← spend st
    execute m host (run m host gas) (repeat m host gas) function ins st'
        >>= go_on (run m host gas function body)

  -- The rounds of a loop.
  pub repeat : Module → Option Host → ℕ → ℕ → Body → State → Result (Flow × State)
  repeat m host zero function body st = out_of_gas
  repeat m host (suc gas) function body st =
      run m host gas function body st >>= after_round (repeat m host gas function body)
