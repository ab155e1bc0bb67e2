-- ===== src/Wasm/Run/NoPanic.antt =====
-- crates/deed-codegen/src/run.rs and validate.rs: running a module that the validator has passed.
use mathlib.Core.Path.{subst}
use deed.Prelude.{
  ℕ, zero, suc, ◌≤◌, ◌≡◌, refl, sym, arith, false, Option, some, List, [], ◌∷◌, length, get_elem?,
  All, String,
}
use deed.Wasm.{ValType, FuncType, Func, Module, nil, cons}
use deed.Wasm.Checker.{Verdict, ok, invalid, panicked, Reason, Checker, type_at}
use deed.Wasm.Checker.Frames.{dead}
use deed.Wasm.Validate.{
  instruction, instructions, validate, validate_funcs, validate_func, validate_body, named,
  validate_table, validate_table,
}
use deed.Wasm.Validate.Kept.{instruction-Kept}
use deed.Wasm.Memory.{Value, Memory}
use deed.Wasm.Run.{State, Result, done, out_of_gas}
use deed.Wasm.Run.Machine.{Host, Flow, normal, break, returned, spend, go_on, run, repeat}
use deed.Wasm.Run.Ends.{Ends, returns, traps, panics, stops, Ends-bind, Ends-weaken}
use deed.Wasm.Run.Budget.{Finishes, AnswerLeft}
use deed.Wasm.Run.Termination.{start-Finishes}
use deed.Wasm.Run.Export.{start, enough}
use deed.Wasm.Run.Moved.{Safe}
use deed.Wasm.Run.Landing.{
  Sound-Kept, Fits, Lands, Lands-Kept, after_round-Lands, Sound-push_frame, Fits-push_frame,
}
use deed.Wasm.Run.Calls.{
  Names, HostKeeps, BodiesValid, RunnerSafe, Allows-eq, bind-ok, AnswerOf, enter-Safe,
}
use deed.Wasm.Run.Safety.{RunnableBody}
use deed.Wasm.Run.Stepping.{RoundsSafe, single_of, same_locals_in}
use deed.Wasm.Run.Execute.{execute-Safe}

spent_from :
    (c : Checker) (st : State) (fuel : ℕ)
    → st.run.fuel ≡ fuel
    → Fits c st
    → Safe (Fits c) (spend st)
unfolding spend
spent_from c st zero e f = rw e traps
spent_from c st (suc fuel) e f = rw e (returns (record { room = f.room; locals = f.locals }))

ok_injective {ℓ} : {A : Type ℓ} {a b : A} → ok a ≡ ok b → a ≡ b
ok_injective e = cc

module _ (m : Module) (host : Option Host) (keeps : HostKeeps m host) (bodies : BodiesValid m)
    (runnable : (at : ℕ) (func : Func)
      → get_elem? m.funcs at ≡ some func
      → RunnableBody m func.body)
    (single : (i : ℕ) (ty : FuncType) → get_elem? m.types i ≡ some ty → length ty.results ≤ 1) where
  go_on-Lands :
      (c c₁ c' : Checker) (rets : ℕ) (rest : State → Result (Flow × State)) (p : Flow × State)
      → Lands c c₁ rets p
      → ((st : State) → dead c₁.frames ≡ false → Fits c₁ st → Safe (Lands c c' rets) (rest st))
      → Safe (Lands c c' rets) (go_on rest p)
  go_on-Lands c c₁ c' rets rest (normal, st) h k = k st h.0 h.1
  go_on-Lands c c₁ c' rets rest (break depth, st) h k = returns h
  go_on-Lands c c₁ c' rets rest (returned, st) h k = returns h

  mutual
    unfolding run repeat instructions RunnableBody

    run-Safe : (gas : ℕ) → RunnerSafe m (RunnableBody m) (run m host gas)
    run-Safe zero function body c c' rets st e r sound f = stops tt
    run-Safe (suc gas) function nil c c' rets st e r sound f =
        returns (subst (λ d. (dead d.frames ≡ false) × Fits d st) (ok_injective e) (sound.alive, f))
    run-Safe (suc gas) function (cons ins body) c c' rets st e r sound f =
        let split : (c₁ : Checker) × (instruction m ins c ≡ ok c₁)
            × (instructions m body c₁ ≡ ok c') =
          bind-ok (instruction m ins c) (instructions m body) c' e in
        Ends-bind (spent_from c st st.run.fuel refl f) λ st' f'.
          Ends-bind
            (Allows-eq
              (execute-Safe m host keeps bodies runnable single (run m host gas) (run-Safe gas)
                (repeat m host gas) (repeat-Safe gas) function ins c)
              split.1 rets st' r.0 sound f')
            λ p lands.
              go_on-Lands c split.0 c' rets (run m host gas function body) p lands λ st₁ alive f₁.
                Ends-weaken
                  (λ q. Lands-Kept rets c' q (Allows-eq (instruction-Kept m ins c) split.1))
                  (run-Safe gas function body split.0 c' rets st₁ split.2 r.1
                    (Sound-Kept (Allows-eq (instruction-Kept m ins c) split.1) sound alive) f₁)

    repeat-Safe : (gas : ℕ) → RoundsSafe m (repeat m host gas)
    repeat-Safe zero function body c c₁ d tys end_types rets st e exact ended r sound f = stops tt
    repeat-Safe (suc gas) function body c c₁ d tys end_types rets st e exact ended r sound f =
        Ends-bind
          (run-Safe gas function body _ c₁ rets st e r (Sound-push_frame [] end_types sound)
            (Fits-push_frame [] end_types f))
          λ q lands.
            after_round-Lands c₁ rets (repeat m host gas function body) q lands exact
              (same_locals_in m body [] end_types c c₁ e) ended sound
              λ st₁ f₁.
                repeat-Safe gas function body c c₁ d tys end_types rets st₁ e exact ended r sound f₁

some_injective {ℓ} : {A : Type ℓ} {a b : A} → some a ≡ some b → a ≡ b
some_injective e = cc

type_at-ok :
    (why : Reason) (m : Module) (i : ℕ) (ty signature : FuncType)
    → get_elem? m.types i ≡ some ty
    → type_at why m i ≡ ok signature
    → ty ≡ signature
unfolding type_at
type_at-ok why m i ty signature found e = ground (arith, found, e)

named-ok :
    {A : Type 0} (name : Option String) (r : Verdict A) (a : A) → named name r ≡ ok a → r ≡ ok a
named-ok name (ok b) a e = e
named-ok name (invalid why) a e = cc
named-ok name panicked a e = cc

validate_func-ok :
    (m : Module) (at : ℕ) (func : Func) (ty : FuncType) (p : List ValType × Checker)
    → get_elem? m.types func.type_index ≡ some ty
    → validate_func m at func ≡ ok p
    → validate_body m ty func ≡ ok p
unfolding validate_func
validate_func-ok m at func ty p found e =
    let split : (signature : FuncType) × (type_at _ m func.type_index ≡ ok signature)
        × (named _ (validate_body m signature func) ≡ ok p) =
      bind-ok (type_at _ m func.type_index) _ p e in
    subst (λ t. validate_body m t func ≡ ok p)
      (sym (type_at-ok _ m func.type_index ty split.0 found split.1))
      (named-ok _ (validate_body m split.0 func) p split.2)

validate_funcs-ok :
    (m : Module) (at : ℕ) (funcs : List Func)
    → validate_funcs m at funcs ≡ ok tt
    → (i : ℕ) (func : Func) (ty : FuncType) → get_elem? funcs i ≡ some func
    → get_elem? m.types func.type_index ≡ some ty
    → (p : List ValType × Checker) × (validate_body m ty func ≡ ok p)
unfolding validate_funcs
validate_funcs-ok m at [] e i func ty found t = cc
validate_funcs-ok m at (f ∷ funcs) e zero func ty found t =
    let split : (p : List ValType × Checker) × (validate_func m at f ≡ ok p)
        × (validate_funcs m (suc at) funcs ≡ ok tt) =
      bind-ok (validate_func m at f) (λ _. validate_funcs m (suc at) funcs) tt e in
    (
      split.0,
      validate_func-ok m at func ty split.0 t
          (subst (λ g. validate_func m at g ≡ ok split.0) (some_injective found) split.1),
    )
validate_funcs-ok m at (f ∷ funcs) e (suc i) func ty found t =
    let split : (p : List ValType × Checker) × (validate_func m at f ≡ ok p)
        × (validate_funcs m (suc at) funcs ≡ ok tt) =
      bind-ok (validate_func m at f) (λ _. validate_funcs m (suc at) funcs) tt e in
    validate_funcs-ok m (suc at) funcs split.2 i func ty found t

validate-BodiesValid : (m : Module) → validate m ≡ ok tt → BodiesValid m
unfolding validate
validate-BodiesValid m e at func ty =
    let split : (u : Unit {0}) × (validate_funcs m 0 m.funcs ≡ ok u)
        × (validate_table m m.table ≡ ok tt) =
      bind-ok (validate_funcs m 0 m.funcs) (λ _. validate_table m m.table) tt e in
    validate_funcs-ok m 0 m.funcs split.1 at func ty

Finishes-done {ℓ} : {A : Type ℓ} {Q : A → Type 0} {a : A} → Finishes Q (done a) → Q a
Finishes-done (returns h) = h

Finishes-cut {ℓ} : {A : Type ℓ} {Q : A → Type 0} → Finishes {A = A} Q out_of_gas → ⊥
Finishes-cut (stops h) = h

All-get_elem? {ℓ} :
    {A : Type ℓ} (P : A → Type 0) (xs : List A)
    → All P xs
    → (i : ℕ) (a : A) → get_elem? xs i ≡ some a
    → P a
All-get_elem? P [] h i a e = cc
All-get_elem? P (x ∷ xs) h zero a e = subst P (some_injective e) h.0
All-get_elem? P (x ∷ xs) h (suc i) a e = All-get_elem? P xs h.1 i a e

-- Two readings of one result.
Ends-both {ℓ} :
    {A : Type ℓ} {P Q : A → Type 0} {r : Result A}
    → Safe P r
    → Finishes Q r
    → Ends ⊥ ⊥ (λ a. P a × Q a) r
Ends-both (returns h) k = returns (h, Finishes-done k)
Ends-both traps k = traps
Ends-both (panics h) k = absurd h
Ends-both (stops h) k = absurd (Finishes-cut k)

-- Running a validated module never panics: if the host's functions answer with a value exactly
-- where their import has a result, no type has two results, no marker stands directly in a
-- marker, and what the table holds has the type of every `call_indirect`, then calling a
-- function with as many arguments as it has parameters ends, at the gas that goes with the
-- budget, with a trap, or with a value exactly where the function has a result and no more left
-- than the budget.
pub start-Answers :
    (m : Module) (host : Option Host)
    → validate m ≡ ok tt
    → HostKeeps m host
    → All (λ func. RunnableBody m func.body) m.funcs
    → All (λ ty. length ty.results ≤ 1) m.types
    → (index : ℕ) (ty : FuncType) (args : List Value) (budget : ℕ) (memory : Memory)
    → Names m index ty
    → length args ≡ length ty.params
    → Ends ⊥ ⊥
        (λ answer. AnswerOf (length ty.results) answer × AnswerLeft budget answer)
        (start m host index args budget memory)
unfolding start
start-Answers m host valid keeps all_runnable all_single index ty args budget memory names sized =
    Ends-both safe_part (start-Finishes m host index args budget memory)
  where
    runnable : (at : ℕ) (func : Func) → get_elem? m.funcs at ≡ some func → RunnableBody m func.body
    runnable = All-get_elem? (λ func. RunnableBody m func.body) m.funcs all_runnable

    single : (i : ℕ) (ty : FuncType) → get_elem? m.types i ≡ some ty → length ty.results ≤ 1
    single = All-get_elem? (λ ty. length ty.results ≤ 1) m.types all_single

    bodies : BodiesValid m
    bodies = validate-BodiesValid m valid

    safe_part : Safe (AnswerOf (length ty.results)) (start m host index args budget memory)
    safe_part =
        enter-Safe m host (RunnableBody m) keeps bodies runnable (run m host (enough budget))
          (run-Safe m host keeps bodies runnable single (enough budget)) index args
          (record { fuel = budget; memory = memory }) ty names sized
          (single_of m single index ty names)
