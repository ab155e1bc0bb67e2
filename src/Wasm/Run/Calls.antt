-- ===== src/Wasm/Run/Calls.antt =====
-- crates/deed-codegen/src/run.rs and validate.rs: a call takes what the function's type says, and
-- answers so.
use mathlib.Core.Path.{subst}
use mathlib.Core.List.{reverse}
use deed.Prelude.{
  ℕ, zero, suc, ◌+◌, ◌-◌, ◌≤◌, ◌≡◌, refl, arith, true, false, Bool-cases, ltb, Option, none, some,
  List, [], ◌∷◌, ◌++◌, map, length, length-append, get_elem?, split_at?, ◌⊎◌, inl, inr,
}
use deed.Ast.{Span}
use deed.Wasm.{ValType, FuncType, Func, Import, Module, Body}
use deed.Wasm.Checker
use deed.Wasm.Checker.{
  Verdict, ok, invalid, panicked, Reason, Frame, Checker, push_frame, pop_frame, func_type,
  func_type_index, type_at, import_type, defined_type, or_invalid,
}
use deed.Wasm.Checker.Frames.{
  Allows, accepts, rejects, stops, Allows-bind, Allows-weaken, Allows-ok, dead,
}
use deed.Wasm.Checker.Kept.{Block, pop_frame-Block, length-reverse}
use deed.Wasm.Validate.{instructions, start, validate_body}
use deed.Wasm.Validate.Kept.{instructions-Kept}
use deed.Wasm.Memory.{Value, Memory, zero_of}
use deed.Wasm.Run.{Trap, Run, State, done}
use deed.Wasm.Run.Machine.{
  Host, HostFn, Runner, Flow, normal, break, returned, Answer, host_for, host_answer, call_offered,
  call_import, answer_of, top_of, call_defined, enter, type_index_of, arity, push_answer,
  call_function, blame_call_site,
}
use deed.Wasm.Run.Ends.{returns, traps, Ends-bind, Ends-map_trap}
use deed.Wasm.Run.Moved.{Safe, Shift, Moved}
use deed.Wasm.Run.Landing.{Sound, Fits, Lands}

-- How many values there are.
abbrev pub count {ℓ} : {A : Type ℓ} → Option A → ℕ
count none = 0
count (some a) = 1

-- The function that the index names, and its type: an import's, or a defined function's.
abbrev pub NamesImport : Module → ℕ → FuncType → Type 0
NamesImport m index ty =
    (i : Import) × (ltb index (length m.imports) ≡ true)
    × (get_elem? m.imports index ≡ some i)
    × (get_elem? m.types i.type_index ≡ some ty)

abbrev pub NamesFunc : Module → ℕ → FuncType → Type 0
NamesFunc m index ty =
    (func : Func) × (ltb index (length m.imports) ≡ false)
    × (get_elem? m.funcs (index - length m.imports) ≡ some func)
    × (get_elem? m.types func.type_index ≡ some ty)

abbrev pub Names : Module → ℕ → FuncType → Type 0
Names m index ty = NamesImport m index ty ⊎ NamesFunc m index ty

-- A host's answer has a value exactly where the import's type has a result.
abbrev pub Answers : ℕ → (Option Value ⊎ Trap) × (ℕ → ℕ) → Type 0
Answers n (inl value, bytes) = count value ≡ n
Answers n (inr trap, bytes) = Unit

abbrev pub HostKeeps : Module → Option Host → Type 0
HostKeeps m host =
    (i : Import) (ty : FuncType) (func : HostFn) (args : List Value) (memory : Memory)
    → host_for i host ≡ some func
    → get_elem? m.types i.type_index ≡ some ty
    → Answers (length ty.results) (func args memory)

abbrev pub BodiesValid : Module → Type 0
BodiesValid m =
    (at : ℕ) (func : Func) (ty : FuncType)
    → get_elem? m.funcs at ≡ some func
    → get_elem? m.types func.type_index ≡ some ty
    → (p : List ValType × Checker) × (validate_body m ty func ≡ ok p)

-- What running a body promises of one that the validator has passed.
abbrev pub RunnerSafe : Module → (Body → Type 0) → Runner → Type 0
RunnerSafe m Runnable runner =
    (function : ℕ) (body : Body) (c c' : Checker) (rets : ℕ) (st : State)
    → instructions m body c ≡ ok c'
    → Runnable body
    → Sound rets c
    → Fits c st
    → Safe (Lands c c' rets) (runner function body st)

or_invalid-Allows {ℓ} :
    {A : Type ℓ} (why : Reason) (o : Option A) → Allows {ℓ} (λ a. Unit {0}) (or_invalid why o)
or_invalid-Allows why none = rejects
or_invalid-Allows why (some a) = accepts tt

pub found-Allows :
    {A : Type 0} (why : Reason) (o : Option A) → Allows (λ a. o ≡ some a) (or_invalid why o)
found-Allows why none = rejects
found-Allows why (some a) = accepts refl

imported-Allows :
    (o : Option Import)
    → Allows (λ n. (i : Import) × (o ≡ some i) × (n ≡ i.type_index)) (import_type o)
imported-Allows none = stops
imported-Allows (some i) = accepts (i, refl, refl)

defined-Allows :
    (index : ℕ) (o : Option Func)
    → Allows (λ n. (func : Func) × (o ≡ some func) × (n ≡ func.type_index)) (defined_type index o)
defined-Allows index none = rejects
defined-Allows index (some func) = accepts (func, refl, refl)

pub func_type-Names : (m : Module) (index : ℕ) → Allows (Names m index) (func_type m index)
unfolding func_type func_type_index type_at
func_type-Names m index = elim (Bool-cases (ltb index (length m.imports))) [
  | inl e ↦ rw e (
      Allows-bind (imported-Allows (get_elem? m.imports index)) λ n i.
        Allows-weaken (λ ty t. inl (i.0, e, i.1, subst (λ k. get_elem? m.types k ≡ some ty) i.2 t))
          (found-Allows _ (get_elem? m.types n)))
  | inr e ↦ rw e (
      Allows-bind (defined-Allows index (get_elem? m.funcs (index - length m.imports))) λ n f.
        Allows-weaken (λ ty t. inr (f.0, e, f.1, subst (λ k. get_elem? m.types k ≡ some ty) f.2 t))
          (found-Allows _ (get_elem? m.types n)))
]

arity-Names :
    (m : Module) (index : ℕ) (ty : FuncType) (st : State)
    → Names m index ty
    → arity m index st ≡ done (length ty.params)
unfolding arity type_index_of
arity-Names m index ty st (inl (i, e, found, t)) = ground (arith, e, found, t)
arity-Names m index ty st (inr (func, e, found, t)) = ground (arith, e, found, t)

abbrev pub AnswerOf : ℕ → Answer → Type 0
AnswerOf n answer = count answer.0 ≡ n

split_at?-le :
    (n : ℕ) (xs : List Value)
    → n ≤ length xs
    → (front : List Value) × (back : List Value) × (split_at? n xs ≡ some (front, back))
      × (length front ≡ n)
      × (length back + n ≡ length xs)
unfolding split_at?
split_at?-le zero xs h = ([], xs, refl, omega arith, omega arith)
split_at?-le (suc n) [] h = absurd (omega arith)
split_at?-le (suc n) (x ∷ xs) h =
    let rest : (front : List Value) × (back : List Value) × (split_at? n xs ≡ some (front, back))
        × (length front ≡ n)
        × (length back + n ≡ length xs) =
      split_at?-le n xs (omega arith) in
    (x ∷ rest.0, rest.1, rw rest.2 refl, omega (arith, rest.3), omega (arith, rest.4))

length-map {ℓ κ} :
    {A : Type ℓ} {B : Type κ} (f : A → B) (xs : List A) → length (map f xs) ≡ length xs
length-map f [] = refl
length-map f (x ∷ xs) = omega (arith, length-map f xs)

pub bind-ok {ℓ κ} :
    {A : Type ℓ} {B : Type κ} (r : Verdict A) (f : A → Verdict B) (b : B)
    → (Checker.◌>>=◌ r f) ≡ ok b
    → (a : A) × (r ≡ ok a) × (f a ≡ ok b)
bind-ok (ok a) f b e = (a, refl, e)
bind-ok (invalid why) f b e = absurd (cc)
bind-ok panicked f b e = absurd (cc)

pub Allows-eq {ℓ} :
    {A : Type ℓ} {P : A → Type 0} {r : Verdict A} {a : A} → Allows P r → r ≡ ok a → P a
Allows-eq {P = P} h e = Allows-ok (subst (Allows P) e h)

host_answer-Safe :
    (n fuel : ℕ) (memory : Memory) (a : (Option Value ⊎ Trap) × (ℕ → ℕ))
    → Answers n a
    → Safe (AnswerOf n) (host_answer fuel memory a)
host_answer-Safe n fuel memory (inl value, bytes) h = returns h
host_answer-Safe n fuel memory (inr trap, bytes) h = traps

answer_of-AnswerOf :
    (tys : List ValType) (st : State)
    → length tys ≤ 1
    → length tys ≤ length st.stack
    → AnswerOf (length tys) (answer_of tys st)
answer_of-AnswerOf [] st single h = refl
answer_of-AnswerOf (ty ∷ []) st single h = top_of-count st.stack h
  where
    top_of-count : (stack : List Value) → 1 ≤ length stack → count (top_of stack) ≡ 1
    top_of-count [] h = absurd (omega arith)
    top_of-count (value ∷ stack) h = refl
answer_of-AnswerOf (ty ∷ ty' ∷ tys) st single h = absurd (omega arith)

body_ended :
    (m : Module) (ty : FuncType) (func : Func) (p : List ValType × Checker)
    → validate_body m ty func ≡ ok p
    → (c₁ : Checker) × (instructions m func.body (start ty func) ≡ ok c₁)
      × (dead c₁.frames ≡ false → length c₁.stack ≡ length ty.results)
unfolding validate_body
body_ended m ty func p valid =
    let split : (c₁ : Checker) × (instructions m func.body (start ty func) ≡ ok c₁)
        × (pop_frame c₁ ≡ ok p) =
      bind-ok (instructions m func.body (start ty func)) pop_frame p valid in
    let outside : Checker = record { locals = ty.params ++ func.locals; stack = []; frames = [] } in
    let closed : Block ty.results outside split.0 p =
      Allows-eq
        (pop_frame-Block ty.results ty.results outside split.0
          (Allows-eq (instructions-Kept m func.body (start ty func)) split.1))
        split.2 in
    (split.0, split.1, λ alive. omega (arith, closed.exact alive))

-- Wherever the body of a function lands, what the function returns is on the stack.
landed :
    (ty : FuncType) (func : Func) (c₁ : Checker) (p : Flow × State)
    → (dead c₁.frames ≡ false → length c₁.stack ≡ length ty.results)
    → Lands (start ty func) c₁ (length ty.results) p
    → length ty.results ≤ length p.1.stack
unfolding push_frame
landed ty func c₁ (normal, st) ended h = omega (arith, ended h.0, h.1.room)
landed ty func c₁ (break zero, st) ended h = omega (arith, h.0)
landed ty func c₁ (break (suc depth), st) ended h = absurd h.0
landed ty func c₁ (returned, st) ended h = h

module _ (m : Module) (host : Option Host) (Runnable : Body → Type 0) (keeps : HostKeeps m host)
    (bodies : BodiesValid m)
    (runnable : (at : ℕ) (func : Func) → get_elem? m.funcs at ≡ some func → Runnable func.body)
    (runner : Runner) (safe : RunnerSafe m Runnable runner) where
  call_offered-Safe :
      (args : List Value) (r : Run) (i : Import) (ty : FuncType) (offered : Option HostFn)
      → host_for i host ≡ offered
      → get_elem? m.types i.type_index ≡ some ty
      → Safe (AnswerOf (length ty.results)) (call_offered args r i offered)
  call_offered-Safe args r i ty none e t = traps
  call_offered-Safe args r i ty (some func) e t =
      host_answer-Safe _ r.fuel r.memory (func args r.memory) (keeps i ty func args r.memory e t)

  call_defined-Safe :
      (index at : ℕ) (args : List Value) (r : Run) (func : Func) (ty : FuncType)
      → get_elem? m.funcs at ≡ some func
      → get_elem? m.types func.type_index ≡ some ty
      → length args ≡ length ty.params
      → length ty.results ≤ 1
      → Safe (AnswerOf (length ty.results)) (call_defined m runner index args r func)
  unfolding call_defined
  call_defined-Safe index at args r func ty found t sized single = rw t (
      Ends-bind
        (safe index func.body (start ty func) ended.0 (length ty.results) entry ended.1
          (runnable at func found)
          (unfold push_frame in
            record {
              floor = omega arith;
              alive = refl;
              nested = (omega arith, tt);
              results = refl;
              inside = omega arith;
            })
          (unfold push_frame in
            record {
              room = omega arith;
              locals = omega (
                arith,
                sized,
                length-append args (map zero_of func.locals),
                length-append ty.params func.locals,
                length-map zero_of func.locals,
              );
            }))
        λ p lands.
          returns
            (answer_of-AnswerOf ty.results p.1 single (landed ty func ended.0 p ended.2 lands)))
    where
      entry : State
      entry = record { run = r; locals = args ++ map zero_of func.locals; stack = [] }

      valid : (p : List ValType × Checker) × (validate_body m ty func ≡ ok p)
      valid = bodies at func ty found t

      ended :
          (c₁ : Checker) × (instructions m func.body (start ty func) ≡ ok c₁)
          × (dead c₁.frames ≡ false → length c₁.stack ≡ length ty.results)
      ended = body_ended m ty func valid.0 valid.1

  pub enter-Safe :
      (index : ℕ) (args : List Value) (r : Run) (ty : FuncType)
      → Names m index ty
      → length args ≡ length ty.params
      → length ty.results ≤ 1
      → Safe (AnswerOf (length ty.results)) (enter m host runner index args r)
  unfolding enter call_import
  enter-Safe index args r ty (inl (i, e, found, t)) sized single =
      rw (e, found) (call_offered-Safe args r i ty (host_for i host) refl t)
  enter-Safe index args r ty (inr (func, e, found, t)) sized single =
      rw (e, found)
        (call_defined-Safe index (index - length m.imports) args r func ty found t sized single)

  push_answer-Shift :
      (n k : ℕ) (st : State) (below : List Value) (answer : Answer)
      → length below + n ≡ length st.stack
      → AnswerOf k answer
      → Shift n k st (push_answer (record st { stack = below }) answer)
  push_answer-Shift n k st below (none, r) e h = record { stack = omega arith; locals = refl }
  push_answer-Shift n k st below (some value, r) e h = record { stack = omega arith; locals = refl }

  pub call_function-Moved :
      (site : Option Span) (index : ℕ) (ty : FuncType) (st : State)
      → Names m index ty
      → length ty.results ≤ 1
      → length ty.params ≤ length st.stack
      → Moved (length ty.params) (length ty.results) st (call_function m host runner site index st)
  unfolding call_function
  call_function-Moved site index ty st names single room =
      rw (arity-Names m index ty st names, split.2)
        (Ends-bind
          (Ends-map_trap (blame_call_site site) (
            enter-Safe index (reverse split.0) st.run ty names
              (omega (arith, length-reverse split.0, split.3)) single))
          λ answer h.
            returns (
              push_answer-Shift (length ty.params) (length ty.results) st split.1 answer split.4 h))
    where
      split :
          (front : List Value) × (back : List Value) × (split_at? (length ty.params) st.stack
            ≡ some (front, back))
          × (length front ≡ length ty.params)
          × (length back + length ty.params ≡ length st.stack)
      split = split_at?-le (length ty.params) st.stack room
