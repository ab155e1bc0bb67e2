-- ===== src/Wasm/Run/Stepping.antt =====
-- crates/deed-codegen/src/run.rs under crates/deed-codegen/src/validate.rs: every instruction lands
-- where the validator says, if the bodies that it runs do.
use mathlib.Core.Path.{subst}
use mathlib.Core.List.{reverse}
use deed.Prelude.{
  ℕ, ◌+◌, ◌≤◌, ◌≡◌, refl, sym, ap, ◌∙◌, arith, false, Bool-cases, Option, some, List, [], ◌∷◌,
  length, get_elem?, inl, inr,
}
use deed.Prelude.Int.{ℤ}
use deed.Ast.{Span}
use deed.Wasm.{
  ValType, i32, i64, FuncType, Func, Module, Ins, Body, marked, unreachable, nop, block, loop,
  if_else, br, br_if, return, call, call_indirect, drop, local_get, local_set, local_tee, i32_const,
  i64_const, i32_add, i32_sub, i32_mul, i32_eq, i32_ne, i32_lt_s, i32_le_s, i32_gt_s, i32_ge_s,
  i32_and, i32_or, i32_eqz, i64_add, i64_sub, i64_mul, i64_xor, i64_div_s, i64_rem_s, i64_eq,
  i64_ne, i64_lt_s, i64_le_s, i64_gt_s, i64_ge_s, i64_eqz, i32_wrap_i64, i64_extend_i32_s, i32_load,
  i64_load, i32_store, i64_store, i32_load8_u, i32_store8, memory_size, memory_grow,
}
use deed.Wasm.Checker.{
  ok, no_indirect_type, Checker, push, push_all, consume, type_at, push_frame, of_result,
}
use deed.Wasm.Checker.Frames.{
  Allows, accepts, Allows-bind, Allows-weaken, dead, Straight, Straight-refl, pop-Straight,
  pop_expect-Straight, pop_all-Straight, push_all-Straight, consume-Straight,
}
use deed.Wasm.Checker.Kept.{
  Straight-Kept, Block, pop_frame-Block, set_unreachable-Kept, length-reverse,
}
use deed.Wasm.Validate.{instruction, instructions}
use deed.Wasm.Validate.Kept.{Block-Kept, instruction-Kept, instructions-Kept, has_else-same}
use deed.Wasm.Memory.{Value, as_i64, as_bool, bits64, wrap32}
use deed.Wasm.Run.{State, boolean, is_zero, unary, arithmetic, ◌>>=◌, out_of_bounds, simple}
use deed.Wasm.Run.Machine.{
  Host, Runner, leave, run_if, table_at, call_span, site_of, call_function, fall_through, step,
}
use deed.Wasm.Run.Ends.{returns, traps, Ends-bind, Ends-or_trap, Ends-weaken}
use deed.Wasm.Run.Moved.{
  Safe, Moved, pop-Shift, arithmetic-Moved, unary-Moved, load-Moved, store-Moved, load8-Moved,
  store8-Moved, grow-Moved, push-Moved, local_set-Moved, local_tee-Moved, local_get-Moved,
}
use deed.Wasm.Run.Landing.{
  Sound, Sound-Kept, Sound-Straight, Sound-push_frame, Fits, Fits-Straight, Fits-push_frame, Lands,
  Lands-Kept, Ended, leave-Lands, fall_through-Lands,
}
use deed.Wasm.Run.Calls.{
  Names, HostKeeps, BodiesValid, RunnerSafe, Allows-eq, found-Allows, func_type-Names,
  call_function-Moved,
}
use deed.Wasm.Run.Safety.{
  Plain, Runnable, RunnableBody, Allows-equation, local_type-lt, memory_size-Straight,
  with_memory-Straight, drop_from-Moved, branch_target-Label, branch-Enough, function_results-count,
  Moved-reverse, br_if-Lands,
}

-- What running a loop's rounds promises of a body that the validator has passed.
abbrev pub RoundsSafe : Module → Runner → Type 0
RoundsSafe m rounds =
    (function : ℕ) (body : Body) (c c₁ d : Checker) (tys end_types : List ValType) (rets : ℕ)
    (st : State)
    → instructions m body (push_frame [] end_types c) ≡ ok c₁
    → (dead c₁.frames ≡ false → length c₁.stack ≡ length c.stack + length end_types)
    → Ended end_types c d tys
    → RunnableBody m body
    → Sound rets c
    → Fits c st
    → Safe (Lands c (push_all tys d) rets) (rounds function body st)

type_at-found :
    (m : Module) (type_index : ℕ)
    → Allows
        (λ ty. get_elem? m.types type_index ≡ some ty)
        (type_at (no_indirect_type type_index) m type_index)
unfolding type_at
type_at-found m type_index = found-Allows _ (get_elem? m.types type_index)

table_at-found :
    (m : Module) (slot : Value) (st : State)
    → Safe (λ index. get_elem? m.table (bits64 (as_i64 slot)) ≡ some index) (table_at m slot st)
unfolding table_at
table_at-found m slot st = Ends-or_trap out_of_bounds st (get_elem? m.table (bits64 (as_i64 slot)))

Block-Ended :
    {end_types : List ValType} {c c₁ : Checker} {p : List ValType × Checker}
    → Block end_types c c₁ p
    → Ended end_types c p.1 p.0
Block-Ended b = record {
  same_frames = b.same_frames;
  same_locals = b.same_locals;
  at_floor = b.at_floor;
  ends = ap length b.ends;
}

-- The two branches of an `if`: the second starts where the first one's end leaves the checker.
both-Ended :
    {end_types : List ValType} {c c₁ c₂ : Checker} {p q : List ValType × Checker}
    → Block end_types c c₁ p
    → Block end_types p.1 c₂ q
    → Ended end_types c q.1 p.0
both-Ended b b' = record {
  same_frames = b'.same_frames ∙ b.same_frames;
  same_locals = b'.same_locals ∙ b.same_locals;
  at_floor = b'.at_floor ∙ b.at_floor;
  ends = ap length b.ends;
}

other-Ended :
    {end_types : List ValType} {c c₁ c₂ : Checker} {p q : List ValType × Checker}
    → Block end_types c c₁ p
    → Block end_types p.1 c₂ q
    → Ended end_types p.1 q.1 p.0
other-Ended b b' = record {
  same_frames = b'.same_frames;
  same_locals = b'.same_locals;
  at_floor = b'.at_floor;
  ends = ap length b.ends;
}

pub same_locals_in :
    (m : Module) (body : Body) (label_types end_types : List ValType) (c c₁ : Checker)
    → instructions m body (push_frame label_types end_types c) ≡ ok c₁
    → c₁.locals ≡ c.locals
unfolding push_frame
same_locals_in m body label_types end_types c c₁ e =
    (Allows-eq (instructions-Kept m body (push_frame label_types end_types c)) e).same_locals

room_for :
    {rets k : ℕ} {c c' : Checker} {st : State} (ty : FuncType)
    → Straight c.frames (length (reverse ty.params)) k c c'
    → Sound rets c
    → Fits c st
    → length ty.params ≤ length st.stack
room_for ty s sound f =
    omega (arith, s.enough sound.alive sound.floor, length-reverse ty.params, f.room)

pub single_of :
    (m : Module)
    → ((i : ℕ) (ty : FuncType) → get_elem? m.types i ≡ some ty → length ty.results ≤ 1)
    → (index : ℕ) (ty : FuncType) → Names m index ty
    → length ty.results ≤ 1
single_of m single index ty (inl (i, e, found, t)) = single i.type_index ty t
single_of m single index ty (inr (func, e, found, t)) = single func.type_index ty t

module _ (m : Module) (host : Option Host) (keeps : HostKeeps m host) (bodies : BodiesValid m)
    (runnable : (at : ℕ) (func : Func)
      → get_elem? m.funcs at ≡ some func
      → RunnableBody m func.body)
    (single : (i : ℕ) (ty : FuncType) → get_elem? m.types i ≡ some ty → length ty.results ≤ 1)
    (runner : Runner) (safe : RunnerSafe m (RunnableBody m) runner) (rounds : Runner)
    (safe_rounds : RoundsSafe m rounds) (function : ℕ) where
  called :
      (c : Checker) (st : State) (ty : FuncType) (span : Option Span) (index : ℕ)
      → Names m index ty
      → length ty.params ≤ length st.stack
      → Moved
          (length (reverse ty.params))
          (length ty.results)
          st
          (call_function m host runner span index st)
  called c st ty span index names room = Moved-reverse ty.params (length ty.results) st _ (
      call_function-Moved m host (RunnableBody m) keeps bodies runnable runner safe span index ty st
        names (single_of m single index ty names) room)

  in_block :
      (end_types : List ValType) (body : Body) (c c₁ d : Checker) (tys : List ValType) (rets : ℕ)
      (st : State)
      → instructions m body (push_frame end_types end_types c) ≡ ok c₁
      → (dead c₁.frames ≡ false → length c₁.stack ≡ length c.stack + length end_types)
      → Ended end_types c d tys
      → RunnableBody m body
      → Sound rets c
      → Fits c st
      → Safe (Lands c (push_all tys d) rets) (runner function body st >>= leave)
  in_block end_types body c c₁ d tys rets st e exact ended run sound f =
      Ends-bind
        (safe function body (push_frame end_types end_types c) c₁ rets st e run
          (Sound-push_frame end_types end_types sound) (Fits-push_frame end_types end_types f))
        λ q lands.
          leave-Lands end_types c₁ rets q lands exact
            (same_locals_in m body end_types end_types c c₁ e) refl ended sound

  in_if :
      (end_types : List ValType) (taken otherwise : Body) (c c₁ c₂ : Checker)
      (p q : List ValType × Checker) (rets : ℕ) (v : Value × State)
      → instructions m taken (push_frame end_types end_types c) ≡ ok c₁
      → instructions m otherwise (push_frame end_types end_types p.1) ≡ ok c₂
      → Block end_types c c₁ p
      → Block end_types p.1 c₂ q
      → RunnableBody m taken × RunnableBody m otherwise
      → Sound rets c
      → Fits c v.1
      → Safe (Lands c (push_all p.0 q.1) rets) (run_if runner function taken otherwise v)
  unfolding run_if
  in_if end_types taken otherwise c c₁ c₂ p q rets (value, st) e₁ e₂ b b' run sound f =
      elim (Bool-cases (as_bool value)) [
        | inl e ↦ rw e (
            in_block end_types taken c c₁ q.1 p.0 rets st e₁ b.exact (both-Ended b b') run.0 sound
              f)
        | inr e ↦ rw e (
            Ends-weaken (λ r. Lands-Kept rets (push_all p.0 q.1) r (Block-Kept b))
              (in_block end_types otherwise p.1 c₂ q.1 p.0 rets st e₂ b'.exact (other-Ended b b')
                run.1 (Sound-Kept (Block-Kept b) sound (ap dead b.same_frames ∙ sound.alive))
                (record {
                  room = omega (arith, b.at_floor, f.room);
                  locals = f.locals ∙ sym (ap length b.same_locals);
                })))
      ]

  abbrev pub StepSafe : Checker → Checker → Option ℕ → Ins → Type 0
  StepSafe c c' site ins =
      (rets : ℕ) (st : State)
      → Plain ins × Runnable m ins
      → Sound rets c
      → Fits c st
      → Safe (Lands c c' rets) (step m host runner rounds function site ins st)

  -- Two operands of one type, or one operand, and a result.
  binary :
      (ty out : ValType) (ins : Ins) (site : Option ℕ) (c : Checker)
      → ((st : State)
          → step m host runner rounds function site ins st ≡ fall_through (arithmetic ins st))
      → Allows (λ c'. StepSafe c c' site ins) (consume (ty ∷ ty ∷ []) (out ∷ []) c)
  binary ty out ins site c same =
      Allows-weaken
        (λ c' s rets st run sound f.
          subst (Safe (Lands c c' rets)) (sym (same st))
            (fall_through-Lands s (arithmetic-Moved ins st) sound f))
        (consume-Straight (ty ∷ ty ∷ []) (out ∷ []) c)

  unary_op :
      (ty out : ValType) (ins : Ins) (op : ℤ → Value) (site : Option ℕ) (c : Checker)
      → ((st : State) → step m host runner rounds function site ins st ≡ fall_through (unary op st))
      → Allows (λ c'. StepSafe c c' site ins) (consume (ty ∷ []) (out ∷ []) c)
  unary_op ty out ins op site c same =
      Allows-weaken
        (λ c' s rets st run sound f.
          subst (Safe (Lands c c' rets)) (sym (same st))
            (fall_through-Lands s (unary-Moved op st) sound f))
        (consume-Straight (ty ∷ []) (out ∷ []) c)

  pub step-Safe :
      (site : Option ℕ) (ins : Ins) (c : Checker)
      → Allows (λ c'. StepSafe c c' site ins) (instruction m ins c)
  unfolding step instruction simple push_all push Runnable
  step-Safe site nop c = accepts (λ rets st run sound f.
      fall_through-Lands (Straight-refl c) (returns (record { stack = refl; locals = refl })) sound
        f)
  step-Safe site i32_add c = binary i32 i32 i32_add site c λ st. refl
  step-Safe site i32_sub c = binary i32 i32 i32_sub site c λ st. refl
  step-Safe site i32_mul c = binary i32 i32 i32_mul site c λ st. refl
  step-Safe site i32_and c = binary i32 i32 i32_and site c λ st. refl
  step-Safe site i32_or c = binary i32 i32 i32_or site c λ st. refl
  step-Safe site i32_eq c = binary i32 i32 i32_eq site c λ st. refl
  step-Safe site i32_ne c = binary i32 i32 i32_ne site c λ st. refl
  step-Safe site i32_lt_s c = binary i32 i32 i32_lt_s site c λ st. refl
  step-Safe site i32_le_s c = binary i32 i32 i32_le_s site c λ st. refl
  step-Safe site i32_gt_s c = binary i32 i32 i32_gt_s site c λ st. refl
  step-Safe site i32_ge_s c = binary i32 i32 i32_ge_s site c λ st. refl
  step-Safe site i32_eqz c =
      unary_op i32 i32 i32_eqz (λ value. boolean (is_zero value)) site c λ st. refl
  step-Safe site i64_add c = binary i64 i64 i64_add site c λ st. refl
  step-Safe site i64_sub c = binary i64 i64 i64_sub site c λ st. refl
  step-Safe site i64_mul c = binary i64 i64 i64_mul site c λ st. refl
  step-Safe site i64_xor c = binary i64 i64 i64_xor site c λ st. refl
  step-Safe site i64_div_s c = binary i64 i64 i64_div_s site c λ st. refl
  step-Safe site i64_rem_s c = binary i64 i64 i64_rem_s site c λ st. refl
  step-Safe site i64_eq c = binary i64 i32 i64_eq site c λ st. refl
  step-Safe site i64_ne c = binary i64 i32 i64_ne site c λ st. refl
  step-Safe site i64_lt_s c = binary i64 i32 i64_lt_s site c λ st. refl
  step-Safe site i64_le_s c = binary i64 i32 i64_le_s site c λ st. refl
  step-Safe site i64_gt_s c = binary i64 i32 i64_gt_s site c λ st. refl
  step-Safe site i64_ge_s c = binary i64 i32 i64_ge_s site c λ st. refl
  step-Safe site i64_eqz c =
      unary_op i64 i32 i64_eqz (λ value. boolean (is_zero value)) site c λ st. refl
  step-Safe site i32_wrap_i64 c =
      unary_op i64 i32 i32_wrap_i64 (λ value. Value.i32 (wrap32 value)) site c λ st. refl
  step-Safe site i64_extend_i32_s c =
      unary_op i32 i64 i64_extend_i32_s (λ value. Value.i64 value) site c λ st. refl
  step-Safe site (i32_load v) c =
      Allows-weaken
        (λ c' s rets st run sound f.
          fall_through-Lands s (load-Moved (λ value. Value.i32 (wrap32 value)) v st) sound f)
        (with_memory-Straight m (i32 ∷ []) (i32 ∷ []) c)
  step-Safe site (i64_load v) c =
      Allows-weaken
        (λ c' s rets st run sound f. fall_through-Lands s (load-Moved Value.i64 v st) sound f)
        (with_memory-Straight m (i32 ∷ []) (i64 ∷ []) c)
  step-Safe site (i32_store v) c =
      Allows-weaken (λ c' s rets st run sound f. fall_through-Lands s (store-Moved v st) sound f)
        (with_memory-Straight m (i32 ∷ i32 ∷ []) ([]) c)
  step-Safe site (i64_store v) c =
      Allows-weaken (λ c' s rets st run sound f. fall_through-Lands s (store-Moved v st) sound f)
        (with_memory-Straight m (i64 ∷ i32 ∷ []) ([]) c)
  step-Safe site (i32_load8_u v) c =
      Allows-weaken (λ c' s rets st run sound f. fall_through-Lands s (load8-Moved v st) sound f)
        (with_memory-Straight m (i32 ∷ []) (i32 ∷ []) c)
  step-Safe site (i32_store8 v) c =
      Allows-weaken (λ c' s rets st run sound f. fall_through-Lands s (store8-Moved v st) sound f)
        (with_memory-Straight m (i32 ∷ i32 ∷ []) ([]) c)
  step-Safe site memory_grow c =
      Allows-weaken (λ c' s rets st run sound f. fall_through-Lands s (grow-Moved st) sound f)
        (with_memory-Straight m (i32 ∷ []) (i32 ∷ []) c)
  step-Safe site memory_size c =
      Allows-weaken (λ c' s rets st run sound f. fall_through-Lands s (push-Moved _ st) sound f)
        (memory_size-Straight m c)
  step-Safe site (i32_const v) c = accepts (λ rets st run sound f.
      fall_through-Lands (push_all-Straight (i32 ∷ []) c) (push-Moved _ st) sound f)
  step-Safe site (i64_const v) c = accepts (λ rets st run sound f.
      fall_through-Lands (push_all-Straight (i64 ∷ []) c) (push-Moved _ st) sound f)
  step-Safe site drop c = Allows-bind (pop-Straight c) λ p s. accepts (λ rets st run sound f.
      fall_through-Lands s
        (drop_from-Moved st st.stack refl (omega (arith, s.enough sound.alive sound.floor, f.room)))
        sound f)
  step-Safe site (local_get index) c = Allows-bind (local_type-lt index c) λ ty inside.
      accepts (λ rets st run sound f.
        fall_through-Lands (push_all-Straight (ty ∷ []) c)
          (local_get-Moved index st (omega (arith, inside, f.locals))) sound f)
  step-Safe site (local_set index) c = Allows-bind (local_type-lt index c) λ ty inside.
      Allows-weaken
        (λ c' s rets st run sound f.
          fall_through-Lands s (local_set-Moved index st (omega (arith, inside, f.locals))) sound f)
        (pop_expect-Straight ty c)
  step-Safe site (local_tee index) c = Allows-bind (local_type-lt index c) λ ty inside.
      Allows-weaken
        (λ c' s rets st run sound f.
          fall_through-Lands s (local_tee-Moved index st (omega (arith, inside, f.locals))) sound f)
        (consume-Straight (ty ∷ []) (ty ∷ []) c)
  step-Safe site (marked s inner) c =
      Allows-weaken (λ c' k rets st run sound f. absurd run.0)
        (instruction-Kept m (marked s inner) c)
  step-Safe site unreachable c =
      Allows-weaken (λ c' k rets st run sound f. traps) (set_unreachable-Kept c)
  step-Safe site (br depth) c = Allows-bind (branch_target-Label depth c) λ target label.
      Allows-bind (pop_all-Straight (reverse target) c) λ c₁ s.
        Allows-weaken
          (λ c₂ k rets st run sound f. returns (
            branch-Enough depth (length st.stack) target c rets label sound
                (omega (arith, s.enough sound.alive sound.floor, length-reverse target, f.room)),
            f.locals,
          ))
          (set_unreachable-Kept c₁)
  step-Safe site return c = Allows-bind (function_results-count c.frames) λ results counted.
      Allows-bind (pop_all-Straight (reverse results) c) λ c₁ s.
        Allows-weaken
          (λ c₂ k rets st run sound f. returns (
            omega (
              arith,
              counted,
              sound.results,
              length-reverse results,
              s.enough sound.alive sound.floor,
              f.room,
            )))
          (set_unreachable-Kept c₁)
  step-Safe site (br_if depth) c = Allows-bind (pop_expect-Straight i32 c) λ tested s.
      Allows-bind (branch_target-Label depth tested) λ target label.
        Allows-bind (pop_all-Straight (reverse target) tested) λ c₁ s'.
          accepts (λ rets st run sound f. Ends-bind (pop-Shift st) λ p t.
            Ends-weaken (λ q. Lands-Kept rets (push_all target c₁) q (Straight-Kept s))
              (br_if-Lands depth target tested c₁ rets p label s' (Sound-Straight s sound)
                (Fits-Straight s t sound.alive sound.floor f)))
  step-Safe site (call index) c = Allows-bind (func_type-Names m index) λ ty names.
      Allows-weaken
        (λ c' s rets st run sound f.
          fall_through-Lands s
            (called c st ty (call_span (site_of m function site)) index names
              (room_for ty s sound f))
            sound f)
        (consume-Straight (reverse ty.params) ty.results c)
  step-Safe site (call_indirect type_index) c = Allows-bind (pop_expect-Straight i32 c) λ indexed s.
      Allows-bind (type_at-found m type_index) λ ty found.
        Allows-weaken
          (λ c' s' rets st run sound f. Ends-bind (pop-Shift st) λ p t.
            Ends-bind (table_at-found m p.0 p.1) λ index entry.
              let sound' : Sound rets indexed = Sound-Straight s sound in
              let f' : Fits indexed p.1 = Fits-Straight s t sound.alive sound.floor f in
              Ends-weaken (λ q. Lands-Kept rets c' q (Straight-Kept s))
                (fall_through-Lands s'
                  (called indexed p.1 ty (call_span (site_of m function site)) index
                    (run.1 _ index entry ty found) (room_for ty s' sound' f'))
                  sound' f'))
          (consume-Straight (reverse ty.params) ty.results indexed)
  step-Safe site (block result body) c =
      Allows-equation (instructions m body (push_frame (of_result result) (of_result result) c))
        λ c₁ e.
          Allows-bind
            (pop_frame-Block (of_result result) (of_result result) c c₁ (
              Allows-eq
                (instructions-Kept m body (push_frame (of_result result) (of_result result) c)) e))
            λ p b. accepts (λ rets st run sound f.
              in_block (of_result result) body c c₁ p.1 p.0 rets st e b.exact (Block-Ended b) run.1
                sound f)
  step-Safe site (loop result body) c =
      Allows-equation (instructions m body (push_frame [] (of_result result) c)) λ c₁ e.
        Allows-bind
          (pop_frame-Block [] (of_result result) c c₁
            (Allows-eq (instructions-Kept m body (push_frame [] (of_result result) c)) e))
          λ p b. accepts (λ rets st run sound f.
            safe_rounds function body c c₁ p.1 p.0 (of_result result) rets st e b.exact
              (Block-Ended b) run.1 sound f)
  step-Safe site (if_else result taken otherwise) c =
      Allows-bind (pop_expect-Straight i32 c) λ tested s.
        Allows-bind
          (has_else-same result otherwise (push_frame (of_result result) (of_result result) tested))
          λ entered same. Allows-equation (instructions m taken entered) λ c₁ e.
            let e₁ : instructions m taken (push_frame (of_result result) (of_result result) tested)
                ≡ ok c₁ =
              ap (instructions m taken) (sym same) ∙ e in
            Allows-bind
              (pop_frame-Block (of_result result) (of_result result) tested c₁ (
                Allows-eq
                  (instructions-Kept m taken
                    (push_frame (of_result result) (of_result result) tested))
                  e₁))
              λ p b.
                Allows-equation
                  (instructions m otherwise (push_frame (of_result result) (of_result result) p.1))
                  λ c₂ e₂.
                    Allows-bind
                      (pop_frame-Block (of_result result) (of_result result) p.1 c₂ (
                        Allows-eq
                          (instructions-Kept m otherwise
                            (push_frame (of_result result) (of_result result) p.1))
                          e₂))
                      λ q b'. accepts (λ rets st run sound f. Ends-bind (pop-Shift st) λ v t.
                        Ends-weaken (λ r. Lands-Kept rets (push_all p.0 q.1) r (Straight-Kept s))
                          (in_if (of_result result) taken otherwise tested c₁ c₂ p q rets v e₁ e₂ b
                            b' run.1 (Sound-Straight s sound)
                            (Fits-Straight s t sound.alive sound.floor f)))
