-- ===== src/Wasm/Validate/Kept.antt =====
-- crates/deed-codegen/src/validate.rs: no instruction touches the frames around its own, or the
-- values below its own.
use mathlib.Core.Path.{subst}
use mathlib.Core.List.{reverse}
use deed.Prelude.{◌≡◌, refl, sym, ◌∙◌, arith, Option, none, some, List, [], ◌∷◌}
use deed.Wasm.{
  ValType, i32, i64, Module, Ins, Body, nil, cons, marked, unreachable, nop, block, loop, if_else,
  br, br_if, return, call, call_indirect, drop, local_get, local_set, local_tee, i32_const,
  i64_const, i32_add, i32_sub, i32_mul, i32_eq, i32_ne, i32_lt_s, i32_le_s, i32_gt_s, i32_ge_s,
  i32_and, i32_or, i32_eqz, i64_add, i64_sub, i64_mul, i64_xor, i64_div_s, i64_rem_s, i64_eq,
  i64_ne, i64_lt_s, i64_le_s, i64_gt_s, i64_ge_s, i64_eqz, i32_wrap_i64, i64_extend_i32_s, i32_load,
  i64_load, i32_store, i64_store, i32_load8_u, i32_store8, memory_size, memory_grow,
}
use deed.Wasm.Checker.{
  Verdict, ok, invalid, panicked, ◌>>=◌, no_indirect_type, Checker, push, pop_expect, pop_all,
  push_all, consume, local_type, type_at, func_type, push_frame, pop_frame, branch_target,
  function_results, of_result, has_else, require_memory, or_invalid,
}
use deed.Wasm.Checker.Frames.{
  Allows, accepts, rejects, stops, Allows-bind, Allows-weaken, dead, Straight-refl, pop-Straight,
  pop_expect-Straight, pop_all-Straight, push_all-Straight, consume-Straight,
}
use deed.Wasm.Checker.Kept.{
  flagged-dead, Kept, Straight-Kept, Kept-trans, set_unreachable-Kept, Block, pop_frame-Block,
}
use deed.Wasm.Validate.{instruction, instructions}

pub Allows-any {ℓ} : {A : Type ℓ} (r : Verdict A) → Allows (λ _. Unit {0}) r
Allows-any (ok a) = accepts tt
Allows-any (invalid why) = rejects
Allows-any panicked = stops

Kept-refl : (c : Checker) → Kept c c
Kept-refl c = Straight-Kept (Straight-refl c)

pop_expect-Kept : (ty : ValType) (c : Checker) → Allows (Kept c) (pop_expect ty c)
pop_expect-Kept ty c = Allows-weaken (λ c' s. Straight-Kept s) (pop_expect-Straight ty c)

pop_all-Kept : (tys : List ValType) (c : Checker) → Allows (Kept c) (pop_all tys c)
pop_all-Kept tys c = Allows-weaken (λ c' s. Straight-Kept s) (pop_all-Straight tys c)

push_all-Kept : (tys : List ValType) (c : Checker) → Kept c (push_all tys c)
push_all-Kept tys c = Straight-Kept (push_all-Straight tys c)

consume-Kept :
    (expected produced : List ValType) (c : Checker) → Allows (Kept c) (consume expected produced c)
consume-Kept expected produced c =
    Allows-weaken (λ c' s. Straight-Kept s) (consume-Straight expected produced c)

pub require_memory-same : (m : Module) (c : Checker) → Allows (λ c'. c' ≡ c) (require_memory m c)
unfolding require_memory
require_memory-same m c = Allows-bind (Allows-any (or_invalid _ m.memory_pages)) λ _ _. accepts refl

with_memory-Kept :
    (m : Module) (expected produced : List ValType) (c : Checker)
    → Allows (Kept c) (require_memory m c >>= consume expected produced)
with_memory-Kept m expected produced c = Allows-bind (require_memory-same m c) λ c' same.
    subst (λ d. Allows (Kept c) (consume expected produced d)) (sym same)
      (consume-Kept expected produced c)

pub has_else-same :
    (result : Option ValType) (body : Body) (c : Checker)
    → Allows (λ c'. c' ≡ c) (has_else result body c)
unfolding has_else
has_else-same none nil c = accepts refl
has_else-same none (cons ins body) c = accepts refl
has_else-same (some ty) nil c = rejects
has_else-same (some ty) (cons ins body) c = accepts refl

pub Block-Kept :
    {tys : List ValType} {c c₁ : Checker} {p : List ValType × Checker}
    → Block tys c c₁ p
    → Kept c p.1
Block-Kept {tys} {c} b = record {
  flag = dead c.frames;
  same_frames = b.same_frames ∙ sym (flagged-dead c.frames);
  same_locals = b.same_locals;
  above = λ h. omega (arith, b.at_floor);
}

ended-Kept :
    (label_types end_types : List ValType) (c inner : Checker)
    → Kept (push_frame label_types end_types c) inner
    → Allows (Kept c) (pop_frame inner >>= λ p. ok (push_all p.0 p.1))
ended-Kept label_types end_types c inner k =
    Allows-bind (pop_frame-Block label_types end_types c inner k)
      λ p b. accepts (Kept-trans (Block-Kept b) (push_all-Kept p.0 p.1))

module _ (m : Module) where
  mutual
    unfolding instruction instructions push_all push

    pub instruction-Kept : (ins : Ins) (c : Checker) → Allows (Kept c) (instruction m ins c)
    instruction-Kept (marked site inner) c = instruction-Kept inner c
    instruction-Kept unreachable c = set_unreachable-Kept c
    instruction-Kept nop c = accepts (Kept-refl c)
    instruction-Kept (block result body) c =
        Allows-bind (instructions-Kept body (push_frame (of_result result) (of_result result) c))
          (ended-Kept (of_result result) (of_result result) c)
    instruction-Kept (loop result body) c =
        Allows-bind (instructions-Kept body (push_frame [] (of_result result) c))
          (ended-Kept [] (of_result result) c)
    instruction-Kept (if_else result taken otherwise) c =
        Allows-bind (pop_expect-Kept i32 c) λ tested k.
          Allows-bind
            (has_else-same result otherwise
              (push_frame (of_result result) (of_result result) tested))
            λ entered same.
              Allows-bind
                (subst
                  (λ e.
                    Allows (Kept (push_frame (of_result result) (of_result result) tested))
                      (instructions m taken e))
                  (sym same)
                  (instructions-Kept taken
                    (push_frame (of_result result) (of_result result) tested)))
                λ inner k₁.
                  Allows-bind
                    (pop_frame-Block (of_result result) (of_result result) tested inner k₁)
                    λ p block.
                      Allows-bind
                        (instructions-Kept otherwise
                          (push_frame (of_result result) (of_result result) p.1))
                        λ inner' k₂.
                          Allows-bind
                            (pop_frame-Block (of_result result) (of_result result) p.1 inner' k₂)
                            λ q block'. accepts (
                              Kept-trans k (
                                Kept-trans (Block-Kept block)
                                  (Kept-trans (Block-Kept block') (push_all-Kept p.0 q.1))))
    instruction-Kept (br depth) c = Allows-bind (Allows-any (branch_target depth c)) λ target _.
        Allows-bind (pop_all-Kept (reverse target) c)
          λ c₁ k. Allows-weaken (λ c₂ k'. Kept-trans k k') (set_unreachable-Kept c₁)
    instruction-Kept (br_if depth) c = Allows-bind (pop_expect-Kept i32 c) λ tested k.
        Allows-bind (Allows-any (branch_target depth tested)) λ target _.
          Allows-bind (pop_all-Kept (reverse target) tested)
            λ c₁ k'. accepts (Kept-trans k (Kept-trans k' (push_all-Kept target c₁)))
    instruction-Kept return c = Allows-bind (Allows-any (function_results c.frames)) λ results _.
        Allows-bind (pop_all-Kept (reverse results) c)
          λ c₁ k. Allows-weaken (λ c₂ k'. Kept-trans k k') (set_unreachable-Kept c₁)
    instruction-Kept (call index) c =
        Allows-bind (Allows-any (func_type m index))
          λ ty _. consume-Kept (reverse ty.params) ty.results c
    instruction-Kept (call_indirect type_index) c = Allows-bind (pop_expect-Kept i32 c) λ indexed k.
        Allows-bind (Allows-any (type_at (no_indirect_type type_index) m type_index)) λ ty _.
          Allows-weaken (λ c₂ k'. Kept-trans k k')
            (consume-Kept (reverse ty.params) ty.results indexed)
    instruction-Kept drop c = Allows-bind (pop-Straight c) λ p s. accepts (Straight-Kept s)
    instruction-Kept (local_get index) c =
        Allows-bind (Allows-any (local_type index c)) λ ty _. accepts (push_all-Kept (ty ∷ []) c)
    instruction-Kept (local_set index) c =
        Allows-bind (Allows-any (local_type index c)) λ ty _. pop_expect-Kept ty c
    instruction-Kept (local_tee index) c =
        Allows-bind (Allows-any (local_type index c)) λ ty _. consume-Kept (ty ∷ []) (ty ∷ []) c
    instruction-Kept (i32_const value) c = accepts (push_all-Kept (i32 ∷ []) c)
    instruction-Kept (i64_const value) c = accepts (push_all-Kept (i64 ∷ []) c)
    instruction-Kept i32_add c = consume-Kept (i32 ∷ i32 ∷ []) (i32 ∷ []) c
    instruction-Kept i32_sub c = consume-Kept (i32 ∷ i32 ∷ []) (i32 ∷ []) c
    instruction-Kept i32_mul c = consume-Kept (i32 ∷ i32 ∷ []) (i32 ∷ []) c
    instruction-Kept i32_and c = consume-Kept (i32 ∷ i32 ∷ []) (i32 ∷ []) c
    instruction-Kept i32_or c = consume-Kept (i32 ∷ i32 ∷ []) (i32 ∷ []) c
    instruction-Kept i32_eq c = consume-Kept (i32 ∷ i32 ∷ []) (i32 ∷ []) c
    instruction-Kept i32_ne c = consume-Kept (i32 ∷ i32 ∷ []) (i32 ∷ []) c
    instruction-Kept i32_lt_s c = consume-Kept (i32 ∷ i32 ∷ []) (i32 ∷ []) c
    instruction-Kept i32_le_s c = consume-Kept (i32 ∷ i32 ∷ []) (i32 ∷ []) c
    instruction-Kept i32_gt_s c = consume-Kept (i32 ∷ i32 ∷ []) (i32 ∷ []) c
    instruction-Kept i32_ge_s c = consume-Kept (i32 ∷ i32 ∷ []) (i32 ∷ []) c
    instruction-Kept i32_eqz c = consume-Kept (i32 ∷ []) (i32 ∷ []) c
    instruction-Kept i64_add c = consume-Kept (i64 ∷ i64 ∷ []) (i64 ∷ []) c
    instruction-Kept i64_sub c = consume-Kept (i64 ∷ i64 ∷ []) (i64 ∷ []) c
    instruction-Kept i64_mul c = consume-Kept (i64 ∷ i64 ∷ []) (i64 ∷ []) c
    instruction-Kept i64_xor c = consume-Kept (i64 ∷ i64 ∷ []) (i64 ∷ []) c
    instruction-Kept i64_div_s c = consume-Kept (i64 ∷ i64 ∷ []) (i64 ∷ []) c
    instruction-Kept i64_rem_s c = consume-Kept (i64 ∷ i64 ∷ []) (i64 ∷ []) c
    instruction-Kept i64_eq c = consume-Kept (i64 ∷ i64 ∷ []) (i32 ∷ []) c
    instruction-Kept i64_ne c = consume-Kept (i64 ∷ i64 ∷ []) (i32 ∷ []) c
    instruction-Kept i64_lt_s c = consume-Kept (i64 ∷ i64 ∷ []) (i32 ∷ []) c
    instruction-Kept i64_le_s c = consume-Kept (i64 ∷ i64 ∷ []) (i32 ∷ []) c
    instruction-Kept i64_gt_s c = consume-Kept (i64 ∷ i64 ∷ []) (i32 ∷ []) c
    instruction-Kept i64_ge_s c = consume-Kept (i64 ∷ i64 ∷ []) (i32 ∷ []) c
    instruction-Kept i64_eqz c = consume-Kept (i64 ∷ []) (i32 ∷ []) c
    instruction-Kept i32_wrap_i64 c = consume-Kept (i64 ∷ []) (i32 ∷ []) c
    instruction-Kept i64_extend_i32_s c = consume-Kept (i32 ∷ []) (i64 ∷ []) c
    instruction-Kept (i32_load offset) c = with_memory-Kept m (i32 ∷ []) (i32 ∷ []) c
    instruction-Kept (i64_load offset) c = with_memory-Kept m (i32 ∷ []) (i64 ∷ []) c
    instruction-Kept (i32_store offset) c = with_memory-Kept m (i32 ∷ i32 ∷ []) ([]) c
    instruction-Kept (i64_store offset) c = with_memory-Kept m (i64 ∷ i32 ∷ []) ([]) c
    instruction-Kept (i32_load8_u offset) c = with_memory-Kept m (i32 ∷ []) (i32 ∷ []) c
    instruction-Kept (i32_store8 offset) c = with_memory-Kept m (i32 ∷ i32 ∷ []) ([]) c
    instruction-Kept memory_grow c = with_memory-Kept m (i32 ∷ []) (i32 ∷ []) c
    instruction-Kept memory_size c = Allows-bind (require_memory-same m c) λ c' same.
        accepts (subst (λ d. Kept c (push i32 d)) (sym same) (push_all-Kept (i32 ∷ []) c))

    pub instructions-Kept : (body : Body) (c : Checker) → Allows (Kept c) (instructions m body c)
    instructions-Kept nil c = accepts (Kept-refl c)
    instructions-Kept (cons ins body) c =
        Allows-bind (instruction-Kept ins c)
          λ c₁ k. Allows-weaken (λ c₂ k'. Kept-trans k k') (instructions-Kept body c₁)
