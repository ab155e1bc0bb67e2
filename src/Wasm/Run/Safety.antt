-- ===== src/Wasm/Run/Safety.antt =====
-- crates/deed-codegen/src/run.rs under crates/deed-codegen/src/validate.rs: an instruction that the
-- validator has passed finds on the stack what it takes.
use mathlib.Core.Path.{subst}
use mathlib.Core.List.{reverse}
use deed.Prelude.{
  ℕ, zero, suc, ◌+◌, ◌≤◌, ◌<◌, ◌≡◌, refl, sym, ap, ◌∙◌, arith, false, Bool-cases, some, List, [],
  ◌∷◌, length, get_elem?, inl, inr,
}
use deed.Wasm.{
  ValType, i32, FuncType, Module, Ins, Body, nil, cons, marked, block, loop, if_else, call_indirect,
  drop,
}
use deed.Wasm.Checker
use deed.Wasm.Checker.{
  Verdict, ok, ◌>>=◌, no_indirect_type, Frame, Checker, push, push_all, consume, local_type,
  type_at, push_frame, branch_target, function_results, of_result, require_memory,
}
use deed.Wasm.Checker.Frames.{
  Allows, accepts, rejects, stops, Allows-bind, Allows-weaken, base, dead, Straight,
  push_all-Straight, consume-Straight,
}
use deed.Wasm.Checker.Kept.{length-reverse}
use deed.Wasm.Validate.Kept.{require_memory-same}
use deed.Wasm.Memory.{Value, as_bool}
use deed.Wasm.Run.{State, Result, done, simple}
use deed.Wasm.Run.Machine.{branch_if}
use deed.Wasm.Run.Ends.{returns}
use deed.Wasm.Run.Moved.{Safe, Moved}
use deed.Wasm.Run.Landing.{Enough, Enough-get_elem?, result_count, Sound, Fits, Lands}
use deed.Wasm.Run.Calls.{Names, found-Allows}

-- No marker stands directly in a marker.
abbrev pub Plain : Ins → Type 0
Plain (marked _ _) = ⊥
Plain ins = Unit

-- What the runner asks beyond what the validator checks: no marker stands directly in a marker, and
-- through the table a call reaches functions of the type that it names only.
unfoldable mutual
  pub Runnable : Module → Ins → Type 0
  Runnable m (marked site inner) = Plain inner × Runnable m inner
  Runnable m (block result body) = RunnableBody m body
  Runnable m (loop result body) = RunnableBody m body
  Runnable m (if_else result taken otherwise) = RunnableBody m taken × RunnableBody m otherwise
  Runnable m (call_indirect type_index) =
      (slot index : ℕ)
      → get_elem? m.table slot ≡ some index
      → (ty : FuncType) → get_elem? m.types type_index ≡ some ty
      → Names m index ty
  Runnable m ins = Unit

  pub RunnableBody : Module → Body → Type 0
  RunnableBody m nil = Unit
  RunnableBody m (cons ins body) = Runnable m ins × RunnableBody m body

pub Allows-equation {ℓ κ} :
    {A : Type ℓ} {B : Type κ} {Q : B → Type 0} (r : Verdict A) {f : A → Verdict B}
    → ((a : A) → r ≡ ok a → Allows Q (f a))
    → Allows Q (Checker.◌>>=◌ r f)
Allows-equation (ok a) k = k a refl
Allows-equation (Verdict.invalid why) k = rejects
Allows-equation Verdict.panicked k = stops

get_elem?-lt {ℓ} :
    {A : Type ℓ} (xs : List A) (i : ℕ) (a : A) → get_elem? xs i ≡ some a → i < length xs
get_elem?-lt [] i a e = cc
get_elem?-lt (x ∷ xs) zero a e = omega arith
get_elem?-lt (x ∷ xs) (suc i) a e = omega (arith, get_elem?-lt xs i a e)

pub local_type-lt :
    (index : ℕ) (c : Checker) → Allows (λ _. index < length c.locals) (local_type index c)
unfolding local_type
local_type-lt index c =
    Allows-weaken (λ ty found. get_elem?-lt c.locals index ty found)
      (found-Allows _ (get_elem? c.locals index))

pub memory_size-Straight :
    (m : Module) (c : Checker)
    → Allows (Straight c.frames 0 1 c) (require_memory m c >>= λ checked. ok (push i32 checked))
unfolding push_all
memory_size-Straight m c = Allows-bind (require_memory-same m c) λ c' same.
    accepts (
      subst (λ d. Straight c.frames 0 1 c (push i32 d)) (sym same) (push_all-Straight (i32 ∷ []) c))

pub with_memory-Straight :
    (m : Module) (expected produced : List ValType) (c : Checker)
    → Allows
        (Straight c.frames (length expected) (length produced) c)
        (require_memory m c >>= consume expected produced)
with_memory-Straight m expected produced c = Allows-bind (require_memory-same m c) λ c' same.
    subst
      (λ d.
        Allows (Straight c.frames (length expected) (length produced) c)
          (consume expected produced d))
      (sym same) (consume-Straight expected produced c)

pub drop_from-Moved :
    (st : State) (stack : List Value)
    → st.stack ≡ stack
    → 1 ≤ length stack
    → Moved 1 0 st (simple drop st)
unfolding simple
drop_from-Moved st [] e h = absurd (omega arith)
drop_from-Moved st (value ∷ stack) e h =
    let size : length st.stack ≡ suc (length stack) = ap length e in
    subst
      (λ s. Moved 1 0 st (elim s [ [] ↦ done st | v ∷ rest ↦ done (record st { stack = rest }) ]))
      (sym e) (returns (record { stack = omega arith; locals = refl }))

pub branch_target-Label :
    (depth : ℕ) (c : Checker)
    → Allows
        (λ target.
          (frame : Frame) × (get_elem? c.frames depth ≡ some frame) × (frame.label_types ≡ target))
        (branch_target depth c)
unfolding branch_target
branch_target-Label depth c =
    Allows-bind (found-Allows _ (get_elem? c.frames depth))
      λ frame found. accepts (frame, found, refl)

pub branch-Enough :
    (depth n : ℕ) (target : List ValType) (c : Checker) (rets : ℕ)
    → (frame : Frame) × (get_elem? c.frames depth ≡ some frame) × (frame.label_types ≡ target)
    → Sound rets c
    → base c.frames + length target ≤ n
    → Enough c.frames depth n
branch-Enough depth n target c rets label sound h =
    Enough-get_elem? c.frames depth n label.0 sound.nested label.1
      (omega (arith, ap length label.2, h))

pub function_results-count :
    (frames : List Frame)
    → Allows (λ results. length results ≡ result_count frames) (function_results frames)
unfolding function_results
function_results-count [] = stops
function_results-count (frame ∷ []) = accepts refl
function_results-count (frame ∷ outer ∷ frames) = function_results-count (outer ∷ frames)

pub Moved-reverse :
    (tys : List ValType) (k : ℕ) (st : State) (r : Result State)
    → Moved (length tys) k st r
    → Moved (length (reverse tys)) k st r
Moved-reverse tys k st r h = subst (λ n. Moved n k st r) (sym (length-reverse tys)) h

-- A conditional branch, from behind its test on.
pub br_if-Lands :
    (depth : ℕ) (target : List ValType) (c c₁ : Checker) (rets : ℕ) (p : Value × State)
    → (frame : Frame) × (get_elem? c.frames depth ≡ some frame) × (frame.label_types ≡ target)
    → Straight c.frames (length (reverse target)) 0 c c₁
    → Sound rets c
    → Fits c p.1
    → Safe (Lands c (push_all target c₁) rets) (branch_if depth p)
unfolding branch_if
br_if-Lands depth target c c₁ rets (value, st) label s sound f = elim (Bool-cases (as_bool value)) [
  | inl e ↦
      rw e
        (returns (branch-Enough depth _ target c rets label sound (omega (arith, room)), f.locals))
  | inr e ↦ rw e (
      returns (
        ap dead t.same_frames ∙ alive,
        record {
          room = omega (arith, t.exact alive floor, taken, f.room);
          locals = f.locals ∙ sym (ap length (t.same_locals ∙ s.same_locals));
        },
      ))
]
  where
    room : base c.frames + length target ≤ length st.stack
    room = omega (arith, s.enough sound.alive sound.floor, length-reverse target, f.room)

    taken : length c₁.stack + length target ≡ length c.stack
    taken = omega (arith, s.exact sound.alive sound.floor, length-reverse target)

    t : Straight c₁.frames 0 (length target) c₁ (push_all target c₁)
    t = push_all-Straight target c₁

    alive : dead c₁.frames ≡ false
    alive = ap dead s.same_frames ∙ sound.alive

    floor : base c₁.frames ≤ length c₁.stack
    floor = omega (arith, ap base s.same_frames, s.above sound.floor)
