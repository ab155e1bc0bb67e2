-- ===== src/Wasm/Checker/Frames.antt =====
-- crates/deed-codegen/src/validate.rs: what popping and pushing do to the value stack below, at and
-- above the innermost frame.
use deed.Prelude.{
  ℕ, suc, ◌+◌, ◌≤◌, ◌≡◌, ◌==◌, refl, ap, ◌∙◌, arith, Bool, true, false, Bool-cases, inl, inr, List,
  [], ◌∷◌, length, if◌then◌else◌,
}
use mathlib.Core.Path.{subst}
use deed.Wasm.{ValType, eq_val_type}
use deed.Wasm.Checker.{
  Verdict, ok, invalid, panicked, Reason, no_value, ◌>>=◌, Slot, val, unknown, Frame, Checker, push,
  take_top, pop_from, pop_with, pop, expect, pop_expect, pop_all, push_all, consume,
}

-- What holds of a verdict's value, if it is one.
pub data Allows {ℓ} {A : Type ℓ} (P : A → Type 0) : Verdict A → Type ℓ where
  accepts : {a : A} → P a → Allows P (ok a)
  rejects : {why : Reason} → Allows P (invalid why)
  stops : Allows P panicked

module _ {ℓ} {A : Type ℓ} where
  pub Allows-bind {κ} :
      {B : Type κ} {P : A → Type 0} {Q : B → Type 0} {r : Verdict A} {f : A → Verdict B}
      → Allows P r
      → ((a : A) → P a → Allows Q (f a))
      → Allows Q (r >>= f)
  Allows-bind (accepts h) k = k _ h
  Allows-bind rejects k = rejects
  Allows-bind stops k = stops

  pub Allows-weaken :
      {P Q : A → Type 0} {r : Verdict A} → ((a : A) → P a → Q a) → Allows P r → Allows Q r
  Allows-weaken k (accepts h) = accepts (k _ h)
  Allows-weaken k rejects = rejects
  Allows-weaken k stops = stops

  pub Allows-ok : {P : A → Type 0} {a : A} → Allows P (ok a) → P a
  Allows-ok (accepts h) = h

abbrev pub base : List Frame → ℕ
base [] = 0
base (frame ∷ frames) = frame.height

abbrev pub dead : List Frame → Bool
dead [] = false
dead (frame ∷ frames) = frame.unreachable

-- From the first to the second checker, `n` values are taken and `k` put in their place, above the
-- innermost of the frames. In a frame that cannot be reached the values need not be there.
pub record Straight (frames : List Frame) (n k : ℕ) (c c' : Checker) : Type 0 where
  pub same_frames : c'.frames ≡ frames
  pub same_locals : c'.locals ≡ c.locals
  pub above : base frames ≤ length c.stack → base frames ≤ length c'.stack
  pub enough : dead frames ≡ false → base frames ≤ length c.stack → base frames + n ≤ length c.stack
  pub exact :
      dead frames ≡ false → base frames ≤ length c.stack → length c'.stack + n ≡ length c.stack + k

Straight-pop_all :
    {frames : List Frame} {n : ℕ} {c c₁ c₂ : Checker}
    → Straight frames 1 0 c c₁
    → Straight frames n 0 c₁ c₂
    → Straight frames (suc n) 0 c c₂
Straight-pop_all s t = record {
  same_frames = t.same_frames;
  same_locals = t.same_locals ∙ s.same_locals;
  above = λ h. t.above (s.above h);
  enough = λ alive h. omega (arith, s.exact alive h, t.enough alive (s.above h));
  exact = λ alive h. omega (arith, s.exact alive h, t.exact alive (s.above h));
}

Straight-push :
    {frames : List Frame} {n k : ℕ} {c c₁ c₂ : Checker}
    → Straight frames n 0 c c₁
    → Straight frames 0 k c₁ c₂
    → Straight frames n k c c₂
Straight-push s t = record {
  same_frames = t.same_frames;
  same_locals = t.same_locals ∙ s.same_locals;
  above = λ h. t.above (s.above h);
  enough = λ alive h. omega (arith, s.enough alive h);
  exact = λ alive h. omega (arith, s.exact alive h, t.exact alive (s.above h));
}

pub Straight-refl : (c : Checker) → Straight c.frames 0 0 c c
Straight-refl c = record {
  same_frames = refl;
  same_locals = refl;
  above = λ h. h;
  enough = λ alive h. omega arith;
  exact = λ alive h. omega arith;
}

-- In a frame that cannot be reached, a value that is not there is taken all the same.
unknown-Straight :
    (frame : Frame) (outer : List Frame) (c : Checker)
    → c.frames ≡ frame ∷ outer
    → frame.unreachable ≡ true
    → Straight (frame ∷ outer) 1 0 c c
unknown-Straight frame outer c same unreachable = record {
  same_frames = same;
  same_locals = refl;
  above = λ h. h;
  enough = λ alive h. cc;
  exact = λ alive h. cc;
}

taken-Straight :
    (frame : Frame) (outer : List Frame) (c : Checker) (slot : Slot) (stack : List Slot)
    → c.frames ≡ frame ∷ outer
    → c.stack ≡ slot ∷ stack
    → (length c.stack == frame.height) ≡ false
    → Straight (frame ∷ outer) 1 0 c (record c { stack = stack })
taken-Straight frame outer c slot stack same top above =
    let size : length c.stack ≡ suc (length stack) = ap length top in
    record {
      same_frames = same;
      same_locals = refl;
      above = λ h. ground arith;
      enough = λ alive h. ground arith;
      exact = λ alive h. omega arith;
    }

take_top-Straight :
    (frame : Frame) (outer : List Frame) (c : Checker) (stack : List Slot)
    → c.frames ≡ frame ∷ outer
    → c.stack ≡ stack
    → (length c.stack == frame.height) ≡ false
    → Allows (λ p. Straight (frame ∷ outer) 1 0 c p.1) (take_top c stack)
take_top-Straight frame outer c [] same e above = stops
take_top-Straight frame outer c (slot ∷ stack) same e above =
    accepts (taken-Straight frame outer c slot stack same e above)

missing-Straight :
    (frame : Frame) (outer : List Frame) (c : Checker)
    → c.frames ≡ frame ∷ outer
    → (unreachable : Bool) → frame.unreachable ≡ unreachable
    → Allows
        (λ (p : Slot × Checker). Straight (frame ∷ outer) 1 0 c p.1)
        (if unreachable then ok (unknown, c) else invalid no_value)
missing-Straight frame outer c same true u = accepts (unknown-Straight frame outer c same u)
missing-Straight frame outer c same false u = rejects

pop_from-Straight :
    (frame : Frame) (outer : List Frame) (c : Checker)
    → c.frames ≡ frame ∷ outer
    → Allows (λ p. Straight (frame ∷ outer) 1 0 c p.1) (pop_from frame c)
unfolding pop_from
pop_from-Straight frame outer c same = elim (Bool-cases (length c.stack == frame.height)) [
  | inl at_height ↦ rw at_height (missing-Straight frame outer c same frame.unreachable refl)
  | inr above ↦ rw above (take_top-Straight frame outer c c.stack same refl above)
]

pop_with-Straight :
    (c : Checker) (frames : List Frame)
    → c.frames ≡ frames
    → Allows (λ p. Straight frames 1 0 c p.1) (pop_with c frames)
pop_with-Straight c [] same = stops
pop_with-Straight c (frame ∷ outer) same = pop_from-Straight frame outer c same

pub pop-Straight : (c : Checker) → Allows (λ p. Straight c.frames 1 0 c p.1) (pop c)
unfolding pop
pop-Straight c = pop_with-Straight c c.frames refl

expect-Straight :
    (frames : List Frame) (c : Checker) (ty : ValType) (p : Slot × Checker)
    → Straight frames 1 0 c p.1
    → Allows (Straight frames 1 0 c) (expect ty p)
expect-Straight frames c ty (unknown, c') s = accepts s
expect-Straight frames c ty (val found, c') s = elim (Bool-cases (eq_val_type found ty)) [
  | inl e ↦ rw e (accepts s)
  | inr e ↦ rw e rejects
]

pub pop_expect-Straight :
    (ty : ValType) (c : Checker) → Allows (Straight c.frames 1 0 c) (pop_expect ty c)
unfolding pop_expect
pop_expect-Straight ty c = Allows-bind (pop-Straight c) (expect-Straight c.frames c ty)

pub pop_all-Straight :
    (tys : List ValType) (c : Checker) → Allows (Straight c.frames (length tys) 0 c) (pop_all tys c)
unfolding pop_all
pop_all-Straight [] c = accepts (Straight-refl c)
pop_all-Straight (ty ∷ tys) c = Allows-bind (pop_expect-Straight ty c) λ c₁ s.
    Allows-weaken
      (λ c₂ t. Straight-pop_all s (subst (λ fs. Straight fs (length tys) 0 c₁ c₂) s.same_frames t))
      (pop_all-Straight tys c₁)

push-Straight : (ty : ValType) (c : Checker) → Straight c.frames 0 1 c (push ty c)
unfolding push
push-Straight ty c = record {
  same_frames = refl;
  same_locals = refl;
  above = λ h. omega arith;
  enough = λ alive h. omega arith;
  exact = λ alive h. omega arith;
}

pub push_all-Straight :
    (tys : List ValType) (c : Checker) → Straight c.frames 0 (length tys) c (push_all tys c)
unfolding push_all push
push_all-Straight [] c = Straight-refl c
push_all-Straight (ty ∷ tys) c =
    let s : Straight c.frames 0 1 c (push ty c) = push-Straight ty c in
    let t : Straight c.frames 0 (length tys) (push ty c) (push_all tys (push ty c)) =
      push_all-Straight tys (push ty c) in
    record {
      same_frames = t.same_frames;
      same_locals = t.same_locals;
      above = λ h. t.above (s.above h);
      enough = λ alive h. omega arith;
      exact = λ alive h. omega (arith, s.exact alive h, t.exact alive (s.above h));
    }

pub consume-Straight :
    (expected produced : List ValType) (c : Checker)
    → Allows (Straight c.frames (length expected) (length produced) c) (consume expected produced c)
unfolding consume
consume-Straight expected produced c = Allows-bind (pop_all-Straight expected c) λ c₁ s. accepts (
    Straight-push s (
      subst (λ fs. Straight fs 0 (length produced) c₁ (push_all produced c₁)) s.same_frames
        (push_all-Straight produced c₁)))
