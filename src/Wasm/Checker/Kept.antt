-- ===== src/Wasm/Checker/Kept.antt =====
-- crates/deed-codegen/src/validate.rs: what each step leaves of the frames around it.
use mathlib.Core.Path.{subst}
use mathlib.Core.List.{reverse, reverse_aux}
use deed.Prelude.{
  ℕ, suc, ◌+◌, ◌≤◌, ◌≡◌, ◌==◌, ==_iff, refl, sym, ap, ◌∙◌, arith, Bool, true, false, leb,
  Bool-cases, inl, inr, List, [], ◌∷◌, length,
}
use deed.Wasm.{ValType}
use deed.Wasm.Checker.{
  Slot, Frame, Checker, close_frame, end_frame, pop_frame, truncate, cut_off, set_unreachable,
  push_frame,
}
use deed.Wasm.Checker.Frames.{
  Allows, accepts, rejects, stops, Allows-bind, Allows-weaken, base, dead, Straight,
  pop_all-Straight,
}

abbrev pub flagged : Bool → List Frame → List Frame
flagged u [] = []
flagged u (frame ∷ frames) = record frame { unreachable = u } ∷ frames

pub base-flagged : (u : Bool) (frames : List Frame) → base (flagged u frames) ≡ base frames
base-flagged u [] = refl
base-flagged u (frame ∷ frames) = refl

flagged-flagged :
    (u v : Bool) (frames : List Frame) → flagged v (flagged u frames) ≡ flagged v frames
flagged-flagged u v [] = refl
flagged-flagged u v (frame ∷ frames) = refl

pub flagged-dead : (frames : List Frame) → flagged (dead frames) frames ≡ frames
flagged-dead [] = refl
flagged-dead (frame ∷ frames) = refl

-- At most the innermost frame's flag is changed, and its floor is not dug into.
pub record Kept (c c' : Checker) : Type 0 where
  pub flag : Bool
  pub same_frames : c'.frames ≡ flagged flag c.frames
  pub same_locals : c'.locals ≡ c.locals
  pub above : base c.frames ≤ length c.stack → base c.frames ≤ length c'.stack

pub Straight-Kept : {n k : ℕ} {c c' : Checker} → Straight c.frames n k c c' → Kept c c'
Straight-Kept {c} s = record {
  flag = dead c.frames;
  same_frames = s.same_frames ∙ sym (flagged-dead c.frames);
  same_locals = s.same_locals;
  above = s.above;
}

pub Kept-trans : {c₁ c₂ c₃ : Checker} → Kept c₁ c₂ → Kept c₂ c₃ → Kept c₁ c₃
Kept-trans {c₁} {c₂} s t =
    let floor : base c₂.frames ≡ base c₁.frames =
      ap base s.same_frames ∙ base-flagged s.flag c₁.frames in
    record {
      flag = t.flag;
      same_frames =
          t.same_frames
          ∙ ap (flagged t.flag) s.same_frames
          ∙ flagged-flagged s.flag t.flag c₁.frames;
      same_locals = t.same_locals ∙ s.same_locals;
      above = λ h. omega (arith, s.above h, t.above (omega (arith, s.above h)));
    }

length-truncate :
    (height : ℕ) (stack : List Slot)
    → height ≤ length stack
    → height ≤ length (truncate height stack)
unfolding truncate
length-truncate height [] h = h
length-truncate height (slot ∷ stack) h = elim (Bool-cases (leb (suc (length stack)) height)) [
  | inl e ↦ rw e h
  | inr e ↦ rw e (length-truncate height stack (ground arith))
]

cut_off-Kept :
    (c : Checker) (frames : List Frame) → c.frames ≡ frames → Allows (Kept c) (cut_off c frames)
cut_off-Kept c [] e = stops
cut_off-Kept c (frame ∷ frames) e =
    let floor : base c.frames ≡ frame.height = ap base e in
    accepts (record {
      flag = true;
      same_frames = sym (ap (flagged true) e);
      same_locals = refl;
      above = λ h. omega (arith, length-truncate frame.height c.stack (omega arith));
    })

pub set_unreachable-Kept : (c : Checker) → Allows (Kept c) (set_unreachable c)
unfolding set_unreachable
set_unreachable-Kept c = cut_off-Kept c c.frames refl

length-reverse_aux {ℓ} :
    {A : Type ℓ} (xs ys : List A) → length (reverse_aux xs ys) ≡ length xs + length ys
length-reverse_aux [] ys = omega arith
length-reverse_aux (x ∷ xs) ys = omega (arith, length-reverse_aux xs (x ∷ ys))

pub length-reverse {ℓ} : {A : Type ℓ} (xs : List A) → length (reverse xs) ≡ length xs
length-reverse xs = omega (arith, length-reverse_aux xs [])

-- A frame that ends is taken off, with what it ends with above its floor.
pub record Closed (frame : Frame) (outer : List Frame) (c : Checker) (p : List ValType × Checker)
    : Type 0 where
  pub ends : p.0 ≡ frame.end_types
  pub same_frames : p.1.frames ≡ outer
  pub same_locals : p.1.locals ≡ c.locals
  pub at_floor : length p.1.stack ≡ frame.height
  pub exact :
      frame.unreachable ≡ false
      → frame.height ≤ length c.stack
      → length c.stack ≡ frame.height + length frame.end_types

close_frame-Closed :
    (frame : Frame) (outer : List Frame) (c c' : Checker)
    → Straight (frame ∷ outer) (length (reverse frame.end_types)) 0 c c'
    → Allows (Closed frame outer c) (close_frame frame.end_types c' (frame ∷ outer))
close_frame-Closed frame outer c c' s = elim (Bool-cases (length c'.stack == frame.height)) [
  | inl e ↦ rw e (
      accepts (record {
        ends = refl;
        same_frames = refl;
        same_locals = s.same_locals;
        at_floor = (==_iff _ _).0 e;
        exact = λ alive h.
            omega (arith, s.exact alive h, (==_iff _ _).0 e, length-reverse frame.end_types);
      }))
  | inr e ↦ rw e rejects
]

end_frame-Closed :
    (frame : Frame) (outer : List Frame) (c : Checker)
    → c.frames ≡ frame ∷ outer
    → Allows (Closed frame outer c) (end_frame c (frame ∷ outer))
end_frame-Closed frame outer c e =
    Allows-bind (pop_all-Straight (reverse frame.end_types) c) λ c' s.
      let s' : Straight (frame ∷ outer) (length (reverse frame.end_types)) 0 c c' =
        subst (λ fs. Straight fs (length (reverse frame.end_types)) 0 c c') e s in
      subst (λ fs. Allows (Closed frame outer c) (close_frame frame.end_types c' fs))
        (sym s'.same_frames) (close_frame-Closed frame outer c c' s')

pub pop_frame-Closed :
    (frame : Frame) (outer : List Frame) (c : Checker)
    → c.frames ≡ frame ∷ outer
    → Allows (Closed frame outer c) (pop_frame c)
unfolding pop_frame
pop_frame-Closed frame outer c e =
    subst (λ fs. Allows (Closed frame outer c) (end_frame c fs)) (sym e)
      (end_frame-Closed frame outer c e)

-- The frame that a block opens.
abbrev pub opened : List ValType → List ValType → Bool → Checker → Frame
opened label_types end_types u c = record {
  label_types = label_types;
  end_types = end_types;
  height = length c.stack;
  unreachable = u;
}

-- A block's body, and its end: what is left is as at its start, with its results to come.
pub record Block (end_types : List ValType) (c c₁ : Checker) (p : List ValType × Checker)
    : Type 0 where
  pub ends : p.0 ≡ end_types
  pub same_frames : p.1.frames ≡ c.frames
  pub same_locals : p.1.locals ≡ c.locals
  pub at_floor : length p.1.stack ≡ length c.stack
  pub exact : dead c₁.frames ≡ false → length c₁.stack ≡ length c.stack + length end_types

pub pop_frame-Block :
    (label_types end_types : List ValType) (c c₁ : Checker)
    → Kept (push_frame label_types end_types c) c₁
    → Allows (Block end_types c c₁) (pop_frame c₁)
unfolding push_frame
pop_frame-Block label_types end_types c c₁ k =
    Allows-weaken
      (λ p closed. record {
        ends = closed.ends;
        same_frames = closed.same_frames;
        same_locals = closed.same_locals ∙ k.same_locals;
        at_floor = closed.at_floor;
        exact = λ alive. closed.exact (sym (ap dead k.same_frames) ∙ alive) (k.above (omega arith));
      })
      (pop_frame-Closed (opened label_types end_types k.flag c) c.frames c₁ k.same_frames)
