-- ===== src/Wasm/Run/Landing.antt =====
-- Where a run of an instruction may land, by the frames that the validator sees around it: enough
-- values on the stack for what comes next.
use mathlib.Core.Path.{subst}
use deed.Prelude.{
  ℕ, zero, suc, ◌+◌, ◌≤◌, ◌≡◌, refl, sym, ap, ◌∙◌, arith, Bool, false, some, List, [], ◌∷◌, length,
  get_elem?,
}
use deed.Wasm.{ValType}
use deed.Wasm.Checker.{Frame, Checker, push_frame, push_all}
use deed.Wasm.Checker.Frames.{base, dead, Straight, push_all-Straight}
use deed.Wasm.Checker.Kept.{flagged, base-flagged, Kept, Straight-Kept, opened}
use deed.Wasm.Run.{State, Result}
use deed.Wasm.Run.Machine.{Flow, normal, break, returned, leave, after_round, fall_through}
use deed.Wasm.Run.Ends.{returns, Ends-bind}
use deed.Wasm.Run.Moved.{Safe, Shift, Moved}

-- The values that a branch so far out leaves behind.
abbrev pub Enough : List Frame → ℕ → ℕ → Type 0
Enough [] depth n = ⊥
Enough (frame ∷ frames) zero n = frame.height + length frame.label_types ≤ n
Enough (frame ∷ frames) (suc depth) n = Enough frames depth n

-- No frame starts below the one around it.
abbrev pub Nested : List Frame → Type 0
Nested [] = Unit
Nested (frame ∷ frames) = (base frames ≤ frame.height) × Nested frames

-- How many values the function returns.
abbrev pub result_count : List Frame → ℕ
result_count [] = 0
result_count (frame ∷ []) = length frame.end_types
result_count (frame ∷ outer ∷ frames) = result_count (outer ∷ frames)

Enough-flagged :
    (u : Bool) (frames : List Frame) (depth n : ℕ)
    → Enough (flagged u frames) depth n
    → Enough frames depth n
Enough-flagged u [] depth n h = h
Enough-flagged u (frame ∷ frames) zero n h = h
Enough-flagged u (frame ∷ frames) (suc depth) n h = h

Nested-flagged : (u : Bool) (frames : List Frame) → Nested frames → Nested (flagged u frames)
Nested-flagged u [] h = h
Nested-flagged u (frame ∷ frames) h = h

result_count-flagged :
    (u : Bool) (frames : List Frame) → result_count (flagged u frames) ≡ result_count frames
result_count-flagged u [] = refl
result_count-flagged u (frame ∷ []) = refl
result_count-flagged u (frame ∷ outer ∷ frames) = refl

length-flagged : (u : Bool) (frames : List Frame) → length (flagged u frames) ≡ length frames
length-flagged u [] = refl
length-flagged u (frame ∷ frames) = refl

-- A branch to a frame whose label is on the stack above the innermost frame's floor.
pub Enough-get_elem? :
    (frames : List Frame) (depth n : ℕ) (frame : Frame)
    → Nested frames
    → get_elem? frames depth ≡ some frame
    → base frames + length frame.label_types ≤ n
    → Enough frames depth n
Enough-get_elem? [] depth n frame nested e h = cc
Enough-get_elem? (f ∷ frames) zero n frame nested e h = ground (arith, e, h)
Enough-get_elem? (f ∷ frames) (suc depth) n frame nested e h =
    Enough-get_elem? frames depth n frame nested.1 e (omega (arith, nested.0))

pub record Sound (rets : ℕ) (c : Checker) : Type 0 where
  pub floor : base c.frames ≤ length c.stack
  pub alive : dead c.frames ≡ false
  pub nested : Nested c.frames
  pub results : result_count c.frames ≡ rets
  pub inside : 1 ≤ length c.frames

pub record Fits (c : Checker) (st : State) : Type 0 where
  pub room : length c.stack ≤ length st.stack
  pub locals : length st.locals ≡ length c.locals

abbrev pub Lands : Checker → Checker → ℕ → Flow × State → Type 0
Lands c c' rets (normal, st) = (dead c'.frames ≡ false) × Fits c' st
Lands c c' rets (break depth, st) =
    Enough c.frames depth (length st.stack) × (length st.locals ≡ length c.locals)
Lands c c' rets (returned, st) = rets ≤ length st.stack

-- Once what a body starts with has been left, the rest of it starts as soundly.
pub Sound-Kept :
    {rets : ℕ} {c c' : Checker} → Kept c c' → Sound rets c → dead c'.frames ≡ false → Sound rets c'
Sound-Kept {rets} {c} {c'} k s alive = record {
  floor = omega (arith, k.above s.floor, ap base k.same_frames, base-flagged k.flag c.frames);
  alive = alive;
  nested = subst Nested (sym k.same_frames) (Nested-flagged k.flag c.frames s.nested);
  results = ap result_count k.same_frames ∙ result_count-flagged k.flag c.frames ∙ s.results;
  inside = omega (arith, ap length k.same_frames, length-flagged k.flag c.frames, s.inside);
}

pub Lands-Kept :
    (rets : ℕ) (c₂ : Checker) {c c₁ : Checker} (p : Flow × State)
    → Kept c c₁
    → Lands c₁ c₂ rets p
    → Lands c c₂ rets p
Lands-Kept rets c₂ (normal, st) k h = h
Lands-Kept rets c₂ {c} (break depth, st) k h = (
  Enough-flagged k.flag c.frames depth (length st.stack)
      (subst (λ fs. Enough fs depth (length st.stack)) k.same_frames h.0),
  h.1 ∙ ap length k.same_locals,
)
Lands-Kept rets c₂ (returned, st) k h = h

pub Fits-Straight :
    {n k : ℕ} {c c' : Checker} {st st' : State}
    → Straight c.frames n k c c'
    → Shift n k st st'
    → dead c.frames ≡ false
    → base c.frames ≤ length c.stack
    → Fits c st
    → Fits c' st'
Fits-Straight s t alive floor f = record {
  room = omega (arith, s.exact alive floor, t.stack, f.room);
  locals = t.locals ∙ f.locals ∙ sym (ap length s.same_locals);
}

pub fall_through-Lands :
    {rets n k : ℕ} {c c' : Checker} {st : State} {r : Result State}
    → Straight c.frames n k c c'
    → Moved n k st r
    → Sound rets c
    → Fits c st
    → Safe (Lands c c' rets) (fall_through r)
fall_through-Lands s moved sound f = Ends-bind moved λ st' t.
    returns (ap dead s.same_frames ∙ sound.alive, Fits-Straight s t sound.alive sound.floor f)

pub Sound-Straight :
    {rets n k : ℕ} {c c' : Checker} → Straight c.frames n k c c' → Sound rets c → Sound rets c'
Sound-Straight s sound = Sound-Kept (Straight-Kept s) sound (ap dead s.same_frames ∙ sound.alive)

result_count-opened :
    (frame : Frame) (frames : List Frame)
    → 1 ≤ length frames
    → result_count (frame ∷ frames) ≡ result_count frames
result_count-opened frame [] h = absurd (omega arith)
result_count-opened frame (outer ∷ frames) h = refl

-- The body of a block starts soundly.
pub Sound-push_frame :
    {rets : ℕ} {c : Checker} (label_types end_types : List ValType)
    → Sound rets c
    → Sound rets (push_frame label_types end_types c)
unfolding push_frame
Sound-push_frame {c = c} label_types end_types s = record {
  floor = omega arith;
  alive = refl;
  nested = (s.floor, s.nested);
  results =
      result_count-opened (opened label_types end_types false c) c.frames s.inside ∙ s.results;
  inside = omega arith;
}

pub Fits-push_frame :
    {c : Checker} {st : State} (label_types end_types : List ValType)
    → Fits c st
    → Fits (push_frame label_types end_types c) st
unfolding push_frame
Fits-push_frame label_types end_types f = record { room = f.room; locals = f.locals }

-- The checker behind a block whose start is the first checker: what the block ends with is to come.
pub record Ended (end_types : List ValType) (c d : Checker) (tys : List ValType) : Type 0 where
  pub same_frames : d.frames ≡ c.frames
  pub same_locals : d.locals ≡ c.locals
  pub at_floor : length d.stack ≡ length c.stack
  pub ends : length tys ≡ length end_types

pub Ended-Lands :
    {end_types : List ValType} {c d : Checker} {tys : List ValType} (rets : ℕ) (st : State)
    → Ended end_types c d tys
    → Sound rets c
    → length c.stack + length end_types ≤ length st.stack
    → length st.locals ≡ length c.locals
    → Lands c (push_all tys d) rets (normal, st)
Ended-Lands {d = d} {tys = tys} rets st e sound room locals =
    let s : Straight d.frames 0 (length tys) d (push_all tys d) = push_all-Straight tys d in
    let alive : dead d.frames ≡ false = ap dead e.same_frames ∙ sound.alive in
    let floor : base d.frames ≤ length d.stack =
      omega (arith, ap base e.same_frames, sound.floor, e.at_floor) in
    (
      ap dead s.same_frames ∙ alive,
      record {
        room = omega (arith, s.exact alive floor, e.at_floor, e.ends, room);
        locals = locals ∙ sym (ap length (s.same_locals ∙ e.same_locals));
      },
    )

pub leave-Lands :
    (label_types : List ValType) {end_types tys : List ValType} {c d : Checker} (c₁ : Checker)
    (rets : ℕ) (q : Flow × State)
    → Lands (push_frame label_types end_types c) c₁ rets q
    → (dead c₁.frames ≡ false → length c₁.stack ≡ length c.stack + length end_types)
    → c₁.locals ≡ c.locals
    → length label_types ≡ length end_types
    → Ended end_types c d tys
    → Sound rets c
    → Safe (Lands c (push_all tys d) rets) (leave q)
unfolding push_frame
leave-Lands label_types c₁ rets (normal, st) (alive, f) exact locals same e sound =
    returns (
      Ended-Lands rets st e sound (omega (arith, exact alive, f.room))
        (f.locals ∙ ap length locals))
leave-Lands label_types c₁ rets (break zero, st) h exact locals same e sound =
    returns (Ended-Lands rets st e sound (omega (arith, h.0, same)) h.1)
leave-Lands label_types c₁ rets (break (suc depth), st) h exact locals same e sound = returns h
leave-Lands label_types c₁ rets (returned, st) h exact locals same e sound = returns h

pub after_round-Lands :
    {end_types tys : List ValType} {c d : Checker} (c₁ : Checker) (rets : ℕ)
    (again : State → Result (Flow × State)) (q : Flow × State)
    → Lands (push_frame [] end_types c) c₁ rets q
    → (dead c₁.frames ≡ false → length c₁.stack ≡ length c.stack + length end_types)
    → c₁.locals ≡ c.locals
    → Ended end_types c d tys
    → Sound rets c
    → ((st : State) → Fits c st → Safe (Lands c (push_all tys d) rets) (again st))
    → Safe (Lands c (push_all tys d) rets) (after_round again q)
unfolding push_frame
after_round-Lands c₁ rets again (normal, st) (alive, f) exact locals e sound next =
    returns (
      Ended-Lands rets st e sound (omega (arith, exact alive, f.room))
        (f.locals ∙ ap length locals))
after_round-Lands c₁ rets again (break zero, st) h exact locals e sound next =
    next st (record { room = omega (arith, h.0); locals = h.1 })
after_round-Lands c₁ rets again (break (suc depth), st) h exact locals e sound next = returns h
after_round-Lands c₁ rets again (returned, st) h exact locals e sound next = returns h
