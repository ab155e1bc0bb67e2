-- ===== src/Wasm/Run/Moved.antt =====
-- crates/deed-codegen/src/run.rs: how many values a plain instruction takes from the stack, and how
-- many it puts there. It does so on a stack of any height, or traps.
use mathlib.Core.Path.{subst}
use deed.Prelude.{
  ℕ, sym, zero, suc, ◌+◌, ◌≡◌, ◌<◌, refl, ap, ◌∙◌, ◌||◌, lt→ltb, arith, Bool-cases, ltb, some, List,
  [], ◌∷◌, length, get_elem?, ◌⊎◌, inl, inr,
}
use deed.Wasm.{Ins}
use deed.Prelude.Int.{ℤ, pos, ltb_ℤ}
use deed.Wasm.Memory.{Value, as_i64, load, store}
use deed.Wasm.Run.{
  Trap, State, Result, done, trapped, ◌>>=◌, push, pop, unary, push_operated, operate, arithmetic,
  set_at, set_local, or_panic, load_value, store_value, load_byte, store_byte, grow, wanted_pages,
  pages_ceiling, address, out_of_bounds,
}
use deed.Wasm.Run.Ends.{Ends, returns, traps, Ends-bind, Ends-or_trap}

abbrev pub Safe {ℓ} : {A : Type ℓ} → (A → Type 0) → Result A → Type ℓ
Safe P r = Ends ⊥ (Unit {0}) P r

pub record Shift (n k : ℕ) (st st' : State) : Type 0 where
  pub stack : length st'.stack + n ≡ length st.stack + k
  pub locals : length st'.locals ≡ length st.locals

abbrev pub Moved : ℕ → ℕ → State → Result State → Type 0
Moved n k st r = Safe (Shift n k st) r

pop_from-Shift :
    (st : State) (stack : List Value)
    → st.stack ≡ stack
    → Safe (λ (p : Value × State). Shift 1 0 st p.1) (pop st)
unfolding pop
pop_from-Shift st [] e = rw e traps
pop_from-Shift st (value ∷ stack) e =
    let size : length st.stack ≡ suc (length stack) = ap length e in
    subst
      (λ s.
        Safe (λ (p : Value × State). Shift 1 0 st p.1)
          (elim s [
            | [] ↦ trapped Trap.unreachable st.run.memory
            | v ∷ rest ↦ done (v, record st { stack = rest })
          ]))
      (sym e) (returns (record { stack = omega arith; locals = refl }))

pub pop-Shift : (st : State) → Safe (λ (p : Value × State). Shift 1 0 st p.1) (pop st)
pop-Shift st = pop_from-Shift st st.stack refl

-- A step that takes nothing more and puts one value there, or none, after one that takes `n`.
then_push :
    {n : ℕ} {st st' : State} (value : Value) → Shift n 0 st st' → Shift n 1 st (push value st')
then_push value s = record { stack = omega (arith, s.stack); locals = s.locals }

then_pop :
    {n : ℕ} {st st₁ st₂ : State} → Shift n 0 st st₁ → Shift 1 0 st₁ st₂ → Shift (suc n) 0 st st₂
then_pop s t = record { stack = omega (arith, s.stack, t.stack); locals = t.locals ∙ s.locals }

push_operated-Moved :
    (n : ℕ) (st st' : State) (o : Value ⊎ Trap)
    → Shift n 0 st st'
    → Moved n 1 st (push_operated st' o)
push_operated-Moved n st st' (inl value) s = returns (then_push value s)
push_operated-Moved n st st' (inr why) s = traps

pub arithmetic-Moved : (ins : Ins) (st : State) → Moved 2 1 st (arithmetic ins st)
unfolding arithmetic
arithmetic-Moved ins st = Ends-bind (pop-Shift st) λ p s.
    Ends-bind (pop-Shift p.1)
      λ q t. push_operated-Moved 2 st q.1 (operate ins (as_i64 q.0) (as_i64 p.0)) (then_pop s t)

pub unary-Moved : (f : ℤ → Value) (st : State) → Moved 1 1 st (unary f st)
unfolding unary
unary-Moved f st = Ends-bind (pop-Shift st) λ p s. returns (then_push (f (as_i64 p.0)) s)

pub load_value-Moved :
    (n : ℕ) (f : ℤ → Value) (at : ℕ) (st st' : State)
    → Shift n 0 st st'
    → Moved n 1 st (load_value f at st')
load_value-Moved n f at st st' s =
    Ends-bind (Ends-or_trap out_of_bounds st' (load at st'.run.memory))
      λ value _. returns (then_push (f value) s)

pub store_value-Moved :
    (n at : ℕ) (value : ℤ) (st st' : State)
    → Shift n 0 st st'
    → Moved n 0 st (store_value at value st')
store_value-Moved n at value st st' s =
    Ends-bind (Ends-or_trap out_of_bounds st' (store at value st'.run.memory))
      λ memory _. returns (record { stack = s.stack; locals = s.locals })

pub load_byte-Moved :
    (n at : ℕ) (st st' : State) → Shift n 0 st st' → Moved n 1 st (load_byte at st')
load_byte-Moved n at st st' s = elim (Bool-cases (ltb at st'.run.memory.size)) [
  | inl e ↦ rw e (returns (then_push _ s))
  | inr e ↦ rw e traps
]

pub store_byte-Moved :
    (n at : ℕ) (value : ℤ) (st st' : State)
    → Shift n 0 st st'
    → Moved n 0 st (store_byte at value st')
store_byte-Moved n at value st st' s = elim (Bool-cases (ltb at st'.run.memory.size)) [
  | inl e ↦ rw e (returns (record { stack = s.stack; locals = s.locals }))
  | inr e ↦ rw e traps
]

grow-Shift : (n : ℕ) (pages : ℤ) (st st' : State) → Shift n 0 st st' → Shift n 1 st (grow pages st')
grow-Shift n pages st st' s =
    elim (Bool-cases (ltb_ℤ pages (pos 0) || ltb_ℤ pages_ceiling (wanted_pages pages st'))) [
      | inl e ↦ rw e (record { stack = omega (arith, s.stack); locals = s.locals })
      | inr e ↦ rw e (record { stack = omega (arith, s.stack); locals = s.locals })
    ]

pub load-Moved :
    (f : ℤ → Value) (offset : ℕ) (st : State)
    → Moved 1 1 st (pop st >>= λ p. load_value f (address p.0 offset) p.1)
load-Moved f offset st =
    Ends-bind (pop-Shift st) λ p s. load_value-Moved 1 f (address p.0 offset) st p.1 s

pub store-Moved :
    (offset : ℕ) (st : State)
    → Moved 2 0 st
        (pop st >>= λ p. pop p.1 >>= λ q. store_value (address q.0 offset) (as_i64 p.0) q.1)
store-Moved offset st = Ends-bind (pop-Shift st) λ p s.
    Ends-bind (pop-Shift p.1)
      λ q t. store_value-Moved 2 (address q.0 offset) (as_i64 p.0) st q.1 (then_pop s t)

pub load8-Moved :
    (offset : ℕ) (st : State) → Moved 1 1 st (pop st >>= λ p. load_byte (address p.0 offset) p.1)
load8-Moved offset st =
    Ends-bind (pop-Shift st) λ p s. load_byte-Moved 1 (address p.0 offset) st p.1 s

pub store8-Moved :
    (offset : ℕ) (st : State)
    → Moved 2 0 st
        (pop st >>= λ p. pop p.1 >>= λ q. store_byte (address q.0 offset) (as_i64 p.0) q.1)
store8-Moved offset st = Ends-bind (pop-Shift st) λ p s.
    Ends-bind (pop-Shift p.1)
      λ q t. store_byte-Moved 2 (address q.0 offset) (as_i64 p.0) st q.1 (then_pop s t)

pub grow-Moved : (st : State) → Moved 1 1 st (pop st >>= λ p. done (grow (as_i64 p.0) p.1))
grow-Moved st = Ends-bind (pop-Shift st) λ p s. returns (grow-Shift 1 (as_i64 p.0) st p.1 s)

pub push-Moved : (value : Value) (st : State) → Moved 0 1 st (done (push value st))
push-Moved value st = returns (record { stack = omega arith; locals = refl })

length-set_at {ℓ} : {A : Type ℓ} (xs : List A) (i : ℕ) (v : A) → length (set_at xs i v) ≡ length xs
unfolding set_at
length-set_at [] i v = refl
length-set_at (x ∷ xs) zero v = refl
length-set_at (x ∷ xs) (suc i) v = omega (arith, length-set_at xs i v)

set_local-Moved :
    (n k index : ℕ) (value : Value) (st st' : State)
    → index < length st'.locals
    → Shift n k st st'
    → Moved n k st (set_local index value st')
unfolding set_local
set_local-Moved n k index value st st' inside s =
    rw (lt→ltb index (length st'.locals) inside) (
      returns
        (record { stack = s.stack; locals = length-set_at st'.locals index value ∙ s.locals }))

pub local_set-Moved :
    (index : ℕ) (st : State)
    → index < length st.locals
    → Moved 1 0 st (pop st >>= λ p. set_local index p.0 p.1)
local_set-Moved index st inside =
    Ends-bind (pop-Shift st) λ p s. set_local-Moved 1 0 index p.0 st p.1 (omega (arith, s.locals)) s

pub local_tee-Moved :
    (index : ℕ) (st : State)
    → index < length st.locals
    → Moved 1 1 st (pop st >>= λ p. set_local index p.0 st)
local_tee-Moved index st inside = Ends-bind (pop-Shift st) λ p s.
    set_local-Moved 1 1 index p.0 st st inside (record { stack = omega arith; locals = refl })

get_from {ℓ} :
    {A : Type ℓ} (xs : List A) (i : ℕ) → i < length xs → (a : A) × (get_elem? xs i ≡ some a)
get_from [] i h = absurd (omega arith)
get_from (x ∷ xs) zero h = (x, refl)
get_from (x ∷ xs) (suc i) h = get_from xs i (omega arith)

pub local_get-Moved :
    (index : ℕ) (st : State)
    → index < length st.locals
    → Moved 0 1 st (or_panic (get_elem? st.locals index) >>= λ value. done (push value st))
local_get-Moved index st inside =
    let found : (v : Value) × (get_elem? st.locals index ≡ some v) =
      get_from st.locals index inside in
    rw found.1 (push-Moved found.0 st)
