-- ===== src/Typeck/Soundness.antt =====
-- What the soundness of the checker's reasoning rests on: the parts of the program outside
-- crates/deed-typeck/src/facts.rs keep their word, and the numbers counted along the way stay
-- within an `i64`.
pub mod Leaf
pub mod Arithmetic
pub mod Call
pub mod Read
pub mod Binary
pub mod Alone
pub mod Whole
pub mod Guarantees
mod Examples
pub mod Division
pub mod Steps
pub mod Narrowing
pub mod Bounds
pub mod Conditions
pub mod Compare
pub mod Verdict
use Prim.Native.Nat.{max}
use deed.Prelude.{
  ℕ, zero, suc, ◌+◌, ◌*◌, ◌^◌, ◌<◌, ◌≡◌, ◌≢◌, Bool, true, false, ◌||◌, Option, none, some, List, [],
  ◌∷◌, All, if◌then◌else◌, length,
}
use deed.Prelude.Int.{ℤ, pos, ◌-ℤ◌, ◌*ℤ◌, ◌≤ℤ◌}
use deed.Machine.{Fits, i64_min}
use deed.Ast.{Expr, Exprs, nil, cons, UnaryOp, BinaryOp, Ident, count, int_limit}
use deed.Interp.{Value, Outcome, value, Leaves, eval}
use deed.Typeck.Range.{Range}
use deed.Typeck.Range.Member.{In}
use deed.Typeck.Facts.{Term, DefId}
use deed.Typeck.Facts.World.{World}
use deed.Typeck.Linear.Denotes.{magnitude}
use deed.Typeck.Promise.{Scaled, Guarantee}
use deed.Typeck.Env.{Env, is_subject, is_subject_length, term_of, is_length_call, first, name_def}

-- The argument at a position has a value, and the result keeps its distance from a multiple of it.
abbrev pub KeptAt : Leaves → Exprs → ℕ → Scaled → ℤ → Type 0
KeptAt ls nil i scaled v = Unit
KeptAt ls (cons e es) zero scaled v =
    (x : ℤ) × (eval ls e ≡ value (Value.int x)) × In (v -ℤ x *ℤ scaled.factor) scaled.range
KeptAt ls (cons e es) (suc i) scaled v = KeptAt ls es i scaled v

-- The multiple that is counted of the argument at a position is one that an `i64` holds. `times`
-- stops at the edges of an `i64`, and the bound that it then gives may be wrong.
abbrev pub CountedAt : Leaves → Exprs → ℕ → Scaled → Type 0
CountedAt ls nil i scaled = Unit
CountedAt ls (cons e es) zero scaled =
    (x : ℤ) → eval ls e ≡ value (Value.int x) → Fits (x *ℤ scaled.factor)
CountedAt ls (cons e es) (suc i) scaled = CountedAt ls es i scaled

-- No multiple of an argument that a promise counts leaves an `i64`.
abbrev pub Counted : Leaves → Guarantee → Exprs → Type 0
Counted ls g args = All (λ (o : ℕ × Scaled). CountedAt ls args o.0 o.1) g.offsets

-- A result that keeps a promise.
pub record Kept (ls : Leaves) (g : Guarantee) (args : Exprs) (v : ℤ) : Type 0 where
  pub range : In v g.range
  pub offsets : All (λ (o : ℕ × Scaled). KeptAt ls args o.0 o.1 v) g.offsets

-- The resolver, the type table and the contracts say what the evaluation of a leaf then finds.
pub record Faithful (w : World) (env : Env) (ls : Leaves) : Type 0 where
  pub leaf_fits : (e : Expr) (v : ℤ) → ls.leaf e ≡ value (Value.int v) → Fits v
  pub name_value :
      (x : Ident) (d : DefId) (v : ℤ)
      → env.def_of (Expr.ident x) ≡ some d
      → ls.leaf (Expr.ident x) ≡ value (Value.int v)
      → v ≡ w.value (Term.name d)
  pub subject_value :
      (e : Expr) (v : ℤ)
      → is_subject e ≡ true
      → ls.leaf e ≡ value (Value.int v)
      → v ≡ w.subject_value
  pub subject_length :
      (e : Expr) (v : ℤ)
      → is_subject_length env e ≡ true
      → ls.leaf e ≡ value (Value.int v)
      → v ≡ w.subject_length
  -- `length` measures a list, a string, or what a name stands for.
  pub length_list :
      (callee : Expr) (args es : Exprs) (v : ℤ)
      → is_length_call env callee args ≡ true
      → first args ≡ some (Expr.list es)
      → ls.leaf (Expr.call callee args) ≡ value (Value.int v)
      → v ≡ pos (count es)
  pub length_str :
      (callee : Expr) (args : Exprs) (s : List ℕ) (v : ℤ)
      → is_length_call env callee args ≡ true
      → first args ≡ some (Expr.str s)
      → ls.leaf (Expr.call callee args) ≡ value (Value.int v)
      → v ≡ pos (length s)
  pub length_name :
      (callee : Expr) (args : Exprs) (d : DefId) (v : ℤ)
      → is_length_call env callee args ≡ true
      → name_def env (first args) ≡ some d
      → ls.leaf (Expr.call callee args) ≡ value (Value.int v)
      → v ≡ w.value (Term.length d)
  pub length_nonneg :
      (callee : Expr) (args : Exprs) (v : ℤ)
      → is_length_call env callee args ≡ true
      → ls.leaf (Expr.call callee args) ≡ value (Value.int v)
      → pos 0 ≤ℤ v
  pub field_refined :
      (receiver : Expr) (name : Ident) (v : ℤ)
      → ls.leaf (Expr.field receiver name) ≡ value (Value.int v)
      → In v (env.refined (Expr.field receiver name))
  pub call_kept :
      (callee : Expr) (args : Exprs) (v : ℤ)
      → ls.leaf (Expr.call callee args) ≡ value (Value.int v)
      → Kept ls (env.call callee).value args v
  pub try_kept :
      (callee : Expr) (args : Exprs) (v : ℤ)
      → ls.leaf (Expr.try (Expr.call callee args)) ≡ value (Value.int v)
      → Kept ls (env.call callee).ok args v

abbrev pub outcome_size : Outcome → ℕ
outcome_size (value (Value.int v)) = magnitude v
outcome_size _ = 0

abbrev pub leaf_size : Bool → Option Term → Outcome → ℕ
leaf_size true term o = suc (outcome_size o)
leaf_size false (some _) o = 1
leaf_size false none o = outcome_size o

-- How much of an expression is counted: a name counts one, and what is no name counts its value.
unfoldable pub size : Env → Leaves → Expr → ℕ
unfolding eval
size env ls (Expr.unary UnaryOp.neg operand) = size env ls operand
size env ls (Expr.binary BinaryOp.add lhs rhs span) = size env ls lhs + size env ls rhs
size env ls (Expr.binary BinaryOp.sub lhs rhs span) = size env ls lhs + size env ls rhs
size env ls (Expr.binary BinaryOp.mul lhs rhs span) =
    max (size env ls lhs * size env ls rhs)
      (outcome_size (eval ls (Expr.binary BinaryOp.mul lhs rhs span)))
size env ls e = leaf_size (is_subject e || is_subject_length env e) (term_of env e) (eval ls e)

-- What is counted in any part of the expression stays below the largest `i64`, `Int.min` is
-- subtracted from nothing, and no multiple of an argument that the promise of a call counts leaves
-- an `i64`.
abbrev mutual
  pub Calm : Env → Leaves → Expr → Type 0
  Calm env ls (Expr.unary UnaryOp.neg operand) =
      (size env ls operand < 2 ^ 63) × Calm env ls operand
  Calm env ls (Expr.binary BinaryOp.add lhs rhs span) =
      (size env ls (Expr.binary BinaryOp.add lhs rhs span) < 2 ^ 63)
      × Calm env ls lhs
      × Calm env ls rhs
  Calm env ls (Expr.binary BinaryOp.sub lhs rhs span) =
      (size env ls (Expr.binary BinaryOp.sub lhs rhs span) < 2 ^ 63)
      × Calm env ls lhs
      × Calm env ls rhs
      × (eval ls rhs ≢ value (Value.int i64_min))
  Calm env ls (Expr.binary BinaryOp.mul lhs rhs span) =
      (size env ls (Expr.binary BinaryOp.mul lhs rhs span) < 2 ^ 63)
      × Calm env ls lhs
      × Calm env ls rhs
  Calm env ls (Expr.call callee args) =
      (size env ls (Expr.call callee args) < 2 ^ 63)
      × CalmAll env ls args
      × Counted ls (env.call callee).value args
  Calm env ls (Expr.try (Expr.call callee args)) =
      (size env ls (Expr.try (Expr.call callee args)) < 2 ^ 63)
      × CalmAll env ls args
      × Counted ls (env.call callee).ok args
  Calm env ls e = size env ls e < 2 ^ 63

  pub CalmAll : Env → Leaves → Exprs → Type 0
  CalmAll env ls nil = Unit
  CalmAll env ls (cons e es) = Calm env ls e × CalmAll env ls es
