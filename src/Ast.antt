-- ===== src/Ast.antt =====
-- crates/deed-ast/src/lib.rs: the expressions that the checker reasons about and the interpreter
-- evaluates. The shapes with statements in them (`if`, `match`, `for`, blocks, closures, `with`,
-- `old`, `unchanged`, literals of a record, the error node) are one constructor, which every
-- function here answers by its catch-all arm. A span is kept where a modelled function reads it.
use deed.Prelude.{ℕ, Bool, String, Option, none, some, List, if◌then◌else◌}
use deed.Prelude.Int.{ℤ}
use deed.Machine.{i64_min, i64_max}
use text.Mathlib.Text.{◌==◌ as str_eq}

pub record Span : Type 0 where
  pub start : ℕ
  pub stop : ℕ

pub record Ident : Type 0 where
  pub name : String
  pub span : Span

pub data UnaryOp : Type 0 where
  neg not : UnaryOp

pub data BinaryOp : Type 0 where
  or and eq ne lt le gt ge add sub mul div rem : BinaryOp

mutual
  pub data Expr : Type 0 where
    int : ℤ → Expr
    str : List ℕ → Expr
    bool : Bool → Expr
    ident : Ident → Expr
    field : Expr → Ident → Expr
    call : Expr → Exprs → Expr
    list : Exprs → Expr
    unary : UnaryOp → Expr → Expr
    binary : BinaryOp → Expr → Expr → Span → Expr
    try : Expr → Expr
    other : ℕ → Expr

  pub data Exprs : Type 0 where
    nil : Exprs
    cons : Expr → Exprs → Exprs

unfoldable pub count : Exprs → ℕ
count nil = 0
count (cons e es) = ℕ.suc (count es)

-- `Int.max` and `Int.min`, written as a field of the type.
unfoldable pub int_limit : Expr → Option ℤ
int_limit (field (ident receiver) name) =
    if str_eq receiver.name "Int"
    then if str_eq name.name "max"
      then some i64_max
      else if str_eq name.name "min"
      then some i64_min
      else none
    else none
int_limit _ = none
