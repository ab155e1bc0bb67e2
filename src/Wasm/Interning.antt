-- ===== src/Wasm/Interning.antt =====
-- crates/deed-codegen/src/wasm.rs: types and table entries, numbered when they are first met.
use deed.Prelude.{
  ℕ, zero, suc, ◌≡◌, refl, arith, Bool, true, ◌==◌, ==_iff, Bool-cases, inl, inr, Option-cases,
  Option, none, some, List, [], ◌∷◌, ◌++◌, length, get_elem?,
}
use deed.Wasm.{
  ValType, i32, i64, FuncType, Module, eq_val_type, eq_val_types, eq_func_type, position,
  known_type, intern_type, known_entry, intern_table,
}

-- The index names an entry that is the given one, no entry has moved, and looking for it again
-- finds that index.
pub record Interned {A : Type 0} (p : A → Bool) (a : A) (xs ys : List A) (i : ℕ) : Type 0 where
  pub here : get_elem? ys i ≡ some a
  pub kept : (j : ℕ) (x : A) → get_elem? xs j ≡ some x → get_elem? ys j ≡ some x
  pub again : position p ys ≡ some i

module _ {A : Type 0} (p : A → Bool) (a : A) where
  position-here :
      (xs : List A) (i : ℕ)
      → ((x : A) → p x ≡ true → x ≡ a)
      → position p xs ≡ some i
      → get_elem? xs i ≡ some a
  unfolding position
  position-here [] i same e = cc
  position-here (x ∷ xs) i same e = elim (Bool-cases (p x)) [
    | inl at_x ↦ ground (arith, e, at_x, same x at_x)
    | inr past_x ↦ elim (Option-cases (position p xs)) [
      | inl missing ↦ absurd (ground (arith, e, past_x, missing))
      | inr (j, found) ↦ ground (arith, e, past_x, found, position-here xs j same found)
    ]
  ]

  position-append :
      (xs : List A)
      → p a ≡ true
      → position p xs ≡ none
      → position p (xs ++ a ∷ []) ≡ some (length xs)
  unfolding position
  position-append [] at_a e = rw at_a refl
  position-append (x ∷ xs) at_a e = elim (Bool-cases (p x)) [
    | inl at_x ↦ absurd (ground (arith, e, at_x))
    | inr past_x ↦ elim (Option-cases (position p xs)) [
      | inl missing ↦ ground (arith, past_x, position-append xs at_a missing)
      | inr (j, found) ↦ absurd (ground (arith, e, past_x, found))
    ]
  ]

get_elem?-append {ℓ} :
    {A : Type ℓ} (xs ys : List A) (i : ℕ) (a : A)
    → get_elem? xs i ≡ some a
    → get_elem? (xs ++ ys) i ≡ some a
get_elem?-append [] ys i a e = cc
get_elem?-append (x ∷ xs) ys zero a e = e
get_elem?-append (x ∷ xs) ys (suc i) a e = get_elem?-append xs ys i a e

get_elem?-length {ℓ} :
    {A : Type ℓ} (xs : List A) (a : A) → get_elem? (xs ++ a ∷ []) (length xs) ≡ some a
get_elem?-length [] a = refl
get_elem?-length (x ∷ xs) a = get_elem?-length xs a

eq_val_type→eq : (a b : ValType) → eq_val_type a b ≡ true → a ≡ b
eq_val_type→eq i32 i32 e = refl
eq_val_type→eq i64 i64 e = refl
eq_val_type→eq i32 i64 e = cc
eq_val_type→eq i64 i32 e = cc

eq_val_types→eq : (tys tys' : List ValType) → eq_val_types tys tys' ≡ true → tys ≡ tys'
eq_val_types→eq [] [] e = refl
eq_val_types→eq (a ∷ tys) [] e = cc
eq_val_types→eq [] (b ∷ tys') e = cc
eq_val_types→eq (a ∷ tys) (b ∷ tys') e = elim (Bool-cases (eq_val_type a b)) [
  | inl h ↦ cc (eq_val_type→eq a b h, eq_val_types→eq tys tys' (ground (arith, e, h)))
  | inr h ↦ absurd (ground (arith, e, h))
]

eq_val_types_self : (tys : List ValType) → eq_val_types tys tys ≡ true
eq_val_types_self [] = refl
eq_val_types_self (i32 ∷ tys) = eq_val_types_self tys
eq_val_types_self (i64 ∷ tys) = eq_val_types_self tys

eq_func_type_self : (ty : FuncType) → eq_func_type ty ty ≡ true
eq_func_type_self ty = ground (arith, eq_val_types_self ty.params, eq_val_types_self ty.results)

eq_func_type→eq : (a b : FuncType) → eq_func_type a b ≡ true → a ≡ b
eq_func_type→eq a b e = elim (Bool-cases (eq_val_types a.params b.params)) [
  | inl h ↦ cc (
    eq_val_types→eq a.params b.params h,
    eq_val_types→eq a.results b.results (ground (arith, e, h)),
  )
  | inr h ↦ absurd (ground (arith, e, h))
]

module _ {A : Type 0} (p : A → Bool) (a : A) (at_a : p a ≡ true)
    (same : (x : A) → p x ≡ true → x ≡ a) (xs : List A) where
  old-Interned : (i : ℕ) → position p xs ≡ some i → Interned p a xs xs i
  old-Interned i found = record {
    here = position-here p a xs i same found;
    kept = λ j x e. e;
    again = found;
  }

  new-Interned : position p xs ≡ none → Interned p a xs (xs ++ a ∷ []) (length xs)
  new-Interned missing = record {
    here = get_elem?-length xs a;
    kept = λ j x e. get_elem?-append xs (a ∷ []) j x e;
    again = position-append p a xs at_a missing;
  }

known_type-Interned :
    (ty : FuncType) (m : Module) (o : Option ℕ)
    → position (λ existing. eq_func_type existing ty) m.types ≡ o
    → Interned
        (λ existing. eq_func_type existing ty)
        ty
        m.types
        (known_type ty m o).1.types
        (known_type ty m o).0
known_type-Interned ty m (some i) e =
    old-Interned _ ty (eq_func_type_self ty) (λ x h. eq_func_type→eq x ty h) m.types i e
known_type-Interned ty m none e =
    new-Interned _ ty (eq_func_type_self ty) (λ x h. eq_func_type→eq x ty h) m.types e

-- Interning a signature: the index that comes back names that signature among the module's
-- types, every type that was there keeps its index, and looking for the signature again finds
-- the same index.
pub intern_type-Interned :
    (ty : FuncType) (m : Module)
    → Interned
        (λ existing. eq_func_type existing ty)
        ty
        m.types
        (intern_type ty m).1.types
        (intern_type ty m).0
unfolding intern_type
intern_type-Interned ty m = known_type-Interned ty m _ refl

known_entry-Interned :
    (func : ℕ) (m : Module) (o : Option ℕ)
    → position (λ found. found == func) m.table ≡ o
    → Interned
        (λ found. found == func)
        func
        m.table
        (known_entry func m o).1.table
        (known_entry func m o).0
known_entry-Interned func m (some i) e =
    old-Interned _ func ((==_iff func func).1 refl) (λ x h. (==_iff x func).0 h) m.table i e
known_entry-Interned func m none e =
    new-Interned _ func ((==_iff func func).1 refl) (λ x h. (==_iff x func).0 h) m.table e

-- Interning a table entry: the index that comes back names that function in the table, every
-- entry that was there keeps its index, and looking for the function again finds the same
-- index.
pub intern_table-Interned :
    (func : ℕ) (m : Module)
    → Interned
        (λ found. found == func)
        func
        m.table
        (intern_table func m).1.table
        (intern_table func m).0
unfolding intern_table
intern_table-Interned func m = known_entry-Interned func m _ refl
