-- ===== src/Typeck/Soundness/Binary.antt =====
-- Reading a sum, a difference and a product from the readings of its operands, and the values of
-- the operands from the value of the whole.
use Prim.Native.Nat.{max}
use deed.Prelude.{
  ℕ, ◌+◌, ◌*◌, ◌^◌, ◌≤◌, ◌<◌, ◌≡◌, refl, Option, none, some, [], ◌∷◌, Option-cases, inl, inr, arith,
}
use deed.Prelude.Int.{
  ℤ, pos, neg_ℤ, ◌+ℤ◌, ◌-ℤ◌, ◌*ℤ◌, int_laws, parts_of_eq, mul-le, *ℤ_comm, eq_of_parts,
}
use deed.Machine.{Fits, checked, eqb_ℤ→eq}
use mathlib.Core.Path.{subst}
use deed.Ast.{BinaryOp}
use deed.Interp.{Value, Outcome, value, apply_binary, int_or_overflow}
use deed.Typeck.Range.{Range, empty, bounded}
use deed.Typeck.Range.Member.{In}
use deed.Typeck.Range.Arith.{add-In, sub-In, mul-In}
use deed.Typeck.Facts.World.{World}
use deed.Typeck.Linear.{Linear, Terms, constant_value, single_value, scale, constant}
use deed.Typeck.Linear
use deed.Typeck.Linear.Denotes.{magnitude, sum}
use deed.Typeck.Reading.{binary_reading, scaled_or, scaled_form}
use deed.Typeck.Soundness.Arithmetic.{
  Denotes, add-Denotes, negate-Denotes, scale-Denotes, constant-Denotes,
}
use deed.Typeck.Soundness.Leaf.{ReadAs}

-- The operands of an operation that has an integer value are integers.
pub record Operands (op : ℤ → ℤ → ℤ) (a b : Outcome) (v : ℤ) : Type 0 where
  pub left : ℤ
  pub right : ℤ
  pub left_value : a ≡ value (Value.int left)
  pub right_value : b ≡ value (Value.int right)
  pub result : v ≡ op left right
  pub result_fits : Fits v

checked_result : (a v : ℤ) → int_or_overflow (checked a) ≡ value (Value.int v) → (v ≡ a) × Fits v
unfolding checked
checked_result a v h = ground arith

pub add-Operands :
    (a b : Outcome) (v : ℤ)
    → apply_binary BinaryOp.add a b ≡ value (Value.int v)
    → Operands ◌+ℤ◌ a b v
unfolding apply_binary
add-Operands (value (Value.int x)) (value (Value.int y)) v h = record {
  left = x;
  right = y;
  left_value = refl;
  right_value = refl;
  result = (checked_result (x +ℤ y) v h).0;
  result_fits = (checked_result (x +ℤ y) v h).1;
}
add-Operands (value (Value.int x)) b v h = absurd (ground arith)
add-Operands (value (Value.str x)) b v h = absurd (ground arith)
add-Operands a b v h = absurd (ground arith)

pub sub-Operands :
    (a b : Outcome) (v : ℤ)
    → apply_binary BinaryOp.sub a b ≡ value (Value.int v)
    → Operands ◌-ℤ◌ a b v
unfolding apply_binary
sub-Operands (value (Value.int x)) (value (Value.int y)) v h = record {
  left = x;
  right = y;
  left_value = refl;
  right_value = refl;
  result = (checked_result (x -ℤ y) v h).0;
  result_fits = (checked_result (x -ℤ y) v h).1;
}
sub-Operands (value (Value.int x)) b v h = absurd (ground arith)
sub-Operands (value (Value.str x)) b v h = absurd (ground arith)
sub-Operands a b v h = absurd (ground arith)

pub mul-Operands :
    (a b : Outcome) (v : ℤ)
    → apply_binary BinaryOp.mul a b ≡ value (Value.int v)
    → Operands ◌*ℤ◌ a b v
unfolding apply_binary
mul-Operands (value (Value.int x)) (value (Value.int y)) v h = record {
  left = x;
  right = y;
  left_value = refl;
  right_value = refl;
  result = (checked_result (x *ℤ y) v h).0;
  result_fits = (checked_result (x *ℤ y) v h).1;
}
mul-Operands (value (Value.int x)) b v h = absurd (ground arith)
mul-Operands (value (Value.str x)) b v h = absurd (ground arith)
mul-Operands a b v h = absurd (ground arith)

single_cases : (r : Range) (k : ℤ) → single_value r ≡ some k → r ≡ bounded k k
single_cases empty k h = cc
single_cases (bounded low high) k h = ground (arith, eqb_ℤ→eq low high)

constant_parts :
    (m : Terms) (r : Range) (k : ℤ)
    → constant_value (record { terms = m; offset = r }) ≡ some k
    → (m ≡ []) × (r ≡ bounded k k)
unfolding constant_value
constant_parts [] r k h = (refl, single_cases r k h)
constant_parts (t ∷ m) r k h = cc

module _ (w : World) where
  pub weaken : {n m : ℕ} {v : ℤ} {l : Linear} → n ≤ m → Denotes w n v l → Denotes w m v l
  weaken le d = record { rest = d.rest; counted = omega (arith, le, d.counted) }

  -- A form that is one number is the value.
  constant_is :
      (n : ℕ) (x k : ℤ) (l : Linear)
      → constant_value l ≡ some k
      → Denotes w n x l
      → (x ≡ k) × (magnitude k ≤ n)
  constant_is n x k l e d =
      let (no_terms, one_value) = constant_parts l.terms l.offset k e in
      let here : In (x -ℤ sum w l.terms) (bounded k k) =
        subst (λ z. In (x -ℤ sum w l.terms) z) one_value d.rest in
      let nothing : sum w l.terms ≡ pos 0 = rw no_terms (unfold sum in refl) in
      let same : x ≡ k = eq_of_parts x k (omega (int_laws, parts_of_eq nothing, here.0, here.1)) in
      let rest : x -ℤ sum w l.terms ≡ k =
        eq_of_parts (x -ℤ sum w l.terms) k (omega (arith, here.0, here.1)) in
      (same, omega (arith, rw rest at d.counted))

  module _ (n m : ℕ) (x y : ℤ) (left right : Range) (l r : Linear) (hx : In x left)
      (hy : In y right) (dl : Denotes w n x l) (dr : Denotes w m y r) where
    pub add_reading :
        n + m < 2 ^ 63
        → Fits (x +ℤ y)
        → ReadAs w (n + m) (x +ℤ y) (binary_reading BinaryOp.add left right l r)
    unfolding binary_reading
    add_reading small f = record {
      interval = add-In x y left right f hx hy;
      form = add-Denotes w n m x y l r small dl dr;
    }

    pub sub_reading :
        n + m < 2 ^ 63
        → Fits (neg_ℤ y)
        → Fits (x -ℤ y)
        → ReadAs w (n + m) (x -ℤ y) (binary_reading BinaryOp.sub left right l r)
    unfolding binary_reading
    sub_reading small fy f = record {
      interval = sub-In x y left right fy f hx hy;
      form =
          subst (λ z. Denotes w (n + m) z (Linear.add l (Linear.negate r))) plus_negation
            (add-Denotes w n m x (neg_ℤ y) l (Linear.negate r) small dl
              (negate-Denotes w m y r (omega arith) dr));
    }
      where
        plus_negation : x +ℤ neg_ℤ y ≡ x -ℤ y
        plus_negation = omega int_laws

    scaled_right :
        (big : ℕ) (k : ℤ)
        → n * m ≤ big
        → big < 2 ^ 63
        → (x ≡ k) × (magnitude k ≤ n)
        → (form : Linear) → scale r k ≡ some form
        → Denotes w big (x *ℤ y) form
    scaled_right big k product small is form found =
        weaken within
          (rw (is.0, *ℤ_comm k y) (scale-Denotes w m y k r form (omega (arith, within)) dr found))
      where
        within : m * magnitude k ≤ big
        within = omega (arith, mul-le (magnitude k) n m is.1)

    scaled_left :
        (big : ℕ) (k : ℤ)
        → n * m ≤ big
        → big < 2 ^ 63
        → (y ≡ k) × (magnitude k ≤ m)
        → (form : Linear) → scale l k ≡ some form
        → Denotes w big (x *ℤ y) form
    scaled_left big k product small is form found =
        weaken within (rw is.0 (scale-Denotes w n x k l form (omega (arith, within)) dl found))
      where
        within : n * magnitude k ≤ big
        within = omega (arith, mul-le (magnitude k) m n is.1)

    mul_form :
        (big : ℕ) (interval : Range)
        → n * m ≤ big
        → magnitude (x *ℤ y) ≤ big
        → big < 2 ^ 63
        → In (x *ℤ y) interval
        → Denotes w big
            (x *ℤ y)
            (scaled_or (scaled_form (constant_value l) (constant_value r) l r) interval)
    mul_form big interval product own small h = elim (Option-cases (constant_value l)) [
      | inl no_left ↦ rw no_left (elim (Option-cases (constant_value r)) [
        | inl no_right ↦ rw no_right plain
        | inr (k, right_is) ↦
            rw right_is (
              chosen (scale l k)
                (scaled_left big k product small (constant_is m y k r right_is dr)))
      ])
      | inr (k, left_is) ↦ rw left_is (elim (Option-cases (constant_value r)) [
        | inl no_right ↦
            rw no_right (
              chosen (scale r k)
                (scaled_right big k product small (constant_is n x k l left_is dl)))
        | inr (j, right_is) ↦ rw right_is plain
      ])
    ]
      where
        plain : Denotes w big (x *ℤ y) (constant interval)
        plain = constant-Denotes w big (x *ℤ y) interval h own

        chosen :
            (o : Option Linear)
            → ((form : Linear) → o ≡ some form → Denotes w big (x *ℤ y) form)
            → Denotes w big (x *ℤ y) (scaled_or o interval)
        chosen none found = plain
        chosen (some form) found = found form refl

    pub mul_reading :
        max (n * m) (magnitude (x *ℤ y)) < 2 ^ 63
        → Fits (x *ℤ y)
        → ReadAs w
            (max (n * m) (magnitude (x *ℤ y)))
            (x *ℤ y)
            (binary_reading BinaryOp.mul left right l r)
    unfolding binary_reading
    mul_reading small f = record {
      interval = mul-In x y left right f hx hy;
      form =
          mul_form (max (n * m) (magnitude (x *ℤ y))) _ (omega arith) (omega arith) small
            (mul-In x y left right f hx hy);
    }
