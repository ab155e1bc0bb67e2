-- ===== src/Typeck/Soundness/Arithmetic.antt =====
-- Reading a negation, a sum, a difference and a product from the readings of its operands.
use deed.Prelude.{
  ℕ, ◌+◌, ◌*◌, ◌^◌, ◌≤◌, ◌<◌, ◌≡◌, ap, ◌≢◌, [], ◌∷◌, none, some, Option-cases, inl, inr, arith,
}
use deed.Prelude.Int.{
  ℤ, pos, negsuc, mul-le, neg_ℤ, ◌+ℤ◌, ◌-ℤ◌, ◌*ℤ◌, int_laws, parts_of_eq, neg_parts, *ℤ_add,
  one-mul_ℤ, *ℤ-minus_one,
}
use deed.Machine.{checked}
use deed.Typeck.Range.{Range, any, exactly}
use deed.Typeck.Range
use deed.Typeck.Range.Member.{In}
use deed.Typeck.Range.Arith.{add-In, mul-In}
use deed.Typeck.Facts.{Term}
use deed.Typeck.Facts.World.{World}
use deed.Typeck.Linear.{Linear, Terms, scale, scale_terms, constant, single}
use deed.Typeck.Linear
use deed.Typeck.Linear.Denotes.{
  magnitude, weight, sum, Fits-of_magnitude, magnitude-add, add_terms_exact,
}
use deed.Typeck.Linear.Shapes.{scale_terms_exact, magnitude-mul}

regroup_add : (x y s t : ℤ) → x +ℤ y -ℤ (s +ℤ t) ≡ x -ℤ s +ℤ (y -ℤ t)
regroup_add x y s t = omega int_laws

regroup_mul : (x s f : ℤ) → x *ℤ f -ℤ s *ℤ f ≡ (x -ℤ s) *ℤ f
regroup_mul x s f = omega (int_laws, parts_of_eq (*ℤ_add (x -ℤ s) s f), parts_of_eq (again f))
  where
    again : (g : ℤ) → (x -ℤ s +ℤ s) *ℤ g ≡ x *ℤ g
    again g = ap (λ t. t *ℤ g) (omega int_laws)

mul_bound : (a b n k : ℕ) → a + b ≤ n → a * k + b * k ≤ n * k
mul_bound a b n k h = omega (arith, mul-le (a + b) n k h)

-- No count is `i64::MIN`, so each has its negation.
negation_found : (m : Terms) → weight m < 2 ^ 63 → scale_terms m (negsuc 0) ≢ none
unfolding scale_terms weight checked
negation_found [] h = ground arith
negation_found ((t, c) ∷ m) h = ground (arith, negation_found m, *ℤ-minus_one c, neg_parts c)

scale-ne-none : (l : Linear) → weight l.terms < 2 ^ 63 → scale l (negsuc 0) ≢ none
unfolding scale
scale-ne-none l h = ground (arith, negation_found l.terms)

scale_cases :
    (l l' : Linear) (factor : ℤ)
    → scale l factor ≡ some l'
    → (terms : Terms) × (scale_terms l.terms factor ≡ some terms)
      × (l' ≡ record { terms = terms; offset = Range.mul l.offset (exactly factor) })
scale_cases l l' factor h = elim (Option-cases (scale_terms l.terms factor)) [
  | inl failed ↦ absurd (unfold scale in ground (arith, failed))
  | inr (terms, found) ↦ (terms, found, unfold scale in ground (arith, found))
]

module _ (w : World) where
  -- The form denotes the value and counts no more than `n`.
  pub record Denotes (n : ℕ) (v : ℤ) (l : Linear) : Type 0 where
    pub rest : In (v -ℤ sum w l.terms) l.offset
    pub counted : magnitude (v -ℤ sum w l.terms) + weight l.terms ≤ n

  pub add-Denotes :
      (n m : ℕ) (x y : ℤ) (l r : Linear)
      → n + m < 2 ^ 63
      → Denotes n x l
      → Denotes m y r
      → Denotes (n + m) (x +ℤ y) (Linear.add l r)
  unfolding Linear.add
  add-Denotes n m x y l r small h k =
      let exact = add_terms_exact w l.terms r.terms (omega (arith, h.counted, k.counted)) in
      let near = magnitude-add (x -ℤ sum w l.terms) (y -ℤ sum w r.terms) in
      record {
        rest = rw exact.0 (
            rw (regroup_add x y (sum w l.terms) (sum w r.terms)) (
              add-In _ _ l.offset r.offset
                (Fits-of_magnitude _ (omega (arith, near, h.counted, k.counted))) h.rest k.rest));
        counted = rw exact.0 (
            rw (regroup_add x y (sum w l.terms) (sum w r.terms))
              (omega (arith, near, h.counted, k.counted, exact.1)));
      }

  pub scale-Denotes :
      (n : ℕ) (x factor : ℤ) (l l' : Linear)
      → n * magnitude factor < 2 ^ 63
      → Denotes n x l
      → scale l factor ≡ some l'
      → Denotes (n * magnitude factor) (x *ℤ factor) l'
  scale-Denotes n x factor l l' small h e =
      let (terms, found, shape) = scale_cases l l' factor e in
      let exact = scale_terms_exact w l.terms factor terms found in
      let near = magnitude-mul (x -ℤ sum w l.terms) factor in
      let within = mul_bound _ _ n (magnitude factor) h.counted in
      rw shape (record {
        rest = rw exact.0 (
            rw (regroup_mul x (sum w l.terms) factor) (
              mul-In _ factor l.offset (exactly factor)
                (Fits-of_magnitude _ (omega (arith, near, within))) h.rest (omega arith)));
        counted =
            rw exact.0
              (rw (regroup_mul x (sum w l.terms) factor) (omega (arith, near, within, exact.1)));
      })

  pub constant-Denotes :
      (n : ℕ) (v : ℤ) (r : Range) → In v r → magnitude v ≤ n → Denotes n v (constant r)
  unfolding constant sum weight
  constant-Denotes n v r h m = record {
    rest = rw no_terms h;
    counted = rw no_terms (omega (arith, m));
  }
    where
      no_terms : v -ℤ pos 0 ≡ v
      no_terms = omega int_laws

  pub single-Denotes : (n : ℕ) (t : Term) → 1 ≤ n → Denotes n (w.value t) (single t)
  unfolding single sum weight
  single-Denotes n t m = record {
    rest = rw nothing_left (omega arith);
    counted = rw nothing_left (omega (arith, m));
  }
    where
      nothing_left : w.value t -ℤ (pos 1 *ℤ w.value t +ℤ pos 0) ≡ pos 0
      nothing_left = rw one-mul_ℤ (omega int_laws)

  pub negate-Denotes :
      (n : ℕ) (v : ℤ) (l : Linear)
      → n < 2 ^ 63
      → Denotes n v l
      → Denotes n (neg_ℤ v) (Linear.negate l)
  unfolding Linear.negate
  negate-Denotes n v l small h = elim (Option-cases (scale l (negsuc 0))) [
    | inl failed ↦ absurd (scale-ne-none l (omega (arith, h.counted)) failed)
    | inr (l', found) ↦
        rw (found, Linear.negate)
          (as_scaled (scale-Denotes n v (negsuc 0) l l' (omega arith) h found))
  ]
    where
      as_scaled : {l' : Linear} → Denotes (n * 1) (v *ℤ negsuc 0) l' → Denotes n (neg_ℤ v) l'
      as_scaled d = rw *ℤ-minus_one at (rw one at d)
        where
          one : n * 1 ≡ n
          one = omega arith
