-- ===== src/Typeck/Linear/Denotes.antt =====
-- What a linear form denotes in a world: the sum of its counted terms, and something in its offset.
-- The weight of the terms bounds every count that is added up.
use deed.Prelude.{
  ℕ, ◌+◌, ◌^◌, ◌≤◌, ◌<◌, ◌≡◌, ap, [], ◌∷◌, if◌then◌else◌, Bool-cases, inl, inr, arith,
}
use deed.Prelude.Int.{
  ℤ, pos, pos_part, neg_part, ◌+ℤ◌, ◌*ℤ◌, int_laws, parts_of_eq, *ℤ_add, zero-mul_ℤ,
}
use deed.Machine.{Fits, clamp, saturating_add, eqb_ℤ, eqb_ℤ→eq}
use deed.Machine.Order.{clamp-eq_of_Fits}
use deed.Tables.{sorted_get, sorted_insert, sorted_remove, unwrap_or}
use deed.Typeck.Facts.{Term, term_key, eq_term, before_term, eq_term_iff}
use deed.Typeck.Facts.World.{World}
use deed.Typeck.Linear.{Terms, count_term, add_terms}

abbrev pub magnitude : ℤ → ℕ
magnitude a = pos_part a + neg_part a

unfoldable pub weight : Terms → ℕ
weight [] = 0
weight ((t, count) ∷ m) = magnitude count + weight m

abbrev counted : Term → Terms → ℤ
counted t m = unwrap_or (sorted_get t m) (pos 0)

weight-insert :
    (t : Term) (v : ℤ) (m : Terms)
    → weight (sorted_insert t v m) + magnitude (counted t m) ≡ weight m + magnitude v
unfolding weight sorted_insert sorted_get
weight-insert t v [] = ground arith
weight-insert t v ((u, c) ∷ m) = ground (arith, weight-insert t v m)

weight-remove :
    (t : Term) (m : Terms) → weight (sorted_remove t m) + magnitude (counted t m) ≡ weight m
unfolding weight sorted_remove sorted_get
weight-remove t [] = ground arith
weight-remove t ((u, c) ∷ m) = ground (arith, weight-remove t m)

pub magnitude-add : (a b : ℤ) → magnitude (a +ℤ b) ≤ magnitude a + magnitude b
unfolding ◌+ℤ◌
magnitude-add a b = ground arith

pub Fits-of_magnitude : (a : ℤ) → magnitude a < 2 ^ 63 → Fits a
Fits-of_magnitude a h = ground arith

counted-le-weight : (t : Term) (m : Terms) → magnitude (counted t m) ≤ weight m
counted-le-weight t m = omega (arith, weight-remove t m)

weight_total :
    (m : Terms) (t : Term) (total : ℤ) (c : ℤ)
    → magnitude total ≤ magnitude (counted t m) + magnitude c
    → weight (if eqb_ℤ total (pos 0) then sorted_remove t m else sorted_insert t total m)
      ≤ weight m + magnitude c
weight_total m t total c h = elim (Bool-cases (eqb_ℤ total (pos 0))) [
  | inl gone ↦ rw gone (omega (arith, weight-remove t m))
  | inr left ↦ rw left (omega (arith, weight-insert t total m))
]

exact_total :
    (m : Terms) (t : Term) (c : ℤ)
    → weight m + magnitude c < 2 ^ 63
    → clamp (counted t m +ℤ c) ≡ counted t m +ℤ c
exact_total m t c h =
    clamp-eq_of_Fits _
      (Fits-of_magnitude _ (omega (arith, counted-le-weight t m, magnitude-add (counted t m) c)))

weight-count :
    (m : Terms) (t : Term) (c : ℤ)
    → weight m + magnitude c < 2 ^ 63
    → weight (count_term m t c) ≤ weight m + magnitude c
unfolding count_term saturating_add
weight-count m t c h =
    weight_total m t (clamp (counted t m +ℤ c)) c
      (rw (exact_total m t c h) (magnitude-add (counted t m) c))

module _ (w : World) where
  unfoldable pub sum : Terms → ℤ
  sum [] = pos 0
  sum ((t, count) ∷ m) = count *ℤ w.value t +ℤ sum m

  sum-insert :
      (t : Term) (v : ℤ) (m : Terms)
      → sum (sorted_insert t v m) +ℤ counted t m *ℤ w.value t ≡ sum m +ℤ v *ℤ w.value t
  unfolding sum sorted_insert sorted_get
  sum-insert t v [] = rw zero-mul_ℤ (omega int_laws)
  sum-insert t v ((u, c) ∷ m) = elim (Bool-cases (eq_term u t)) [
    | inl same ↦ rw same (rw ((eq_term_iff u t).0 same) (omega int_laws))
    | inr other ↦ rw other (elim (Bool-cases (before_term t u)) [
      | inl first ↦ rw first (rw zero-mul_ℤ (omega int_laws))
      | inr later ↦ rw later (omega (int_laws, parts_of_eq (sum-insert t v m)))
    ])
  ]

  sum-remove : (t : Term) (m : Terms) → sum (sorted_remove t m) +ℤ counted t m *ℤ w.value t ≡ sum m
  unfolding sum sorted_remove sorted_get
  sum-remove t [] = rw zero-mul_ℤ (omega int_laws)
  sum-remove t ((u, c) ∷ m) = elim (Bool-cases (eq_term u t)) [
    | inl same ↦ rw same (rw ((eq_term_iff u t).0 same) (omega int_laws))
    | inr other ↦ rw other (elim (Bool-cases (before_term t u)) [
      | inl first ↦ rw first (rw zero-mul_ℤ (omega int_laws))
      | inr later ↦ rw later (omega (int_laws, parts_of_eq (sum-remove t m)))
    ])
  ]

  sum_total :
      (m : Terms) (t : Term) (c : ℤ)
      → sum (
          if eqb_ℤ (counted t m +ℤ c) (pos 0)
          then sorted_remove t m
          else sorted_insert t (counted t m +ℤ c) m)
        ≡ sum m +ℤ c *ℤ w.value t
  sum_total m t c = elim (Bool-cases (eqb_ℤ (counted t m +ℤ c) (pos 0))) [
    | inl gone ↦ rw gone (
        omega (
          int_laws,
          parts_of_eq (sum-remove t m),
          parts_of_eq (*ℤ_add (counted t m) c (w.value t)),
          parts_of_eq (ap (λ (x : ℤ). x *ℤ w.value t) (eqb_ℤ→eq (counted t m +ℤ c) (pos 0) gone)),
          parts_of_eq (zero-mul_ℤ (w.value t)),
        ))
    | inr left ↦ rw left (
        omega (
          int_laws,
          parts_of_eq (sum-insert t (counted t m +ℤ c) m),
          parts_of_eq (*ℤ_add (counted t m) c (w.value t)),
        ))
  ]

  sum-count :
      (m : Terms) (t : Term) (c : ℤ)
      → weight m + magnitude c < 2 ^ 63
      → sum (count_term m t c) ≡ sum m +ℤ c *ℤ w.value t
  unfolding count_term saturating_add
  sum-count m t c h = rw (exact_total m t c h) (sum_total m t c)

  -- Adding the terms of two forms adds what they come to in a world and counts no more than
  -- the two together, when the counts of the two together stay below 2 ^ 63.
  pub add_terms_exact :
      (m n : Terms)
      → weight m + weight n < 2 ^ 63
      → (sum (add_terms m n) ≡ sum m +ℤ sum n) × (weight (add_terms m n) ≤ weight m + weight n)
  unfolding add_terms sum weight
  add_terms_exact m [] h = (omega int_laws, omega arith)
  add_terms_exact m ((t, c) ∷ n) h =
      let smaller = weight-count m t c (omega arith) in
      let rest = add_terms_exact (count_term m t c) n (omega arith) in
      (
        omega (int_laws, parts_of_eq rest.0, parts_of_eq (sum-count m t c (omega arith))),
        omega (arith, rest.1),
      )
