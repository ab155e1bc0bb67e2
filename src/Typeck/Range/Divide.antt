-- ===== src/Typeck/Range/Divide.antt =====
-- Dividing a bound by how often a name is counted, against the integers in the bound.
use deed.Prelude.{ℕ, zero, suc, ◌≡◌, refl, sym, ◌∙◌, ◌↔◌, ◌⊎◌, inl, inr, Option, none, some, arith}
use deed.Prelude.Int.{ℤ, pos, negsuc, neg_ℤ, ◌*ℤ◌, ◌-ℤ◌, ◌≤ℤ◌}
use deed.Machine.Order.{≤ℤ_trans}
use deed.Machine.{Fits, i64_min, i64_max, checked}
use deed.Machine.Division.{checked_div, quot, rem}
use deed.Typeck.Range.{Range, empty, bounded, between, between?, round_down, round_up, divided}
use deed.Typeck.Range.Member.{In}
use deed.Typeck.Range.Floor.{
  floor, ceiling, le-floor_pos, le-floor_neg, ceiling-le_pos, ceiling-le_neg, floor-mul_pos,
  floor-mul_neg, ceiling-mul_pos, ceiling-mul_neg,
}

-- Rounding down stops at the largest `i64` where the floor is the next integer.
round_down-cases :
    (v by r : ℤ)
    → round_down v by ≡ some r
    → ((r ≡ i64_max) × (v ≡ i64_min) × (by ≡ negsuc 0)) ⊎ (r ≡ floor v by)
unfolding round_down checked_div checked floor
round_down-cases v by r h = ground arith

edge-floor : i64_max ≤ℤ floor i64_min (negsuc 0)
unfolding floor quot rem neg_ℤ ◌-ℤ◌
edge-floor = omega arith

round_down-floor : (v by d r : ℤ) → Fits d → round_down v by ≡ some r → (d ≤ℤ r) ↔ (d ≤ℤ floor v by)
round_down-floor v by d r f h = elim (round_down-cases v by r h) [
  | inl (stopped, least, minus_one) ↦
      rw (stopped, least, minus_one)
        (λ _. ≤ℤ_trans d i64_max (floor i64_min (negsuc 0)) f.high edge-floor, λ _. f.high)
  | inr exact ↦ rw exact (λ le. le, λ le. le)
]

round_up-ceiling : (v by r : ℤ) → round_up v by ≡ some r → r ≡ ceiling v by
unfolding round_up checked_div checked ceiling
round_up-ceiling v by r h = ground arith

module _ (v : ℤ) (b : ℕ) (d r : ℤ) where
  round_down_pos : Fits d → round_down v (pos (suc b)) ≡ some r → (d ≤ℤ r) ↔ (d *ℤ pos (suc b) ≤ℤ v)
  round_down_pos f e =
      let at = round_down-floor v (pos (suc b)) d r f e in
      (λ le. floor-mul_pos v b d (at.0 le), λ le. at.1 (le-floor_pos v b d le))

  round_down_neg : Fits d → round_down v (negsuc b) ≡ some r → (d ≤ℤ r) ↔ (v ≤ℤ d *ℤ negsuc b)
  round_down_neg f e =
      let at = round_down-floor v (negsuc b) d r f e in
      (λ le. floor-mul_neg v b d (at.0 le), λ le. at.1 (le-floor_neg v b d le))

  round_up_pos : round_up v (pos (suc b)) ≡ some r → (r ≤ℤ d) ↔ (v ≤ℤ d *ℤ pos (suc b))
  round_up_pos e =
      rw (round_up-ceiling v (pos (suc b)) r e) (ceiling-mul_pos v b d, ceiling-le_pos v b d)

  round_up_neg : round_up v (negsuc b) ≡ some r → (r ≤ℤ d) ↔ (d *ℤ negsuc b ≤ℤ v)
  round_up_neg e =
      rw (round_up-ceiling v (negsuc b) r e) (ceiling-mul_neg v b d, ceiling-le_neg v b d)

between?-eq_some :
    (a b : Option ℤ) {r : Range}
    → between? a b ≡ some r
    → (low : ℤ) × (high : ℤ) × (a ≡ some low) × (b ≡ some high) × (r ≡ between low high)
between?-eq_some (some a) (some b) h = (a, b, refl, refl, ground arith)
between?-eq_some (some a) none h = cc
between?-eq_some none b h = cc

divided-pos :
    (low high : ℤ) (b : ℕ)
    → divided (bounded low high) (pos (suc b))
      ≡ between? (round_up low (pos (suc b))) (round_down high (pos (suc b)))
unfolding divided
divided-pos low high b = ground arith

divided-negsuc :
    (low high : ℤ) (b : ℕ)
    → divided (bounded low high) (negsuc b)
      ≡ between? (round_up high (negsuc b)) (round_down low (negsuc b))
unfolding divided
divided-negsuc low high b = ground arith

In-rounded :
    {P Q : Type 0} (d up down : ℤ) {r : Range}
    → r ≡ between up down
    → (up ≤ℤ d) ↔ P
    → (d ≤ℤ down) ↔ Q
    → In d r ↔ (P × Q)
unfolding between
In-rounded d up down shape p q = rw shape (ground (arith, p, q))

-- Dividing a bound by a count is exact: where there is a divided bound, an `i64` lies in it
-- when its multiple by the count lies in the bound, and only then.
pub In-divided :
    (d count : ℤ) (bound r : Range)
    → Fits d
    → divided bound count ≡ some r
    → In d r ↔ In (d *ℤ count) bound
unfolding divided
In-divided d count empty r f e = rw (no_bound count e) (λ h. h, λ h. h)
  where
    no_bound : (count : ℤ) → divided empty count ≡ some r → r ≡ empty
    no_bound count e = ground arith
In-divided d (pos zero) (bounded low high) r f e = cc
In-divided d (pos (suc b)) (bounded low high) r f e =
    let (up, down, is_up, is_down, shape) =
      between?-eq_some (round_up low (pos (suc b))) (round_down high (pos (suc b)))
        (sym (divided-pos low high b) ∙ e) in
    In-rounded d up down shape (round_up_pos low b d up is_up)
      (round_down_pos high b d down f is_down)
In-divided d (negsuc b) (bounded low high) r f e =
    let (up, down, is_up, is_down, shape) =
      between?-eq_some (round_up high (negsuc b)) (round_down low (negsuc b))
        (sym (divided-negsuc low high b) ∙ e) in
    let inside =
      In-rounded d up down shape (round_up_neg high b d up is_up)
        (round_down_neg low b d down f is_down) in
    (λ h. ((inside.0 h).1, (inside.0 h).0), λ h. inside.1 (h.1, h.0))
