-- ===== src/Machine/Order.antt =====
-- What the saturating and the checked operations promise about order.
use deed.Prelude.{◌≡◌, arith}
use deed.Prelude.Int.{ℤ, pos, negsuc, ◌*ℤ◌, ◌≤ℤ◌, *ℤ_comm, *ℤ_mono, *ℤ_anti}
use deed.Machine.{Fits, i64_min, i64_max, clamp, min_ℤ, max_ℤ}

pub clamp-eq_of_Fits : (a : ℤ) → Fits a → clamp a ≡ a
unfolding clamp
clamp-eq_of_Fits a h = ground arith

-- Below a value that an `i64` holds, clamping keeps a bound below it, and the mirror of that.
pub clamp-le : (a x : ℤ) → i64_min ≤ℤ x → a ≤ℤ x → clamp a ≤ℤ x
unfolding clamp
clamp-le a x f h = ground arith

pub le-clamp : (a x : ℤ) → x ≤ℤ i64_max → x ≤ℤ a → x ≤ℤ clamp a
unfolding clamp
le-clamp a x f h = ground arith

pub min-le_left : (a b : ℤ) → min_ℤ a b ≤ℤ a
unfolding min_ℤ
min-le_left a b = ground arith

pub min-le_right : (a b : ℤ) → min_ℤ a b ≤ℤ b
unfolding min_ℤ
min-le_right a b = ground arith

pub le-max_left : (a b : ℤ) → a ≤ℤ max_ℤ a b
unfolding max_ℤ
le-max_left a b = ground arith

pub le-max_right : (a b : ℤ) → b ≤ℤ max_ℤ a b
unfolding max_ℤ
le-max_right a b = ground arith

-- A product lies between the products of the ends, whichever sign the other factor has.
pub product_between :
    (a b x y : ℤ)
    → a ≤ℤ x
    → x ≤ℤ b
    → (min_ℤ (a *ℤ y) (b *ℤ y) ≤ℤ x *ℤ y) × (x *ℤ y ≤ℤ max_ℤ (a *ℤ y) (b *ℤ y))
product_between a b x (pos n) h k = omega (
  arith,
  *ℤ_mono a x n h,
  *ℤ_mono x b n k,
  min-le_left (a *ℤ pos n) (b *ℤ pos n),
  le-max_right (a *ℤ pos n) (b *ℤ pos n),
)
product_between a b x (negsuc n) h k = omega (
  arith,
  *ℤ_anti a x n h,
  *ℤ_anti x b n k,
  min-le_right (a *ℤ negsuc n) (b *ℤ negsuc n),
  le-max_left (a *ℤ negsuc n) (b *ℤ negsuc n),
)

product_between_right :
    (a c d y : ℤ)
    → c ≤ℤ y
    → y ≤ℤ d
    → (min_ℤ (a *ℤ c) (a *ℤ d) ≤ℤ a *ℤ y) × (a *ℤ y ≤ℤ max_ℤ (a *ℤ c) (a *ℤ d))
product_between_right a c d y h k =
    rw (*ℤ_comm a c, *ℤ_comm a d, *ℤ_comm a y) (product_between c d y a h k)

min-mono : (a b c d : ℤ) → a ≤ℤ c → b ≤ℤ d → min_ℤ a b ≤ℤ min_ℤ c d
unfolding min_ℤ
min-mono a b c d h k = ground arith

max-mono : (a b c d : ℤ) → a ≤ℤ c → b ≤ℤ d → max_ℤ a b ≤ℤ max_ℤ c d
unfolding max_ℤ
max-mono a b c d h k = ground arith

pub ≤ℤ_trans : (a b c : ℤ) → a ≤ℤ b → b ≤ℤ c → a ≤ℤ c
≤ℤ_trans a b c h k = omega arith

-- The four corners of a product lie round it.
pub product_corners :
    (a b c d x y : ℤ)
    → a ≤ℤ x
    → x ≤ℤ b
    → c ≤ℤ y
    → y ≤ℤ d
    → (min_ℤ (min_ℤ (a *ℤ c) (a *ℤ d)) (min_ℤ (b *ℤ c) (b *ℤ d)) ≤ℤ x *ℤ y)
      × (x *ℤ y ≤ℤ max_ℤ (max_ℤ (a *ℤ c) (a *ℤ d)) (max_ℤ (b *ℤ c) (b *ℤ d)))
product_corners a b c d x y h k h' k' =
    let outer = product_between a b x y h k in
    let left = product_between_right a c d y h' k' in
    let right = product_between_right b c d y h' k' in
    (
      ≤ℤ_trans _ (min_ℤ (a *ℤ y) (b *ℤ y)) _ (min-mono _ _ (a *ℤ y) (b *ℤ y) left.0 right.0)
          outer.0,
      ≤ℤ_trans _ (max_ℤ (a *ℤ y) (b *ℤ y)) _ outer.1
          (max-mono (a *ℤ y) (b *ℤ y) _ _ left.1 right.1),
    )

pub min-clamp : (a b : ℤ) → min_ℤ (clamp a) (clamp b) ≡ clamp (min_ℤ a b)
unfolding min_ℤ clamp
min-clamp a b = ground arith

pub max-clamp : (a b : ℤ) → max_ℤ (clamp a) (clamp b) ≡ clamp (max_ℤ a b)
unfolding max_ℤ clamp
max-clamp a b = ground arith
