-- ===== src/Typeck/Range/Member.antt =====
-- The integers that a range holds, and `meet` and `join` as operations on sets of them.
use deed.Prelude.{some, ◌≡◌, refl, ◌↔◌, true, arith}
use deed.Prelude.Int.{ℤ, ◌≤ℤ◌}
use deed.Machine.{Fits, min_ℤ, max_ℤ}
use deed.Typeck.Range.{Range, empty, bounded, any, between, meet, join, eq_range}

-- The integers in a range.
abbrev pub In : ℤ → Range → Type 0
In x empty = ⊥
In x (bounded low high) = (low ≤ℤ x) × (x ≤ℤ high)

-- The ends are integers that an `i64` holds, in order.
abbrev pub IsValid : Range → Type 0
IsValid empty = Unit
IsValid (bounded low high) = Fits low × Fits high × (low ≤ℤ high)

pub between-In : (x low high : ℤ) → low ≤ℤ x → x ≤ℤ high → In x (between low high)
unfolding between
between-In x low high h k = ground arith

pub any-In : (x : ℤ) → Fits x → In x any
any-In x h = (h.low, h.high)

-- The meet of two ranges is their intersection: it holds exactly the integers that both hold.
pub In-meet : (x : ℤ) (a b : Range) → In x (meet a b) ↔ (In x a × In x b)
unfolding meet min_ℤ max_ℤ
In-meet x empty empty = ground arith
In-meet x empty (bounded c d) = ground arith
In-meet x (bounded a b) empty = ground arith
In-meet x (bounded a b) (bounded c d) = ground arith

pub join-In_left : (x : ℤ) (a b : Range) → In x a → In x (join a b)
unfolding join min_ℤ max_ℤ
join-In_left x (bounded a b) (bounded c d) h = ground arith
join-In_left x (bounded a b) empty h = h
join-In_left x empty _ h = absurd h

pub join-In_right : (x : ℤ) (a b : Range) → In x b → In x (join a b)
unfolding join min_ℤ max_ℤ
join-In_right x (bounded a b) (bounded c d) h = ground arith
join-In_right x (bounded a b) empty h = absurd h
join-In_right x empty _ h = h

join-In_within :
    (a b c : Range)
    → IsValid a
    → IsValid b
    → ((x : ℤ) → In x a → In x c)
    → ((x : ℤ) → In x b → In x c)
    → (x : ℤ) → In x (join a b)
    → In x c
unfolding join min_ℤ max_ℤ between
join-In_within empty b c va vb left right x h = right x h
join-In_within (bounded l h) empty c va vb left right x i = left x i
join-In_within (bounded l h) (bounded m k) empty va vb left right x i =
    absurd (left l (omega arith, va.2))
join-In_within (bounded l h) (bounded m k) (bounded low high) va vb left right x i = ground (
  arith,
  left l (omega arith, va.2),
  left h (va.2, omega arith),
  right m (omega arith, vb.2),
  right k (vb.2, omega arith),
)

-- The join of two valid ranges is the least range around both: a range holds what the join
-- holds when it holds what each of the two holds, and only then.
pub join_least :
    (a b c : Range)
    → IsValid a
    → IsValid b
    → ((x : ℤ) → In x (join a b) → In x c)
      ↔ (((x : ℤ) → In x a → In x c) × ((x : ℤ) → In x b → In x c))
join_least a b c va vb = (
  λ around. (λ x h. around x (join-In_left x a b h), λ x h. around x (join-In_right x a b h)),
  λ both x h. join-In_within a b c va vb both.0 both.1 x h,
)

pub eq_range→eq : (a b : Range) → eq_range a b ≡ true → a ≡ b
unfolding eq_range
eq_range→eq empty empty h = refl
eq_range→eq (bounded a b) (bounded c d) h = ground arith
eq_range→eq a b h = ground arith

pub same_range : {a b : Range} → some a ≡ some b → a ≡ b
same_range h = cc
