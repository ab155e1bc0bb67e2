-- ===== src/Effects/Row/Granting.antt =====
-- What entries and rows grant.
use deed.Prelude.{
  String, ◌≡◌, refl, sym, ap, ◌∙◌, true, ◌||◌, ◌==◌, ==_iff, Option, none, some, List, [], ◌∷◌,
  Bool-cases, inl, inr, arith,
}
use text.Mathlib.TextEquality.{eq_iff}
use deed.Effects.Row.{
  EffectItem, Row, covers, covers_operation, same_operation, same_item, has, insert_item,
  extend_items, extend, any_covers, row_covers,
}

operation_eq : (a b : Option String) → same_operation a b ≡ true → a ≡ b
operation_eq none none h = refl
operation_eq (some a) (some b) h = ap some ((eq_iff a b).0 h)
operation_eq none (some b) h = absurd (ground arith)
operation_eq (some a) none h = absurd (ground arith)

same_item→eq : (a b : EffectItem) → same_item a b ≡ true → a ≡ b
unfolding same_item
same_item→eq a b h =
    let effects : a.effect ≡ b.effect = (==_iff a.effect b.effect).0 (ground arith) in
    let operations : a.operation ≡ b.operation =
      operation_eq a.operation b.operation (ground arith) in
    λ i. record { effect = effects i; operation = operations i }

-- What an entry grants is granted already by a list that has the entry.
has-covers :
    (item x : EffectItem) (items : List EffectItem)
    → has item items ≡ true
    → (covers item x || any_covers items x) ≡ any_covers items x
unfolding has any_covers
has-covers item x [] h = absurd (ground arith)
has-covers item x (other ∷ items) h = elim (Bool-cases (same_item item other)) [
  | inl same ↦ rw (same_item→eq item other same) (ground arith)
  | inr apart ↦ ground (arith, has-covers item x items (ground (arith, apart)))
]

insert_item-covers :
    (item x : EffectItem) (items : List EffectItem)
    → any_covers (insert_item item items) x ≡ (covers item x || any_covers items x)
unfolding insert_item any_covers
insert_item-covers item x items = elim (Bool-cases (has item items)) [
  | inl there ↦ rw (there, insert_item) (sym (has-covers item x items there))
  | inr fresh ↦ rw (fresh, insert_item) refl
]

extend_items-covers :
    (items other : List EffectItem) (x : EffectItem)
    → any_covers (extend_items items other) x ≡ (any_covers items x || any_covers other x)
unfolding extend_items any_covers
extend_items-covers items [] x = ground arith
extend_items-covers items (item ∷ other) x =
    ground
      (arith, extend_items-covers (insert_item item items) other x, insert_item-covers item x items)

-- A row that takes in another one permits exactly what one of the two permits.
pub extend-covers :
    (row other : Row) (item : EffectItem)
    → row_covers (extend row other) item ≡ (row_covers row item || row_covers other item)
unfolding row_covers extend
extend-covers row other item = extend_items-covers row.items other.items item

operation_trans :
    (a b c : Option String)
    → covers_operation a b ≡ true
    → covers_operation b c ≡ true
    → covers_operation a c ≡ true
operation_trans none b c h k = refl
operation_trans (some a) (some b) (some c) h k =
    (eq_iff a c).1 ((eq_iff a b).0 h ∙ (eq_iff b c).0 k)
operation_trans (some a) none c h k = absurd (ground arith)
operation_trans (some a) (some b) none h k = absurd (ground arith)

covers-parts :
    (a b : EffectItem)
    → covers a b ≡ true
    → (a.effect ≡ b.effect) × (covers_operation a.operation b.operation ≡ true)
unfolding covers
covers-parts a b h = elim (Bool-cases (a.effect == b.effect)) [
  | inl same ↦ ((==_iff a.effect b.effect).0 same, rw same at h)
  | inr apart ↦ absurd (ground (arith, apart))
]

-- Granting is transitive: an entry that covers a second one covers whatever the second one
-- covers.
pub covers_trans : (a b c : EffectItem) → covers a b ≡ true → covers b c ≡ true → covers a c ≡ true
unfolding covers
covers_trans a b c h k =
    let (e, o) = covers-parts a b h in
    let (e', o') = covers-parts b c k in
    rw ((==_iff a.effect c.effect).1 (e ∙ e'))
      (operation_trans a.operation b.operation c.operation o o')
