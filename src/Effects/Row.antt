-- ===== src/Effects/Row.antt =====
-- `EffectItem` and `Row` of crates/deed-effects/src/row.rs: what a function may do, and which entry
-- of a row permits what. The `BTreeSet` is a list without repetitions; its order is not modelled.
pub mod Granting
mod Examples
use deed.Prelude.{
  String, Bool, true, false, ◌&&◌, ◌||◌, Option, none, some, List, [], ◌∷◌, ◌==◌, if◌then◌else◌,
}
use text.Mathlib.Text.{◌==◌ as str_eq}
use deed.Typeck.Facts.{DefId}

-- `none` means every operation of the effect.
pub record EffectItem : Type 0 where
  pub effect : DefId
  pub operation : Option String

abbrev pub whole : DefId → EffectItem
whole effect = record { effect = effect; operation = none }

abbrev pub operation_of : DefId → String → EffectItem
operation_of effect operation = record { effect = effect; operation = some operation }

abbrev pub covers_operation : Option String → Option String → Bool
covers_operation none _ = true
covers_operation (some mine) (some theirs) = str_eq mine theirs
covers_operation (some _) none = false

-- Whether granting the first also grants the second.
unfoldable pub covers : EffectItem → EffectItem → Bool
covers self other =
    if self.effect == other.effect then covers_operation self.operation other.operation else false

pub record Row : Type 0 where
  pub items : List EffectItem

abbrev pub empty_row : Row
empty_row = record { items = [] }

abbrev pub same_operation : Option String → Option String → Bool
same_operation none none = true
same_operation (some a) (some b) = str_eq a b
same_operation _ _ = false

unfoldable pub same_item : EffectItem → EffectItem → Bool
same_item a b = a.effect == b.effect && same_operation a.operation b.operation

unfoldable pub has : EffectItem → List EffectItem → Bool
unfolding same_item
has item [] = false
has item (other ∷ items) = same_item item other || has item items

unfoldable pub insert_item : EffectItem → List EffectItem → List EffectItem
unfolding has
insert_item item items = if has item items then items else item ∷ items

unfoldable pub insert_row : EffectItem → Row → Row
unfolding insert_item
insert_row item row = record { items = insert_item item row.items }

unfoldable pub extend_items : List EffectItem → List EffectItem → List EffectItem
unfolding insert_item
extend_items items [] = items
extend_items items (item ∷ other) = extend_items (insert_item item items) other

unfoldable pub extend : Row → Row → Row
unfolding extend_items
extend row other = record { items = extend_items row.items other.items }

unfoldable pub any_covers : List EffectItem → EffectItem → Bool
unfolding covers
any_covers [] item = false
any_covers (granted ∷ items) item = covers granted item || any_covers items item

-- Whether some entry in this row permits the item.
unfoldable pub row_covers : Row → EffectItem → Bool
unfolding any_covers
row_covers row item = any_covers row.items item
