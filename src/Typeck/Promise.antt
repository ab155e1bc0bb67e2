-- ===== src/Typeck/Promise.antt =====
-- `Scaled`, `Guarantee` and `Promise` of crates/deed-typeck/src/facts.rs: what a call promises about
-- the value it hands back, alone and next to each of its arguments.
use deed.Prelude.{
  ℕ, not, ◌&&◌, Option, none, some, List, [], ◌∷◌, get_elem?, ◌==◌, ==_iff, ltb, if◌then◌else◌,
}
use deed.Prelude.Int.{ℤ, pos}
use deed.Machine.{eqb_ℤ}
use deed.Tables.{Key, sorted_get, sorted_insert}
use deed.Typeck.Range.{Range, any, meet, shift, times}

pub record Scaled : Type 0 where
  pub factor : ℤ
  pub range : Range

pub record Guarantee : Type 0 where
  pub range : Range
  pub offsets : List (ℕ × Scaled)

pub record Promise : Type 0 where
  pub value : Guarantee
  pub ok : Guarantee

instance abbrev pub index_key : Key ℕ
index_key = record { beq = ◌==◌; beq_iff = ==_iff; before = ltb }

unfoldable pub guarantee_of : Range → Guarantee
guarantee_of range = record { range = range; offsets = [] }

abbrev pub any_guarantee : Guarantee
any_guarantee = record { range = any; offsets = [] }

abbrev pub any_promise : Promise
any_promise = record { value = any_guarantee; ok = any_guarantee }

abbrev pub promise_value : Guarantee → Promise
promise_value guarantee = record { value = guarantee; ok = any_guarantee }

abbrev pub promise_ok : Guarantee → Promise
promise_ok guarantee = record { value = any_guarantee; ok = guarantee }

unfoldable pub record_scaled : List (ℕ × Scaled) → ℕ → Scaled → List (ℕ × Scaled)
record_scaled offsets index scaled = elim (sorted_get index offsets) [
  | none ↦ sorted_insert index scaled offsets
  | some existing ↦
      if eqb_ℤ existing.factor scaled.factor
      then sorted_insert index (record scaled { range = meet existing.range scaled.range }) offsets
      else if not (eqb_ℤ existing.factor (pos 1)) && eqb_ℤ scaled.factor (pos 1)
      then sorted_insert index scaled offsets
      else offsets
]

unfoldable pub record_all : List (ℕ × Scaled) → List (ℕ × Scaled) → List (ℕ × Scaled)
unfolding record_scaled
record_all offsets [] = offsets
record_all offsets ((index, scaled) ∷ other) = record_all (record_scaled offsets index scaled) other

unfoldable pub meet_guarantee : Guarantee → Guarantee → Guarantee
unfolding record_all
meet_guarantee g h = record {
  range = meet g.range h.range;
  offsets = record_all g.offsets h.offsets;
}

abbrev pub apply_scaled : Range → Option Range → Scaled → Range
apply_scaled range none scaled = range
apply_scaled range (some arg) scaled = meet range (shift (times arg scaled.factor) scaled.range)

-- The arguments come as the ranges that they were read to have.
unfoldable pub apply_offsets : Range → List (ℕ × Scaled) → List Range → Range
apply_offsets range [] args = range
apply_offsets range ((index, scaled) ∷ offsets) args =
    apply_offsets (apply_scaled range (get_elem? args index) scaled) offsets args

unfoldable pub applied : Guarantee → List Range → Range
unfolding apply_offsets
applied g args = apply_offsets g.range g.offsets args
