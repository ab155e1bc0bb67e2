-- ===== src/Typeck/Linear.antt =====
-- `Linear` of crates/deed-typeck/src/facts.rs: terms, each counted, and a range for the rest.
pub mod Denotes
pub mod Shapes
use deed.Prelude.{
  ℕ, ◌≡◌, Bool, true, false, not, ◌&&◌, Option, none, some, List, [], ◌∷◌, if◌then◌else◌,
}
use deed.Prelude.Int.{ℤ, pos, negsuc}
use deed.Machine.{saturating_add, checked_mul, checked, eqb_ℤ}
use deed.Tables.{sorted_get, sorted_insert, sorted_remove, unwrap_or}
use deed.Typeck.Range.{Range, empty, bounded, any, exactly, mul}
use deed.Typeck.Range
use deed.Typeck.Facts.{Term, term_key}

abbrev pub Terms : Type 0
Terms = List (Term × ℤ)

pub record Linear : Type 0 where
  pub terms : Terms
  pub offset : Range

unfoldable pub constant : Range → Linear
constant offset = record { terms = []; offset = offset }

unfoldable pub single : Term → Linear
single term = record { terms = (term, pos 1) ∷ []; offset = exactly (pos 0) }

-- The map is read and rebuilt in the order of its keys, so each insertion is at the end.
unfoldable pub scale_terms : Terms → ℤ → Option Terms
scale_terms [] factor = some []
scale_terms ((t, count) ∷ m) factor =
    let rest = scale_terms m factor in
    elim (checked_mul count factor) [
      | none ↦ none
      | some scaled ↦ elim rest [
        | none ↦ none
        | some m' ↦ some (if eqb_ℤ scaled (pos 0) then m' else (t, scaled) ∷ m')
      ]
    ]

unfoldable pub scale : Linear → ℤ → Option Linear
unfolding scale_terms
scale l factor = elim (scale_terms l.terms factor) [
  | none ↦ none
  | some terms ↦ some (record { terms = terms; offset = mul l.offset (exactly factor) })
]

unfoldable pub negate : Linear → Linear
unfolding scale constant
negate l = elim (scale l (negsuc 0)) [ none ↦ constant any | some l' ↦ l' ]

-- The single number of a range that is one.
abbrev pub single_value : Range → Option ℤ
single_value empty = none
single_value (bounded low high) = if eqb_ℤ low high then some low else none

unfoldable pub constant_value : Linear → Option ℤ
constant_value l = elim l.terms [ [] ↦ single_value l.offset | _ ∷ _ ↦ none ]

-- `count` more of one term, which goes when none of it is left.
unfoldable pub count_term : Terms → Term → ℤ → Terms
count_term m t count =
    let total = saturating_add (unwrap_or (sorted_get t m) (pos 0)) count in
    if eqb_ℤ total (pos 0) then sorted_remove t m else sorted_insert t total m

unfoldable pub add_terms : Terms → Terms → Terms
unfolding count_term
add_terms m [] = m
add_terms m ((t, count) ∷ other) = add_terms (count_term m t count) other

unfoldable pub add : Linear → Linear → Linear
unfolding add_terms
add l m = record { terms = add_terms l.terms m.terms; offset = Range.add l.offset m.offset }

abbrev pub is_none : Option Term → Bool
is_none none = true
is_none (some _) = false

-- The walk of `pair`, with what it has found so far.
unfoldable pub pair_from : Option Term → Option Term → Terms → Option (Term × Term)
pair_from (some a) (some b) [] = some (a, b)
pair_from (some a) none [] = none
pair_from none b [] = none
pair_from positive negative ((t, count) ∷ m) =
    let as_positive = pair_from (some t) negative m in
    let as_negative = pair_from positive (some t) m in
    if eqb_ℤ count (pos 1) && is_none positive
    then as_positive
    else if eqb_ℤ count (negsuc 0) && is_none negative
    then as_negative
    else none

unfoldable pub pair : Linear → Option (Term × Term)
unfolding pair_from
pair l = pair_from none none l.terms

unfoldable pub total_of : Terms → Option (Term × Term)
total_of ((a, m) ∷ (b, n) ∷ []) = if eqb_ℤ m (pos 1) && eqb_ℤ n (pos 1) then some (a, b) else none
total_of _ = none

unfoldable pub total : Linear → Option (Term × Term)
unfolding total_of
total l = total_of l.terms

unfoldable pub scaled_name_of : Terms → Option (Term × ℤ)
scaled_name_of ((t, count) ∷ []) = some (t, count)
scaled_name_of _ = none

unfoldable pub scaled_name : Linear → Option (Term × ℤ)
unfolding scaled_name_of
scaled_name l = scaled_name_of l.terms
