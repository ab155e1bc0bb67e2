-- ===== src/Typeck/Facts/World.antt =====
-- What facts say: a world gives every term a value, and facts describe a world when every recorded
-- range holds the value that it is about.
use deed.Prelude.{some, ◌≡◌, arith, Bool-cases, inl, inr}
use deed.Prelude.Int.{ℤ, pos, ◌+ℤ◌, ◌-ℤ◌, ◌≤ℤ◌, int_laws}
use deed.Machine.{Fits}
use mathlib.Core.Path.{subst}
use deed.Tables.{Entries, unwrap-Entries}
use deed.Typeck.Range.{Range, any, exactly}
use deed.Typeck.Range.Member.{In, any-In, between-In}
use deed.Typeck.Facts.{
  Term, name, length, DefId, Facts, Subject, get, total, difference, eq_term, eq_term_iff, term_key,
  pair_key, default_range,
}

-- A value for every name and every length, near enough together that the difference and the total
-- of two of them are integers that an `i64` holds.
pub record World : Type 0 where
  pub value : Term → ℤ
  pub value_fits : (t : Term) → Fits (value t)
  pub length_nonneg : (d : DefId) → pos 0 ≤ℤ value (length d)
  pub difference_fits : (a b : Term) → Fits (value a -ℤ value b)
  pub total_fits : (a b : Term) → Fits (value a +ℤ value b)
  -- What a refinement predicate calls `value`, and how long that is.
  pub subject_value : ℤ
  pub subject_length : ℤ

module _ (w : World) where
  abbrev pub KnownAt : Term → Range → Type 0
  KnownAt t r = In (w.value t) r

  abbrev pub DifferenceAt : Term × Term → Range → Type 0
  DifferenceAt p r = In (w.value p.0 -ℤ w.value p.1) r

  abbrev pub TotalAt : Term × Term → Range → Type 0
  TotalAt p r = In (w.value p.0 +ℤ w.value p.1) r

  pub record SubjectAt (s : Subject) : Type 0 where
    pub range : In w.subject_value s.range
    pub length_range : In w.subject_length s.length
    pub named :
        (d : DefId)
        → s.name ≡ some d
        → (w.subject_value ≡ w.value (name d)) × (w.subject_length ≡ w.value (length d))

  pub record Describes (f : Facts) : Type 0 where
    pub known : Entries KnownAt f.known
    pub differences : Entries DifferenceAt f.differences
    pub totals : Entries TotalAt f.totals
    pub subject : (s : Subject) → f.subject ≡ some s → SubjectAt s

  pub default-In : (t : Term) → In (w.value t) (default_range t)
  default-In (name d) = any-In _ (w.value_fits (name d))
  default-In (length d) = between-In _ _ _ (w.length_nonneg d) (w.value_fits (length d)).high

  pub get-In : (f : Facts) → Describes f → (t : Term) → In (w.value t) (get f t)
  unfolding get
  get-In f h t = unwrap-Entries KnownAt t f.known (default_range t) h.known (default-In t)

  pub total-In :
      (f : Facts) → Describes f → (a b : Term) → In (w.value a +ℤ w.value b) (total f a b)
  unfolding total
  total-In f h a b =
      unwrap-Entries TotalAt (a, b) f.totals any h.totals (any-In _ (w.total_fits a b))

  self_difference : (x : ℤ) → x -ℤ x ≡ pos 0
  self_difference x = omega int_laws

  pub difference-In :
      (f : Facts) → Describes f → (a b : Term) → In (w.value a -ℤ w.value b) (difference f a b)
  unfolding difference
  difference-In f h a b = elim (Bool-cases (eq_term a b)) [
    | inl same ↦ rw same (
        subst (λ x. In (w.value a -ℤ w.value x) (exactly (pos 0))) ((eq_term_iff a b).0 same)
          (rw self_difference (omega arith)))
    | inr other ↦ rw other (
        unwrap-Entries DifferenceAt (a, b) f.differences any h.differences
          (any-In _ (w.difference_fits a b)))
  ]
