-- ===== src/Typeck/Soundness/Guarantees.antt =====
-- Promises met with one another, against a result that keeps both.
use deed.Prelude.{
  ℕ, zero, suc, ◌≡◌, ◌∙◌, sym, ltb, not, ◌&&◌, ◌==◌, ==_iff, none, some, List, [], ◌∷◌,
  Option-cases, Bool-cases, inl, inr, arith,
}
use deed.Prelude.Int.{ℤ, pos, ◌-ℤ◌, ◌*ℤ◌}
use mathlib.Core.Path.{subst}
use deed.Machine.{eqb_ℤ, eqb_ℤ→eq}
use deed.Ast.{Exprs, nil, cons}
use deed.Interp.{Value, Outcome, value, Leaves, eval}
use deed.Tables.{Entries, sorted_get, sorted_insert}
use deed.Typeck.Range.{meet}
use deed.Typeck.Range.Member.{In, In-meet}
use deed.Typeck.Promise.{Scaled, Guarantee, index_key, record_scaled, record_all, meet_guarantee}
use deed.Typeck.Soundness.{KeptAt, Kept}

same_int : (a : Outcome) (x y : ℤ) → a ≡ value (Value.int x) → a ≡ value (Value.int y) → y ≡ x
same_int a x y h k = ground (arith, sym h ∙ k)

-- Two differences from one multiple of an argument are in both ranges.
met-KeptAt :
    (ls : Leaves) (args : Exprs) (v : ℤ) (i : ℕ) (a b : Scaled)
    → a.factor ≡ b.factor
    → KeptAt ls args i a v
    → KeptAt ls args i b v
    → KeptAt ls args i (record b { range = meet a.range b.range }) v
met-KeptAt ls nil v i a b same h k = tt
met-KeptAt ls (cons e es) v zero a b same (x, ex, near) (y, ey, close) = (
  y,
  ey,
  (In-meet (v -ℤ y *ℤ b.factor) a.range b.range).1 (
    subst (λ c. In (v -ℤ y *ℤ c) a.range) same
        (subst (λ z. In (v -ℤ z *ℤ a.factor) a.range) (sym (same_int (eval ls e) x y ex ey)) near),
    close,
  ),
)
met-KeptAt ls (cons e es) v (suc i) a b same h k = met-KeptAt ls es v i a b same h k

module _ (ls : Leaves) (args : Exprs) (v : ℤ) where
  abbrev At : ℕ → Scaled → Type 0
  At i s = KeptAt ls args i s v

  found-At :
      (i : ℕ) (m : List (ℕ × Scaled)) (s : Scaled) → Entries At m → sorted_get i m ≡ some s → At i s
  unfolding sorted_get
  found-At i [] s h e = absurd (ground (arith, e))
  found-At i ((j, t) ∷ m) s h e = elim (Bool-cases (j == i)) [
    | inl here ↦
        let is_s : t ≡ s = same_scaled (rw here at e) in
        subst (λ z. At i z) is_s (subst (λ n. At n t) ((==_iff j i).0 here) h.0)
    | inr apart ↦ elim (Bool-cases (ltb i j)) [
      | inl before ↦ absurd (no_scaled (rw (apart, before) at e))
      | inr after ↦ found-At i m s h.1 (rw (apart, after) at e)
    ]
  ]
    where
      same_scaled : some t ≡ some s → t ≡ s
      same_scaled p = cc

      no_scaled : none ≡ some s → ⊥
      no_scaled p = cc

  insert-At :
      (i : ℕ) (s : Scaled) (m : List (ℕ × Scaled))
      → At i s
      → Entries At m
      → Entries At (sorted_insert i s m)
  unfolding sorted_insert
  insert-At i s [] a h = (a, tt)
  insert-At i s ((j, t) ∷ m) a h = elim (Bool-cases (j == i)) [
    | inl here ↦ rw here (a, h.1)
    | inr apart ↦ elim (Bool-cases (ltb i j)) [
      | inl before ↦ rw (apart, before) (a, h)
      | inr after ↦ rw (apart, after) (h.0, insert-At i s m a h.1)
    ]
  ]

  record_scaled-At :
      (offsets : List (ℕ × Scaled)) (i : ℕ) (s : Scaled)
      → Entries At offsets
      → At i s
      → Entries At (record_scaled offsets i s)
  unfolding record_scaled
  record_scaled-At offsets i s h a = elim (Option-cases (sorted_get i offsets)) [
    | inl missing ↦ rw (missing, record_scaled) (insert-At i s offsets a h)
    | inr (existing, found) ↦ elim (Bool-cases (eqb_ℤ existing.factor s.factor)) [
      | inl same ↦
          rw (found, record_scaled, same)
            (insert-At i _ offsets
              (met-KeptAt ls args v i existing s (eqb_ℤ→eq _ _ same)
                (found-At i offsets existing h found) a)
              h)
      | inr apart ↦
          elim (Bool-cases (not (eqb_ℤ existing.factor (pos 1)) && eqb_ℤ s.factor (pos 1))) [
            | inl plain ↦ rw (found, record_scaled, apart, plain) (insert-At i s offsets a h)
            | inr kept ↦ rw (found, record_scaled, apart, kept) h
          ]
    ]
  ]

  record_all-At :
      (offsets other : List (ℕ × Scaled))
      → Entries At offsets
      → Entries At other
      → Entries At (record_all offsets other)
  unfolding record_all
  record_all-At offsets [] h k = h
  record_all-At offsets ((i, s) ∷ other) h k =
      record_all-At (record_scaled offsets i s) other (record_scaled-At offsets i s h k.0) k.1

  -- A result that keeps two promises keeps the promise that they are met into, with what is
  -- recorded about each argument.
  pub meet_guarantee-Kept :
      (g h : Guarantee) → Kept ls g args v → Kept ls h args v → Kept ls (meet_guarantee g h) args v
  unfolding meet_guarantee
  meet_guarantee-Kept g h p q = record {
    range = (In-meet v g.range h.range).1 (p.range, q.range);
    offsets = record_all-At g.offsets h.offsets p.offsets q.offsets;
  }
