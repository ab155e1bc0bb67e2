-- ===== src/Typeck/Facts/Branches.antt =====
-- Joining the facts of two branches, forgetting a name and giving it a new range.
use deed.Prelude.{
  ◌≡◌, Bool, true, false, not, ◌&&◌, none, List, [], ◌∷◌, Bool-cases, inl, inr, arith,
}
use deed.Prelude.Int.{ℤ, ◌+ℤ◌, ◌-ℤ◌}
use mathlib.Core.Path.{subst}
use deed.Tables.{Key, Entries, insert-Entries, retain}
use deed.Typeck.Range.{Range, is_any, join}
use deed.Typeck.Range.Member.{In, join-In_left, join-In_right}
use deed.Typeck.Facts.{
  Term, DefId, Facts, name, term_key, pair_key, get, difference, total, about, join_entries,
  join_facts, forget, set,
}
use deed.Typeck.Facts.World.{
  World, KnownAt, DifferenceAt, TotalAt, Describes, get-In, difference-In, total-In,
}
use deed.Typeck.Facts.Sound.{settle-Describes}

module _ {K : Type 0} (at : K → ℤ) (other : K → Range) where
  join_left :
      (m : List (K × Range))
      → Entries (λ k r. In (at k) r) m
      → Entries (λ k r. In (at k) r) (join_entries other m)
  unfolding join_entries
  join_left [] h = tt
  join_left ((k, r) ∷ m) h = elim (Bool-cases (is_any (join r (other k)))) [
    | inl gone ↦ rw gone (join_left m h.1)
    | inr kept ↦ rw kept (join-In_left (at k) r (other k) h.0, join_left m h.1)
  ]

  join_right :
      (m : List (K × Range))
      → ((k : K) → In (at k) (other k))
      → Entries (λ k r. In (at k) r) (join_entries other m)
  unfolding join_entries
  join_right [] h = tt
  join_right ((k, r) ∷ m) h = elim (Bool-cases (is_any (join r (other k)))) [
    | inl gone ↦ rw gone (join_right m h)
    | inr kept ↦ rw kept (join-In_right (at k) r (other k) (h k), join_right m h)
  ]

module _ (w : World) (f g : Facts) where
  -- The join of the facts of two branches describes every world that the first branch
  -- describes.
  pub join-Describes_left : Describes w f → Describes w (join_facts f g)
  unfolding join_facts
  join-Describes_left h = record {
    known = join_left w.value (get g) f.known h.known;
    differences =
        join_left (λ p. w.value p.0 -ℤ w.value p.1) (λ p. difference g p.0 p.1) f.differences
          h.differences;
    totals = join_left (λ p. w.value p.0 +ℤ w.value p.1) (λ p. total g p.0 p.1) f.totals h.totals;
    subject = λ s e. absurd (ground (arith, e));
  }

  -- The join of the facts of two branches describes every world that the second branch
  -- describes.
  pub join-Describes_right : Describes w g → Describes w (join_facts f g)
  unfolding join_facts
  join-Describes_right h = record {
    known = join_right w.value (get g) f.known (get-In w g h);
    differences =
        join_right (λ p. w.value p.0 -ℤ w.value p.1) (λ p. difference g p.0 p.1) f.differences
          (λ p. difference-In w g h p.0 p.1);
    totals =
        join_right (λ p. w.value p.0 +ℤ w.value p.1) (λ p. total g p.0 p.1) f.totals
          (λ p. total-In w g h p.0 p.1);
    subject = λ s e. absurd (ground (arith, e));
  }

module _ {K V : Type 0} ⦃key : Key K⦄ (P Q : K → V → Type 0) where
  retain_for :
      (keep : K → Bool) (m : List (K × V))
      → ((k : K) (v : V) → keep k ≡ true → P k v → Q k v)
      → Entries P m
      → Entries Q (retain keep m)
  unfolding retain
  retain_for keep [] step h = tt
  retain_for keep ((k, v) ∷ m) step h = elim (Bool-cases (keep k)) [
    | inl kept ↦ rw kept (step k v kept h.0, retain_for keep m step h.1)
    | inr gone ↦ rw gone (retain_for keep m step h.1)
  ]

not_about : (b : Bool) → not b ≡ true → b ≡ false
not_about b h = ground arith

neither : (a b : Bool) → (not a && not b) ≡ true → (a ≡ false) × (b ≡ false)
neither a b h = ground arith

-- Two worlds that differ in nothing but one name and its length.
module _ (w v : World) (def : DefId)
    (same : (t : Term) → about def t ≡ false → w.value t ≡ v.value t) where
  -- What is left after forgetting a name describes the worlds in which the name alone has changed.
  pub forget-Describes : (f : Facts) → f.subject ≡ none → Describes w f → Describes v (forget f def)
  unfolding forget
  forget-Describes f no_subject h = record {
    known =
        retain_for (KnownAt w) (KnownAt v) _ f.known
          (λ t r kept k. subst (λ x. In x r) (same t (not_about _ kept)) k) h.known;
    differences =
        retain_for (DifferenceAt w) (DifferenceAt v) _ f.differences
          (λ p r kept k. let (a, b) = neither _ _ kept in rw (same p.0 a, same p.1 b) at k)
          h.differences;
    totals =
        retain_for (TotalAt w) (TotalAt v) _ f.totals
          (λ p r kept k. let (a, b) = neither _ _ kept in rw (same p.0 a, same p.1 b) at k)
          h.totals;
    subject = λ s e. absurd (ground (arith, no_subject, e));
  }

  -- Giving a name a new range after an assignment: facts without a subject that describe the
  -- world before describe, after `set`, every world that differs in that name and its length
  -- alone and puts the name in the range.
  pub set-Describes :
      (f : Facts) (range : Range)
      → f.subject ≡ none
      → Describes w f
      → In (v.value (name def)) range
      → Describes v (set f def range)
  unfolding set
  set-Describes f range no_subject h inside =
      let left = forget-Describes f no_subject h in
      settle-Describes v _ (record {
        known = insert-Entries (KnownAt v) (name def) range _ inside left.known;
        differences = left.differences;
        totals = left.totals;
        subject = left.subject;
      })
