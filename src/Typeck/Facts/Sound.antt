-- ===== src/Typeck/Facts/Sound.antt =====
-- Narrowing and settling of facts, against a world.
use deed.Prelude.{
  ℕ, zero, suc, ◌≡◌, sym, Bool, true, false, not, ◌&&◌, List, [], ◌∷◌, if◌then◌else◌, Bool-cases,
  inl, inr, arith,
}
use deed.Prelude.Int.{ℤ, pos, ◌+ℤ◌, ◌-ℤ◌, neg_ℤ, int_laws, +ℤ_comm}
use mathlib.Core.Path.{subst}
use deed.Tables.{Entries, insert, insert-Entries}
use deed.Typeck.Range.{Range, exactly, meet, negate, spread, shift, eq_range}
use deed.Typeck.Range.Member.{In, In-meet}
use deed.Typeck.Range.Arith.{shift-In, spread-In, negate-In}
use deed.Typeck.Facts.{
  Term, Facts, get, total, difference, eq_term, eq_term_iff, term_key, pair_key, tighten,
  tighten_difference, narrow, narrow_difference, narrow_total, settle_entry, chain_entry,
  settle_entries, chain_inner, chain_outer, settle_once, settle_rounds, settle, rounds, note,
}
use deed.Typeck.Facts.World.{
  World, KnownAt, DifferenceAt, TotalAt, Describes, get-In, total-In, difference-In,
}

module _ (w : World) where
  meet-In : (x : ℤ) (a b : Range) → In x a → In x b → In x (meet a b)
  meet-In x a b h k = (In-meet x a b).1 (h, k)

  pub record_known :
      (f : Facts) (t : Term) (r : Range)
      → Describes w f
      → In (w.value t) r
      → Describes w (record f { known = insert t r f.known })
  record_known f t r h k = record {
    known = insert-Entries (KnownAt w) t r f.known k h.known;
    differences = h.differences;
    totals = h.totals;
    subject = h.subject;
  }

  if-Describes :
      (b : Bool) (s t : Facts × Bool)
      → Describes w s.0
      → Describes w t.0
      → Describes w (if b then s else t).0
  if-Describes true s t h k = h
  if-Describes false s t h k = k

  pub tighten-Describes :
      (f : Facts) (t : Term) (r : Range)
      → Describes w f
      → In (w.value t) r
      → Describes w (tighten f t r).0
  unfolding tighten
  tighten-Describes f t r h k =
      if-Describes (eq_range (meet (get f t) r) (get f t)) _ _ h
        (record_known f t _ h (meet-In _ (get f t) r (get-In w f h t) k))

  swap_difference : (x y : ℤ) → neg_ℤ (x -ℤ y) ≡ y -ℤ x
  swap_difference x y = omega int_laws

  record_difference :
      (f : Facts) (a b : Term) (r s : Range)
      → Describes w f
      → In (w.value a -ℤ w.value b) r
      → In (w.value b -ℤ w.value a) s
      → Describes w (record f { differences = insert (b, a) s (insert (a, b) r f.differences) })
  record_difference f a b r s h k l = record {
    known = h.known;
    differences =
        insert-Entries (DifferenceAt w) (b, a) s (insert (a, b) r f.differences) l
          (insert-Entries (DifferenceAt w) (a, b) r f.differences k h.differences);
    totals = h.totals;
    subject = h.subject;
  }

  mirror-In :
      (a b : Term) (r : Range)
      → In (w.value a -ℤ w.value b) r
      → In (w.value b -ℤ w.value a) (negate r)
  mirror-In a b r k =
      rw swap_difference at
        (negate-In (w.value a -ℤ w.value b) r (rw swap_difference (w.difference_fits b a)) k)

  pub tighten_difference-Describes :
      (f : Facts) (a b : Term) (r : Range)
      → Describes w f
      → In (w.value a -ℤ w.value b) r
      → Describes w (tighten_difference f a b r).0
  unfolding tighten_difference
  tighten_difference-Describes f a b r h k =
      let narrowed = meet-In _ (difference f a b) r (difference-In w f h a b) k in
      let mirrored =
        meet-In _ (difference f b a) (negate (meet (difference f a b) r)) (difference-In w f h b a)
          (mirror-In a b _ narrowed) in
      if-Describes (eq_term a b) _ _ h (
        if-Describes
          (eq_range (meet (difference f a b) r) (difference f a b)
            && eq_range (meet (difference f b a) (negate (meet (difference f a b) r)))
                (difference f b a))
          _ _ h (record_difference f a b _ _ h narrowed mirrored))

  -- What a recorded difference says about each name in it.
  left_name-In :
      (a b : Term) (r s : Range)
      → In (w.value b) r
      → In (w.value a -ℤ w.value b) s
      → In (w.value a) (shift r s)
  left_name-In a b r s h k =
      rw restore at
        (shift-In (w.value b) (w.value a -ℤ w.value b) r s (rw restore (w.value_fits a)) h k)
    where
      restore : w.value b +ℤ (w.value a -ℤ w.value b) ≡ w.value a
      restore = omega int_laws

  right_name-In :
      (a b : Term) (r s : Range)
      → In (w.value a) r
      → In (w.value a -ℤ w.value b) s
      → In (w.value b) (shift r (spread (exactly (pos 0)) s))
  right_name-In a b r s h k = left_name-In b a r _ h (rw from_zero at opposite)
    where
      from_zero : pos 0 -ℤ (w.value a -ℤ w.value b) ≡ w.value b -ℤ w.value a
      from_zero = omega int_laws

      opposite : In (pos 0 -ℤ (w.value a -ℤ w.value b)) (spread (exactly (pos 0)) s)
      opposite =
          spread-In (pos 0) (w.value a -ℤ w.value b) (exactly (pos 0)) s
            (rw from_zero (w.difference_fits b a)) (omega arith) k

  pub settle_entry-Describes :
      (s : Facts × Bool) (e : (Term × Term) × Range)
      → Describes w s.0
      → DifferenceAt w e.0 e.1
      → Describes w (settle_entry s e).0
  unfolding settle_entry
  settle_entry-Describes s ((a, b), r) h k =
      let first = tighten-Describes s.0 a _ h (left_name-In a b _ r (get-In w s.0 h b) k) in
      let second = tighten-Describes _ b _ first (right_name-In a b _ r (get-In w _ first a) k) in
      tighten_difference-Describes _ a b _ second (
        spread-In (w.value a) (w.value b) _ _ (w.difference_fits a b) (get-In w _ second a)
          (get-In w _ second b))

  pub chain_entry-Describes :
      (e : (Term × Term) × Range) (s : Facts × Bool) (d : (Term × Term) × Range)
      → Describes w s.0
      → DifferenceAt w e.0 e.1
      → DifferenceAt w d.0 d.1
      → Describes w (chain_entry e s d).0
  unfolding chain_entry
  chain_entry-Describes ((a, b), first) s ((c, d), second) h k l = elim (Bool-cases (eq_term b c)) [
    | inl same ↦ rw same (
        if-Describes (not (eq_term a d)) _ _
          (tighten_difference-Describes s.0 a d _ h (
            chained
              (subst (λ x. In (w.value x -ℤ w.value d) second) (sym ((eq_term_iff b c).0 same)) l)))
          h)
    | inr other ↦ rw other h
  ]
    where
      through : w.value a -ℤ w.value b +ℤ (w.value b -ℤ w.value d) ≡ w.value a -ℤ w.value d
      through = omega int_laws

      chained :
          In (w.value b -ℤ w.value d) second → In (w.value a -ℤ w.value d) (shift first second)
      chained m = rw through at (
          shift-In (w.value a -ℤ w.value b) (w.value b -ℤ w.value d) first second
            (rw through (w.difference_fits a d)) k m)

  settle_entries-Describes :
      (es : List ((Term × Term) × Range)) (s : Facts × Bool)
      → Entries (DifferenceAt w) es
      → Describes w s.0
      → Describes w (settle_entries s es).0
  unfolding settle_entries
  settle_entries-Describes [] s e h = h
  settle_entries-Describes (x ∷ es) s e h =
      settle_entries-Describes es (settle_entry s x) e.1 (settle_entry-Describes s x h e.0)

  chain_inner-Describes :
      (x : (Term × Term) × Range) (es : List ((Term × Term) × Range)) (s : Facts × Bool)
      → DifferenceAt w x.0 x.1
      → Entries (DifferenceAt w) es
      → Describes w s.0
      → Describes w (chain_inner x s es).0
  unfolding chain_inner
  chain_inner-Describes x [] s k e h = h
  chain_inner-Describes x (d ∷ es) s k e h =
      chain_inner-Describes x es (chain_entry x s d) k e.1 (chain_entry-Describes x s d h k e.0)

  chain_outer-Describes :
      (all es : List ((Term × Term) × Range)) (s : Facts × Bool)
      → Entries (DifferenceAt w) all
      → Entries (DifferenceAt w) es
      → Describes w s.0
      → Describes w (chain_outer all s es).0
  unfolding chain_outer
  chain_outer-Describes all [] s a e h = h
  chain_outer-Describes all (x ∷ es) s a e h =
      chain_outer-Describes all es (chain_inner x s all) a e.1
        (chain_inner-Describes x all s e.0 a h)

  pub settle_once-Describes : (f : Facts) → Describes w f → Describes w (settle_once f).0
  unfolding settle_once
  settle_once-Describes f h =
      chain_outer-Describes f.differences f.differences _ h.differences h.differences
        (settle_entries-Describes f.differences (f, false) h.differences h)

  settle_rounds-Describes : (n : ℕ) (f : Facts) → Describes w f → Describes w (settle_rounds n f)
  unfolding settle_rounds
  settle_rounds-Describes zero f h = h
  settle_rounds-Describes (suc n) f h = elim (Bool-cases (settle_once f).1) [
    | inl more ↦ rw more (settle_rounds-Describes n _ (settle_once-Describes f h))
    | inr done ↦ rw done (settle_once-Describes f h)
  ]

  -- Settling keeps facts true: what describes a world before the propagation between names
  -- and differences describes it afterwards.
  pub settle-Describes : (f : Facts) → Describes w f → Describes w (settle f)
  unfolding settle
  settle-Describes f h = settle_rounds-Describes rounds f h

  if_settled : (b : Bool) (f : Facts) → Describes w f → Describes w (if b then settle f else f)
  if_settled true f h = settle-Describes f h
  if_settled false f h = h

  -- A range that a name lies in may be met with what is known about the name.
  pub narrow-Describes :
      (f : Facts) (t : Term) (r : Range)
      → Describes w f
      → In (w.value t) r
      → Describes w (narrow f t r)
  unfolding narrow
  narrow-Describes f t r h k = if_settled (tighten f t r).1 _ (tighten-Describes f t r h k)

  -- Narrowing a difference by a range that it lies in keeps the facts true, together with the
  -- mirrored difference and the settling that follows.
  pub narrow_difference-Describes :
      (f : Facts) (a b : Term) (r : Range)
      → Describes w f
      → In (w.value a -ℤ w.value b) r
      → Describes w (narrow_difference f a b r)
  unfolding narrow_difference
  narrow_difference-Describes f a b r h k =
      if_settled (tighten_difference f a b r).1 _ (tighten_difference-Describes f a b r h k)

  pub narrow_total-Describes :
      (f : Facts) (a b : Term) (r : Range)
      → Describes w f
      → In (w.value a +ℤ w.value b) r
      → Describes w (narrow_total f a b r)
  unfolding narrow_total
  narrow_total-Describes f a b r h k = record {
    known = h.known;
    differences = h.differences;
    totals =
        insert-Entries (TotalAt w) (b, a) _ _ (rw (+ℤ_comm (w.value b) (w.value a)) both)
          (insert-Entries (TotalAt w) (a, b) _ f.totals both h.totals);
    subject = h.subject;
  }
    where
      both : In (w.value a +ℤ w.value b) (meet (total f a b) r)
      both = meet-In _ (total f a b) r (total-In w f h a b) k

  pub note-Describes :
      (f : Facts) (t : Term) (r : Range)
      → Describes w f
      → In (w.value t) r
      → Describes w (note f t r)
  unfolding note
  note-Describes f t r h k =
      settle-Describes _ (record_known f t _ h (meet-In _ (get f t) r (get-In w f h t) k))
