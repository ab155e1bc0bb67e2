-- ===== src/Typeck/Soundness/Leaf.antt =====
-- What it is for a reading of an expression to be right about a value, and the readings of what is
-- no arithmetic: literals, names, lengths, calls and the subject of a predicate.
use deed.Prelude.{
  ℕ, suc, ◌≤◌, ◌≡◌, refl, sym, ◌∙◌, true, false, ◌⊎◌, inl, inr, Option, none, some, Option-cases,
  arith,
}
use deed.Prelude.Int.{ℤ}
use mathlib.Core.Path.{subst}
use deed.Ast.{Expr}
use deed.Typeck.Range.{Range}
use deed.Typeck.Range.Member.{In, In-meet}
use deed.Typeck.Facts.{Term, DefId, Facts, Subject, get}
use deed.Typeck.Facts.World.{World, Describes, get-In}
use deed.Typeck.Linear.{single}
use deed.Typeck.Linear.Denotes.{magnitude}
use deed.Typeck.Soundness.Arithmetic.{Denotes, constant-Denotes, single-Denotes}
use deed.Typeck.Env.{Env, is_subject, is_subject_length, subject_term, subject_range}
use deed.Typeck.Reading.{Reading, both, named, subject_first, meet?}

-- The interval holds the value, and so does the form, which counts no more than `n`.
pub record ReadAs (w : World) (n : ℕ) (v : ℤ) (r : Reading) : Type 0 where
  pub interval : In v r.interval
  pub form : Denotes w n v r.form

module _ (w : World) where
  pub both-ReadAs :
      (n : ℕ) (v : ℤ) (range : Range) → In v range → magnitude v ≤ n → ReadAs w n v (both range)
  unfolding both
  both-ReadAs n v range h m = record { interval = h; form = constant-Denotes w n v range h m }

  pub single-ReadAs :
      (n : ℕ) (t : Term) (range : Range)
      → In (w.value t) range
      → 1 ≤ n
      → ReadAs w n (w.value t) (record { interval = range; form = single t })
  single-ReadAs n t range h m = record { interval = h; form = single-Denotes w n t m }

  pub named-ReadAs :
      (f : Facts) (n : ℕ) (v : ℤ) (term : Option Term) (range : Range)
      → In v range
      → ((t : Term) → term ≡ some t → (v ≡ w.value t) × (1 ≤ n))
      → (term ≡ none → magnitude v ≤ n)
      → ReadAs w n v (named f term range)
  unfolding named
  named-ReadAs f n v (some t) range h s m =
      let known = s t refl in rw known.0 (single-ReadAs n t range (rw known.0 at h) known.1)
  named-ReadAs f n v none range h s m = both-ReadAs n v range h (m refl)

-- The subject that a term stands for.
subject_term_cases :
    (f : Facts) (env : Env) (e : Expr) (t : Term)
    → subject_term f env e ≡ some t
    → (s : Subject) × (d : DefId) × (f.subject ≡ some s)
      × (s.name ≡ some d)
      × (((is_subject e ≡ true) × (t ≡ Term.name d))
          ⊎ ((is_subject_length env e ≡ true) × (t ≡ Term.length d)))
subject_term_cases f env e t h = elim (Option-cases f.subject) [
  | inl missing ↦ absurd (unfold subject_term in ground (arith, missing))
  | inr (s, e1) ↦ elim (Option-cases s.name) [
    | inl unnamed ↦ absurd (unfold subject_term in ground (arith, e1, unnamed))
    | inr (d, e2) ↦ (s, d, e1, e2, unfold subject_term in ground (arith, e1, e2))
  ]
]

subject_range_cases :
    (f : Facts) (env : Env) (e : Expr) (r : Range)
    → subject_range f env e ≡ some r
    → (s : Subject) × (f.subject ≡ some s)
      × (((is_subject e ≡ true) × (r ≡ s.range))
          ⊎ ((is_subject_length env e ≡ true) × (r ≡ s.length)))
subject_range_cases f env e r h = elim (Option-cases f.subject) [
  | inl missing ↦ absurd (unfold subject_range in ground (arith, missing))
  | inr (s, e1) ↦ (s, e1, unfold subject_range in ground (arith, e1))
]

no_subject_term :
    (f : Facts) (env : Env) (e : Expr)
    → is_subject e ≡ false
    → is_subject_length env e ≡ false
    → subject_term f env e ≡ none
no_subject_term f env e h k = elim (Option-cases (subject_term f env e)) [
  | inl missing ↦ missing
  | inr (t, found) ↦
      let (s, d, e1, e2, cases) = subject_term_cases f env e t found in ground (arith, cases)
]

no_subject_range :
    (f : Facts) (env : Env) (e : Expr)
    → is_subject e ≡ false
    → is_subject_length env e ≡ false
    → subject_range f env e ≡ none
no_subject_range f env e h k = elim (Option-cases (subject_range f env e)) [
  | inl missing ↦ missing
  | inr (r, found) ↦
      let (s, e1, cases) = subject_range_cases f env e r found in ground (arith, cases)
]

-- What is no subject is read by its shape.
pub subject_first-shape :
    (f : Facts) (env : Env) (e : Expr) (shape : Reading)
    → is_subject e ≡ false
    → is_subject_length env e ≡ false
    → subject_first f env e shape ≡ shape
unfolding subject_first
subject_first-shape f env e shape h k =
    rw (no_subject_term f env e h k, no_subject_range f env e h k, subject_first)

-- The subject is read as the facts describe it, and anything else by its shape.
module _ (w : World) (f : Facts) (h : Describes w f) (env : Env) (e : Expr) (n : ℕ) (v : ℤ) where
  -- What is asked of the value when the expression is the subject of a predicate.
  pub record SubjectIs : Type 0 where
    pub value : is_subject e ≡ true → (v ≡ w.subject_value) × (suc (magnitude v) ≤ n)
    pub length : is_subject_length env e ≡ true → (v ≡ w.subject_length) × (suc (magnitude v) ≤ n)

  range_here : (r : Range) → SubjectIs → subject_range f env e ≡ some r → In v r × (magnitude v ≤ n)
  range_here r s found =
      let (subject, present, cases) = subject_range_cases f env e r found in
      let at = h.subject subject present in
      elim cases [
        | inl (is_it, shape) ↦
            rw shape (rw (s.value is_it).0 at.range, omega (arith, (s.value is_it).1))
        | inr (is_it, shape) ↦
            rw shape (rw (s.length is_it).0 at.length_range, omega (arith, (s.length is_it).1))
      ]

  term_here : (t : Term) → SubjectIs → subject_term f env e ≡ some t → (v ≡ w.value t) × (1 ≤ n)
  term_here t s found =
      let (subject, d, present, has_name, cases) = subject_term_cases f env e t found in
      let at = (h.subject subject present).named d has_name in
      elim cases [
        | inl (is_it, shape) ↦ rw shape ((s.value is_it).0 ∙ at.0, omega (arith, (s.value is_it).1))
        | inr (is_it, shape) ↦
            rw shape ((s.length is_it).0 ∙ at.1, omega (arith, (s.length is_it).1))
      ]

  meet?-In :
      (known : Range) (o : Option Range)
      → In v known
      → ((r : Range) → o ≡ some r → In v r)
      → In v (meet? known o)
  meet?-In known none k s = k
  meet?-In known (some r) k s = (In-meet v known r).1 (k, s r refl)

  pub subject_first-ReadAs :
      (shape : Reading)
      → SubjectIs
      → ReadAs w n v shape
      → ReadAs w n v (subject_first f env e shape)
  unfolding subject_first
  subject_first-ReadAs shape s k = elim (Option-cases (subject_term f env e)) [
    | inr (t, found) ↦
        rw (found, subject_first)
          (subst
            (λ x.
              ReadAs w n x
                (record { interval = meet? (get f t) (subject_range f env e); form = single t }))
            (sym (term_here t s found).0)
            (single-ReadAs w n t _
              (rw (term_here t s found).0 at (
                meet?-In (get f t) (subject_range f env e)
                  (subst (λ x. In x (get f t)) (sym (term_here t s found).0) (get-In w f h t))
                  (λ r p. (range_here r s p).0)))
              (term_here t s found).1))
    | inl no_term ↦
        rw (no_term, subject_first)
          (elim (Option-cases (subject_range f env e)) [
            | inr (r, present) ↦
                rw present
                  (both-ReadAs w n v r (range_here r s present).0 (range_here r s present).1)
            | inl no_range ↦ rw no_range k
          ])
  ]
