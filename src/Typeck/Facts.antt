-- ===== src/Typeck/Facts.antt =====
-- `Term`, `Subject` and `Facts` of crates/deed-typeck/src/facts.rs: ranges for the names in scope
-- and for the differences and totals of pairs of them, with the propagation between these.
pub mod World
pub mod Sound
pub mod Branches
use deed.Prelude.{
  ℕ, zero, suc, ◌≡◌, ◌↔◌, arith, Bool, true, false, not, ◌&&◌, ◌||◌, Option, none, some, List, [],
  ◌∷◌, ◌==◌, ltb, if◌then◌else◌,
}
use deed.Prelude.Int.{ℤ, pos}
use deed.Machine.{i64_max}
use deed.Tables.{Key, lookup, insert, retain, unwrap_or}
use deed.Typeck.Range.{
  Range, any, exactly, between, is_any, eq_range, meet, join, negate, spread, shift,
}

abbrev pub DefId : Type 0
DefId = ℕ

pub data Term : Type 0 where
  name length : DefId → Term

-- The derived order: names first, then lengths, each by definition.
abbrev pub eq_term : Term → Term → Bool
eq_term (name a) (name b) = a == b
eq_term (length a) (length b) = a == b
eq_term _ _ = false

abbrev pub before_term : Term → Term → Bool
before_term (name a) (name b) = ltb a b
before_term (length a) (length b) = ltb a b
before_term (name _) (length _) = true
before_term (length _) (name _) = false

pub eq_term_iff : (a b : Term) → (eq_term a b ≡ true) ↔ (a ≡ b)
eq_term_iff a b = ground arith

pub eq_pair_iff : (p q : Term × Term) → ((eq_term p.0 q.0 && eq_term p.1 q.1) ≡ true) ↔ (p ≡ q)
eq_pair_iff (a, b) (c, d) = ground (arith, eq_term_iff a c, eq_term_iff b d)

instance abbrev pub term_key : Key Term
term_key = record { beq = eq_term; beq_iff = eq_term_iff; before = before_term }

instance abbrev pub pair_key : Key (Term × Term)
pair_key = record {
  beq = λ p q. eq_term p.0 q.0 && eq_term p.1 q.1;
  beq_iff = eq_pair_iff;
  before = λ p q. before_term p.0 q.0 || (eq_term p.0 q.0 && before_term p.1 q.1);
}

pub record Subject : Type 0 where
  pub range : Range
  pub length : Range
  pub name : Option DefId

-- No list or string is shorter than empty.
abbrev pub any_length : Range
any_length = between (pos 0) i64_max

unfoldable pub subject_of : Range → Subject
subject_of range = record { range = range; length = any_length; name = none }

pub record Facts : Type 0 where
  pub known : List (Term × Range)
  pub differences : List ((Term × Term) × Range)
  pub totals : List ((Term × Term) × Range)
  pub subject : Option Subject

abbrev pub new : Facts
new = record { known = []; differences = []; totals = []; subject = none }

abbrev pub default_range : Term → Range
default_range (name _) = any
default_range (length _) = any_length

unfoldable pub get : Facts → Term → Range
get f term = unwrap_or (lookup term f.known) (default_range term)

unfoldable pub total : Facts → Term → Term → Range
total f a b = unwrap_or (lookup (a, b) f.totals) any

unfoldable pub difference : Facts → Term → Term → Range
difference f a b =
    if eq_term a b then exactly (pos 0) else unwrap_or (lookup (a, b) f.differences) any

unfoldable pub narrow_total : Facts → Term → Term → Range → Facts
narrow_total f a b range =
    let narrowed = meet (total f a b) range in
    record f { totals = insert (b, a) narrowed (insert (a, b) narrowed f.totals) }

-- The new facts, and whether anything changed.
unfoldable pub tighten : Facts → Term → Range → Facts × Bool
tighten f term range =
    let current = get f term in
    let narrowed = meet current range in
    if eq_range narrowed current
    then (f, false)
    else (record f { known = insert term narrowed f.known }, true)

unfoldable pub tighten_difference : Facts → Term → Term → Range → Facts × Bool
tighten_difference f a b range =
    if eq_term a b
    then (f, false)
    else let current = difference f a b in
      let narrowed = meet current range in
      let opposite = difference f b a in
      let mirrored = meet opposite (negate narrowed) in
      if eq_range narrowed current && eq_range mirrored opposite then (f, false) else (
        record f { differences = insert (b, a) mirrored (insert (a, b) narrowed f.differences) },
        true,
      )

-- `changed |= step`.
abbrev also : Bool → Facts × Bool → Facts × Bool
also changed r = (r.0, changed || r.1)

-- One recorded difference, against the two names in it.
unfoldable pub settle_entry : Facts × Bool → (Term × Term) × Range → Facts × Bool
settle_entry s ((a, b), r) =
    let s1 = also s.1 (tighten s.0 a (shift (get s.0 b) r)) in
    let s2 = also s1.1 (tighten s1.0 b (shift (get s1.0 a) (spread (exactly (pos 0)) r))) in
    also s2.1 (tighten_difference s2.0 a b (spread (get s2.0 a) (get s2.0 b)))

-- Two recorded differences that share a name.
unfoldable pub chain_entry :
    (Term × Term) × Range → Facts × Bool → (Term × Term) × Range → Facts × Bool
chain_entry ((a, b), first) s ((c, d), second) =
    if eq_term b c && not (eq_term a d)
    then also s.1 (tighten_difference s.0 a d (shift first second))
    else s

unfoldable pub settle_entries : Facts × Bool → List ((Term × Term) × Range) → Facts × Bool
unfolding settle_entry
settle_entries s [] = s
settle_entries s (e ∷ es) = settle_entries (settle_entry s e) es

unfoldable pub chain_inner :
    (Term × Term) × Range → Facts × Bool → List ((Term × Term) × Range) → Facts × Bool
unfolding chain_entry
chain_inner e s [] = s
chain_inner e s (d ∷ ds) = chain_inner e (chain_entry e s d) ds

unfoldable pub chain_outer :
    List ((Term × Term) × Range) → Facts × Bool → List ((Term × Term) × Range) → Facts × Bool
unfolding chain_inner
chain_outer entries s [] = s
chain_outer entries s (e ∷ es) = chain_outer entries (chain_inner e s entries) es

unfoldable pub settle_once : Facts → Facts × Bool
unfolding settle_entries chain_outer
settle_once f =
    let entries = f.differences in chain_outer entries (settle_entries (f, false) entries) entries

abbrev pub rounds : ℕ
rounds = 4

unfoldable pub settle_rounds : ℕ → Facts → Facts
unfolding settle_once
settle_rounds zero f = f
settle_rounds (suc n) f =
    let s = settle_once f in let rest = settle_rounds n s.0 in if s.1 then rest else s.0

unfoldable pub settle : Facts → Facts
unfolding settle_rounds
settle = settle_rounds rounds

abbrev pub about : DefId → Term → Bool
about def (name other) = other == def
about def (length other) = other == def

unfoldable pub forget : Facts → DefId → Facts
forget f def = record f {
  known = retain (λ t. not (about def t)) f.known;
  differences = retain (λ p. not (about def p.0) && not (about def p.1)) f.differences;
  totals = retain (λ p. not (about def p.0) && not (about def p.1)) f.totals;
}

unfoldable pub set : Facts → DefId → Range → Facts
unfolding settle forget
set f def range =
    let f' = forget f def in settle (record f' { known = insert (name def) range f'.known })

unfoldable pub note : Facts → Term → Range → Facts
unfolding settle
note f term range = settle (record f { known = insert term (meet (get f term) range) f.known })

unfoldable pub narrow : Facts → Term → Range → Facts
unfolding settle tighten
narrow f term range = let s = tighten f term range in if s.1 then settle s.0 else s.0

unfoldable pub narrow_difference : Facts → Term → Term → Range → Facts
unfolding settle tighten_difference
narrow_difference f a b range =
    let s = tighten_difference f a b range in if s.1 then settle s.0 else s.0

abbrev pub with_subject : Facts → Subject → Facts
with_subject f subject = record f { subject = some subject }

-- The entries on which both sides agree, for one of the three tables.
unfoldable pub join_entries : {K : Type 0} → (K → Range) → List (K × Range) → List (K × Range)
join_entries other [] = []
join_entries other ((k, r) ∷ m) =
    let combined = join r (other k) in
    let rest = join_entries other m in if is_any combined then rest else (k, combined) ∷ rest

unfoldable pub join_facts : Facts → Facts → Facts
unfolding join_entries
join_facts f g = record {
  known = join_entries (get g) f.known;
  differences = join_entries (λ p. difference g p.0 p.1) f.differences;
  totals = join_entries (λ p. total g p.0 p.1) f.totals;
  subject = none;
}
