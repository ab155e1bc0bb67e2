-- ===== src/Typeck/Soundness/Examples/Promises.antt =====
-- Promises of calls in the world where every name is 3, and forms in it.
use deed.Prelude.{◌+◌, ◌<◌, ◌≤◌, ◌^◌, ◌≡◌, [], ◌∷◌, arith}
use deed.Prelude.Int.{ℤ, pos, negsuc, neg_ℤ, ◌+ℤ◌, ◌*ℤ◌, ◌-ℤ◌}
use deed.Machine.{Fits}
use deed.Ast.{Exprs, nil, cons}
use deed.Interp.{Value, value, eval}
use deed.Typeck.Range.{bounded, any, exactly}
use deed.Typeck.Range.Member.{In}
use deed.Typeck.Facts.{name}
use deed.Typeck.Promise.{Guarantee, applied, meet_guarantee}
use deed.Typeck.Soundness.{Kept}
use deed.Typeck.Soundness.Guarantees.{meet_guarantee-Kept}
use deed.Typeck.Soundness.Call.{applied-In}
use deed.Typeck.Soundness.Examples.{named, leaves, threes, three-value}
use deed.Typeck.Linear.{Terms, add_terms}
use deed.Typeck.Linear.Denotes.{sum, weight, add_terms_exact}

-- A promise of 2 times the argument and one of at least 5, of a call of `a` that hands back 6.
abbrev pub doubled : Guarantee
doubled = record {
  range = any;
  offsets = (0, record { factor = pos 2; range = exactly (pos 0) }) ∷ [];
}

abbrev at_least_five : Guarantee
at_least_five = record { range = bounded (pos 5) (pos 9); offsets = [] }

abbrev one_argument : Exprs
one_argument = cons (named "a") nil

doubled-Kept : Kept leaves doubled one_argument (pos 6)
unfolding ◌*ℤ◌ ◌-ℤ◌ ◌+ℤ◌ neg_ℤ
doubled-Kept = record {
  range = (omega arith, omega arith);
  offsets = ((pos 3, three-value, (omega arith, omega arith)), tt);
}

at_least_five-Kept : Kept leaves at_least_five one_argument (pos 6)
at_least_five-Kept = record { range = (omega arith, omega arith); offsets = tt }

meet_guarantee-Kept_example :
    Kept leaves (meet_guarantee doubled at_least_five) one_argument (pos 6)
meet_guarantee-Kept_example =
    meet_guarantee-Kept leaves one_argument (pos 6) doubled at_least_five doubled-Kept
      at_least_five-Kept

pub six-Fits : Fits (pos 6)
six-Fits = record { low = omega arith; high = omega arith }

argument_within :
    (x : ℤ) → eval leaves (named "a") ≡ value (Value.int x) → In x (bounded (pos 1) (pos 3))
unfolding eval
argument_within x e = ground (arith, e)

doubled-Fits : (x : ℤ) → eval leaves (named "a") ≡ value (Value.int x) → Fits (x *ℤ pos 2)
unfolding eval ◌*ℤ◌
doubled-Fits x e =
    let three : x ≡ pos 3 = ground (arith, e) in
    rw three (record { low = omega arith; high = omega arith })

applied-In_example : In (pos 6) (applied doubled (bounded (pos 1) (pos 3) ∷ []))
applied-In_example =
    applied-In leaves (pos 6) six-Fits doubled one_argument (bounded (pos 1) (pos 3) ∷ [])
      (argument_within, tt) doubled-Kept (doubled-Fits, tt)

abbrev two_of_a : Terms
two_of_a = (name 1, pos 2) ∷ []

abbrev b_without_two_of_a : Terms
b_without_two_of_a = (name 1, negsuc 1) ∷ (name 2, pos 1) ∷ []

few : weight two_of_a + weight b_without_two_of_a < 2 ^ 63
unfolding weight
few = omega arith

add_terms_exact_example :
    (sum threes (add_terms two_of_a b_without_two_of_a)
      ≡ sum threes two_of_a +ℤ sum threes b_without_two_of_a)
    × (weight (add_terms two_of_a b_without_two_of_a) ≤ weight two_of_a + weight b_without_two_of_a)
add_terms_exact_example = add_terms_exact threes two_of_a b_without_two_of_a few
