-- ===== src/Typeck/Truth.antt =====
-- `Truth` and `Reason` of crates/deed-typeck/src/facts.rs: what a comparison worked out to.
use deed.Prelude.{◌≡◌, Bool, true, false, not, ◌&&◌, ◌||◌, if◌then◌else◌, arith}

pub data Reason : Type 0 where
  nothing_narrowed_this_name nothing_established_this_length nothing_names_this_value : Reason
  crossed_a_module_boundary not_a_shape_the_checker_reasons_about : Reason
  nothing_tries_to_prove_this the_caller_installs_the_handler : Reason

pub data Truth : Type 0 where
  always never : Truth
  unknown : Reason → Truth

unfoldable pub of : Bool → Truth
of value = if value then always else never

unfoldable pub negate : Truth → Truth
negate always = never
negate never = always
negate (unknown reason) = unknown reason

unfoldable pub and : Truth → Truth → Truth
and never other = never
and always never = never
and (unknown reason) never = never
and always always = always
and (unknown reason) always = unknown reason
and (unknown reason) (unknown _) = unknown reason
and always (unknown reason) = unknown reason

unfoldable pub or : Truth → Truth → Truth
or always other = always
or never always = always
or (unknown reason) always = always
or never never = never
or (unknown reason) never = unknown reason
or (unknown reason) (unknown _) = unknown reason
or never (unknown reason) = unknown reason

-- A verdict that is right about a condition with the value `b`.
abbrev pub Agrees : Truth → Bool → Type 0
Agrees always b = b ≡ true
Agrees never b = b ≡ false
Agrees (unknown _) b = Unit

pub of-Agrees : (b : Bool) → Agrees (of b) b
unfolding of
of-Agrees b = ground arith

pub negate-Agrees : (t : Truth) (b : Bool) → Agrees t b → Agrees (negate t) (not b)
unfolding negate
negate-Agrees t b h = ground arith

pub and-Agrees : (s t : Truth) (a b : Bool) → Agrees s a → Agrees t b → Agrees (and s t) (a && b)
unfolding and
and-Agrees s t a b h k = ground arith

pub or-Agrees : (s t : Truth) (a b : Bool) → Agrees s a → Agrees t b → Agrees (or s t) (a || b)
unfolding or
or-Agrees s t a b h k = ground arith

pub and-Agrees-false : (s t : Truth) → Agrees s false → Agrees (and s t) false
unfolding and
and-Agrees-false s t h = ground arith

pub or-Agrees-true : (s t : Truth) → Agrees s true → Agrees (or s t) true
unfolding or
or-Agrees-true s t h = ground arith
