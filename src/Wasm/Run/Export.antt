-- ===== src/Wasm/Run/Export.antt =====
-- crates/deed-codegen/src/run.rs: calling an export of a validated module, from the memory that its
-- data section fills to what the caller is told. The gas is twice the budget and one more.
use deed.Prelude.{
  ℕ, suc, ◌+◌, ◌-◌, ◌*◌, leb, String, Option, none, some, List, [], ◌∷◌, length, ◌⊎◌, inl, inr,
  if◌then◌else◌,
}
use text.Mathlib.Text.{◌==◌ as str_eq}
use deed.Wasm.{Module, Import}
use deed.Wasm.Checker.{Verdict, ok, invalid}
use deed.Wasm.Validate.{validate}
use deed.Wasm.Memory.{Value, Memory, page, copy_from, word_at}
use deed.Wasm.Run.{Trap, unreachable, no_export, Result, done, trapped, panicked, ◌>>=◌}
use deed.Wasm.Run.Machine.{Host, implementation_for, why, or_unreachable, Answer, enter, run}

-- A segment that does not fit is left out.
unfoldable pub place : List (ℕ × List ℕ) → Memory → Memory
unfolding copy_from
place [] memory = memory
place ((at, bytes) ∷ segments) memory =
    place segments
      (if leb (at + length bytes) memory.size then copy_from at bytes memory else memory)

abbrev pub pages_of : Option ℕ → ℕ
pages_of none = 0
pages_of (some pages) = pages

unfoldable pub memory_of : Module → Memory
unfolding place
memory_of m = place m.segments (record { size = pages_of m.memory_pages * page; bytes = λ _. 0 })

-- Where the bump pointer sits, or zero when no memory is declared.
unfoldable pub bump : Memory → ℕ
unfolding word_at
bump memory = elim (word_at 0 memory) [ none ↦ 0 | some word ↦ word ]

pub record Outcome : Type 0 where
  pub value : Option Value
  pub allocated : ℕ
  pub steps : ℕ

unfoldable pub find_export : String → List (String × ℕ) → Option ℕ
find_export name [] = none
find_export name ((exported, index) ∷ exports) =
    if str_eq exported name then some index else find_export name exports

abbrev pub exported_index : String → Memory → Option ℕ → Result ℕ
exported_index name memory none = trapped (no_export name) memory
exported_index name memory (some index) = done index

abbrev pub checked_export : Module → String → Verdict (Unit {0}) → Result ℕ
checked_export m name (ok _) = exported_index name (memory_of m) (find_export name m.exports)
checked_export m name (invalid reason) = trapped (Trap.invalid reason) (memory_of m)
checked_export m name Verdict.panicked = panicked

unfoldable pub validated_export : Module → String → Result ℕ
unfolding find_export memory_of
validated_export m name = checked_export m name (validate m)

-- A trap that left something behind in the memory says what it was.
unfoldable pub explain {ℓ} : {A : Type ℓ} → Result A → Result A
unfolding why
explain (trapped unreachable memory) = trapped (or_unreachable (why none memory)) memory
explain r = r

abbrev pub enough : ℕ → ℕ
enough budget = suc (2 * budget)

-- A call with a budget, at the gas that is enough for it.
unfoldable pub start : Module → Option Host → ℕ → List Value → ℕ → Memory → Result Answer
unfolding enter
start m host index args budget memory =
    enter m host (run m host (enough budget)) index args (record { fuel = budget; memory = memory })

abbrev pub outcome_of : ℕ → ℕ → Answer → Result (Outcome × Memory)
outcome_of budget before (value, left) = done (
  record { value = value; allocated = bump left.memory - before; steps = budget - left.fuel },
  left.memory,
)

unfoldable pub run_export : Module → ℕ → List Value → ℕ → Memory → Result (Outcome × Memory)
unfolding explain start bump
run_export m index args budget memory =
    explain (start m none index args budget memory) >>= outcome_of budget (bump memory)

unfoldable pub call_within : Module → String → List Value → ℕ → Result (Outcome × Memory)
unfolding validated_export run_export memory_of
call_within m name args budget = do
  index ← validated_export m name
  run_export m index args budget (memory_of m)

-- The first import that the host does not offer.
unfoldable pub unlinked : Host → List Import → Option Import
unfolding implementation_for
unlinked host [] = none
unlinked host (i ∷ imports) = elim (implementation_for i.namespace i.name host) [
  | none ↦ some i
  | some func ↦ unlinked host imports
]

pub record Linked : Type 0 where
  pub host : Host
  pub program : Module

unfoldable pub link : Host → Module → Linked ⊎ Import
unfolding unlinked
link host m = elim (unlinked host m.imports) [
  | none ↦ inl (record { host = host; program = m })
  | some i ↦ inr i
]

unfoldable pub linked_call_within : Linked → String → List Value → ℕ → Result Answer
unfolding validated_export explain start memory_of
linked_call_within linked name args budget = do
  index ← validated_export linked.program name
  explain (start linked.program (some linked.host) index args budget (memory_of linked.program))
