-- ===== src/Lib.antt =====
-- A model of the reasoning of the Deed checker about integers, and of the evaluation that it is to be
-- right about.
--
-- Deed is a language whose functions carry contracts and whose types carry refinement predicates. The
-- checker (crates/deed-typeck) tries to prove a predicate before the program runs; what it cannot
-- prove is checked at run time by the interpreter (crates/deed-interp) or by compiled code. A wrong
-- proof would drop a check, so the prover, crates/deed-typeck/src/facts.rs, is the part modelled here,
-- with the part of the interpreter that gives its answers their meaning, and with the effect rows
-- (crates/deed-effects/src/row.rs) that say what a function may do.
--
-- The files, by the code that they model:
-- Machine: the saturating and checked operations of `i64`, over integers, with Fits for those that an
--   `i64` holds. Tables: HashMap and BTreeMap as association lists.
-- Ast: Expr, BinaryOp, UnaryOp and int_limit of crates/deed-ast/src/lib.rs. What facts.rs does not tell
--   apart is the constructor `other`.
-- Interp: eval_inner and binary of crates/deed-interp/src/interp.rs on literals, operators with their
--   built-in meaning and the limits of Int. What names, calls, fields, lists and `?` evaluate to is
--   the parameter Leaves, since it depends on frames, handlers and effects.
-- Typeck.Range: Range, its arithmetic, and round_down, round_up and divided.
-- Typeck.Truth: Truth and Reason. Typeck.Facts: Term, Subject and Facts. Typeck.Linear: Linear.
-- Typeck.Promise: Scaled, Guarantee and Promise. Typeck.Env: Env and what an expression names.
-- Typeck.Reading: range_of, interval_of, linear, related and ok_range_of. They call one another on the
--   same expression, so here one recursion, `read`, returns the interval and the form together.
-- Typeck.Prover: holds, compare, difference_of. Typeck.Narrow: narrowed and what it calls.
-- Typeck.Contract: promised_by, admitted_by, range_of_subject and overflowing.
-- Effects.Row: EffectItem and Row.
-- Below these stand the proofs, in modules named for what they prove: Range.Member, Range.Arith and
--   Range.Divide (over Range.Floor) for ranges as sets of integers, Facts.World, Facts.Sound and Facts.Branches for facts
--   and worlds, Linear.Denotes and Linear.Shapes for forms, and Typeck.Soundness, with a child for each
--   step from a leaf to a narrowed condition. The modules named Examples hold the tests.
--
-- How the parts meet. A condition is read against Facts and an Env: `read` turns its operands into a
-- Range and a Linear, `compare` combines both with what the facts say of a difference, and `narrowed`
-- turns a comparison that has come out into new facts. A World (Typeck.Facts.World) gives a value to
-- every name and every length; facts describe a world when each range in them holds the value it is
-- about. Typeck.Soundness ties this to Interp: Faithful says that the resolver, the type table and the
-- promises of calls, all outside facts.rs, keep their word about what a leaf evaluates to.
--
-- Bounds. The code counts terms, adds offsets and multiplies ranges in `i64`, saturating. The theorems
-- on expressions assume that this does not happen: Calm bounds what is counted in an expression by
-- 2 ^ 63, leaves out subtracting the least integer, and asks of every call in it that no multiple of
-- an argument that the call's promise counts leaves an `i64` (Counted), since `applied` clamps there
-- and its bound may be wrong (the tests of Typeck.Soundness.Examples.Stopped). World asks that the
-- difference and the total of two names fit an `i64`, also of a name and itself, so that a name stays
-- within about 2 ^ 62, and Sayable asks the two sides of each comparison to be calm integers together. Settling runs
-- four rounds, as in the code, and counts them down. No other function has fuel.
--
-- Wasm models the WebAssembly backend's own format: crates/deed-codegen/src/wasm.rs is Wasm (the
--   module under construction), Wasm.Leb (LEB128) and Wasm.Encode (every instruction and section as
--   bytes); validate.rs is Wasm.Checker (the two stacks) and Wasm.Validate (every instruction, every
--   function); run.rs is Wasm.Memory, Wasm.Run (the plain instructions), Wasm.Run.Machine (blocks,
--   loops, branches, calls and hosts) and Wasm.Run.Export (a call from outside). Wasm.Interning holds
--   what numbering a type or a table entry keeps, Wasm.Sections
--   the reader of sections that the format implies, Wasm.Run.Budget, Rounds and Termination follow
--   the budget; Wasm.Checker.Frames, Wasm.Checker.Kept and Wasm.Validate.Kept follow the validator's
--   two stacks, and Wasm.Run.Moved, Landing, Calls, Safety, Stepping, Execute and NoPanic the runner's stack
--   under them. The runner has the budget of the source, one for each instruction, and besides it
--   the gas of the recursion: twice the budget and one more, since a level of the recursion spends
--   an instruction and a loop's rounds take a level each. A panic is an outcome of its own. A sum of
--   addresses wraps, as in a release build; a host's functions are parameters.
--
-- Not modelled: what compiles to WebAssembly (compile.rs, runtime.rs); the rest of the checker (crates/deed-typeck/src/check.rs), which decides which facts
-- hold where; operators that a module defines itself; run-time guards; the sentences of Reason; all
-- other crates. The order of a HashMap is that of the list, which is arbitrary.
pub mod Prelude
pub mod Machine
pub mod Typeck
pub mod Ast
pub mod Tables
pub mod Interp
pub mod Effects
pub mod Wasm
