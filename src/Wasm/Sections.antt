-- ===== src/Wasm/Sections.antt =====
-- crates/deed-codegen/src/wasm.rs: the sections of an encoded module, as a reader that knows only
-- the format finds them: a number, a length, and as many bytes.
use deed.Prelude.{
  ℕ, zero, suc, ◌%◌, ◌^◌, ◌<◌, ◌≤◌, ◌≡◌, ◌&&◌, Bool, true, false, arith, refl, Option, none, some,
  List, [], ◌∷◌, ◌++◌, length, split_at?, split_at?-length, All, if◌then◌else◌,
}
use mathlib.Core.List.{append_assoc, append-nil}
use deed.Wasm.{Module}
use deed.Wasm.Leb.{write_u32, read_u32, read_u32-write_u32}
use deed.Wasm.Encode.{
  write_vec, write_func_type, write_import, write_func, write_segment, table_body, exports_body,
  elements_body, names_body, memory_body, write_bytes, write_section, unless, is_empty, is_none,
  magic, encode, as_u32,
}

abbrev pub Section : Type 0
Section = ℕ × List ℕ

unfoldable pub read_section : List ℕ → Option (Section × List ℕ)
read_section [] = none
read_section (id ∷ bytes) = elim (read_u32 bytes) [
  | none ↦ none
  | some (size, rest) ↦ elim (split_at? size rest) [
    | none ↦ none
    | some (body, after) ↦ some ((id, body), after)
  ]
]

-- Sections to the end of the bytes, `fuel` at most.
unfoldable pub read_sections : ℕ → List ℕ → Option (List Section)
read_sections zero [] = some []
read_sections zero (byte ∷ bytes) = none
read_sections (suc fuel) [] = some []
read_sections (suc fuel) (byte ∷ bytes) = elim (read_section (byte ∷ bytes)) [
  | none ↦ none
  | some (section, rest) ↦ elim (read_sections fuel rest) [
    | none ↦ none
    | some sections ↦ some (section ∷ sections)
  ]
]

abbrev pub present : Bool → ℕ → List ℕ → List Section → List Section
present left_out id body sections = if left_out then sections else (id, body) ∷ sections

-- The sections of a module that has something to put in them, in the order of the format.
unfoldable pub sections_of : Module → List Section
sections_of m = present (is_empty m.types) 1 (write_vec write_func_type m.types) (
    present (is_empty m.imports) 2 (write_vec write_import m.imports) (
      present (is_empty m.funcs) 3 (write_vec (λ func. write_u32 func.type_index) m.funcs) (
        present (is_empty m.table) 4 (table_body m) (
          present (is_none m.memory_pages) 5 (memory_body m.memory_pages) (
            present (is_empty m.exports && is_none m.exported_memory) 7 (exports_body m) (
              present (is_empty m.table) 9 (elements_body m) (
                present (is_empty m.funcs) 10 (write_vec write_func m.funcs) (
                  present (is_empty m.segments) 11 (write_vec write_segment m.segments)
                    (present (is_empty m.names) 0 (names_body m) [])))))))))

abbrev Short : Section → Type 0
Short (id, body) = length body < 2 ^ 32

mod_small : (n : ℕ) → n < 2 ^ 32 → n % 2 ^ 32 ≡ n
mod_small n h = omega arith

read_section-write_section :
    (id : ℕ) (body rest : List ℕ)
    → length body < 2 ^ 32
    → read_section (write_section id body ++ rest) ≡ some ((id, body), rest)
unfolding read_section write_section write_bytes
read_section-write_section id body rest h = ground (
  arith,
  append_assoc (write_u32 (as_u32 (length body))) body rest,
  mod_small (length body) h,
  read_u32-write_u32 (length body) (body ++ rest) h,
  split_at?-length body rest,
)

-- The bytes spell the sections, whatever fuel above their number the reader has.
abbrev Reads : List ℕ → List Section → Type 0
Reads bytes sections =
    (fuel : ℕ) → length sections ≤ fuel → read_sections fuel bytes ≡ some sections

-- One section more, in front.
read_sections_step :
    (fuel id : ℕ) (bytes rest : List ℕ) (section : Section) (sections : List Section)
    → read_section (id ∷ bytes) ≡ some (section, rest)
    → read_sections fuel rest ≡ some sections
    → read_sections (suc fuel) (id ∷ bytes) ≡ some (section ∷ sections)
unfolding read_sections
read_sections_step fuel id bytes rest section sections first others = ground (arith, first, others)

read_sections-write_section :
    (fuel id : ℕ) (body bytes : List ℕ) (sections : List Section)
    → length body < 2 ^ 32
    → read_sections fuel bytes ≡ some sections
    → read_sections (suc fuel) (write_section id body ++ bytes) ≡ some ((id, body) ∷ sections)
unfolding write_section
read_sections-write_section fuel id body bytes sections short others =
    read_sections_step fuel id _ bytes (id, body) sections
      (read_section-write_section id body bytes short) others

Reads-unless :
    (left_out : Bool) (id : ℕ) (body bytes : List ℕ) (sections : List Section)
    → (All Short sections → Reads bytes sections)
    → All Short (present left_out id body sections)
    → Reads (unless left_out id body ++ bytes) (present left_out id body sections)
unfolding unless
Reads-unless true id body bytes sections then_reads short fuel h = then_reads short fuel h
Reads-unless false id body bytes sections then_reads short zero h = absurd (omega arith)
Reads-unless false id body bytes sections then_reads short (suc fuel) h =
    read_sections-write_section fuel id body bytes sections short.0
      (then_reads short.1 fuel (omega arith))

Reads-end : All Short [] → Reads [] []
unfolding read_sections
Reads-end short zero h = refl
Reads-end short (suc fuel) h = refl

Reads-last :
    (left_out : Bool) (id : ℕ) (body : List ℕ)
    → All Short (present left_out id body [])
    → Reads (unless left_out id body) (present left_out id body [])
Reads-last left_out id body =
    rw (append-nil (unless left_out id body)) at (Reads-unless left_out id body [] [] Reads-end)

-- An encoded module is the eight bytes that every module starts with, and bytes in which a
-- reader that knows only numbers, lengths and bodies finds exactly the module's sections, those
-- with something in them, in order, when every section's body is shorter than 2 ^ 32 and the
-- reader's fuel is at least their number.
pub read_sections-encode :
    (m : Module) (fuel : ℕ)
    → All Short (sections_of m)
    → length (sections_of m) ≤ fuel
    → (bytes : List ℕ) × (encode m ≡ magic ++ bytes)
      × (read_sections fuel bytes ≡ some (sections_of m))
unfolding encode sections_of
read_sections-encode m fuel short enough = (
  _,
  refl,
  (Reads-unless _ _ _ _ _
      (Reads-unless _ _ _ _ _ (
        Reads-unless _ _ _ _ _ (
          Reads-unless _ _ _ _ _ (
            Reads-unless _ _ _ _ _ (
              Reads-unless _ _ _ _ _ (
                Reads-unless _ _ _ _ _
                  (Reads-unless _ _ _ _ _ (Reads-unless _ _ _ _ _ (Reads-last _ _ _)))))))))
      short fuel enough),
)
