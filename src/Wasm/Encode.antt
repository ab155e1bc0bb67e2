-- ===== src/Wasm/Encode.antt =====
-- crates/deed-codegen/src/wasm.rs: a module as bytes, each a number below 256. What the source
-- appends to its buffer is the list that a function returns.
use deed.Prelude.{
  ℕ, ◌+◌, ◌-◌, ◌/◌, ◌%◌, ◌^◌, ◌&&◌, Bool, true, false, ltb, String, Option, none, some, List, [],
  ◌∷◌, ◌++◌, length, if◌then◌else◌,
}
use deed.Prelude.Int.{ℤ, pos}
use deed.Wasm.{
  ValType, FuncType, Func, Import, Module, Ins, Body, nil, cons, eq_val_type, marked, unreachable,
  nop, block, loop, if_else, br, br_if, return, call, call_indirect, drop, local_get, local_set,
  local_tee, i32_const, i64_const, i32_add, i32_sub, i32_mul, i32_eq, i32_ne, i32_lt_s, i32_le_s,
  i32_gt_s, i32_ge_s, i32_and, i32_or, i32_eqz, i64_add, i64_sub, i64_mul, i64_xor, i64_div_s,
  i64_rem_s, i64_eq, i64_ne, i64_lt_s, i64_le_s, i64_gt_s, i64_ge_s, i64_eqz, i32_wrap_i64,
  i64_extend_i32_s, i32_load, i64_load, i32_store, i64_store, i32_load8_u, i32_store8, memory_size,
  memory_grow,
}
use deed.Wasm.Leb.{write_u32, write_i32, write_i64}
use Prim.Native.Char.{code}

unfoldable pub byte_of : ValType → ℕ
byte_of ValType.i32 = 0x7f
byte_of ValType.i64 = 0x7e

unfoldable pub write_block_type : Option ValType → ℕ
unfolding byte_of
write_block_type none = 0x40
write_block_type (some ty) = byte_of ty

unfoldable mutual
  unfolding write_block_type

  pub write : Ins → List ℕ
  write (marked site inner) = write inner
  write unreachable = 0x00 ∷ []
  write nop = 0x01 ∷ []
  write (block result body) = 0x02 ∷ write_block_type result ∷ write_body body ++ 0x0b ∷ []
  write (loop result body) = 0x03 ∷ write_block_type result ∷ write_body body ++ 0x0b ∷ []
  write (if_else result taken nil) = 0x04 ∷ write_block_type result ∷ write_body taken ++ 0x0b ∷ []
  write (if_else result taken (cons ins otherwise)) =
      0x04 ∷ write_block_type result ∷ write_body taken
      ++ (0x05 ∷ write ins ++ (write_body otherwise ++ 0x0b ∷ []))
  write (br depth) = 0x0c ∷ write_u32 depth
  write (br_if depth) = 0x0d ∷ write_u32 depth
  write return = 0x0f ∷ []
  write (call index) = 0x10 ∷ write_u32 index
  write (call_indirect ty) = 0x11 ∷ write_u32 ty ++ write_u32 0
  write drop = 0x1a ∷ []
  write (local_get index) = 0x20 ∷ write_u32 index
  write (local_set index) = 0x21 ∷ write_u32 index
  write (local_tee index) = 0x22 ∷ write_u32 index
  write (i32_load offset) = 0x28 ∷ write_u32 2 ++ write_u32 offset
  write (i64_load offset) = 0x29 ∷ write_u32 3 ++ write_u32 offset
  write (i32_store offset) = 0x36 ∷ write_u32 2 ++ write_u32 offset
  write (i64_store offset) = 0x37 ∷ write_u32 3 ++ write_u32 offset
  write (i32_load8_u offset) = 0x2d ∷ write_u32 0 ++ write_u32 offset
  write (i32_store8 offset) = 0x3a ∷ write_u32 0 ++ write_u32 offset
  write memory_size = 0x3f ∷ 0x00 ∷ []
  write memory_grow = 0x40 ∷ 0x00 ∷ []
  write (i32_const value) = 0x41 ∷ write_i32 value
  write (i64_const value) = 0x42 ∷ write_i64 value
  write i32_eqz = 0x45 ∷ []
  write i32_eq = 0x46 ∷ []
  write i32_ne = 0x47 ∷ []
  write i32_lt_s = 0x48 ∷ []
  write i32_gt_s = 0x4a ∷ []
  write i32_le_s = 0x4c ∷ []
  write i32_ge_s = 0x4e ∷ []
  write i64_eqz = 0x50 ∷ []
  write i64_eq = 0x51 ∷ []
  write i64_ne = 0x52 ∷ []
  write i64_lt_s = 0x53 ∷ []
  write i64_gt_s = 0x55 ∷ []
  write i64_le_s = 0x57 ∷ []
  write i64_ge_s = 0x59 ∷ []
  write i32_add = 0x6a ∷ []
  write i32_sub = 0x6b ∷ []
  write i32_mul = 0x6c ∷ []
  write i32_and = 0x71 ∷ []
  write i32_or = 0x72 ∷ []
  write i64_add = 0x7c ∷ []
  write i64_sub = 0x7d ∷ []
  write i64_mul = 0x7e ∷ []
  write i64_xor = 0x85 ∷ []
  write i64_div_s = 0x7f ∷ []
  write i64_rem_s = 0x81 ∷ []
  write i32_wrap_i64 = 0xa7 ∷ []
  write i64_extend_i32_s = 0xac ∷ []

  pub write_body : Body → List ℕ
  write_body nil = []
  write_body (cons ins body) = write ins ++ write_body body

unfoldable pub instruction_size : Ins → ℕ
unfolding write
instruction_size ins = length (write ins)

-- The bytes of a character, and of a text.
unfoldable pub utf8_code : ℕ → List ℕ
utf8_code c =
    if ltb c 0x80
    then c ∷ []
    else if ltb c 0x800
    then (0xc0 + c / 64) ∷ (0x80 + c % 64) ∷ []
    else if ltb c 0x10000
    then (0xe0 + c / 4096) ∷ (0x80 + c / 64 % 64) ∷ (0x80 + c % 64) ∷ []
    else (0xf0 + c / 262144) ∷ (0x80 + c / 4096 % 64) ∷ (0x80 + c / 64 % 64) ∷ (0x80 + c % 64) ∷ []

unfoldable pub as_bytes : String → List ℕ
unfolding utf8_code
as_bytes String.[] = []
as_bytes (String.◌∷◌ c s) = utf8_code (code c) ++ as_bytes s

abbrev pub as_u32 : ℕ → ℕ
as_u32 n = n % 2 ^ 32

-- `as i32` of a `u32`.
abbrev pub as_i32 : ℕ → ℤ
as_i32 n = if ltb n (2 ^ 31) then pos n else ℤ.negsuc (2 ^ 32 - n - 1)

unfoldable pub write_bytes : List ℕ → List ℕ
write_bytes bytes = write_u32 (as_u32 (length bytes)) ++ bytes

unfoldable pub write_name : String → List ℕ
unfolding write_bytes as_bytes
write_name name = write_bytes (as_bytes name)

-- How many there are, then each of them.
unfoldable pub write_all {ℓ} : {A : Type ℓ} → (A → List ℕ) → List A → List ℕ
write_all f [] = []
write_all f (x ∷ xs) = f x ++ write_all f xs

unfoldable pub write_vec {ℓ} : {A : Type ℓ} → (A → List ℕ) → List A → List ℕ
unfolding write_all
write_vec f xs = write_u32 (as_u32 (length xs)) ++ write_all f xs

abbrev pub write_val_type : ValType → List ℕ
write_val_type ty = byte_of ty ∷ []

unfoldable pub write_func_type : FuncType → List ℕ
unfolding write_vec byte_of
write_func_type ty =
    0x60 ∷ write_vec write_val_type ty.params ++ write_vec write_val_type ty.results

unfoldable pub write_import : Import → List ℕ
unfolding write_name
write_import i = write_name i.namespace ++ (write_name i.name ++ (0x00 ∷ write_u32 i.type_index))

unfoldable pub add_run : ValType → List (ℕ × ValType) → List (ℕ × ValType)
add_run ty [] = (1, ty) ∷ []
add_run ty ((count, seen) ∷ []) =
    if eq_val_type seen ty then (count + 1, seen) ∷ [] else (count, seen) ∷ (1, ty) ∷ []
add_run ty (run ∷ next ∷ runs) = run ∷ add_run ty (next ∷ runs)

unfoldable pub compress_from : List (ℕ × ValType) → List ValType → List (ℕ × ValType)
unfolding add_run
compress_from runs [] = runs
compress_from runs (ty ∷ locals) = compress_from (add_run ty runs) locals

-- Runs of the same type.
unfoldable pub compress_locals : List ValType → List (ℕ × ValType)
unfolding compress_from
compress_locals locals = compress_from [] locals

abbrev pub write_run : ℕ × ValType → List ℕ
write_run (count, ty) = write_u32 count ++ byte_of ty ∷ []

unfoldable pub write_func : Func → List ℕ
unfolding write_bytes write_vec write byte_of compress_locals
write_func func =
    write_bytes
      (write_vec write_run (compress_locals func.locals) ++ (write_body func.body ++ 0x0b ∷ []))

abbrev pub write_export : ℕ → String × ℕ → List ℕ
write_export kind (name, index) = write_name name ++ (kind ∷ write_u32 index)

unfoldable pub write_segment : ℕ × List ℕ → List ℕ
unfolding write_bytes
write_segment (offset, bytes) =
    write_u32 0 ++ (0x41 ∷ write_i32 (as_i32 offset) ++ (0x0b ∷ write_bytes bytes))

-- A stable sort: an entry goes before the first one with a greater index.
unfoldable pub insert_by_index : ℕ × String → List (ℕ × String) → List (ℕ × String)
insert_by_index entry [] = entry ∷ []
insert_by_index entry (other ∷ names) =
    let rest = insert_by_index entry names in
    if ltb entry.0 other.0 then entry ∷ other ∷ names else other ∷ rest

unfoldable pub sort_by_index : List (ℕ × String) → List (ℕ × String) → List (ℕ × String)
unfolding insert_by_index
sort_by_index sorted [] = sorted
sort_by_index sorted (entry ∷ names) = sort_by_index (insert_by_index entry sorted) names

abbrev pub write_debug_name : ℕ × String → List ℕ
write_debug_name (index, name) = write_u32 index ++ write_name name

unfoldable pub exports_body : Module → List ℕ
unfolding write_all write_name
exports_body m = elim m.exported_memory [
  | none ↦ write_u32 (as_u32 (length m.exports)) ++ write_all (write_export 0x00) m.exports
  | some name ↦
      write_u32 (as_u32 (length m.exports + 1))
      ++ (write_all (write_export 0x00) m.exports ++ write_export 0x02 (name, 0))
]

unfoldable pub names_body : Module → List ℕ
unfolding write_vec write_name write_bytes sort_by_index
names_body m =
    write_name "name" ++ (1 ∷ write_bytes (write_vec write_debug_name (sort_by_index [] m.names)))

unfoldable pub table_body : Module → List ℕ
table_body m =
    write_u32 1
    ++ (0x70 ∷ 0x01 ∷ write_u32 (as_u32 (length m.table)) ++ write_u32 (as_u32 (length m.table)))

unfoldable pub elements_body : Module → List ℕ
unfolding write_vec
elements_body m =
    write_u32 1
    ++ (write_u32 0 ++ (0x41 ∷ write_i32 (pos 0) ++ (0x0b ∷ write_vec write_u32 m.table)))

unfoldable pub write_section : ℕ → List ℕ → List ℕ
unfolding write_bytes
write_section id body = id ∷ write_bytes body

abbrev pub is_empty {ℓ} : {A : Type ℓ} → List A → Bool
is_empty [] = true
is_empty (x ∷ xs) = false

abbrev pub is_none {ℓ} : {A : Type ℓ} → Option A → Bool
is_none none = true
is_none (some x) = false

-- A section that is left out when there is nothing to put in it.
unfoldable pub unless : Bool → ℕ → List ℕ → List ℕ
unless left_out id body = if left_out then [] else write_section id body

abbrev pub memory_body : Option ℕ → List ℕ
memory_body none = []
memory_body (some pages) = write_u32 1 ++ (0x00 ∷ write_u32 pages)

-- The eight bytes that every module starts with.
abbrev pub magic : List ℕ
magic = 0 ∷ 97 ∷ 115 ∷ 109 ∷ 1 ∷ 0 ∷ 0 ∷ 0 ∷ []

unfoldable pub encode : Module → List ℕ
encode m =
    magic
    ++ (unless (is_empty m.types) 1 (write_vec write_func_type m.types)
        ++ (unless (is_empty m.imports) 2 (write_vec write_import m.imports)
            ++ (unless (is_empty m.funcs) 3 (write_vec (λ func. write_u32 func.type_index) m.funcs)
                ++ (unless (is_empty m.table) 4 (table_body m)
                    ++ (unless (is_none m.memory_pages) 5 (memory_body m.memory_pages)
                        ++ (unless (is_empty m.exports && is_none m.exported_memory) 7
                              (exports_body m)
                            ++ (unless (is_empty m.table) 9 (elements_body m)
                                ++ (unless (is_empty m.funcs) 10 (write_vec write_func m.funcs)
                                    ++ (unless (is_empty m.segments) 11
                                          (write_vec write_segment m.segments)
                                        ++ unless (is_empty m.names) 0 (names_body m))))))))))
