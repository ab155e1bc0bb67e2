-- ===== src/Wasm/Leb.antt =====
-- crates/deed-codegen/src/wasm.rs: lengths, indices and constants as LEB128, seven bits to a byte.
-- A byte is a number below 256. The loops recur on fuel: five rounds are enough for a `u32`, ten
-- for an `i64`. `& 0x7f`, `>> 7`, `| 0x80` and `& 0x40` are written as remainders and quotients.
-- The source has no reader: `read_u32` and `read_i64` are what the format says of the bytes.
use deed.Prelude.{
  ℕ, zero, suc, ◌+◌, ◌-◌, ◌*◌, ◌/◌, ◌%◌, ◌^◌, ◌<◌, ◌≡◌, ◌==◌, ◌&&◌, Bool, ltb, leb, arith, Option,
  none, some, List, [], ◌∷◌, ◌++◌, if◌then◌else◌,
}
use deed.Prelude.Int.{ℤ, pos, negsuc}
use deed.Machine.{Fits}

-- The bytes of `write_u32`, with `fuel + 1` rounds at most.
unfoldable pub write_u32_loop : ℕ → ℕ → List ℕ
write_u32_loop zero value = value % 128 ∷ []
write_u32_loop (suc fuel) value =
    let rest = write_u32_loop fuel (value / 128) in
    if value / 128 == 0 then value % 128 ∷ [] else (value % 128 + 128) ∷ rest

abbrev pub u32_rounds : ℕ
u32_rounds = 4

unfoldable pub write_u32 : ℕ → List ℕ
unfolding write_u32_loop
write_u32 value = write_u32_loop u32_rounds value

-- `value & 0x7f` and `value >> 7` of a signed number.
unfoldable pub low_seven : ℤ → ℕ
low_seven (pos n) = n % 128
low_seven (negsuc n) = 127 - n % 128

unfoldable pub shift_seven : ℤ → ℤ
shift_seven (pos n) = pos (n / 128)
shift_seven (negsuc n) = negsuc (n / 128)

-- Whether nothing but the sign is left, and the last byte shows it.
unfoldable pub all_written : ℤ → ℕ → Bool
all_written (pos n) byte = n == 0 && ltb byte 64
all_written (negsuc n) byte = n == 0 && leb 64 byte

unfoldable pub write_i64_loop : ℕ → ℤ → List ℕ
unfolding low_seven shift_seven all_written
write_i64_loop zero value = low_seven value ∷ []
write_i64_loop (suc fuel) value =
    let rest = write_i64_loop fuel (shift_seven value) in
    if all_written (shift_seven value) (low_seven value)
    then low_seven value ∷ []
    else (low_seven value + 128) ∷ rest

abbrev pub i64_rounds : ℕ
i64_rounds = 9

unfoldable pub write_i64 : ℤ → List ℕ
unfolding write_i64_loop
write_i64 value = write_i64_loop i64_rounds value

abbrev pub write_i32 : ℤ → List ℕ
write_i32 value = write_i64 value

-- The number that the bytes spell up to the first one below 128, and the bytes after it.
unfoldable pub read_u32 : List ℕ → Option (ℕ × List ℕ)
read_u32 [] = none
read_u32 (byte ∷ bytes) = if ltb byte 128 then some (byte, bytes) else (elim (read_u32 bytes) [
  | none ↦ none
  | some (high, rest) ↦ some (byte - 128 + 128 * high, rest)
])

unfoldable pub from_seven : ℕ → ℤ
from_seven byte = if ltb byte 64 then pos byte else negsuc (127 - byte)

-- The number whose low seven bits are given and whose others are those of the second argument.
unfoldable pub unshift_seven : ℕ → ℤ → ℤ
unshift_seven low (pos n) = pos (128 * n + low)
unshift_seven low (negsuc n) = negsuc (128 * n + (127 - low))

unfoldable pub read_i64 : List ℕ → Option (ℤ × List ℕ)
unfolding from_seven unshift_seven
read_i64 [] = none
read_i64 (byte ∷ bytes) =
    if ltb byte 128 then some (from_seven byte, bytes) else (elim (read_i64 bytes) [
      | none ↦ none
      | some (high, rest) ↦ some (unshift_seven (byte - 128) high, rest)
    ])

-- What so many rounds and one more hold.
abbrev capacity : ℕ → ℕ
capacity zero = 1
capacity (suc rounds) = 128 * capacity rounds

read_u32-write_u32_loop :
    (fuel value : ℕ) (rest : List ℕ)
    → value < 128 * capacity fuel
    → read_u32 (write_u32_loop fuel value ++ rest) ≡ some (value, rest)
unfolding read_u32 write_u32_loop
read_u32-write_u32_loop zero value rest h = ground arith
read_u32-write_u32_loop (suc fuel) value rest h = ground (
  arith,
  λ (k : value / 128 < 128 * capacity fuel). read_u32-write_u32_loop fuel (value / 128) rest k,
)

abbrev magnitude : ℤ → ℕ
magnitude (pos n) = n
magnitude (negsuc n) = n

read_i64-write_i64_loop :
    (fuel : ℕ) (value : ℤ) (rest : List ℕ)
    → magnitude value < 64 * capacity fuel
    → read_i64 (write_i64_loop fuel value ++ rest) ≡ some (value, rest)
unfolding read_i64 write_i64_loop
read_i64-write_i64_loop zero (pos n) rest h = ground arith
read_i64-write_i64_loop zero (negsuc n) rest h = ground arith
read_i64-write_i64_loop (suc fuel) (pos n) rest h =
    ground (arith, read_i64-write_i64_loop fuel (pos (n / 128)) rest (omega arith))
read_i64-write_i64_loop (suc fuel) (negsuc n) rest h =
    ground (arith, read_i64-write_i64_loop fuel (negsuc (n / 128)) rest (omega arith))

-- Reading an unsigned number back: the bytes of a number below 2 ^ 32, with anything after
-- them, are read as that number, and what came after them is left.
pub read_u32-write_u32 :
    (value : ℕ) (rest : List ℕ)
    → value < 2 ^ 32
    → read_u32 (write_u32 value ++ rest) ≡ some (value, rest)
unfolding write_u32
read_u32-write_u32 value rest h = read_u32-write_u32_loop 4 value rest (omega arith)

-- Reading a signed number back: the bytes of an integer that an `i64` holds, with anything
-- after them, are read as that integer, and what came after them is left.
pub read_i64-write_i64 :
    (value : ℤ) (rest : List ℕ)
    → Fits value
    → read_i64 (write_i64 value ++ rest) ≡ some (value, rest)
unfolding write_i64
read_i64-write_i64 (pos n) rest h = read_i64-write_i64_loop 9 (pos n) rest (omega (arith, h.high))
read_i64-write_i64 (negsuc n) rest h =
    read_i64-write_i64_loop 9 (negsuc n) rest (omega (arith, h.low))
