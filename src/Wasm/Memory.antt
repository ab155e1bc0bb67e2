-- ===== src/Wasm/Memory.antt =====
-- crates/deed-codegen/src/run.rs: values, and the linear memory with the texts in it. The bytes of a
-- memory are a function, of which those below its size count. The source's `usize` is 64 bits wide,
-- and its sums wrap, as they do in a release build.
use Prim.Native.Nat.{bit_xor}
use deed.Prelude.{
  ℕ, zero, suc, ◌+◌, ◌-◌, ◌*◌, ◌/◌, ◌%◌, ◌^◌, ◌==◌, ◌&&◌, ◌||◌, not, Bool, ltb, leb, Option, none,
  some, List, [], ◌∷◌, length, if◌then◌else◌,
}
use deed.Prelude.Int.{ℤ, pos, negsuc}
use deed.Machine.{eqb_ℤ}
use deed.Wasm.{ValType}

abbrev pub wrap_usize : ℕ → ℕ
wrap_usize n = n % 2 ^ 64

-- The bits of a signed number, and the number that they stand for.
unfoldable pub bits64 : ℤ → ℕ
bits64 (pos n) = n % 2 ^ 64
bits64 (negsuc n) = 2 ^ 64 - 1 - n % 2 ^ 64

unfoldable pub signed64 : ℕ → ℤ
signed64 w = if ltb w (2 ^ 63) then pos w else negsuc (2 ^ 64 - w - 1)

unfoldable pub wrap64 : ℤ → ℤ
unfolding bits64 signed64
wrap64 a = signed64 (bits64 a)

unfoldable pub wrap32 : ℤ → ℤ
unfolding bits64
wrap32 a = let w = bits64 a % 2 ^ 32 in if ltb w (2 ^ 31) then pos w else negsuc (2 ^ 32 - w - 1)

unfoldable pub xor64 : ℤ → ℤ → ℤ
unfolding bits64 signed64
xor64 a b = signed64 (bit_xor (bits64 a) (bits64 b))

pub data Value : Type 0 where
  i32 : ℤ → Value
  i64 : ℤ → Value

abbrev pub as_i64 : Value → ℤ
as_i64 (Value.i32 value) = value
as_i64 (Value.i64 value) = value

abbrev pub as_bool : Value → Bool
as_bool value = not (eqb_ℤ (as_i64 value) (pos 0))

abbrev pub zero_of : ValType → Value
zero_of ValType.i32 = Value.i32 (pos 0)
zero_of ValType.i64 = Value.i64 (pos 0)

pub record Memory : Type 0 where
  pub size : ℕ
  pub bytes : ℕ → ℕ

abbrev pub bytes_from : ℕ → ℕ → (ℕ → ℕ) → List ℕ
bytes_from zero at bytes = []
bytes_from (suc n) at bytes = bytes at ∷ bytes_from n (at + 1) bytes

-- The bytes from the first address up to the second, if that is a range of the memory.
unfoldable pub get_range : ℕ → ℕ → Memory → Option (List ℕ)
get_range start stop m =
    if leb start stop && leb stop m.size
    then some (bytes_from (stop - start) start m.bytes)
    else none

unfoldable pub from_le : List ℕ → ℕ
from_le [] = 0
from_le (byte ∷ bytes) = byte + 256 * from_le bytes

unfoldable pub to_le : ℕ → ℕ → List ℕ
to_le zero value = []
to_le (suc n) value = value % 256 ∷ to_le n (value / 256)

unfoldable pub copy_from : ℕ → List ℕ → Memory → Memory
copy_from at [] m = m
copy_from at (byte ∷ bytes) m =
    copy_from (at + 1) bytes (record m { bytes = λ i. if i == at then byte else m.bytes i })

-- An eight byte word, when all of it lies inside.
unfoldable pub word_at : ℕ → Memory → Option ℕ
unfolding get_range from_le
word_at at m = elim (get_range at (wrap_usize (at + 8)) m) [
  | none ↦ none
  | some bytes ↦ some (from_le bytes)
]

unfoldable pub load : ℕ → Memory → Option ℤ
unfolding word_at signed64
load at m = elim (word_at at m) [ none ↦ none | some word ↦ some (signed64 word) ]

unfoldable pub store : ℕ → ℤ → Memory → Option Memory
unfolding copy_from to_le bits64
store at value m =
    if leb at (wrap_usize (at + 8)) && leb (wrap_usize (at + 8)) m.size
    then some (copy_from at (to_le 8 (bits64 value)) m)
    else none

abbrev pub page : ℕ
page = 64 * 1024

unfoldable pub resize : ℕ → Memory → Memory
resize size m = record { size = size; bytes = λ i. if ltb i m.size then m.bytes i else 0 }

abbrev pub is_continuation : ℕ → Bool
is_continuation byte = leb 0x80 byte && ltb byte 0xc0

abbrev pub two_bytes : ℕ → ℕ → ℕ
two_bytes a b = (a - 0xc0) * 64 + (b - 0x80)

abbrev pub three_bytes : ℕ → ℕ → ℕ → ℕ
three_bytes a b c = (a - 0xe0) * 4096 + (b - 0x80) * 64 + (c - 0x80)

abbrev pub four_bytes : ℕ → ℕ → ℕ → ℕ → ℕ
four_bytes a b c d = (a - 0xf0) * 262144 + (b - 0x80) * 4096 + (c - 0x80) * 64 + (d - 0x80)

-- One character of at least two bytes, with the shortest form that has it and no surrogate.
unfoldable pub long_character : List ℕ → Option (ℕ × List ℕ)
long_character (a ∷ b ∷ rest) =
    if leb 0xc2 a && ltb a 0xe0 && is_continuation b
    then some (two_bytes a b, rest)
    else (elim rest [
      | [] ↦ none
      | c ∷ rest' ↦
          if leb 0xe0 a
            && ltb a 0xf0
            && is_continuation b
            && is_continuation c
            && leb 0x800 (three_bytes a b c)
            && (ltb (three_bytes a b c) 0xd800 || leb 0xe000 (three_bytes a b c))
          then some (three_bytes a b c, rest')
          else (elim rest' [
            | [] ↦ none
            | d ∷ rest'' ↦
                if leb 0xf0 a
                  && is_continuation b
                  && is_continuation c
                  && is_continuation d
                  && leb 0x10000 (four_bytes a b c d)
                  && ltb (four_bytes a b c d) 0x110000
                then some (four_bytes a b c d, rest'')
                else none
          ])
    ])
long_character _ = none

unfoldable pub utf8_next : List ℕ → Option (ℕ × List ℕ)
unfolding long_character
utf8_next [] = none
utf8_next (a ∷ rest) = if ltb a 0x80 then some (a, rest) else long_character (a ∷ rest)

-- The characters that the bytes spell, with as much fuel as there are bytes.
unfoldable pub decode_utf8 : ℕ → List ℕ → Option (List ℕ)
unfolding utf8_next
decode_utf8 zero [] = some []
decode_utf8 zero (byte ∷ bytes) = none
decode_utf8 (suc fuel) [] = some []
decode_utf8 (suc fuel) (byte ∷ bytes) = elim (utf8_next (byte ∷ bytes)) [
  | none ↦ none
  | some (character, rest) ↦ elim (decode_utf8 fuel rest) [
    | none ↦ none
    | some text ↦ some (character ∷ text)
  ]
]

unfoldable pub from_utf8 : List ℕ → Option (List ℕ)
unfolding decode_utf8
from_utf8 bytes = decode_utf8 (length bytes) bytes

unfoldable pub text_at : ℕ → Memory → Option (List ℕ)
unfolding word_at get_range from_utf8
text_at address m = elim (word_at (wrap_usize (address + 8)) m) [
  | none ↦ none
  | some size ↦ elim (get_range (wrap_usize (address + 16)) (wrap_usize (address + 16 + size)) m) [
    | none ↦ none
    | some bytes ↦ from_utf8 bytes
  ]
]

-- The text whose address is in this word: a character count, a byte count, then the bytes.
unfoldable pub string_at : ℕ → Memory → Option (List ℕ)
unfolding word_at text_at
string_at word m = elim (word_at word m) [
  | none ↦ none
  | some address ↦ if address == 0 then none else text_at address m
]
