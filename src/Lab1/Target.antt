-- ===== src/Lab1/Target.antt =====
-- lab1/error_inject/targeted_inject.c. The results of `rand()`, one after the other, are an argument.
pub mod Choice
pub mod Column
pub mod Blind
pub mod Endless
pub mod Words
pub mod Exchanged
pub mod Generator
pub mod Multiple
mod Tests
use network_lab.Prelude.{
  ℕ, zero, suc, ◌+◌, ◌-◌, ◌*◌, ◌/◌, ◌%◌, bit_and, Option, none, some, List, [], ◌∷◌, get_or, ltb,
  ◌==◌, ◌>>>◌, ◌>>=◌, if◌then◌else◌,
}
use network_lab.Lab1.Inject.{flip_bit}
use network_lab.Lab1.Crc.{CrcGen}

-- Column `c` of word `w`: the byte, the bit in it, and the bit's number in the buffer.
unfoldable pub byte_of : ℕ → ℕ → ℕ
byte_of w c = if ltb c 8 then 2 * w + 1 else 2 * w

unfoldable pub bit_in_byte : ℕ → ℕ
bit_in_byte c = if ltb c 8 then c else c - 8

unfoldable pub global_bit : ℕ → ℕ → ℕ
global_bit w c = byte_of w c * 8 + bit_in_byte c

unfoldable pub bit_at : List ℕ → ℕ → ℕ → ℕ
bit_at buf w c = bit_and (get_or buf (byte_of w c) 0 >>> bit_in_byte c) 1

-- Which value the next `rand()` chooses: the first word, the second, or the column.
pub data Choosing : Type 0 where
  first_word : Choosing
  second_word : ℕ → Choosing
  column : ℕ → ℕ → Choosing

-- The two `do` loops, one `rand()` at a time; `none` when they have not ended with these.
unfoldable pub choose : ℕ → List ℕ → Choosing → List ℕ → Option (ℕ × ℕ × ℕ)
choose word_count buf at [] = none
choose word_count buf first_word (rand ∷ rands) =
    choose word_count buf (second_word (rand % word_count)) rands
choose word_count buf (second_word w1) (rand ∷ rands) =
    choose word_count buf
      (if (rand % word_count) == w1 then second_word w1 else column w1 (rand % word_count)) rands
choose word_count buf (column w1 w2) (rand ∷ rands) =
    let again = choose word_count buf first_word rands in
    if bit_at buf w1 (rand % 16) == bit_at buf w2 (rand % 16)
    then again
    else some (w1, w2, rand % 16)

unfoldable pub inject_compensating_error : List ℕ → List ℕ → ℕ → Option (List ℕ)
inject_compensating_error rands buf len = if ltb (len / 2) 2 then some buf else do
  (w1, w2, c) ← choose (len / 2) buf first_word rands
  some (flip_bit (flip_bit buf len (global_bit w1 c)) len (global_bit w2 c))

-- Bit `degree - k` of the generator, its leading term included.
unfoldable pub generator_bit : CrcGen → ℕ → ℕ
generator_bit params k = if k == 0 then 1 else bit_and (params.poly >>> (params.degree - k)) 1

-- The `k`th bit of the buffer, counted from the highest bit of its first byte.
unfoldable pub bit_from_msb : ℕ → ℕ
bit_from_msb k = k / 8 * 8 + (7 - k % 8)

-- The loop at `k`, with the rounds that are left.
unfoldable pub flip_generator : CrcGen → ℕ → ℕ → List ℕ → ℕ → List ℕ
flip_generator params zero k buf len = buf
flip_generator params (suc rounds) k buf len =
    flip_generator params rounds (k + 1)
      (if generator_bit params k == 0 then buf else flip_bit buf len (bit_from_msb k)) len

-- With a degree of at least 0.
unfoldable pub inject_generator_multiple_error : List ℕ → ℕ → CrcGen → List ℕ
inject_generator_multiple_error buf len params =
    if ltb len ((params.degree + 8) / 8)
    then buf
    else flip_generator params (params.degree + 1) 0 buf len
