-- ===== src/Lab1/Checksum.antt =====
-- lab1/error.c: the 16-bit one's complement checksum.
-- A C array is a list of bytes. `none` is a read outside the array.
pub mod Sum
pub mod Laws
use network_lab.Prelude.{
  ℕ, zero, suc, ◌+◌, ◌-◌, ◌^◌, bit_and, bit_or, Bool, Option, none, some, List, [], ◌∷◌, u16, u32,
  ◌<<<◌, ◌>>>◌, ◌==◌, if◌then◌else◌, ◌>>=◌,
}

-- `while (sum >> 16) sum = (sum & 0xFFFF) + (sum >> 16)`, with fuel for the test.
unfoldable pub carry_loop : ℕ → ℕ → Option ℕ
carry_loop zero sum = none
carry_loop (suc fuel) sum =
    let rest = carry_loop fuel (u32 (bit_and sum 0xffff + sum >>> 16)) in
    if (sum >>> 16) == 0 then some sum else rest

-- A `uint32_t` has its carry folded away after two rounds; the third test ends the loop.
abbrev pub carry_fuel : ℕ
carry_fuel = 3

-- `((uint16_t)data[i] << 8) | data[i + 1]`
unfoldable pub word_of : ℕ → ℕ → ℕ
word_of hi lo = u16 (bit_or (hi <<< 8) lo)

-- The loop of `ones_comp_sum` at index `i`: the list is `data + i`, the count is `len - i`.
-- An odd `len` reads the byte at `data[len]` in its last round.
unfoldable pub sum_loop : List ℕ → ℕ → ℕ → Option ℕ
sum_loop buf zero sum = some sum
sum_loop [] (suc n) sum = none
sum_loop (hi ∷ []) (suc n) sum = none
sum_loop (hi ∷ lo ∷ buf) (suc zero) sum = carry_loop carry_fuel (u32 (sum + word_of hi lo))
sum_loop (hi ∷ lo ∷ buf) (suc (suc n)) sum = do
  sum' ← carry_loop carry_fuel (u32 (sum + word_of hi lo))
  sum_loop buf n sum'

unfoldable pub ones_comp_sum : List ℕ → ℕ → Option ℕ
ones_comp_sum buf len = do sum ← sum_loop buf len 0; some (u16 sum)

-- `~x & 0xFFFF` of a 16-bit `x`
unfoldable pub checksum16_compute : List ℕ → ℕ → Option ℕ
checksum16_compute buf len = do
  sum ← ones_comp_sum buf len
  some (u16 (bit_and (2 ^ 32 - 1 - sum) 0xffff))

unfoldable pub checksum16_verify : List ℕ → ℕ → ℕ → Option Bool
checksum16_verify buf len received = do
  sum ← ones_comp_sum buf len
  folded ← carry_loop carry_fuel (u32 (sum + received))
  some (folded == 0xffff)
