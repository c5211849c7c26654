-- ===== src/Lab1/Inject.antt =====
-- lab1/error_inject/bit_flip.c: flipping bits of a buffer.
-- The results of `rand()` are arguments.
pub mod Flip
pub mod Combined
pub mod Burst
pub mod Spot
use network_lab.Prelude.{
  ℕ, zero, suc, ◌+◌, ◌-◌, ◌*◌, ◌/◌, ◌%◌, ◌^◌, bit_xor, List, ◌==◌, ltb, leb, if◌then◌else◌, ◌||◌,
  get_or, set, ◌<<<◌,
}

-- `flip_bit`. `len` is the length of the array, so that the access is inside it; bit numbers are
-- below `2 ^ 34`, where `byte_index` fits an `int`.
unfoldable pub flip_bit : List ℕ → ℕ → ℕ → List ℕ
flip_bit buf len bit_index =
    let byte_index = bit_index / 8 in
    let bit_in_byte = bit_index % 8 in
    if ltb byte_index len
    then set buf byte_index (bit_xor (get_or buf byte_index 0) (1 <<< bit_in_byte))
    else buf

-- `random_bit_index`, from the value of `rand()`
unfoldable pub random_bit_index : ℕ → ℕ → ℕ
random_bit_index rand len = rand % (8 * len)

-- The loop of `inject_burst_error` over the bits behind `bit`, `count` of them.
unfoldable pub flip_range : ℕ → ℕ → List ℕ → ℕ → List ℕ
flip_range zero bit buf len = buf
flip_range (suc count) bit buf len = flip_range count (bit + 1) (flip_bit buf len bit) len

-- `inject_burst_error` with `burst_len` at least 0, from the value of `rand()`
unfoldable pub inject_burst_error : ℕ → List ℕ → ℕ → ℕ → List ℕ
inject_burst_error rand buf len burst_len =
    let total_bits = len * 8 in
    if (burst_len == 0) || ltb total_bits burst_len
    then buf
    else let max_start_bit = total_bits - burst_len in
      let start_bit = rand % (max_start_bit + 1) in
      let end_bit = start_bit + burst_len - 1 in
      let buf' = flip_bit (flip_bit buf len start_bit) len end_bit in
      flip_range (end_bit - (start_bit + 1)) (start_bit + 1) buf' len
