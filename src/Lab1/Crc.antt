-- ===== src/Lab1/Crc.antt =====
-- lab1/error.c: the bitwise CRC.
pub mod Linear
pub mod Live
use network_lab.Prelude.{
  ℕ, zero, suc, ◌-◌, bit_and, bit_xor, Bool, Option, none, some, List, [], ◌∷◌, u32, ◌<<<◌, ◌==◌,
  if◌then◌else◌, ◌>>=◌,
}

-- `crc_gen`: the generator without its leading term, and its degree, which is at least 8.
pub record CrcGen : Type 0 where
  pub poly : ℕ
  pub degree : ℕ

pub msb_mask : CrcGen → ℕ
msb_mask params = 1 <<< (params.degree - 1)

pub reg_mask : CrcGen → ℕ
reg_mask params = if params.degree == 32 then 0xffff_ffff else (1 <<< params.degree) - 1

-- One bit through the register.
unfoldable pub crc_bit : CrcGen → ℕ → ℕ
unfolding msb_mask
crc_bit params crc =
    if bit_and crc (msb_mask params) == 0
    then u32 (crc <<< 1)
    else bit_xor (u32 (crc <<< 1)) params.poly

unfoldable pub crc_bits : CrcGen → ℕ → ℕ → ℕ
unfolding crc_bit
crc_bits params zero crc = crc
crc_bits params (suc n) crc = crc_bits params n (crc_bit params crc)

-- One byte through the register.
unfoldable pub crc_byte : CrcGen → ℕ → ℕ → ℕ
unfolding crc_bits reg_mask
crc_byte params crc byte =
    let aligned = bit_xor crc (u32 (byte <<< (params.degree - 8))) in
    bit_and (crc_bits params 8 aligned) (reg_mask params)

-- The loop over the bytes: the list is `data + i`, the count is `len - i`.
unfoldable pub crc_loop : CrcGen → List ℕ → ℕ → ℕ → Option ℕ
unfolding crc_byte
crc_loop params buf zero crc = some crc
crc_loop params [] (suc n) crc = none
crc_loop params (byte ∷ buf) (suc n) crc = crc_loop params buf n (crc_byte params crc byte)

-- The last loop pushes `degree` more bits through, and does not mask the register.
unfoldable pub crc_compute : List ℕ → ℕ → CrcGen → Option ℕ
unfolding crc_loop
crc_compute buf len params = do
  crc ← crc_loop params buf len 0
  some (crc_bits params params.degree crc)

unfoldable pub crc_verify : List ℕ → ℕ → CrcGen → ℕ → Option Bool
unfolding crc_compute
crc_verify buf len generator rec_crc = do
  crc_cal ← crc_compute buf len generator
  some (crc_cal == rec_crc)
