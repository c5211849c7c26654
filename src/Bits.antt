-- ===== src/Bits.antt =====
-- The bit operations that the C code uses, as arithmetic.
mod Digits
mod Fields
mod Flip
mod Xor
mod Low
pub use Digits.{bit_or-halves, bit_and-halves, bit_xor-halves, bit_xor-step, bit_xor-lt}
pub use Fields.{bit_or_fields, bit_and_mask}
pub use Flip.{bit_xor-two_pow, digit, bit_xor-digit}
pub use Xor.*
pub use Low.*
