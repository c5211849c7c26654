-- ===== src/Lab1/Scheme.antt =====
-- lab1/scheme.c: the choice of an error-detection scheme.
pub mod Names
use Prim.Native.String.{String}
use text.Mathlib.Text.{◌==◌ as str_eq}
use network_lab.Prelude.{ℕ, ◌^◌, ◌%◌, Bool, Option, none, some, List, u16, if◌then◌else◌}
use network_lab.Lab1.Checksum.{checksum16_compute, checksum16_verify}
use network_lab.Lab1.Crc.{CrcGen, crc_compute, crc_verify}

-- `scheme_t`
pub data Scheme : Type 0 where
  checksum16 crc8 crc10 crc16 crc32 : Scheme

unfoldable pub crc_generator : Scheme → CrcGen
crc_generator crc8 = record { poly = 0xd5; degree = 8 }
crc_generator crc10 = record { poly = 0x233; degree = 10 }
crc_generator crc16 = record { poly = 0x8005; degree = 16 }
crc_generator crc32 = record { poly = 0x04c1_1db7; degree = 32 }
crc_generator checksum16 = record { poly = 0; degree = 0 }

-- `parse_scheme`; `none` is `exit(1)`.
pub parse_scheme : String → Option Scheme
parse_scheme s =
    if str_eq s "checksum"
    then some checksum16
    else if str_eq s "crc8"
    then some crc8
    else if str_eq s "crc10"
    then some crc10
    else if str_eq s "crc16"
    then some crc16
    else if str_eq s "crc32"
    then some crc32
    else none

unfoldable pub compute_fcs : Scheme → List ℕ → ℕ → Option ℕ
compute_fcs checksum16 buf len = checksum16_compute buf len
compute_fcs crc8 buf len = crc_compute buf len (crc_generator crc8)
compute_fcs crc10 buf len = crc_compute buf len (crc_generator crc10)
compute_fcs crc16 buf len = crc_compute buf len (crc_generator crc16)
compute_fcs crc32 buf len = crc_compute buf len (crc_generator crc32)

-- The checksum's verdict looks at the low 16 bits of what was received.
unfoldable pub verify_fcs : Scheme → List ℕ → ℕ → ℕ → Option Bool
verify_fcs checksum16 buf len received = checksum16_verify buf len (u16 received)
verify_fcs crc8 buf len received = crc_verify buf len (crc_generator crc8) received
verify_fcs crc10 buf len received = crc_verify buf len (crc_generator crc10) received
verify_fcs crc16 buf len received = crc_verify buf len (crc_generator crc16) received
verify_fcs crc32 buf len received = crc_verify buf len (crc_generator crc32) received
