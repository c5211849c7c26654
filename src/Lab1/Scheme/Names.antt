-- ===== src/Lab1/Scheme/Names.antt =====
-- lab1/perf_analysis/perf_analyzer.c names the schemes that lab1/scheme.c parses.
use Prim.Native.String.{String}
use text.Mathlib.TextEquality.{eq_iff}
use network_lab.Prelude.{◌≡◌, ◌↔◌, refl, some, arith}
use network_lab.Lab1.Scheme.{Scheme, checksum16, crc8, crc10, crc16, crc32, parse_scheme}

unfoldable pub scheme_name_str : Scheme → String
scheme_name_str checksum16 = "checksum"
scheme_name_str crc8 = "crc8"
scheme_name_str crc10 = "crc10"
scheme_name_str crc16 = "crc16"
scheme_name_str crc32 = "crc32"

named : (name : String) (s : Scheme) → parse_scheme name ≡ some s → name ≡ scheme_name_str s
unfolding parse_scheme scheme_name_str
named name s e = ground (
  arith,
  eq_iff name "checksum",
  eq_iff name "crc8",
  eq_iff name "crc10",
  eq_iff name "crc16",
  eq_iff name "crc32",
)

parsed : (s : Scheme) → parse_scheme (scheme_name_str s) ≡ some s
unfolding parse_scheme scheme_name_str
parsed checksum16 = refl
parsed crc8 = refl
parsed crc10 = refl
parsed crc16 = refl
parsed crc32 = refl

-- `parse_scheme` reads a string as a scheme exactly when it is the name that `scheme_name_str` prints
-- for that scheme.
pub parse_scheme-scheme_name_str_iff :
    (name : String) (s : Scheme) → (parse_scheme name ≡ some s) ↔ (name ≡ scheme_name_str s)
parse_scheme-scheme_name_str_iff name s = (named name s, λ e. rw e (parsed s))
