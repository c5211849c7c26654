-- ===== src/Lab1/Target/Multiple.antt =====
-- lab1/error_inject/targeted_inject.c: a CRC does not see a multiple of its generator.
use network_lab.Prelude.{
  ℕ, zero, suc, ◌+◌, ◌-◌, ◌/◌, ◌≤◌, bit_xor, ◌≡◌, ◌≢◌, refl, sym, ap, ◌∙◌, false, some, List, [],
  ◌∷◌, ◌++◌, length, length-append, length-replicate, replicate-add, replicate, get_or, ltb, ◌==◌,
  arith, ==_iff,
}
use mathlib.Core.Bool.{false≢true}
use mathlib.Core.Option.{some_inj}
use network_lab.Bits.{bit_xor-zero, bit_xor-cancel}
use network_lab.Lab1.Crc.{CrcGen, crc_bit, crc_bits, crc_byte, crc_loop, crc_compute}
use network_lab.Lab1.Crc.Linear.{xor_bytes, crc_bits-zero, crc_byte-zero, crc_compute-xor_bytes}
use network_lab.Lab1.Scheme.{Scheme, checksum16, crc8, crc10, crc16, crc32, crc_generator}
use network_lab.Lab1.Inject.{flip_bit}
use network_lab.Lab1.Inject.Combined.{get_or-append, get_or-xor_bytes, xor_bytes-zeros}
use network_lab.Lab1.Target.Generator.{
  length-flip_generator, flip_generator-xor_bytes, flip_generator-append,
}
use network_lab.Lab1.Target.{
  generator_bit, bit_from_msb, flip_generator, inject_generator_multiple_error,
}

module _ (params : CrcGen) where
  crc_loop-zeros : (n m : ℕ) → n ≤ m → crc_loop params (replicate m 0) n 0 ≡ some 0
  unfolding crc_loop
  crc_loop-zeros zero m h = refl
  crc_loop-zeros (suc n) zero h = absurd (omega arith)
  crc_loop-zeros (suc n) (suc m) h = rw (crc_byte-zero params) (crc_loop-zeros n m (omega arith))

  -- A register that is empty behind a buffer stays so over zeros.
  crc_loop-padded :
      (xs : List ℕ) (n m c : ℕ)
      → length xs ≤ n
      → n ≤ length xs + m
      → crc_loop params xs (length xs) c ≡ some 0
      → crc_loop params (xs ++ replicate m 0) n c ≡ some 0
  unfolding crc_loop
  crc_loop-padded [] n m c h k e =
      let empty : c ≡ 0 = some_inj.0 e in rw empty (crc_loop-zeros n m (omega arith))
  crc_loop-padded (x ∷ xs) zero m c h k e = absurd (omega arith)
  crc_loop-padded (x ∷ xs) (suc n) m c h k e =
      crc_loop-padded xs n m (crc_byte params c x) (omega arith) (omega arith) e

  abbrev required : ℕ
  required = (params.degree + 8) / 8

  -- The pattern in an empty buffer that is just long enough.
  pattern_bytes : List ℕ
  pattern_bytes = flip_generator params (params.degree + 1) 0 (replicate required 0) required

  record IsMultiple : Type 0 where
    vanishes : crc_loop params pattern_bytes required 0 ≡ some 0
    starts : (get_or pattern_bytes 0 0 == 0) ≡ false

  module _ (multiple : IsMultiple) (buf : List ℕ) (len : ℕ) (enough : required ≤ len)
      (inside : len ≤ length buf) where
    error_bytes : List ℕ
    error_bytes = pattern_bytes ++ replicate (length buf - required) 0

    length-pattern_bytes : length pattern_bytes ≡ required
    unfolding pattern_bytes
    length-pattern_bytes =
        length-flip_generator params (params.degree + 1) 0 (replicate required 0) required
        ∙ length-replicate required zero

    length-error_bytes : length error_bytes ≡ length buf
    unfolding error_bytes
    length-error_bytes = omega (
      arith,
      length-append pattern_bytes (replicate (length buf - required) 0),
      length-pattern_bytes,
      length-replicate (length buf - required) zero,
    )

    changed-xor_bytes :
        flip_generator params (params.degree + 1) 0 buf len ≡ xor_bytes buf error_bytes
    unfolding error_bytes pattern_bytes
    changed-xor_bytes =
        ap (λ b. flip_generator params (params.degree + 1) 0 b len) (sym (xor_bytes-zeros buf))
        ∙ flip_generator-xor_bytes params (params.degree + 1) 0 buf (replicate (length buf) 0) len
            (sym (length-replicate (length buf) zero))
        ∙ ap (xor_bytes buf)
            (ap (λ b. flip_generator params (params.degree + 1) 0 b len) split ∙ inner)
      where
        split :
            replicate (length buf) zero
            ≡ replicate required 0 ++ replicate (length buf - required) 0
        split =
            ap (λ n. replicate n zero) (omega arith)
            ∙ replicate-add required (length buf - required) zero

        size : length (replicate required zero) ≡ required
        size = length-replicate required zero

        inner :
            flip_generator params
              (params.degree + 1)
              0
              (replicate required 0 ++ replicate (length buf - required) 0)
              len
            ≡ flip_generator params (params.degree + 1) 0 (replicate required 0) required
              ++ replicate (length buf - required) 0
        inner =
            flip_generator-append params (params.degree + 1) 0 (replicate required 0)
              (replicate (length buf - required) 0) len required (omega (arith, size))
              (omega (arith, size)) (omega (arith, size))

    error_bytes-vanishes : crc_compute error_bytes len params ≡ some 0
    unfolding crc_compute error_bytes
    error_bytes-vanishes =
        rw
          (crc_loop-padded pattern_bytes len (length buf - required) 0
            (omega (arith, length-pattern_bytes)) (omega (arith, length-pattern_bytes))
            (rw length-pattern_bytes multiple.vanishes))
          (ap some (crc_bits-zero params params.degree))

    crc_compute-changed :
        crc_compute (flip_generator params (params.degree + 1) 0 buf len) len params
        ≡ crc_compute buf len params
    crc_compute-changed =
        let (c, d, one, two, both) =
          crc_compute-xor_bytes params buf error_bytes len inside
            (omega (arith, length-error_bytes)) in
        let none_left : d ≡ 0 = some_inj.0 (sym two ∙ error_bytes-vanishes) in
        ap (λ b. crc_compute b len params) changed-xor_bytes
        ∙ both
        ∙ ap some (ap (bit_xor c) none_left ∙ bit_xor-zero c)
        ∙ sym one

    changed-ne : flip_generator params (params.degree + 1) 0 buf len ≢ buf
    changed-ne same =
        let none_set : get_or error_bytes 0 0 ≡ 0 =
          bit_xor-cancel (get_or buf 0 0) (get_or error_bytes 0 0) (
            sym (get_or-xor_bytes buf error_bytes 0 (sym length-error_bytes))
            ∙ ap (λ b. get_or b 0 0) (sym changed-xor_bytes ∙ same)) in
        false≢true (sym multiple.starts ∙ (==_iff _ _).1 (sym first_byte ∙ none_set))
      where
        first_byte : get_or error_bytes 0 0 ≡ get_or pattern_bytes 0 0
        first_byte =
            unfold error_bytes in
            get_or-append pattern_bytes (replicate (length buf - required) 0) 0
              (omega (arith, length-pattern_bytes))

-- The CRCs of lab1/scheme.c, which are all that the injection is used with.
abbrev pub IsCrc : Scheme → Type 0
IsCrc checksum16 = ⊥
IsCrc crc8 = Unit {0}
IsCrc crc10 = Unit {0}
IsCrc crc16 = Unit {0}
IsCrc crc32 = Unit {0}

generator-IsMultiple : (scheme : Scheme) → IsCrc scheme → IsMultiple (crc_generator scheme)
unfolding crc_generator pattern_bytes flip_generator generator_bit bit_from_msb flip_bit crc_loop
    crc_byte crc_bits crc_bit
generator-IsMultiple checksum16 crc = absurd crc
generator-IsMultiple crc8 crc = record { vanishes = refl; starts = refl }
generator-IsMultiple crc10 crc = record { vanishes = refl; starts = refl }
generator-IsMultiple crc16 crc = record { vanishes = refl; starts = refl }
generator-IsMultiple crc32 crc = record { vanishes = refl; starts = refl }

-- For each of the four CRCs and a length inside the buffer that holds the generator's `degree + 1`
-- bits: `inject_generator_multiple_error` changes the buffer, and its CRC over that length is what it
-- was before.
pub inject_generator_multiple_error-compute :
    (scheme : Scheme) (buf : List ℕ) (len : ℕ)
    → IsCrc scheme
    → ((crc_generator scheme).degree + 8) / 8 ≤ len
    → len ≤ length buf
    → (inject_generator_multiple_error buf len (crc_generator scheme) ≢ buf)
      × (crc_compute
            (inject_generator_multiple_error buf len (crc_generator scheme))
            len
            (crc_generator scheme)
          ≡ crc_compute buf len (crc_generator scheme))
unfolding inject_generator_multiple_error
inject_generator_multiple_error-compute scheme buf len crc enough inside =
    let room : ltb len (((crc_generator scheme).degree + 8) / 8) ≡ false = ground arith in
    let multiple = generator-IsMultiple scheme crc in
    rw room (
      changed-ne (crc_generator scheme) multiple buf len enough inside,
      crc_compute-changed (crc_generator scheme) multiple buf len enough inside,
    )
