-- ===== src/Lab1/Target/Blind.antt =====
-- lab1/error_inject/targeted_inject.c: the checksum does not see the two flips.
use network_lab.Prelude.{
  ℕ, ◌+◌, ◌-◌, ◌*◌, ◌/◌, ◌%◌, ◌^◌, ◌≤◌, ◌<◌, ◌≡◌, ◌≢◌, refl, sym, ap, ◌∙◌, false, some, List,
  length, length-set, get_or, set, ltb, bit_xor, arith, bind-some, lt→ltb,
}
use mathlib.Core.Option.{some_inj}
use native.Mathlib.Nat.{one-mul}
use network_lab.Bits.{bit_xor-two_pow, bit_xor-digit}
use network_lab.Lab1.Checksum.{checksum16_compute}
use network_lab.Lab1.Checksum.Sum.{IsBytes, ones, total, compute-ones}
use network_lab.Lab1.Checksum.Laws.{weight, total-set}
use network_lab.Lab1.Inject.{flip_bit}
use network_lab.Lab1.Inject.Flip.{get_or-byte, set-IsBytes, get_or-set_self}
use network_lab.Lab1.Target.{
  byte_of, bit_in_byte, global_bit, bit_at, first_word, choose, inject_compensating_error,
}
use network_lab.Lab1.Target.Choice.{Chosen, choose-Chosen}
use network_lab.Lab1.Target.Column.{
  get_or-set_ne, byte_of-weight, same_weight, byte_of-ne, byte_of-lt, global_bit-parts,
  bit_in_byte-lt, weighed, cancelled,
}

-- The byte that a flip of column `c` in word `w` stores.
abbrev pub stored : List ℕ → ℕ → ℕ → ℕ
stored buf w c = bit_xor (get_or buf (byte_of w c) 0) (2 ^ bit_in_byte c)

-- A flip of column `c` in word `w`, in a buffer of bytes that reaches to the end of its last word.
module _ (len : ℕ) (buf : List ℕ) (w c : ℕ) (bytes : IsBytes buf)
    (reaches : len + len % 2 ≤ length buf) (inside : w < len / 2) (small : c < 16) where
  pub flip_bit-column : flip_bit buf len (global_bit w c) ≡ set buf (byte_of w c) (stored buf w c)
  unfolding flip_bit
  flip_bit-column =
      let (at, bit) = global_bit-parts w c small in
      rw
        (at, bit, lt→ltb (byte_of w c) len (byte_of-lt len w c inside), one-mul (2 ^ bit_in_byte c))
        refl

  pub stored_lem : (stored buf w c ≢ get_or buf (byte_of w c) 0) × (stored buf w c < 256)
  stored_lem =
      let (ne, fits, back) =
        bit_xor-two_pow (bit_in_byte c) (get_or buf (byte_of w c) 0) (bit_in_byte-lt c small)
          (get_or-byte buf (byte_of w c) bytes) in
      (ne, fits)

  -- The flip adds the column's value, or takes it away.
  total-column :
      (bit_at buf w c ≤ 1)
      × (total (set buf (byte_of w c) (stored buf w c)) len
            + bit_at buf w c * (2 ^ bit_in_byte c * weight (byte_of w c))
          ≡ total buf len + (1 - bit_at buf w c) * (2 ^ bit_in_byte c * weight (byte_of w c)))
  unfolding bit_at
  total-column =
      let fits = byte_of-lt len w c inside in
      let (le, e) =
        bit_xor-digit (bit_in_byte c) (get_or buf (byte_of w c) 0) (bit_in_byte-lt c small)
          (get_or-byte buf (byte_of w c) bytes) in
      (
        le,
        weighed (bit_at buf w c) _ _ _ _ _ le (byte_of-weight w c)
            (total-set buf len (byte_of w c) (stored buf w c) reaches (omega (arith, fits))) e,
      )

module _ (len : ℕ) (buf : List ℕ) (bytes : IsBytes buf) (reaches : len + len % 2 ≤ length buf)
    (w1 w2 c : ℕ) (chosen : Chosen (len / 2) buf (w1, w2, c)) where
  once : List ℕ
  once = set buf (byte_of w1 c) (stored buf w1 c)

  twice : List ℕ
  unfolding once
  twice = set once (byte_of w2 c) (stored once w2 c)

  once-IsBytes : IsBytes once
  unfolding once
  once-IsBytes =
      set-IsBytes buf (byte_of w1 c) (stored buf w1 c) bytes
        (stored_lem len buf w1 c bytes reaches chosen.0 chosen.3).1

  length-once : length once ≡ length buf
  unfolding once
  length-once = length-set buf (byte_of w1 c) (stored buf w1 c)

  once-reaches : len + len % 2 ≤ length once
  once-reaches = rw length-once reaches

  once-bit : bit_at once w2 c ≡ bit_at buf w2 c
  unfolding bit_at once
  once-bit =
      rw (get_or-set_ne buf (byte_of w1 c) (byte_of w2 c) _ (byte_of-ne w1 w2 c chosen.2)) refl

  flips-twice : flip_bit (flip_bit buf len (global_bit w1 c)) len (global_bit w2 c) ≡ twice
  unfolding twice once
  flips-twice =
      rw (flip_bit-column len buf w1 c bytes reaches chosen.0 chosen.3)
        (flip_bit-column len once w2 c once-IsBytes once-reaches chosen.1 chosen.3)

  twice-IsBytes : IsBytes twice
  unfolding twice
  twice-IsBytes =
      set-IsBytes once (byte_of w2 c) (stored once w2 c) once-IsBytes
        (stored_lem len once w2 c once-IsBytes once-reaches chosen.1 chosen.3).1

  length-twice : length twice ≡ length buf
  unfolding twice
  length-twice = length-set once (byte_of w2 c) (stored once w2 c) ∙ length-once

  -- Both flips together leave the total as it was.
  total-twice : total twice len ≡ total buf len
  unfolding twice once
  total-twice =
      let (le, e) = total-column len buf w1 c bytes reaches chosen.0 chosen.3 in
      let (le', e') =
        rw (once-bit, same_weight w2 w1 c) at
          (total-column len once w2 c once-IsBytes once-reaches chosen.1 chosen.3) in
      cancelled (bit_at buf w1 c) (bit_at buf w2 c) (2 ^ bit_in_byte c * weight (byte_of w1 c))
        (total buf len) (total once len) (total twice len) le le' chosen.4 e e'

  -- They change the buffer all the same.
  twice-ne : twice ≢ buf
  unfolding twice once
  twice-ne same = (stored_lem len buf w1 c bytes reaches chosen.0 chosen.3).0 (
      sym (
        get_or-set_self buf (byte_of w1 c) (stored buf w1 c)
          (omega (arith, byte_of-lt len w1 c chosen.0)))
      ∙ sym (
          get_or-set_ne once (byte_of w2 c) (byte_of w1 c) (stored once w2 c)
            (λ e. byte_of-ne w1 w2 c chosen.2 (sym e)))
      ∙ ap (λ b. get_or b (byte_of w1 c) 0) same)

  flips-compute :
      {changed : List ℕ}
      → flip_bit (flip_bit buf len (global_bit w1 c)) len (global_bit w2 c) ≡ changed
      → (changed ≢ buf) × (checksum16_compute changed len ≡ checksum16_compute buf len)
  flips-compute made =
      let is_twice = sym made ∙ flips-twice in
      (
        λ same. twice-ne (sym is_twice ∙ same),
        rw is_twice (
            compute-ones twice len twice-IsBytes (rw length-twice reaches)
            ∙ ap (λ t. some (65535 - ones t)) total-twice
            ∙ sym (compute-ones buf len bytes reaches)),
      )

  flips-IsBytes :
      {changed : List ℕ}
      → flip_bit (flip_bit buf len (global_bit w1 c)) len (global_bit w2 c) ≡ changed
      → IsBytes changed × (length changed ≡ length buf)
  flips-IsBytes made = rw (sym made ∙ flips-twice) (twice-IsBytes, length-twice)

-- Two complete words or more, in a buffer of bytes that reaches to the end of the last word, and any
-- results of `rand()`: when `inject_compensating_error` returns, it has changed the buffer, and the
-- checksum of the buffer is what it was before.
pub inject_compensating_error-compute :
    (rands buf : List ℕ) (len : ℕ) {changed : List ℕ}
    → 4 ≤ len
    → IsBytes buf
    → len + len % 2 ≤ length buf
    → inject_compensating_error rands buf len ≡ some changed
    → (changed ≢ buf) × (checksum16_compute changed len ≡ checksum16_compute buf len)
unfolding inject_compensating_error
inject_compensating_error-compute rands buf len {changed} enough bytes reaches e =
    let enters : ltb (len / 2) 2 ≡ false = ground arith in
    let ((w1, w2, c), picked, made) =
      bind-some (choose (len / 2) buf first_word rands) _ (rw enters at e) in
    flips-compute len buf bytes reaches w1 w2 c
      (choose-Chosen (len / 2) buf first_word rands (omega arith) tt picked) (some_inj.0 made)

-- The changed buffer is one of bytes, of the same length.
pub inject_compensating_error-IsBytes :
    (rands buf : List ℕ) (len : ℕ) {changed : List ℕ}
    → 4 ≤ len
    → IsBytes buf
    → len + len % 2 ≤ length buf
    → inject_compensating_error rands buf len ≡ some changed
    → IsBytes changed × (length changed ≡ length buf)
unfolding inject_compensating_error
inject_compensating_error-IsBytes rands buf len {changed} enough bytes reaches e =
    let enters : ltb (len / 2) 2 ≡ false = ground arith in
    let ((w1, w2, c), picked, made) =
      bind-some (choose (len / 2) buf first_word rands) _ (rw enters at e) in
    flips-IsBytes len buf bytes reaches w1 w2 c
      (choose-Chosen (len / 2) buf first_word rands (omega arith) tt picked) (some_inj.0 made)
