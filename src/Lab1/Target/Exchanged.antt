-- ===== src/Lab1/Target/Exchanged.antt =====
-- lab1/error_inject/targeted_inject.c: what the two flips do to the words of the buffer.
use network_lab.Prelude.{
  ℕ, ◌+◌, ◌/◌, ◌%◌, ◌≤◌, ◌<◌, ◌≡◌, ◌≢◌, sym, ap, ◌∙◌, some, List, ◌∷◌, length, length-set, set,
  ◌==◌, ◌||◌, if◌then◌else◌, arith,
}
use network_lab.Lab1.Checksum.Sum.{IsBytes}
use network_lab.Lab1.Inject.{flip_bit}
use network_lab.Lab1.Inject.Flip.{set-IsBytes}
use network_lab.Lab1.Target.{byte_of, global_bit, bit_at, inject_compensating_error}
use network_lab.Lab1.Target.Choice.{inject_compensating_error-at_once}
use network_lab.Lab1.Target.Blind.{stored, stored_lem, flip_bit-column}
use network_lab.Lab1.Target.Words.{word, column_of, invert, bit_at-column_of, word-set}

-- Two values changed one after the other, each by its own step.
two_changed :
    (change before between behind : ℕ → ℕ) (w1 w2 w : ℕ)
    → w1 ≢ w2
    → between w ≡ (if w == w1 then change (before w1) else before w)
    → between w2 ≡ (if w2 == w1 then change (before w1) else before w2)
    → behind w ≡ (if w == w2 then change (between w2) else between w)
    → behind w ≡ (if (w == w1) || (w == w2) then change (before w) else before w)
two_changed change before between behind w1 w2 w ne first first2 second = ground arith

-- Two complete words or more, in a buffer of bytes that reaches to the end of the last word: when
-- `rand()` gives two different words and a column in which they differ, `inject_compensating_error`
-- returns at once. The 16-bit number that each of these two words stands for, its high byte first,
-- has lost the value of the column where it had it and gained it where it had not, every other word
-- is what it was, and the length is the same.
pub inject_compensating_error-returns :
    (buf : List ℕ) (len w1 w2 c : ℕ) (rands : List ℕ)
    → 4 ≤ len
    → IsBytes buf
    → len + len % 2 ≤ length buf
    → w1 < len / 2
    → w2 < len / 2
    → w1 ≢ w2
    → c < 16
    → column_of c (word buf w1) ≢ column_of c (word buf w2)
    → (changed : List ℕ) × (inject_compensating_error (w1 ∷ w2 ∷ c ∷ rands) buf len ≡ some changed)
      × (length changed ≡ length buf)
      × ((w : ℕ)
          → word changed w ≡ (if (w == w1) || (w == w2) then invert c (word buf w) else word buf w))
inject_compensating_error-returns buf len w1 w2 c rands enough bytes reaches in1 in2 ne small
      differ =
    (twice, returns, sizes, words)
  where
    once : List ℕ
    once = set buf (byte_of w1 c) (stored buf w1 c)

    twice : List ℕ
    twice = set once (byte_of w2 c) (stored once w2 c)

    once-IsBytes : IsBytes once
    once-IsBytes =
        set-IsBytes buf (byte_of w1 c) (stored buf w1 c) bytes
          (stored_lem len buf w1 c bytes reaches in1 small).1

    length-once : length once ≡ length buf
    length-once = length-set buf (byte_of w1 c) (stored buf w1 c)

    sizes : length twice ≡ length buf
    sizes = length-set once (byte_of w2 c) (stored once w2 c) ∙ length-once

    differ_bits : bit_at buf w1 c ≢ bit_at buf w2 c
    differ_bits e = differ (
        sym (bit_at-column_of buf w1 c bytes (omega arith) small)
        ∙ e
        ∙ bit_at-column_of buf w2 c bytes (omega arith) small)

    returns : inject_compensating_error (w1 ∷ w2 ∷ c ∷ rands) buf len ≡ some twice
    returns =
        inject_compensating_error-at_once buf len w1 w2 c rands enough
          (in1, in2, ne, small, differ_bits)
        ∙ ap some (
            ap (λ b. flip_bit b len (global_bit w2 c))
              (flip_bit-column len buf w1 c bytes reaches in1 small)
            ∙ flip_bit-column len once w2 c once-IsBytes (rw length-once reaches) in2 small)

    words :
        (w : ℕ)
        → word twice w ≡ (if (w == w1) || (w == w2) then invert c (word buf w) else word buf w)
    words w =
        let first = word-set buf w1 c bytes (omega arith) small in
        let second = word-set once w2 c once-IsBytes (omega (arith, length-once)) small in
        two_changed (invert c) (word buf) (word once) (word twice) w1 w2 w ne (first w) (first w2)
          (second w)
