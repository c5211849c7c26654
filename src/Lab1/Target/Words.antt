-- ===== src/Lab1/Target/Words.antt =====
-- lab1/error_inject/targeted_inject.c: a flip of a column, as a change of the 16-bit number that a word
-- of the buffer stands for.
use network_lab.Prelude.{
  ℕ, zero, suc, ◌+◌, ◌-◌, ◌*◌, ◌/◌, ◌%◌, ◌^◌, ◌≤◌, ◌<◌, ◌≡◌, ◌≢◌, refl, sym, ◌∙◌, inl, inr, false,
  List, length, get_or, set, ltb, ◌==◌, bit_xor, if◌then◌else◌, arith, Bool-cases, ==_iff,
}
use network_lab.Bits.{bit_and_mask, bit_xor-digit, digit}
use network_lab.Lab1.Checksum.Sum.{IsBytes}
use network_lab.Lab1.Inject.Flip.{get_or-byte, get_or-set_self}
use network_lab.Lab1.Target.{byte_of, bit_in_byte, bit_at}
use network_lab.Lab1.Target.Column.{get_or-set_ne}
use network_lab.Lab1.Target.Blind.{stored}

-- Word `w` of the buffer, its high byte first.
abbrev pub word : List ℕ → ℕ → ℕ
word buf w = get_or buf (2 * w) 0 * 256 + get_or buf (2 * w + 1) 0

-- Column `c` of a word, and the word with that column inverted.
abbrev pub column_of : ℕ → ℕ → ℕ
column_of c x = x / 2 ^ c % 2

abbrev pub invert : ℕ → ℕ → ℕ
invert c x = if column_of c x == 1 then x - 2 ^ c else x + 2 ^ c

column_of-low : (c hi lo : ℕ) → c < 8 → column_of c (hi * 256 + lo) ≡ lo / 2 ^ c % 2
column_of-low zero hi lo h = omega arith
column_of-low (suc zero) hi lo h = omega arith
column_of-low (suc (suc zero)) hi lo h = omega arith
column_of-low (suc (suc (suc zero))) hi lo h = omega arith
column_of-low (suc (suc (suc (suc zero)))) hi lo h = omega arith
column_of-low (suc (suc (suc (suc (suc zero))))) hi lo h = omega arith
column_of-low (suc (suc (suc (suc (suc (suc zero)))))) hi lo h = omega arith
column_of-low (suc (suc (suc (suc (suc (suc (suc zero))))))) hi lo h = omega arith
column_of-low (suc (suc (suc (suc (suc (suc (suc (suc c)))))))) hi lo h = absurd (omega arith)

-- The columns from 8 on, as `8 + k`.
column_of-high :
    (k hi lo : ℕ) → k < 8 → lo < 256 → column_of (8 + k) (hi * 256 + lo) ≡ hi / 2 ^ k % 2
column_of-high zero hi lo h small = omega arith
column_of-high (suc zero) hi lo h small = omega arith
column_of-high (suc (suc zero)) hi lo h small = omega arith
column_of-high (suc (suc (suc zero))) hi lo h small = omega arith
column_of-high (suc (suc (suc (suc zero)))) hi lo h small = omega arith
column_of-high (suc (suc (suc (suc (suc zero))))) hi lo h small = omega arith
column_of-high (suc (suc (suc (suc (suc (suc zero)))))) hi lo h small = omega arith
column_of-high (suc (suc (suc (suc (suc (suc (suc zero))))))) hi lo h small = omega arith
column_of-high (suc (suc (suc (suc (suc (suc (suc (suc k)))))))) hi lo h small =
    absurd (omega arith)

two_pow-high : (k : ℕ) → k < 8 → 2 ^ (8 + k) ≡ 2 ^ k * 256
two_pow-high zero h = omega arith
two_pow-high (suc zero) h = omega arith
two_pow-high (suc (suc zero)) h = omega arith
two_pow-high (suc (suc (suc zero))) h = omega arith
two_pow-high (suc (suc (suc (suc zero)))) h = omega arith
two_pow-high (suc (suc (suc (suc (suc zero))))) h = omega arith
two_pow-high (suc (suc (suc (suc (suc (suc zero)))))) h = omega arith
two_pow-high (suc (suc (suc (suc (suc (suc (suc zero))))))) h = omega arith
two_pow-high (suc (suc (suc (suc (suc (suc (suc (suc k)))))))) h = absurd (omega arith)

digit_lem : (k x : ℕ) → digit k x ≡ x / 2 ^ k % 2
digit_lem k x = bit_and_mask 1 (x / 2 ^ k)

-- A flip of a digit with value `b` in one of the two bytes, which weighs `w`.
inverted :
    (b p x x' : ℕ) → b ≤ 1 → x' + b * p ≡ x + (1 - b) * p → x' ≡ (if b == 1 then x - p else x + p)
inverted zero p x x' le e = omega (arith, e)
inverted (suc zero) p x x' le e = omega (arith, e)
inverted (suc (suc b)) p x x' le e = absurd (omega arith)

inverted-high :
    (b p hi hi' lo : ℕ)
    → b ≤ 1
    → hi' + b * p ≡ hi + (1 - b) * p
    → hi' * 256 + lo + b * (p * 256) ≡ hi * 256 + lo + (1 - b) * (p * 256)
inverted-high zero p hi hi' lo le e = omega (arith, e)
inverted-high (suc zero) p hi hi' lo le e = omega (arith, e)
inverted-high (suc (suc b)) p hi hi' lo le e = absurd (omega arith)

invert-low :
    (k hi lo lo' : ℕ)
    → k < 8
    → digit k lo ≤ 1
    → lo' + digit k lo * 2 ^ k ≡ lo + (1 - digit k lo) * 2 ^ k
    → hi * 256 + lo' ≡ invert k (hi * 256 + lo)
invert-low k hi lo lo' h le e =
    rw (column_of-low k hi lo h ∙ sym (digit_lem k lo))
      (inverted (digit k lo) (2 ^ k) (hi * 256 + lo) (hi * 256 + lo') le (omega (arith, e)))

invert-high :
    (k hi lo hi' : ℕ)
    → k < 8
    → lo < 256
    → digit k hi ≤ 1
    → hi' + digit k hi * 2 ^ k ≡ hi + (1 - digit k hi) * 2 ^ k
    → hi' * 256 + lo ≡ invert (8 + k) (hi * 256 + lo)
invert-high k hi lo hi' h small le e =
    rw (column_of-high k hi lo h small ∙ sym (digit_lem k hi), two_pow-high k h)
      (inverted (digit k hi) (2 ^ k * 256) (hi * 256 + lo) (hi' * 256 + lo) le
        (inverted-high (digit k hi) (2 ^ k) hi hi' lo le e))

-- One flip, in a buffer of bytes.
module _ (buf : List ℕ) (v c : ℕ) (bytes : IsBytes buf) (inside : 2 * v + 1 < length buf)
    (small : c < 16) where
  pub bit_at-column_of : bit_at buf v c ≡ column_of c (word buf v)
  unfolding bit_at byte_of bit_in_byte
  bit_at-column_of = elim (Bool-cases (ltb c 8)) [
    | inl low ↦ rw low (
        digit_lem c (get_or buf (2 * v + 1) 0)
        ∙ sym (column_of-low c (get_or buf (2 * v) 0) (get_or buf (2 * v + 1) 0) (ground arith)))
    | inr high ↦
        let e : 8 + (c - 8) ≡ c = ground arith in
        rw high (
          digit_lem (c - 8) (get_or buf (2 * v) 0)
          ∙ sym (
              rw e at (
                column_of-high (c - 8) (get_or buf (2 * v) 0) (get_or buf (2 * v + 1) 0)
                  (omega arith) (get_or-byte buf (2 * v + 1) bytes))))
  ]

  word-set_self : word (set buf (byte_of v c) (stored buf v c)) v ≡ invert c (word buf v)
  unfolding byte_of bit_in_byte
  word-set_self = elim (Bool-cases (ltb c 8)) [
    | inl low ↦
        let digits = bit_xor-digit c lo (ground arith) (get_or-byte buf (2 * v + 1) bytes) in
        rw
          (
            low,
            get_or-set_ne buf (2 * v + 1) (2 * v) (bit_xor lo (2 ^ c))
                (λ e. absurd (omega (arith, e))),
            get_or-set_self buf (2 * v + 1) (bit_xor lo (2 ^ c)) inside,
          )
          (invert-low c hi lo (bit_xor lo (2 ^ c)) (ground arith) digits.0 digits.1)
    | inr high ↦
        let e : 8 + (c - 8) ≡ c = ground arith in
        let digits = bit_xor-digit (c - 8) hi (omega arith) (get_or-byte buf (2 * v) bytes) in
        rw
          (
            high,
            get_or-set_ne buf (2 * v) (2 * v + 1) (bit_xor hi (2 ^ (c - 8)))
                (λ e. absurd (omega (arith, e))),
            get_or-set_self buf (2 * v) (bit_xor hi (2 ^ (c - 8))) (omega arith),
          )
          (rw e at (
            invert-high (c - 8) hi lo (bit_xor hi (2 ^ (c - 8))) (omega arith)
              (get_or-byte buf (2 * v + 1) bytes) digits.0 digits.1))
  ]
    where
      hi : ℕ
      hi = get_or buf (2 * v) 0

      lo : ℕ
      lo = get_or buf (2 * v + 1) 0

  word-set_ne : (w x : ℕ) → (w == v) ≡ false → word (set buf (byte_of v c) x) w ≡ word buf w
  unfolding byte_of
  word-set_ne w x ne =
      let apart : w ≢ v = ground arith in
      elim (Bool-cases (ltb c 8)) [
        | inl low ↦
            rw
              (
                low,
                get_or-set_ne buf (2 * v + 1) (2 * w) x (λ e. absurd (omega (arith, e))),
                get_or-set_ne buf (2 * v + 1) (2 * w + 1) x (λ e. apart (omega (arith, e))),
              )
              refl
        | inr high ↦
            rw
              (
                high,
                get_or-set_ne buf (2 * v) (2 * w) x (λ e. apart (omega (arith, e))),
                get_or-set_ne buf (2 * v) (2 * w + 1) x (λ e. absurd (omega (arith, e))),
              )
              refl
      ]

  -- The flip inverts the column in one word, and leaves the others.
  pub word-set :
      (w : ℕ)
      → word (set buf (byte_of v c) (stored buf v c)) w
        ≡ (if w == v then invert c (word buf v) else word buf w)
  word-set w = elim (Bool-cases (w == v)) [
    | inl e ↦ rw e (rw ((==_iff w v).0 e) word-set_self)
    | inr e ↦ rw e (word-set_ne w (stored buf v c) e)
  ]
