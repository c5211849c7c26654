-- ===== src/Lab1/Inject/Burst.antt =====
-- lab1/error_inject/bit_flip.c: the flips of a burst, as a pattern in a buffer of zeros.
use network_lab.Prelude.{
  ℕ, zero, suc, ◌+◌, ◌-◌, ◌*◌, ◌/◌, ◌%◌, ◌≤◌, bit_xor, ◌<<<◌, ◌≡◌, refl, sym, ap, ◌∙◌, inl, inr,
  true, false, List, ◌∷◌, ◌++◌, length, length-replicate, replicate, replicate-add, get_or, set,
  ltb, ltb→lt, lt→ltb, arith, Bool-cases,
}
use network_lab.Lab1.Crc.Linear.{xor_bytes}
use network_lab.Lab1.Inject.{flip_bit, flip_range}
use network_lab.Lab1.Inject.Combined.{length-flip_bit, flip_bit-xor_bytes, flip_bit-append}

-- The flips of a burst of `burst_len` bits that starts at `start`.
unfoldable pub burst : ℕ → ℕ → List ℕ → ℕ → List ℕ
burst start burst_len buf len =
    flip_range (burst_len - 2) (start + 1)
      (flip_bit (flip_bit buf len start) len (start + (burst_len - 1))) len

get_or-behind : (q j : ℕ) (ys : List ℕ) → get_or (replicate q zero ++ ys) (q + j) 0 ≡ get_or ys j 0
get_or-behind zero j ys = let whole : 0 + j ≡ j = omega arith in ap (λ t. get_or ys t 0) whole
get_or-behind (suc q) j ys =
    let next : suc q + j ≡ suc (q + j) = omega arith in
    ap (λ t. get_or (0 ∷ (replicate q 0 ++ ys)) t 0) next ∙ get_or-behind q j ys

set-behind :
    (q j v : ℕ) (ys : List ℕ)
    → set (replicate q zero ++ ys) (q + j) v ≡ replicate q zero ++ set ys j v
set-behind zero j v ys = let whole : 0 + j ≡ j = omega arith in ap (λ t. set ys t v) whole
set-behind (suc q) j v ys =
    let next : suc q + j ≡ suc (q + j) = omega arith in
    ap (λ t. set (0 ∷ (replicate q 0 ++ ys)) t v) next ∙ ap (λ t. 0 ∷ t) (set-behind q j v ys)

-- A flip behind some zeros.
flip_bit-behind :
    (q : ℕ) (ys : List ℕ) (len i : ℕ)
    → flip_bit (replicate q 0 ++ ys) (q + len) (q * 8 + i) ≡ replicate q 0 ++ flip_bit ys len i
unfolding flip_bit
flip_bit-behind q ys len i =
    let byte : (q * 8 + i) / 8 ≡ q + i / 8 = omega arith in
    let bit : (q * 8 + i) % 8 ≡ i % 8 = omega arith in
    elim (Bool-cases (ltb (i / 8) len)) [
      | inl inside ↦
          let before = ltb→lt _ _ inside in
          let inside' : ltb (q + i / 8) (q + len) ≡ true = lt→ltb _ _ (omega arith) in
          rw (byte, bit, inside', inside)
            (ap (λ t. set (replicate q 0 ++ ys) (q + i / 8) (bit_xor t (1 <<< (i % 8))))
                (get_or-behind q (i / 8) ys)
              ∙ set-behind q (i / 8) _ ys)
      | inr outside ↦
          let outside' : ltb (q + i / 8) (q + len) ≡ false = ground arith in
          rw (byte, bit, outside', outside) refl
    ]

flip_range-behind :
    (count q : ℕ) (ys : List ℕ) (len i : ℕ)
    → flip_range count (q * 8 + i) (replicate q 0 ++ ys) (q + len)
      ≡ replicate q 0 ++ flip_range count i ys len
unfolding flip_range
flip_range-behind zero q ys len i = refl
flip_range-behind (suc count) q ys len i =
    let next : q * 8 + i + 1 ≡ q * 8 + (i + 1) = omega arith in
    ap (λ b. flip_range count (q * 8 + i + 1) b (q + len)) (flip_bit-behind q ys len i)
    ∙ ap (λ t. flip_range count t (replicate q 0 ++ flip_bit ys len i) (q + len)) next
    ∙ flip_range-behind count q (flip_bit ys len i) len (i + 1)

length-flip_range :
    (count bit : ℕ) (buf : List ℕ) (len : ℕ) → length (flip_range count bit buf len) ≡ length buf
unfolding flip_range
length-flip_range zero bit buf len = refl
length-flip_range (suc count) bit buf len =
    length-flip_range count (bit + 1) (flip_bit buf len bit) len ∙ length-flip_bit buf len bit

flip_range-xor_bytes :
    (count bit : ℕ) (xs ys : List ℕ) (len : ℕ)
    → length xs ≡ length ys
    → flip_range count bit (xor_bytes xs ys) len ≡ xor_bytes xs (flip_range count bit ys len)
unfolding flip_range
flip_range-xor_bytes zero bit xs ys len e = refl
flip_range-xor_bytes (suc count) bit xs ys len e =
    ap (λ b. flip_range count (bit + 1) b len) (flip_bit-xor_bytes xs ys len bit e)
    ∙ flip_range-xor_bytes count (bit + 1) xs (flip_bit ys len bit) len
        (e ∙ sym (length-flip_bit ys len bit))

flip_range-append :
    (count bit : ℕ) (xs ys : List ℕ) (len len' : ℕ)
    → bit + count ≤ length xs * 8
    → length xs ≤ len
    → length xs ≤ len'
    → flip_range count bit (xs ++ ys) len ≡ flip_range count bit xs len' ++ ys
unfolding flip_range
flip_range-append zero bit xs ys len len' h k l = refl
flip_range-append (suc count) bit xs ys len len' h k l =
    let same : length (flip_bit xs len' bit) ≡ length xs = length-flip_bit xs len' bit in
    ap (λ b. flip_range count (bit + 1) b len)
      (flip_bit-append xs ys len len' bit (omega arith) (omega arith) (omega arith))
    ∙ flip_range-append count (bit + 1) (flip_bit xs len' bit) ys len len' (omega arith)
        (omega arith) (omega arith)

module _ (start burst_len : ℕ) where
  pub length-burst : (buf : List ℕ) (len : ℕ) → length (burst start burst_len buf len) ≡ length buf
  unfolding burst
  length-burst buf len =
      length-flip_range (burst_len - 2) (start + 1) _ len
      ∙ length-flip_bit (flip_bit buf len start) len (start + (burst_len - 1))
      ∙ length-flip_bit buf len start

  pub burst-xor_bytes :
      (xs ys : List ℕ) (len : ℕ)
      → length xs ≡ length ys
      → burst start burst_len (xor_bytes xs ys) len ≡ xor_bytes xs (burst start burst_len ys len)
  unfolding burst
  burst-xor_bytes xs ys len e =
      let e' = e ∙ sym (length-flip_bit ys len start) in
      let last = start + (burst_len - 1) in
      let e'' = e' ∙ sym (length-flip_bit (flip_bit ys len start) len last) in
      ap (λ b. flip_range (burst_len - 2) (start + 1) (flip_bit b len last) len)
        (flip_bit-xor_bytes xs ys len start e)
      ∙ ap (λ b. flip_range (burst_len - 2) (start + 1) b len)
          (flip_bit-xor_bytes xs (flip_bit ys len start) len last e')
      ∙ flip_range-xor_bytes (burst_len - 2) (start + 1) xs _ len e''

  burst-append :
      (xs ys : List ℕ) (len len' : ℕ)
      → 2 ≤ burst_len
      → start + burst_len ≤ length xs * 8
      → length xs ≤ len
      → length xs ≤ len'
      → burst start burst_len (xs ++ ys) len ≡ burst start burst_len xs len' ++ ys
  unfolding burst
  burst-append xs ys len len' two h k l =
      let last = start + (burst_len - 1) in
      let one = length-flip_bit xs len' start in
      let both = length-flip_bit (flip_bit xs len' start) len' last in
      ap (λ b. flip_range (burst_len - 2) (start + 1) (flip_bit b len last) len)
        (flip_bit-append xs ys len len' start (omega arith) (omega arith) (omega arith))
      ∙ ap (λ b. flip_range (burst_len - 2) (start + 1) b len)
          (flip_bit-append (flip_bit xs len' start) ys len len' last (omega arith) (omega arith)
            (omega arith))
      ∙ flip_range-append (burst_len - 2) (start + 1) _ ys len len' (omega arith) (omega arith)
          (omega arith)

  burst-behind :
      (q : ℕ) (ys : List ℕ) (len : ℕ)
      → burst (q * 8 + start) burst_len (replicate q 0 ++ ys) (q + len)
        ≡ replicate q 0 ++ burst start burst_len ys len
  unfolding burst
  burst-behind q ys len =
      let last : q * 8 + start + (burst_len - 1) ≡ q * 8 + (start + (burst_len - 1)) =
        omega arith in
      let next : q * 8 + start + 1 ≡ q * 8 + (start + 1) = omega arith in
      rw
        (
          last,
          next,
          flip_bit-behind q ys len start,
          flip_bit-behind q (flip_bit ys len start) len (start + (burst_len - 1)),
          flip_range-behind (burst_len - 2) q
              (flip_bit (flip_bit ys len start) len (start + (burst_len - 1))) len (start + 1),
        )
        refl

  -- A burst among zeros: as many whole bytes of them as there is room for before it, and the rest
  -- behind the `width` bytes that it touches.
  abbrev pub spot : ℕ → List ℕ
  spot width = burst start burst_len (replicate width 0) width

  pub burst-zeros :
      (q width m : ℕ) (len : ℕ)
      → 2 ≤ burst_len
      → start + burst_len ≤ width * 8
      → q + width ≤ len
      → burst (q * 8 + start) burst_len (replicate (q + (width + m)) 0) len
        ≡ replicate q 0 ++ (spot width ++ replicate m 0)
  burst-zeros q width m len two inside room =
      let wide = length-replicate width zero in
      let all : q + (len - q) ≡ len = omega arith in
      ap (λ b. burst (q * 8 + start) burst_len b len)
        (replicate-add q (width + m) zero
          ∙ ap (λ t. replicate q 0 ++ t) (replicate-add width m zero))
      ∙ ap
          (λ t.
            burst (q * 8 + start) burst_len (replicate q 0 ++ (replicate width 0 ++ replicate m 0))
              t)
          (sym all)
      ∙ burst-behind q (replicate width 0 ++ replicate m 0) (len - q)
      ∙ ap (λ t. replicate q 0 ++ t)
          (burst-append (replicate width 0) (replicate m 0) (len - q) width two (omega arith)
            (omega arith) (omega arith))
