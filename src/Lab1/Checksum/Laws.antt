-- ===== src/Lab1/Checksum/Laws.antt =====
-- lab1/error.c: what `checksum16_verify` accepts, and what it notices.
use network_lab.Prelude.{
  ℕ, zero, suc, ◌+◌, ◌-◌, ◌*◌, ◌%◌, ◌^◌, ◌≤◌, ◌<◌, ◌≡◌, ◌≢◌, refl, ap, ◌↔◌, ◌⊎◌, true, false, some,
  List, [], ◌∷◌, arith, length, get_or, set, length-set, sym,
}
use native.Mathlib.Decide.{dec_lt}
use network_lab.Lab1.Checksum.{checksum16_compute, checksum16_verify}
use network_lab.Lab1.Checksum.Sum.{total, IsBytes, compute-ones, verify-ones}
use network_lab.Lab1.Inject.Flip.{get_or-byte, set-IsBytes}

-- For a buffer of bytes that reaches to the end of the last word, a 16-bit checksum is accepted
-- exactly when it is the one that `checksum16_compute` gives, or when it is 0xFFFF where that gives
-- 0: one's complement has two zeros.
pub verify_iff :
    (buf : List ℕ) (len received : ℕ)
    → IsBytes buf
    → len + len % 2 ≤ length buf
    → received < 2 ^ 16
    → (checksum16_verify buf len received ≡ some true) ↔ (
        (checksum16_compute buf len ≡ some received)
        ⊎ ((checksum16_compute buf len ≡ some 0) × (received ≡ 0xffff)))
verify_iff buf len received b h r =
    ground (arith, compute-ones buf len b h, verify-ones buf len received b h r)

-- The weight of the byte at an index: high bytes come first.
abbrev pub weight : ℕ → ℕ
weight zero = 256
weight (suc zero) = 1
weight (suc (suc j)) = weight j

weight_bounds : (j : ℕ) → (1 ≤ weight j) × (weight j ≤ 256)
weight_bounds zero = omega arith
weight_bounds (suc zero) = omega arith
weight_bounds (suc (suc j)) = weight_bounds j

-- A byte inside the summed words enters the total with its weight.
pub total-set :
    (buf : List ℕ) (len j v : ℕ)
    → len + len % 2 ≤ length buf
    → j < len + len % 2
    → total (set buf j v) len + get_or buf j 0 * weight j ≡ total buf len + v * weight j
total-set buf zero j v h k = absurd (omega arith)
total-set [] (suc n) j v h k = absurd (omega arith)
total-set (x ∷ []) (suc n) j v h k = absurd (omega arith)
total-set (x ∷ y ∷ buf) (suc zero) zero v h k = omega arith
total-set (x ∷ y ∷ buf) (suc zero) (suc zero) v h k = omega arith
total-set (x ∷ y ∷ buf) (suc zero) (suc (suc j)) v h k = absurd (omega arith)
total-set (x ∷ y ∷ buf) (suc (suc n)) zero v h k = omega arith
total-set (x ∷ y ∷ buf) (suc (suc n)) (suc zero) v h k = omega arith
total-set (x ∷ y ∷ buf) (suc (suc n)) (suc (suc j)) v h k =
    omega (arith, total-set buf n j v (omega arith) (omega arith))

-- A byte behind the summed words does not enter it.
pub total-set_behind :
    (buf : List ℕ) (len j v : ℕ)
    → len + len % 2 ≤ length buf
    → len + len % 2 ≤ j
    → total (set buf j v) len ≡ total buf len
total-set_behind buf zero j v h k = refl
total-set_behind [] (suc n) j v h k = absurd (omega arith)
total-set_behind (x ∷ []) (suc n) j v h k = absurd (omega arith)
total-set_behind (x ∷ y ∷ buf) (suc n) zero v h k = absurd (omega arith)
total-set_behind (x ∷ y ∷ buf) (suc n) (suc zero) v h k = absurd (omega arith)
total-set_behind (x ∷ y ∷ buf) (suc zero) (suc (suc j)) v h k = refl
total-set_behind (x ∷ y ∷ buf) (suc (suc n)) (suc (suc j)) v h k =
    omega (arith, total-set_behind buf n j v (omega arith) (omega arith))

-- Totals that differ by less than 65535 have different residues.
residue-near : (t u d : ℕ) → u ≡ t + d → 0 < d → d < 65535 → t % 65535 ≢ u % 65535
residue-near t u d e p q = omega arith

-- The larger of two bytes has the larger weighted value, by less than 65535.
weighed :
    (x y w : ℕ)
    → x < y
    → y < 256
    → 1 ≤ w
    → w ≤ 256
    → (d : ℕ) × (y * w ≡ x * w + d) × (0 < d) × (d < 65535)
weighed x y w h k p q =
    ((y - x) * w, omega (arith, split), pos (y - x) (omega arith), small (y - x) (omega arith))
  where
    pos : (d : ℕ) → 0 < d → 0 < d * w
    pos d e = grind arith

    small : (d : ℕ) → d ≤ 255 → d * w < 65535
    small d e = grind arith

    split : y * w ≡ (x + (y - x)) * w
    split = ap (λ (t : ℕ). t * w) (omega arith)

residue-reweigh :
    (t u x y w : ℕ)
    → u + x * w ≡ t + y * w
    → x ≢ y
    → x < 256
    → y < 256
    → 1 ≤ w
    → w ≤ 256
    → u % 65535 ≢ t % 65535
residue-reweigh t u x y w e ne hx hy p q = elim (dec_lt x y) [
  | yes below ↦
      let (d, eq, pos, small) = weighed x y w below hy p q in
      λ same. residue-near t u d (omega arith) pos small (sym same)
  | no above ↦
      let (d, eq, pos, small) = weighed y x w (omega arith) hx p q in
      residue-near u t d (omega arith) pos small
]

-- Changing one byte of the words changes the sum, also up to the two zeros.
pub residue-set :
    (buf : List ℕ) (len j v : ℕ)
    → IsBytes buf
    → len + len % 2 ≤ length buf
    → j < len + len % 2
    → v < 256
    → v ≢ get_or buf j 0
    → total (set buf j v) len % 65535 ≢ total buf len % 65535
residue-set buf len j v b h k small ne =
    residue-reweigh (total buf len) (total (set buf j v) len) (get_or buf j 0) v (weight j)
      (total-set buf len j v h k) (λ e. ne (sym e)) (get_or-byte buf j b) small (weight_bounds j).0
      (weight_bounds j).1

compute-lt :
    (buf : List ℕ) (len : ℕ) {c : ℕ}
    → IsBytes buf
    → len + len % 2 ≤ length buf
    → checksum16_compute buf len ≡ some c
    → c < 2 ^ 16
compute-lt buf len b h e = ground (arith, compute-ones buf len b h)

-- A buffer of bytes that reaches to the end of the last word, in which one of the summed bytes is
-- replaced by another byte, does not pass with the checksum of the original.
pub verify-set :
    (buf : List ℕ) (len j v c : ℕ)
    → IsBytes buf
    → len + len % 2 ≤ length buf
    → j < len + len % 2
    → v < 256
    → v ≢ get_or buf j 0
    → checksum16_compute buf len ≡ some c
    → checksum16_verify (set buf j v) len c ≡ some false
verify-set buf len j v c b h k small ne e = ground (
  arith,
  compute-ones buf len b h,
  verify-ones (set buf j v) len c (set-IsBytes buf j v b small) (rw (length-set buf j v) h)
      (compute-lt buf len b h e),
  residue-set buf len j v b h k small ne,
)
