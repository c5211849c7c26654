-- ===== src/Lab1/Frame/Detect.antt =====
-- A sealed frame passes its own check, and no single flipped bit gets past it.
use network_lab.Prelude.{
  ℕ, zero, suc, ◌+◌, ◌-◌, ◌*◌, ◌%◌, ◌≤◌, ◌<◌, ◌≡◌, ◌≢◌, refl, ap, sym, ◌∙◌, ◌⊎◌, inl, inr, true,
  false, List, [], ◌∷◌, drop, get_or, set, length, Bool-cases, ==_iff, ◌↔◌, length-set, arith,
}
use native.Mathlib.Decide.{dec_lt, ℕ_discrete}
use network_lab.Lab1.Checksum.Sum.{ones, total, IsBytes, compute-ones}
use network_lab.Lab1.Checksum.Laws.{residue-set, total-set_behind}
use network_lab.Lab1.Scheme.{compute_fcs}
use network_lab.Lab1.Inject.Flip.{set-IsBytes, get_or-set_self, get_or-byte}
use network_lab.Lab1.Frame.{of_bytes}
use network_lab.Lab1.Frame.Seal.{fcs_of, fcs_matches}

pub fcs_of-ones : (b : List ℕ) → IsBytes b → 62 ≤ length b → fcs_of b ≡ 65535 - ones (total b 61)
unfolding fcs_of compute_fcs
fcs_of-ones b h l = rw (compute-ones b 61 h l)

get_or-drop : (n : ℕ) (b : List ℕ) (j : ℕ) → get_or (drop n b) j 0 ≡ get_or b (n + j) 0
get_or-drop zero b j = ap (λ k. get_or b k 0) (omega arith)
get_or-drop (suc n) [] j = refl
get_or-drop (suc n) (x ∷ b) j =
    let e : suc n + j ≡ suc (n + j) = omega arith in rw e (get_or-drop n b j)

fcs_field :
    (b : List ℕ)
    → (of_bytes b).trailer.fcs
      ≡ get_or b 61 0 * 16777216 + get_or b 62 0 * 65536 + get_or b 63 0 * 256 + get_or b 64 0
unfolding of_bytes
fcs_field b = simp get_or-drop

get_or-set_ne : (b : List ℕ) (i j v : ℕ) → i ≢ j → get_or (set b i v) j 0 ≡ get_or b j 0
get_or-set_ne [] i j v ne = refl
get_or-set_ne (x ∷ b) zero zero v ne = absurd (ne refl)
get_or-set_ne (x ∷ b) zero (suc j) v ne = refl
get_or-set_ne (x ∷ b) (suc i) zero v ne = refl
get_or-set_ne (x ∷ b) (suc i) (suc j) v ne = get_or-set_ne b i j v (λ e. ne (ap suc e))

pub matches_iff : (b : List ℕ) → (fcs_matches b ≡ true) ↔ (fcs_of b ≡ (of_bytes b).trailer.fcs)
unfolding fcs_matches
matches_iff b = ==_iff (fcs_of b) (of_bytes b).trailer.fcs

-- The check fails where the two sequences differ.
matches_false : (b : List ℕ) → fcs_of b ≢ (of_bytes b).trailer.fcs → fcs_matches b ≡ false
matches_false b ne = elim (Bool-cases (fcs_matches b)) [
  | inl t ↦ absurd (ne ((matches_iff b).0 t))
  | inr f ↦ f
]

residue_of_ones : (t u : ℕ) → 65535 - ones t ≡ 65535 - ones u → t % 65535 ≡ u % 65535
residue_of_ones t u e = ground arith

ones-le : (t : ℕ) → ones t ≤ 65535
ones-le t = ground arith

-- Any one byte changed, in a frame whose check passes and whose byte 61 is zero.
module _ (b : List ℕ) (bytes : IsBytes b) (size : length b ≡ 65) (top : get_or b 61 0 ≡ 0)
    (passes : fcs_matches b ≡ true) (j v : ℕ) (fits : v < 256) (ne : v ≢ get_or b j 0) where
  expected : fcs_of (set b j v) ≡ 65535 - ones (total (set b j v) 61)
  expected =
      fcs_of-ones (set b j v) (set-IsBytes b j v bytes fits) (omega (arith, length-set b j v))

  before : 65535 - ones (total b 61) ≡ get_or b 62 0 * 65536 + get_or b 63 0 * 256 + get_or b 64 0
  before = omega (arith, (matches_iff b).0 passes, fcs_of-ones b bytes (omega arith), fcs_field b)

  in_words : j < 61 → fcs_of (set b j v) ≢ (of_bytes (set b j v)).trailer.fcs
  in_words h e = residue-set b 61 j v bytes (omega arith) (omega arith) fits ne (
      residue_of_ones _ _ (
        omega (
          arith,
          expected,
          before,
          e,
          fcs_field (set b j v),
          get_or-set_ne b j 61 v (omega arith),
          get_or-set_ne b j 62 v (omega arith),
          get_or-set_ne b j 63 v (omega arith),
          get_or-set_ne b j 64 v (omega arith),
        )))

  -- What is read at the changed index, and elsewhere.
  at_index : (k : ℕ) → j < 65 → j ≡ k → (get_or (set b j v) k 0 ≡ v) × (get_or b k 0 ≡ get_or b j 0)
  at_index k h e = (
    ap (λ m. get_or (set b j v) m 0) (sym e) ∙ get_or-set_self b j v (omega arith),
    ap (λ m. get_or b m 0) (sym e),
  )

  elsewhere : (k : ℕ) → (j ≡ k) ⊎ (get_or (set b j v) k 0 ≡ get_or b k 0)
  elsewhere k = elim (ℕ_discrete j k) [ yes e ↦ inl e | no d ↦ inr (get_or-set_ne b j k v d) ]

  at_top : j ≡ 61 → fcs_of (set b j v) ≢ (of_bytes (set b j v)).trailer.fcs
  at_top h e = ne (omega (arith, expected, e, fcs_field (set b j v), at_index 61 (omega arith) h))

  behind : 62 ≤ j → j < 65 → fcs_of (set b j v) ≢ (of_bytes (set b j v)).trailer.fcs
  behind h k e = ne (
      grind (
        arith,
        expected,
        before,
        e,
        total-set_behind b 61 j v (omega arith) (omega arith),
        fcs_field (set b j v),
        elsewhere 61,
        elsewhere 62,
        elsewhere 63,
        elsewhere 64,
        at_index 62 k,
        at_index 63 k,
        at_index 64 k,
        get_or-byte (set b j v) 63 (set-IsBytes b j v bytes fits),
        get_or-byte (set b j v) 64 (set-IsBytes b j v bytes fits),
        get_or-byte b 63 bytes,
        get_or-byte b 64 bytes,
        get_or-byte b 62 bytes,
      ))

  pub fcs_matches-set : j < 65 → fcs_matches (set b j v) ≡ false
  fcs_matches-set inside = matches_false (set b j v) (elim (dec_lt j 61) [
    | yes h ↦ in_words h
    | no h ↦ elim (dec_lt j 62) [
      | yes h' ↦ at_top (omega arith)
      | no h' ↦ behind (omega arith) inside
    ]
  ])
