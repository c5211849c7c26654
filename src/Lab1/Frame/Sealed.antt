-- ===== src/Lab1/Frame/Sealed.antt =====
-- What a receiver sees of a sealed frame: the frame itself, and nothing of it after a flipped bit.
use network_lab.Prelude.{
  ℕ, zero, suc, ◌+◌, ◌*◌, ◌/◌, ◌%◌, ◌^◌, ◌<◌, ◌≡◌, refl, ap, sym, ◌∙◌, true, false, List, [], ◌∷◌,
  ◌++◌, get_or, length, length-append, arith,
}
use network_lab.Lab1.Checksum.Sum.{ones, total}
use network_lab.Lab1.Inject.{flip_bit}
use network_lab.Lab1.Inject.Flip.{flip_bit-set}
use network_lab.Lab1.Frame.{Frame, IsFrame, be32, covered, to_bytes}
use network_lab.Lab1.Frame.Bytes.{to_bytes-IsBytes, length-covered, of_bytes-to_bytes}
use network_lab.Lab1.Frame.Seal.{fcs_of, seal, fcs_matches}
use network_lab.Lab1.Frame.Detect.{fcs_of-ones, matches_iff, fcs_matches-set}

pub length-to_bytes : {f : Frame} → IsFrame f → length (to_bytes f) ≡ 65
unfolding to_bytes
length-to_bytes {f} w =
    omega (arith, length-append (covered f) (be32 f.trailer.fcs), length-covered w)

get_or-append : (xs ys : List ℕ) (n : ℕ) → length xs ≡ n → get_or (xs ++ ys) n 0 ≡ get_or ys 0 0
get_or-append [] ys zero e = refl
get_or-append [] ys (suc n) e = absurd (omega arith)
get_or-append (x ∷ xs) ys zero e = absurd (omega arith)
get_or-append (x ∷ xs) ys (suc n) e = get_or-append xs ys n (omega arith)

byte61 : {f : Frame} → IsFrame f → f.trailer.fcs < 2 ^ 16 → get_or (to_bytes f) 61 0 ≡ 0
unfolding to_bytes
byte61 {f} w h = get_or-append (covered f) (be32 f.trailer.fcs) 61 (length-covered w) ∙ omega arith

-- The total of an odd number of bytes takes in one byte behind them, and no more.
total-append :
    (xs : List ℕ) (n y : ℕ) (ys zs : List ℕ)
    → length xs ≡ n
    → total (xs ++ (y ∷ ys)) n ≡ total (xs ++ (y ∷ zs)) n
total-append xs zero y ys zs e = refl
total-append [] (suc n) y ys zs e = absurd (omega arith)
total-append (x ∷ []) (suc zero) y ys zs e = refl
total-append (x ∷ []) (suc (suc n)) y ys zs e = absurd (omega arith)
total-append (x ∷ x' ∷ xs) (suc zero) y ys zs e = refl
total-append (x ∷ x' ∷ xs) (suc (suc n)) y ys zs e =
    ap (λ t. x * 256 + x' + t) (total-append xs n y ys zs (omega arith))

-- Below 2 ^ 16 the sequence itself does not enter the sum.
total-trailer :
    {f : Frame} (c : ℕ)
    → IsFrame f
    → f.trailer.fcs < 2 ^ 16
    → c < 2 ^ 16
    → total (to_bytes (record f { trailer = record { fcs = c } })) 61 ≡ total (to_bytes f) 61
unfolding to_bytes covered
total-trailer {f} c w h k = rw (new, old) (total-append (covered f) 61 0 _ _ (length-covered w))
  where
    new : c / 16777216 % 256 ≡ 0
    new = omega arith

    old : f.trailer.fcs / 16777216 % 256 ≡ 0
    old = omega arith

module _ {f : Frame} (w : IsFrame f) (blank : f.trailer.fcs ≡ 0) where
  pub fcs-lt : fcs_of (to_bytes f) < 2 ^ 16
  fcs-lt =
      omega
        (arith, fcs_of-ones (to_bytes f) (to_bytes-IsBytes w) (omega (arith, length-to_bytes w)))

  pub seal-IsFrame : IsFrame (seal f)
  unfolding seal
  seal-IsFrame = record {
    type_fits = w.type_fits;
    src_size = w.src_size;
    src_bytes = w.src_bytes;
    dest_size = w.dest_size;
    dest_bytes = w.dest_bytes;
    len_fits = w.len_fits;
    seq_fits = w.seq_fits;
    payload_size = w.payload_size;
    payload_bytes = w.payload_bytes;
    fcs_fits = omega (arith, fcs-lt);
  }

  pub fcs_of-seal : fcs_of (to_bytes (seal f)) ≡ fcs_of (to_bytes f)
  fcs_of-seal = omega (
    arith,
    fcs_of-ones (to_bytes f) (to_bytes-IsBytes w) (omega (arith, length-to_bytes w)),
    fcs_of-ones (to_bytes (seal f)) (to_bytes-IsBytes seal-IsFrame)
        (omega (arith, length-to_bytes seal-IsFrame)),
    ap ones same,
  )
    where
      same : total (to_bytes (seal f)) 61 ≡ total (to_bytes f) 61
      same = unfold seal in total-trailer (fcs_of (to_bytes f)) w (omega arith) fcs-lt

  -- A frame whose fields have their C widths and whose trailer is empty passes the receiver's
  -- comparison once it is sealed.
  pub fcs_matches-seal : fcs_matches (to_bytes (seal f)) ≡ true
  unfolding seal
  fcs_matches-seal =
      (matches_iff (to_bytes (seal f))).1
        (fcs_of-seal ∙ ap (λ g. g.trailer.fcs) (sym (of_bytes-to_bytes seal-IsFrame)))

  -- A frame whose fields have their C widths and whose trailer is empty, sealed and then changed in
  -- any one of its 520 bits, fails the receiver's comparison.
  pub fcs_matches-flip_bit :
      (i : ℕ) → i < 520 → fcs_matches (flip_bit (to_bytes (seal f)) 65 i) ≡ false
  fcs_matches-flip_bit i h =
      let (v, eq, ne, fits) =
        flip_bit-set (to_bytes (seal f)) i (to_bytes-IsBytes seal-IsFrame)
          (omega (arith, length-to_bytes seal-IsFrame)) in
      ap (λ n. fcs_matches (flip_bit (to_bytes (seal f)) n i)) (sym (length-to_bytes seal-IsFrame))
      ∙ ap fcs_matches eq
      ∙ fcs_matches-set (to_bytes (seal f)) (to_bytes-IsBytes seal-IsFrame)
          (length-to_bytes seal-IsFrame) (byte61 seal-IsFrame fcs-lt') fcs_matches-seal (i / 8) v
          fits ne (omega arith)
    where
      fcs-lt' : (seal f).trailer.fcs < 2 ^ 16
      fcs-lt' = unfold seal in fcs-lt
