-- ===== src/Lab1/Frame/Bytes.antt =====
-- lab1/frame.h: a frame and its bytes determine each other.
use network_lab.Prelude.{
  ℕ, zero, suc, ◌≡◌, refl, ap, List, [], ◌∷◌, ◌++◌, take, drop, replicate, length, length-append,
  arith,
}
use mathlib.Core.List.{append_assoc}
use network_lab.Lab1.Checksum.Sum.{IsBytes}
use network_lab.Lab1.Frame.{Frame, IsFrame, be16, be32, covered, to_bytes, of_bytes}

take-append {ℓ} : {A : Type ℓ} (xs ys : List A) (n : ℕ) → length xs ≡ n → take n (xs ++ ys) ≡ xs
take-append [] ys zero e = refl
take-append [] ys (suc n) e = absurd (omega arith)
take-append (x ∷ xs) ys zero e = absurd (omega arith)
take-append (x ∷ xs) ys (suc n) e = ap (λ l. x ∷ l) (take-append xs ys n (omega arith))

drop-append {ℓ} : {A : Type ℓ} (xs ys : List A) (n : ℕ) → length xs ≡ n → drop n (xs ++ ys) ≡ ys
drop-append [] ys zero e = refl
drop-append [] ys (suc n) e = absurd (omega arith)
drop-append (x ∷ xs) ys zero e = absurd (omega arith)
drop-append (x ∷ xs) ys (suc n) e = drop-append xs ys n (omega arith)

pub IsBytes-replicate : (n : ℕ) → IsBytes (replicate n 0)
IsBytes-replicate zero = tt
IsBytes-replicate (suc n) = (omega arith, IsBytes-replicate n)

pub IsBytes-drop : (n : ℕ) (xs : List ℕ) → IsBytes xs → IsBytes (drop n xs)
IsBytes-drop zero xs b = b
IsBytes-drop (suc n) [] b = tt
IsBytes-drop (suc n) (x ∷ xs) b = IsBytes-drop n xs b.1

pub IsBytes-take : (n : ℕ) (xs : List ℕ) → IsBytes xs → IsBytes (take n xs)
IsBytes-take zero xs b = tt
IsBytes-take (suc n) [] b = tt
IsBytes-take (suc n) (x ∷ xs) b = (b.0, IsBytes-take n xs b.1)

pub IsBytes-append : (xs ys : List ℕ) → IsBytes xs → IsBytes ys → IsBytes (xs ++ ys)
IsBytes-append [] ys hx hy = hy
IsBytes-append (x ∷ xs) ys hx hy = (hx.0, IsBytes-append xs ys hx.1 hy)

pub length-covered : {f : Frame} → IsFrame f → length (covered f) ≡ 61
unfolding covered
length-covered {f} w = omega (
  arith,
  w,
  length-append f.header.src_addr
      (f.header.dest_addr ++ (be16 f.header.frame_len ++ (be16 f.header.frame_seq ++ f.payload))),
  length-append f.header.dest_addr
      (be16 f.header.frame_len ++ (be16 f.header.frame_seq ++ f.payload)),
)

pub to_bytes-IsBytes : {f : Frame} → IsFrame f → IsBytes (to_bytes f)
unfolding to_bytes covered
to_bytes-IsBytes {f} w = (
  w.type_fits,
  IsBytes-append
      ((f.header.src_addr
        ++ (f.header.dest_addr
            ++ (be16 f.header.frame_len ++ (be16 f.header.frame_seq ++ f.payload)))))
      (be32 f.trailer.fcs)
      (IsBytes-append f.header.src_addr _ w.src_bytes (
        IsBytes-append f.header.dest_addr _ w.dest_bytes
          (omega arith, (omega arith, (omega arith, (omega arith, w.payload_bytes))))))
      (omega arith),
)

-- Reading the bytes of a frame whose fields have their C widths gives the frame back.
pub of_bytes-to_bytes : {f : Frame} → IsFrame f → of_bytes (to_bytes f) ≡ f
unfolding of_bytes to_bytes covered
of_bytes-to_bytes {f} w =
    simp (append_assoc, take-append, drop-append, w.src_size, w.dest_size, w.payload_size)
      (ground arith)
