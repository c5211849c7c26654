-- ===== src/Utils/Transfer.antt =====
-- utils/utils.c: what `recv_all` takes from a stream that `read` hands over in pieces.
use mathlib.Core.List.{append_assoc}
use network_lab.Prelude.{
  ℕ, ◌+◌, ◌≤◌, ◌<◌, ◌≡◌, inl, inr, refl, sym, false, List, [], ◌∷◌, ◌++◌, length, length-append,
  arith, ltb, Bool-cases,
}
use network_lab.Utils.{
  ReadResult, delivers, read_interrupted, read_fails, end_of_stream, RecvResult, received,
  recv_closed, recv_failed, recv_waits, recv_loop, recv_all,
}

-- `read` delivers at most the bytes that it was asked for.
abbrev pub RespectsRequest : List ReadResult → ℕ → ℕ → Type 0
RespectsRequest [] len got = Unit
RespectsRequest (delivers b more ∷ results) len got =
    (got < len → got + length (b ∷ more) ≤ len)
    × RespectsRequest results len (got + length (b ∷ more))
RespectsRequest (read_interrupted ∷ results) len got = RespectsRequest results len got
RespectsRequest (read_fails ∷ results) len got = Unit
RespectsRequest (end_of_stream ∷ results) len got = Unit

-- The bytes of the stream, whatever the pieces.
unfoldable pub stream : List ReadResult → List ℕ
stream [] = []
stream (delivers b more ∷ results) = (b ∷ more) ++ stream results
stream (read_interrupted ∷ results) = stream results
stream (read_fails ∷ results) = stream results
stream (end_of_stream ∷ results) = stream results

-- A call that returns its length has `len` bytes, and what it took and what it left are the stream.
abbrev pub TakesFrom : List ℕ → ℕ → RecvResult → Type 0
TakesFrom bytes len (received buf rest) = (length buf ≡ len) × (buf ++ stream rest ≡ bytes)
TakesFrom bytes len recv_closed = Unit
TakesFrom bytes len recv_failed = Unit
TakesFrom bytes len recv_waits = Unit

is_full :
    (len : ℕ) (buf : List ℕ) → length buf ≤ len → ltb (length buf) len ≡ false → length buf ≡ len
is_full len buf le stop = ground arith

recv_loop-TakesFrom :
    (results : List ReadResult) (len : ℕ) (buf : List ℕ)
    → length buf ≤ len
    → RespectsRequest results len (length buf)
    → TakesFrom (buf ++ stream results) len (recv_loop results len buf)
unfolding recv_loop stream
recv_loop-TakesFrom [] len buf le fits = elim (Bool-cases (ltb (length buf) len)) [
  | inl go ↦ rw go tt
  | inr stop ↦ rw stop (is_full len buf le stop, refl)
]
recv_loop-TakesFrom (delivers b more ∷ results) len buf le fits =
    elim (Bool-cases (ltb (length buf) len)) [
      | inr stop ↦ rw stop (is_full len buf le stop, refl)
      | inl go ↦
          let joined : length (buf ++ (b ∷ more)) ≡ length buf + length (b ∷ more) =
            length-append buf (b ∷ more) in
          let bound : length buf + length (b ∷ more) ≤ len = fits.0 (ground arith) in
          let appended : TakesFrom ((buf ++ (b ∷ more)) ++ stream results) len
              (recv_loop results len (buf ++ (b ∷ more))) =
            recv_loop-TakesFrom results len (buf ++ (b ∷ more)) (omega (arith, joined, bound))
              (rw joined fits.1) in
          rw go (rw (sym (append_assoc buf (b ∷ more) (stream results))) appended)
    ]
recv_loop-TakesFrom (read_interrupted ∷ results) len buf le fits =
    elim (Bool-cases (ltb (length buf) len)) [
      | inl go ↦ rw go (recv_loop-TakesFrom results len buf le fits)
      | inr stop ↦ rw stop (is_full len buf le stop, refl)
    ]
recv_loop-TakesFrom (read_fails ∷ results) len buf le fits =
    elim (Bool-cases (ltb (length buf) len)) [
      | inl go ↦ rw go tt
      | inr stop ↦ rw stop (is_full len buf le stop, refl)
    ]
recv_loop-TakesFrom (end_of_stream ∷ results) len buf le fits =
    elim (Bool-cases (ltb (length buf) len)) [
      | inl go ↦ rw go tt
      | inr stop ↦ rw stop (is_full len buf le stop, refl)
    ]

-- Whatever the pieces in which `read` delivers a stream, and however often it is interrupted, as long
-- as it never delivers more than it was asked for: when `recv_all` returns its length, the buffer
-- holds exactly that many bytes, and the buffer followed by what is left is the stream.
pub recv_all-TakesFrom :
    (results : List ReadResult) (len : ℕ)
    → RespectsRequest results len 0
    → TakesFrom (stream results) len (recv_all results len)
unfolding recv_all
recv_all-TakesFrom results len fits = recv_loop-TakesFrom results len [] (omega arith) fits
