-- ===== src/Utils/Sending.antt =====
-- utils/utils.c: what `send_all` puts on the wire.
use mathlib.Core.List.{append_assoc}
use network_lab.Prelude.{
  ℕ, zero, suc, ◌+◌, ◌≤◌, ◌≡◌, inl, inr, refl, sym, ap, ◌∙◌, List, [], ◌∷◌, ◌++◌, take, drop,
  take-append-drop, length, arith, ltb, Bool-cases,
}
use network_lab.Utils.{
  WriteResult, writes, write_interrupted, write_fails, SendResult, all_sent, send_failed,
  send_waits, send_loop, send_all,
}

drop-past : (n : ℕ) (xs : List ℕ) → length xs ≤ n → drop n xs ≡ []
drop-past zero [] le = refl
drop-past zero (x ∷ xs) le = absurd (omega arith)
drop-past (suc n) [] le = refl
drop-past (suc n) (x ∷ xs) le = drop-past n xs (omega arith)

drop-add : (m n : ℕ) (xs : List ℕ) → drop (m + n) xs ≡ drop n (drop m xs)
drop-add zero n xs = let same : zero + n ≡ n = omega arith in ap (λ (k : ℕ). drop k xs) same
drop-add (suc m) n [] = drop-past (suc m + n) [] (omega arith) ∙ sym (drop-past n [] (omega arith))
drop-add (suc m) n (x ∷ xs) =
    let one : suc m + n ≡ suc (m + n) = omega arith in
    ap (λ (k : ℕ). drop k (x ∷ xs)) one ∙ drop-add m n xs

-- A call that returns its length has written these bytes; one that does not, the first of them.
abbrev pub Writes : List ℕ → List ℕ × SendResult → Type 0
Writes bytes (wire, all_sent results) = wire ≡ bytes
Writes bytes (wire, send_failed) = (rest : List ℕ) × (wire ++ rest ≡ bytes)
Writes bytes (wire, send_waits) = (rest : List ℕ) × (wire ++ rest ≡ bytes)

Writes-eq :
    (bytes bytes' : List ℕ) (r : List ℕ × SendResult)
    → bytes ≡ bytes'
    → Writes bytes r
    → Writes bytes' r
Writes-eq bytes bytes' r e w = rw (sym e) w

Writes-append :
    (front back : List ℕ) (r : List ℕ × SendResult)
    → Writes back r
    → Writes (front ++ back) (front ++ r.0, r.1)
Writes-append front back (wire, all_sent results) w = rw w refl
Writes-append front back (wire, send_failed) (rest, e) =
    (rest, append_assoc front wire rest ∙ ap (λ t. front ++ t) e)
Writes-append front back (wire, send_waits) (rest, e) =
    (rest, append_assoc front wire rest ∙ ap (λ t. front ++ t) e)

send_loop-Writes :
    (results : List WriteResult) (buf : List ℕ) (sent : ℕ)
    → Writes (drop sent buf) (send_loop results buf sent)
unfolding send_loop
send_loop-Writes [] buf sent = elim (Bool-cases (ltb sent (length buf))) [
  | inl go ↦ rw go (drop sent buf, refl)
  | inr stop ↦ rw stop (sym (drop-past sent buf (ground arith)))
]
send_loop-Writes (writes n ∷ results) buf sent = elim (Bool-cases (ltb sent (length buf))) [
  | inl go ↦
      let rest = send_loop-Writes results buf (sent + n) in
      let split : take n (drop sent buf) ++ drop (sent + n) buf ≡ drop sent buf =
        ap (λ (t : List ℕ). take n (drop sent buf) ++ t) (drop-add sent n buf)
        ∙ take-append-drop n (drop sent buf) in
      let joined =
        Writes-append (take n (drop sent buf)) (drop (sent + n) buf)
          (send_loop results buf (sent + n)) rest in
      rw go (Writes-eq _ (drop sent buf) _ split joined)
  | inr stop ↦ rw stop (sym (drop-past sent buf (ground arith)))
]
send_loop-Writes (write_interrupted ∷ results) buf sent =
    elim (Bool-cases (ltb sent (length buf))) [
      | inl go ↦ rw go (send_loop-Writes results buf sent)
      | inr stop ↦ rw stop (sym (drop-past sent buf (ground arith)))
    ]
send_loop-Writes (write_fails ∷ results) buf sent = elim (Bool-cases (ltb sent (length buf))) [
  | inl go ↦ rw go (drop sent buf, refl)
  | inr stop ↦ rw stop (sym (drop-past sent buf (ground arith)))
]

-- Whatever parts of the buffer `write` takes, and however often it is interrupted: when `send_all`
-- returns, the bytes on the wire are the buffer, and when it fails or waits they are its beginning.
pub send_all-Writes :
    (results : List WriteResult) (buf : List ℕ) → Writes buf (send_all results buf)
unfolding send_all
send_all-Writes results buf = send_loop-Writes results buf 0
