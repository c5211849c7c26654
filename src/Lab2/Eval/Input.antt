-- ===== src/Lab2/Eval/Input.antt =====
-- lab2/eval/eval_main.c: the file that `generate_input_file` writes.
use network_lab.Prelude.{
  ℕ, zero, suc, ◌+◌, ◌-◌, ◌≤◌, ◌<◌, ◌≡◌, refl, sym, ap, true, some, List, length, length-append,
  ltb, arith, Bool-cases, inl, inr, if◌then◌else◌,
}
use mathlib.Core.Option.{some_inj}
use network_lab.Bits.{bit_and_mask}
use network_lab.Lab1.Checksum.Sum.{IsBytes}
use network_lab.Lab1.Frame.Bytes.{IsBytes-append}
use network_lab.Lab2.Eval.{fill_buffer, write_chunks, generate_input_file}

fill_buffer_lem :
    (rand : ℕ → ℕ) (at chunk : ℕ)
    → (length (fill_buffer rand at chunk) ≡ chunk) × IsBytes (fill_buffer rand at chunk)
unfolding fill_buffer
fill_buffer_lem rand at zero = (refl, tt)
fill_buffer_lem rand at (suc chunk) =
    let (size, bytes) = fill_buffer_lem rand (at + 1) chunk in
    (ap suc size, (omega (arith, bit_and_mask 8 (rand at)), bytes))

-- The fuel is enough for the whole size.
write_chunks_lem :
    (fuel : ℕ) (rand : ℕ → ℕ) (at remaining : ℕ)
    → remaining ≤ fuel
    → (length (write_chunks fuel rand at remaining) ≡ remaining)
      × IsBytes (write_chunks fuel rand at remaining)
unfolding write_chunks
write_chunks_lem zero rand at remaining enough = (omega arith, tt)
write_chunks_lem (suc fuel) rand at remaining enough = elim (Bool-cases (ltb 0 remaining)) [
  | inr none_left ↦ rw none_left (ground arith, tt)
  | inl more ↦
      let chunk : ℕ = if ltb remaining 4096 then remaining else 4096 in
      let positive : 0 < chunk = ground arith in
      let part : chunk ≤ remaining = ground arith in
      let (size, bytes) = fill_buffer_lem rand at chunk in
      let (size', bytes') =
        write_chunks_lem fuel rand (at + chunk) (remaining - chunk) (omega arith) in
      rw more (
        omega (
          arith,
          length-append (fill_buffer rand at chunk)
              (write_chunks fuel rand (at + chunk) (remaining - chunk)),
          size,
          size',
        ),
        IsBytes-append (fill_buffer rand at chunk) _ bytes bytes',
      )
]

-- The file has the size that was asked for, and holds bytes.
pub generate_input_file-IsBytes :
    (rand : ℕ → ℕ) (size : ℕ) {file : List ℕ}
    → generate_input_file true rand size ≡ some file
    → (length file ≡ size) × IsBytes file
unfolding generate_input_file
generate_input_file-IsBytes rand size e =
    rw (sym (some_inj.0 e)) (write_chunks_lem size rand 0 size (omega arith))
