-- ===== src/Utils/Files.antt =====
-- utils/utils.c: `read_file`, with the outcome of each library call as an argument.
use network_lab.Prelude.{
  ℕ, ◌≡◌, refl, Option, none, some, List, [], ◌∷◌, length, ◌==◌, Bool-cases, if◌then◌else◌, inl,
  inr,
}
use network_lab.Utils.Calls.{
  fopen_gives, fseek, ftell, fread, fclose, malloc_gives, free, Outcome, after, Table, found,
  apply_calls,
}

-- The stream that `fopen` gives, what `ftell` says at the end of the file, the buffer that `malloc`
-- gives, and the bytes that `fread` puts into it. The result is the buffer and its bytes, `none` for
-- NULL.
unfoldable pub read_file : Option ℕ → ℕ → Option ℕ → List ℕ → Outcome (Option (ℕ × List ℕ))
read_file stream size buffer bytes = elim stream [
  | none ↦ record { gives = none; calls = [] }
  | some f ↦ after (fopen_gives f ∷ fseek f ∷ ftell f ∷ fseek f ∷ []) (elim buffer [
    | none ↦ record { gives = none; calls = fclose f ∷ [] }
    | some buf ↦ after (malloc_gives buf ∷ fread f ∷ fclose f ∷ []) (
        if length bytes == size
        then record { gives = some (buf, bytes); calls = [] }
        else record { gives = none; calls = free buf ∷ [] })
  ])
]

-- The table with the buffer that a function hands to its caller.
abbrev pub handed : Option (ℕ × List ℕ) → Table → Table
handed none t = t
handed (some (buf, bytes)) t = record t { buffers = buf ∷ t.buffers }

-- The stream is closed again, and the buffer is held when it is given.
pub read_file-handed :
    (stream : Option ℕ) (size : ℕ) (buffer : Option ℕ) (bytes : List ℕ) (t : Table)
    → apply_calls (read_file stream size buffer bytes).calls t
      ≡ some (handed (read_file stream size buffer bytes).gives t)
unfolding read_file apply_calls
read_file-handed none size buffer bytes t = refl
read_file-handed (some f) size none bytes t = rw (found f, found f, found f, found f) refl
read_file-handed (some f) size (some buf) bytes t = elim (Bool-cases (length bytes == size)) [
  | inl whole ↦ rw (whole, found f, found f, found f, found f, found f) refl
  | inr short ↦ rw (short, found f, found f, found f, found f, found f, found buf) refl
]
