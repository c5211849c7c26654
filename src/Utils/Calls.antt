-- ===== src/Utils/Calls.antt =====
-- The calls of the system and of the C library by which utils/utils.c and the programs get, use and
-- give back descriptors, streams and buffers, and the table of what a process holds.
use network_lab.Prelude.{
  ℕ, ◌≡◌, refl, ap, true, Option, none, some, List, [], ◌∷◌, ◌++◌, ◌==◌, ==_iff, ◌>>=◌, bind-some,
  if◌then◌else◌,
}
use mathlib.Core.Option.{some_inj}

-- A call that has given a descriptor, a stream or a buffer, uses one, or takes one back. One that
-- fails without having one is not in a row of calls.
pub data Call : Type 0 where
  socket_gives : ℕ → Call
  accept_gives : ℕ → ℕ → Call
  setsockopt : ℕ → Call
  bind : ℕ → ℕ → Call
  listen : ℕ → ℕ → Call
  connect : ℕ → ℕ → Call
  read : ℕ → Call
  write : ℕ → Call
  close : ℕ → Call
  fopen_gives : ℕ → Call
  fseek : ℕ → Call
  ftell : ℕ → Call
  fread : ℕ → Call
  fwrite : ℕ → Call
  fclose : ℕ → Call
  malloc_gives : ℕ → Call
  free : ℕ → Call

-- What a function gives, and the row of its calls.
pub record Outcome {ℓ} (A : Type ℓ) : Type ℓ where
  pub gives : A
  pub calls : List Call

-- The calls before stand in front.
abbrev pub after {ℓ} : {A : Type ℓ} → List Call → Outcome A → Outcome A
after before outcome = record { gives = outcome.gives; calls = before ++ outcome.calls }

pub record Table : Type 0 where
  pub descriptors : List ℕ
  pub streams : List ℕ
  pub buffers : List ℕ

-- A list with one taken out; `none` when it is not there.
abbrev pub without : ℕ → List ℕ → Option (List ℕ)
without n [] = none
without n (first ∷ rest) =
    let others = without n rest in
    if first == n then some rest else (others >>= (λ left. some (first ∷ left)))

abbrev pub using_descriptor : ℕ → Table → Option Table
using_descriptor fd t = without fd t.descriptors >>= (λ left. some t)

abbrev pub using_stream : ℕ → Table → Option Table
using_stream f t = without f t.streams >>= (λ left. some t)

-- What a call does to the table; `none` is a descriptor, a stream or a buffer that is not held.
abbrev pub apply_call : Call → Table → Option Table
apply_call (socket_gives fd) t = some (record t { descriptors = fd ∷ t.descriptors })
apply_call (accept_gives listen_fd fd) t =
    using_descriptor listen_fd t
    >>= (λ same. some (record same { descriptors = fd ∷ same.descriptors }))
apply_call (setsockopt fd) t = using_descriptor fd t
apply_call (bind fd port) t = using_descriptor fd t
apply_call (listen fd backlog) t = using_descriptor fd t
apply_call (connect fd port) t = using_descriptor fd t
apply_call (read fd) t = using_descriptor fd t
apply_call (write fd) t = using_descriptor fd t
apply_call (close fd) t =
    without fd t.descriptors >>= (λ left. some (record t { descriptors = left }))
apply_call (fopen_gives f) t = some (record t { streams = f ∷ t.streams })
apply_call (fseek f) t = using_stream f t
apply_call (ftell f) t = using_stream f t
apply_call (fread f) t = using_stream f t
apply_call (fwrite f) t = using_stream f t
apply_call (fclose f) t = without f t.streams >>= (λ left. some (record t { streams = left }))
apply_call (malloc_gives p) t = some (record t { buffers = p ∷ t.buffers })
apply_call (free p) t = without p t.buffers >>= (λ left. some (record t { buffers = left }))

unfoldable pub apply_calls : List Call → Table → Option Table
apply_calls [] t = some t
apply_calls (call ∷ calls) t = apply_call call t >>= (λ next. apply_calls calls next)

pub apply_calls-append :
    (front back : List Call) (t : Table) {middle : Table}
    → apply_calls front t ≡ some middle
    → apply_calls (front ++ back) t ≡ apply_calls back middle
unfolding apply_calls
apply_calls-append [] back t e = ap (apply_calls back) (some_inj.0 e)
apply_calls-append (call ∷ front) back t e =
    let (next, one, rest) = bind-some (apply_call call t) _ e in
    rw one (apply_calls-append front back next rest)

pub found : (n : ℕ) → (n == n) ≡ true
found n = (==_iff n n).1 refl
