-- ===== src/Lab2/Channel.antt =====
-- lab2/channel.c: a channel that loses frames and flips bits.
pub mod Flight
pub mod Clean
use network_lab.Prelude.{
  ℕ, ◌+◌, u64, Bool, true, false, Option, none, some, List, [], ◌∷◌, ◌++◌, if◌then◌else◌,
}
use network_lab.Lab1.Inject.{flip_bit, random_bit_index}

-- `channel_stats`, counted in `uint64_t`
pub record ChannelStats : Type 0 where
  pub frames_sent : ℕ
  pub frames_lost : ℕ
  pub frames_corrupted : ℕ

-- What one call of `channel_send` takes from outside: the two comparisons of `rand_double()` with
-- the probabilities, whether `malloc` fails, and the `rand()` behind `random_bit_index`.
pub record Draws : Type 0 where
  pub loses : Bool
  pub malloc_fails : Bool
  pub corrupts : Bool
  pub rand : ℕ

-- `channel_send`: what is written to the socket (`none` for the return of -1 before that), and the
-- statistics. The delay changes no state. A `send_all` that fails after a part of the frame is not
-- modelled.
unfoldable pub channel_send : Draws → ChannelStats → List ℕ → ℕ → Option (List ℕ) × ChannelStats
unfolding random_bit_index
channel_send d stats bytes len =
    if d.loses
    then (none, record stats { frames_lost = u64 (stats.frames_lost + 1) })
    else if d.malloc_fails
    then (none, stats)
    else if d.corrupts
    then (
      some (flip_bit bytes len (random_bit_index d.rand len)),
      record stats {
        frames_sent = u64 (stats.frames_sent + 1);
        frames_corrupted = u64 (stats.frames_corrupted + 1);
      },
    )
    else (some bytes, record stats { frames_sent = u64 (stats.frames_sent + 1) })

-- What a row of calls puts on the wire, in order.
unfoldable pub wire : Option (List ℕ) → List (List ℕ)
wire none = []
wire (some bytes) = bytes ∷ []

pub data Carries : List (List ℕ) → List (List ℕ) → Type 0 where
  quiet : Carries [] []
  sent :
      {b : List ℕ} {bs ws : List (List ℕ)} (d : Draws) (stats : ChannelStats)
      → Carries bs ws
      → Carries (b ∷ bs) (wire (channel_send d stats b 65).0 ++ ws)
