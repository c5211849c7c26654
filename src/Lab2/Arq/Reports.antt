-- ===== src/Lab2/Arq/Reports.antt =====
-- What `select` reports to a sender about the socket on which the replies come.
use network_lab.Prelude.{Bool, true, false, ◌≡◌, List, [], ◌++◌, ℕ, All, All-split}
use mathlib.Core.Bool.{false≢true}
use network_lab.Lab1.Frame.{Frame}
use network_lab.Lab2.Arq.{Select, failed, timeout, arrived}
use network_lab.Lab2.Channel.Flight.{Flight}

-- What `select` may report to the sender, and the frames that are left in the socket. The end of
-- the stream is seen when the receiver has stopped and nothing is left.
pub data Reports (stopped : Bool) : List (List ℕ) → Select → List (List ℕ) → Type 0 where
  fails : {bs : List (List ℕ)} → Reports stopped bs failed bs
  expires : {bs : List (List ℕ)} → Reports stopped bs timeout bs
  reads : (bs rest : List (List ℕ)) → Reports stopped (bs ++ rest) (arrived bs false) rest
  closes : (bs : List (List ℕ)) → stopped ≡ true → Reports stopped bs (arrived bs true) []

-- The frames that are reported are in flight with property `Q`, and the end is reported only when
-- `Over` holds.
module _ (Q : Frame → Type 0) (Over : Type 0) where
  abbrev pub Told : Select → Type 0
  Told failed = Unit {0}
  Told timeout = Unit {0}
  Told (arrived frames closed) = All (Flight Q) frames × (closed ≡ true → Over)

  pub Reports-Told :
      {stopped : Bool} {bs rest : List (List ℕ)} {sel : Select}
      → Reports stopped bs sel rest
      → (stopped ≡ true → Over)
      → All (Flight Q) bs
      → Told sel × All (Flight Q) rest
  Reports-Told fails w fl = (tt, fl)
  Reports-Told expires w fl = (tt, fl)
  Reports-Told (reads bs rest) w fl =
      let (seen, left) = All-split (Flight Q) bs rest fl in
      ((seen, λ e. absurd (false≢true e)), left)
  Reports-Told (closes bs e) w fl = ((fl, λ _. w e), tt)
