-- ===== src/Lab2/Channel/Clean.antt =====
-- lab2/channel.c: one frame that arrives as it was sent, or not at all.
use network_lab.Prelude.{ℕ, ◌≡◌, true, false, List, [], ◌∷◌}
use network_lab.Lab1.Frame.{Frame, to_bytes, of_bytes}
use network_lab.Lab1.Frame.Bytes.{of_bytes-to_bytes}
use network_lab.Lab1.Frame.Seal.{fcs_matches}
use network_lab.Lab1.Frame.Sealed.{seal-IsFrame, fcs_matches-seal}
use network_lab.Lab2.Channel.{ChannelStats, Draws, channel_send, wire, Carries, quiet, sent}
use network_lab.Lab2.Channel.Flight.{IsSealed}

-- A sealed frame passes the check, and is read back.
pub sealed_lem :
    {f : Frame} → IsSealed f → (fcs_matches (to_bytes f) ≡ true) × (of_bytes (to_bytes f) ≡ f)
sealed_lem {f} s =
    rw (s.is_seal)
      (fcs_matches-seal s.base_fits s.blank, of_bytes-to_bytes (seal-IsFrame s.base_fits s.blank))

abbrev clean : Draws
clean = record { loses = false; malloc_fails = false; corrupts = false; rand = 0 }

abbrev losing : Draws
losing = record { loses = true; malloc_fails = false; corrupts = false; rand = 0 }

abbrev no_stats : ChannelStats
no_stats = record { frames_sent = 0; frames_lost = 0; frames_corrupted = 0 }

-- Nothing is lost of one frame.
pub carried : (b : List ℕ) → Carries (b ∷ []) (b ∷ [])
unfolding channel_send wire
carried b = sent clean no_stats quiet

-- It is lost.
pub dropped : (b : List ℕ) → Carries (b ∷ []) []
unfolding channel_send wire
dropped b = sent losing no_stats quiet
