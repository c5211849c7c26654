-- ===== src/Lab2/Channel/Flight.antt =====
-- Sealed frames on their way through the channel of lab2/channel.c.
use network_lab.Prelude.{
  ℕ, ◌<◌, ◌≡◌, sym, ap, ◌∙◌, ◌⊎◌, inl, inr, true, false, List, [], ◌∷◌, arith, Bool-cases, All,
  All-append,
}
use mathlib.Core.Bool.{false≢true}
use mathlib.Core.Path.{subst}
use network_lab.Lab1.Inject.{flip_bit, random_bit_index}
use network_lab.Lab1.Frame.{Frame, IsFrame, to_bytes, of_bytes}
use network_lab.Lab1.Frame.Bytes.{of_bytes-to_bytes}
use network_lab.Lab1.Frame.Seal.{seal, fcs_matches}
use network_lab.Lab1.Frame.Sealed.{seal-IsFrame, fcs_matches-flip_bit}
use network_lab.Lab2.Channel.{ChannelStats, Draws, channel_send, wire, Carries, quiet, sent}

-- A frame whose sequence was computed over an empty trailer.
pub record IsSealed (f : Frame) : Type 0 where
  pub base : Frame
  pub base_fits : IsFrame base
  pub blank : base.trailer.fcs ≡ 0
  pub is_seal : f ≡ seal base

-- The bytes of a sealed frame with property `P`, with at most one bit flipped.
pub record Flight (P : Frame → Type 0) (bytes : List ℕ) : Type 0 where
  pub frame : Frame
  pub holds : P frame
  pub sealed : IsSealed frame
  pub carried :
      (bytes ≡ to_bytes frame) ⊎ ((i : ℕ) × (i < 520) × (bytes ≡ flip_bit (to_bytes frame) 65 i))

-- Bytes that are about to be sent: those of a sealed frame with property `P`.
abbrev pub Outgoing : (Frame → Type 0) → List ℕ → Type 0
Outgoing P bytes = (f : Frame) × P f × IsSealed f × (bytes ≡ to_bytes f)

-- The three things that may happen to the bytes of a frame.
outcome :
    (d : Draws) (stats : ChannelStats) (b : List ℕ)
    → (wire (channel_send d stats b 65).0 ≡ [])
      ⊎ ((wire (channel_send d stats b 65).0 ≡ b ∷ [])
          ⊎ (wire (channel_send d stats b 65).0 ≡ flip_bit b 65 (random_bit_index d.rand 65) ∷ []))
unfolding channel_send wire
outcome d stats b = elim (Bool-cases d.loses) [
  | inl e ↦ inl (rw e)
  | inr e ↦ elim (Bool-cases d.malloc_fails) [
    | inl e' ↦ inl (rw (e, e'))
    | inr e' ↦ elim (Bool-cases d.corrupts) [
      | inl e'' ↦ inr (inr (rw (e, e', e'')))
      | inr e'' ↦ inr (inl (rw (e, e', e'')))
    ]
  ]
]

random_bit_index-lt : (rand : ℕ) → random_bit_index rand 65 < 520
unfolding random_bit_index
random_bit_index-lt rand = omega arith

module _ (P : Frame → Type 0) where
  -- What passes the check is the frame that was sent.
  pub Flight-of_bytes : {b : List ℕ} → Flight P b → fcs_matches b ≡ true → P (of_bytes b)
  Flight-of_bytes {b} fl ok = go fl.carried
    where
      read : of_bytes (to_bytes fl.frame) ≡ fl.frame
      read =
          rw fl.sealed.is_seal
            (of_bytes-to_bytes (seal-IsFrame fl.sealed.base_fits fl.sealed.blank))

      refused : (i : ℕ) → i < 520 → fcs_matches (flip_bit (to_bytes fl.frame) 65 i) ≡ false
      refused i h =
          rw fl.sealed.is_seal (fcs_matches-flip_bit fl.sealed.base_fits fl.sealed.blank i h)

      go :
          (b ≡ to_bytes fl.frame) ⊎ ((i : ℕ) × (i < 520) × (b ≡ flip_bit (to_bytes fl.frame) 65 i))
          → P (of_bytes b)
      go (inl e) = subst P (sym (ap of_bytes e ∙ read)) fl.holds
      go (inr (i, h, e)) = absurd (false≢true (sym (refused i h) ∙ sym (ap fcs_matches e) ∙ ok))

  Outgoing-Flight :
      (b : List ℕ) (d : Draws) (stats : ChannelStats)
      → Outgoing P b
      → All (Flight P) (wire (channel_send d stats b 65).0)
  Outgoing-Flight b d stats (f, p, s, e) = elim (outcome d stats b) [
    | inl o ↦ rw o tt
    | inr (inl o) ↦ rw o (record { frame = f; holds = p; sealed = s; carried = inl e }, tt)
    | inr (inr o) ↦ rw o (
      record {
        frame = f;
        holds = p;
        sealed = s;
        carried = inr (
          random_bit_index d.rand 65,
          random_bit_index-lt d.rand,
          ap (λ x. flip_bit x 65 (random_bit_index d.rand 65)) e,
        );
      },
      tt,
    )
  ]

  -- Whatever the channel does, only sealed frames with at most one flipped bit come out of it.
  pub Carries-Flight :
      {bs ws : List (List ℕ)} → Carries bs ws → All (Outgoing P) bs → All (Flight P) ws
  Carries-Flight quiet h = tt
  Carries-Flight (sent {b} {bs} {ws} d stats c) h =
      All-append (Flight P) (wire (channel_send d stats b 65).0) ws (Outgoing-Flight b d stats h.0)
        (Carries-Flight c h.1)

-- A weaker property still holds of what is in flight.
module _ (P Q : Frame → Type 0) (weaker : (f : Frame) → P f → Q f) where
  pub Flight-map : {b : List ℕ} → Flight P b → Flight Q b
  Flight-map fl = record {
    frame = fl.frame;
    holds = weaker fl.frame fl.holds;
    sealed = fl.sealed;
    carried = fl.carried;
  }
