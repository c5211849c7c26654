-- ===== src/Lab2/GoBackN/SenderInv.antt =====
-- lab2/arq/sender.c, Go-Back-N: every frame that the sender emits is a frame of the file, and its
-- window never passes what the receiver has.
use network_lab.Prelude.{
  ℕ, ◌+◌, ◌*◌, ◌%◌, ◌^◌, ◌≤◌, ◌<◌, ◌≡◌, sym, ap, ◌∙◌, inl, inr, List, length, arith, All,
  Bool-cases, u16,
}
use mathlib.Core.Path.{subst}
use network_lab.Lab1.Checksum.Sum.{IsBytes}
use network_lab.Lab1.Frame.{Frame}
use network_lab.Lab2.Arq.{Select, data_frame, eot_frame, chunk_len}
use network_lab.Lab2.Arq.Frames.{data_frame-nth, eot_frame-nth}
use network_lab.Lab2.Channel.Flight.{Outgoing}
use network_lab.Lab2.Arq.Genuine.{Genuine, AckUpTo}
use network_lab.Lab2.GoBackN.System.{sends}
use network_lab.Lab2.GoBackN.Sender.{Sender, sending, send_new, send_data, send_eot}
pub use network_lab.Lab2.Arq.Progress.{Progress, outgoing}
use network_lab.Lab2.Arq.Progress.{store-Genuine, Progress-suc}
use network_lab.Lab2.Arq.Reports

pub record SenderInv (file : List ℕ) (n : ℕ) (s : Sender) : Type 0 where
  pub behind : s.sf ≤ n
  pub stored : (i : ℕ) → i < s.sn → Genuine file (s.frame_store (i % s.sw))
  pub progress : Progress file n s.phase s.sn s.offset

-- What the sender may be told: acknowledgements up to `n`, and the end only of a whole transfer.
abbrev pub Told : List ℕ → ℕ → Select → Type 0
Told file n = Reports.Told (AckUpTo n) (length file + 44 ≤ 44 * n)

module _ (file : List ℕ) (bytes : IsBytes file) where
  module _ (small : length file ≤ 44 * 65534) (n : ℕ) where
    -- A new frame that is frame `sn` of the file.
    send_new-stored :
        (s : Sender) (f : Frame)
        → SenderInv file n s
        → s.sn + 1 < 2 ^ 16
        → Genuine file f
        → (i : ℕ) → i < (send_new s f).0.sn
        → Genuine file ((send_new s f).0.frame_store (i % (send_new s f).0.sw))
    unfolding send_new
    send_new-stored s f v h g i k =
        store-Genuine file s.sw s.sn s.frame_store f g v.stored i (omega arith)

    send_new-Outgoing :
        (s : Sender) (f : Frame)
        → Genuine file f
        → All (Outgoing (Genuine file)) (sends (send_new s f).1)
    unfolding send_new sends
    send_new-Outgoing s f g = elim (Bool-cases s.timer_running) [
      | inl e ↦ rw e (outgoing file bytes g, tt)
      | inr e ↦ rw e (outgoing file bytes g, tt)
    ]

    pub send_data-SenderInv :
        (s : Sender)
        → SenderInv file n s
        → s.phase ≡ sending
        → s.offset ≡ 44 * s.sn
        → 44 * s.sn < length file
        → SenderInv file n (send_data file s).0
          × All (Outgoing (Genuine file)) (sends (send_data file s).1)
    unfolding send_data
    send_data-SenderInv s v ph off below = (
      record {
        behind = unfold send_new in v.behind;
        stored = send_new-stored s _ v (omega arith) genuine;
        progress =
            unfold send_new in
            subst (λ p. Progress file n p (u16 (s.sn + 1)) (s.offset + chunk_len file s.offset))
              (sym ph) (Progress-suc file n s.sn s.offset (u16 (s.sn + 1)) off below (omega arith));
      },
      send_new-Outgoing s _ genuine,
    )
      where
        genuine : Genuine file (data_frame file s.offset s.sn)
        genuine =
            (s.sn, omega arith, ap (λ o. data_frame file o s.sn) off ∙ data_frame-nth file s.sn)

    pub send_eot-SenderInv :
        (s : Sender)
        → SenderInv file n s
        → length file ≤ 44 * s.sn
        → 44 * s.sn < length file + 44
        → SenderInv file n (send_eot s).0 × All (Outgoing (Genuine file)) (sends (send_eot s).1)
    unfolding send_eot
    send_eot-SenderInv s v all k = (
      record {
        behind = unfold send_new in v.behind;
        stored = send_new-stored s _ v (omega arith) genuine;
        progress = unfold send_new in omega arith;
      },
      send_new-Outgoing s _ genuine,
    )
      where
        genuine : Genuine file (eot_frame s.sn)
        genuine = (s.sn, k, eot_frame-nth file s.sn all)
