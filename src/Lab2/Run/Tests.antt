-- ===== src/Lab2/Run/Tests.antt =====
-- A transfer from its configuration to its output.
use network_lab.Prelude.{◌≡◌, refl, inl, some, [], ◌∷◌, arith}
use network_lab.Lab2.Run.{
  ArqConfig, arq_sw, sender_run, receiver_sw_mode, receiver_run, sender_dispatch,
}
use network_lab.Lab2.Run.Transfer.{Transferred, protocol, over_sw, sender_run-file}
use network_lab.Lab2.StopAndWait.Tests.{s5, s5_reached, has_stopped}

abbrev config : ArqConfig
config = record { mode = arq_sw; window_size = 1; socket_fd = some 3 }

transferred : Transferred (sender_run config (some (7 ∷ []))) receiver_sw_mode s5.rx.output
unfolding sender_run sender_dispatch
transferred = over_sw s5_reached (inl has_stopped)

sender_run-file_example :
    (protocol (sender_run config (some (7 ∷ []))) ≡ arq_sw)
    × (receiver_run config (some 4) ≡ receiver_sw_mode)
    × (s5.rx.output ≡ 7 ∷ [])
sender_run-file_example =
    sender_run-file (7 ∷ []) (omega arith, tt) (omega arith) config config 3 4 s5.rx.output
      (omega arith) (omega arith) refl refl refl transferred
