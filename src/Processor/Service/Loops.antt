-- ===== src/Processor/Service/Loops.antt =====
-- Invariants of the loops of `Start` and `monitorStaleMessages`.
use reliable_messaging_syste.Prelude.{List, [], ◌∷◌, arith}
use reliable_messaging_syste.Contracts.{Delivery}
use reliable_messaging_syste.Processor.Service.{
  ProcessorService, Input, message, channel_closed, Wake, tick, zero_delivery, process_message,
  serve, check_stale_messages, monitor_stale_messages,
}

module _ {ℓ} {W : Type 0} (s : ProcessorService W) (P : W → Type ℓ) where
  pub serve_inv :
      ((d : Delivery) (w : W) → P w → P (process_message s d w).1)
      → (inputs : List Input) (w : W) → P w
      → P (serve s inputs w).1
  unfolding serve
  serve_inv keep [] w h = h
  serve_inv keep (message d ∷ rest) w h =
      ground (arith, keep d w h, serve_inv keep rest (process_message s d w).1)
  serve_inv keep (channel_closed ∷ rest) w h =
      ground
        (arith, keep zero_delivery w h, serve_inv keep rest (process_message s zero_delivery w).1)
  serve_inv keep (Input.done ∷ rest) w h = h

  pub monitor_inv :
      ((w : W) → P w → P (check_stale_messages s w).1)
      → (wakes : List Wake) (w : W) → P w
      → P (monitor_stale_messages s wakes w).1
  unfolding monitor_stale_messages
  monitor_inv keep [] w h = h
  monitor_inv keep (tick ∷ rest) w h =
      ground (arith, keep w h, monitor_inv keep rest (check_stale_messages s w).1)
  monitor_inv keep (Wake.done ∷ rest) w h = h
