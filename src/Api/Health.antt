-- ===== src/Api/Health.antt =====
-- The health checks of both services.
pub mod Processor
pub mod Sender
use reliable_messaging_syste.Prelude.{Bool, true, false}
use reliable_messaging_syste.Effects.{Result, ok, err}

-- `err == nil`
abbrev pub is_ok : {A : Type 0} → Result A → Bool
is_ok (ok _) = true
is_ok (err _) = false
