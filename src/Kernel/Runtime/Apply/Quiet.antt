-- ===== src/Kernel/Runtime/Apply/Quiet.antt =====
-- An application writes nothing before it begins the effect.
use boatstack.Kernel.Exec.{keeps_rules, Keeps-bind}
use boatstack.Kernel.Ports.{Runtime, ApplyRequest}
use boatstack.Kernel.Runtime.Logged.{logged, Quiet}
use boatstack.Kernel.Runtime.Resolve.Quiet.{observe-Quiet, load-Quiet, clock-Quiet, resolve-Quiet}
use boatstack.Kernel.Runtime.Apply.{Reading, read_current, admit, prepare_attempt}

module _ {W : Type 0} (runtime : Runtime W) where
  read_current-Quiet : (r : ApplyRequest) → Quiet (read_current (logged runtime) r)
  unfolding read_current
  read_current-Quiet r = search (keeps_rules, load-Quiet, observe-Quiet, clock-Quiet) depth 20

  admit-Quiet : (r : ApplyRequest) (reading : Reading) → Quiet (admit (logged runtime) r reading)
  unfolding admit
  admit-Quiet r reading = search (keeps_rules, resolve-Quiet) depth 20

  -- An application writes nothing before it begins the effect.
  pub prepare_attempt-Quiet : (r : ApplyRequest) → Quiet (prepare_attempt (logged runtime) r)
  unfolding prepare_attempt
  prepare_attempt-Quiet r = Keeps-bind _ _ (read_current-Quiet r) (admit-Quiet r)
