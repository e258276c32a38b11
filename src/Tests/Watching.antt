-- ===== src/Tests/Watching.antt =====
-- The watchdog at concrete inputs.
use port_sentinel.Watchdog.Restarts.{monitor_correct}
use port_sentinel.Watchdog.{monitor, give_up, restart, read_restarts, safe_keys}
use port_sentinel.Base.Dict.{Dict, get}
use port_sentinel.Base.Words.{read_number, codes}
use port_sentinel.Base.Text.{show}
use port_sentinel.Base.{
  false, ◌≤◌, ◌<◌, ◌⊎◌, ◌^◌, ◌+◌, ◌==◌, some, none, contains, if◌then◌else◌, refl, text_keys, ◌≡◌,
  String, [], ◌∷◌,
}

abbrev env : Dict String String
env = ("PATH", "/usr/bin") ∷ ("LD_PRELOAD", "/tmp/x.so") ∷ ("SENTINEL_RESTARTS", "1") ∷ []

monitor_correct_example :
    ((5 ≤ 1) × (monitor false env ≡ give_up))
    ⊎ ((1 < 5)
        × ((next : Dict String String) × (monitor false env ≡ restart (2 ^ 1) next)
            × (read_restarts next ≡ some (1 + 1))
            × ((k : String)
                → get next k ≡ (
                    if "SENTINEL_RESTARTS" == k
                    then some (show (1 + 1))
                    else if contains safe_keys k
                    then get env k
                    else none))))
unfolding read_restarts read_number codes get
monitor_correct_example = monitor_correct env 1 refl
