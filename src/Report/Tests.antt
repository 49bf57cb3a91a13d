-- ===== src/Report/Tests.antt =====
-- The lines of tests with a fixed time.
use concurrent_http_proxy_se.Base.{◌≡◌, refl, arith, some, none, [], ◌∷◌, ◌++◌}
use concurrent_http_proxy_se.Bytes.{codes}
use concurrent_http_proxy_se.Config.{Config}
use concurrent_http_proxy_se.Logger.{debug, warn, level_to_string, name_in}
use concurrent_http_proxy_se.Metrics.{Counters}
use concurrent_http_proxy_se.Report.{log_line, log, log_summary, config_log}
use concurrent_http_proxy_se.Report.Lines.{log_determines}

-- A level with a short name.
short_name :
    log debug none warn (codes "request exceeded buffer limit")
    ≡ codes "[unknown-time] WARN  request exceeded buffer limit" ++ (10 ∷ [])
unfolding log log_line level_to_string name_in
short_name = refl

log_determines_example :
    ((a b : Counters)
      → log_summary debug (some (codes "2025-01-31 10:00:00")) (some a)
        ≡ log_summary debug (some (codes "2025-01-31 10:00:00")) (some b)
      → a ≡ b)
    × ((c d : Config)
        → config_log debug (some (codes "2025-01-31 10:00:00")) c
          ≡ config_log debug (some (codes "2025-01-31 10:00:00")) d
        → c ≡ d)
log_determines_example = log_determines debug (some (codes "2025-01-31 10:00:00")) (omega arith)
