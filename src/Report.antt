-- ===== src/Report.antt =====
-- What the program prints on stderr: the lines of src/logger.c, the messages of src/error.c, the
-- summary of src/metrics.c, and the texts of src/config.c. A text is the bytes that `fprintf` writes;
-- that the writes succeed is not modelled.
pub mod Fields
pub mod Lines
mod Tests
use concurrent_http_proxy_se.Base.{
  ℕ, zero, suc, ◌-◌, ltb, length, take, if◌then◌else◌, Bool, true, false, Option, none, some, List,
  [], ◌∷◌, ◌++◌,
}
use concurrent_http_proxy_se.Bytes.{Bytes, codes}
use concurrent_http_proxy_se.Config.{Config}
use concurrent_http_proxy_se.Decimal.{decimal}
use concurrent_http_proxy_se.Logger.{Level, info, number, level_to_string}
use concurrent_http_proxy_se.Metrics.{Metrics, Counters}

-- `format_timestamp`: what `localtime` gives, `none` for NULL, and what `strftime` prints of it.
unfoldable pub format_timestamp {ℓ} : {T : Type ℓ} → Option T → (T → Bytes) → Option Bytes
format_timestamp none strftime = none
format_timestamp (some t) strftime = if ltb 0 (length (strftime t)) then some (strftime t) else none

abbrev pub spaces : ℕ → Bytes
spaces zero = []
spaces (suc n) = 32 ∷ spaces n

-- `%-5s`
abbrev pub padded : Bytes → Bytes
padded text = text ++ spaces (5 - length text)

-- The timestamp in its buffer.
abbrev pub stamp : Option Bytes → Bytes
stamp none = take 19 (codes "unknown-time")
stamp (some text) = text

-- What `logger_log` prints at a level that is not filtered; `message` is what the format gives.
unfoldable pub log_line : Option Bytes → Level → Bytes → Bytes
log_line timestamp level message =
    (91 ∷ stamp timestamp)
    ++ (codes "] " ++ (padded (level_to_string level) ++ (32 ∷ (message ++ (10 ∷ [])))))

-- `logger_log` with `current_level`.
unfoldable pub log : Level → Option Bytes → Level → Bytes → Bytes
log current_level timestamp level message =
    if ltb (number level) (number current_level) then [] else log_line timestamp level message

-- `error_vreport`, and the two prefixes that it is called with.
abbrev pub vreport : Bytes → Bytes → Bytes
vreport prefix message = prefix ++ (message ++ (10 ∷ []))

unfoldable pub error_report : Bytes → Bytes
error_report message = vreport (codes "error: ") message

unfoldable pub error_report_usage : Bytes → Bytes
error_report_usage message = vreport (codes "usage error: ") message

-- A format with a number behind each label, and what follows them.
unfoldable pub fields : List Bytes → List ℕ → Bytes → Bytes
fields [] numbers rest = rest
fields (label ∷ labels) [] rest = rest
fields (label ∷ labels) (n ∷ numbers) rest = label ++ (decimal n ++ fields labels numbers rest)

abbrev pub summary_labels : List Bytes
summary_labels =
    codes " active_connections="
    ∷ codes " cache_hits="
    ∷ codes " cache_misses="
    ∷ codes " cache_evictions="
    ∷ codes " origin_fetch_failures="
    ∷ codes " bytes_in="
    ∷ codes " bytes_out="
    ∷ []

abbrev pub summary_numbers : Counters → List ℕ
summary_numbers s =
    s.total_requests ∷ s.active_connections ∷ s.cache_hits ∷ s.cache_misses ∷ s.cache_evictions
    ∷ s.origin_fetch_failures ∷ s.bytes_in ∷ s.bytes_out ∷ []

-- The message of `metrics_log_summary`.
unfoldable pub summary : Counters → Bytes
summary s =
    fields (codes "metrics summary: total_requests=" ∷ summary_labels) (summary_numbers s) []

abbrev pub config_labels : List Bytes
config_labels = codes " workers=" ∷ codes " cache_size_bytes=" ∷ []

-- The message of `proxy_config_log`.
unfoldable pub config_text : Config → Bytes
config_text c =
    fields (codes "config: port=" ∷ config_labels)
      (c.port ∷ c.worker_count ∷ c.cache_size_bytes ∷ [])
      (codes " log_level=" ++ level_to_string c.log_level)

-- `metrics_log_summary`; the snapshot holds the counters.
unfoldable pub log_summary : Level → Option Bytes → Metrics → Bytes
log_summary current_level timestamp none = []
log_summary current_level timestamp (some s) = log current_level timestamp info (summary s)

-- `proxy_config_log` of a configuration that is not NULL.
unfoldable pub config_log : Level → Option Bytes → Config → Bytes
config_log current_level timestamp c = log current_level timestamp info (config_text c)

-- Lines, each with its end.
abbrev pub text_lines : List Bytes → Bytes
text_lines [] = []
text_lines (line ∷ lines) = line ++ (10 ∷ text_lines lines)

abbrev pub usage_name : Option Bytes → Bytes
usage_name none = codes "proxy_server"
usage_name (some program_name) = program_name

-- `proxy_config_print_usage`; a NULL name is `none`.
unfoldable pub print_usage : Option Bytes → Bytes
print_usage program_name = text_lines (
    (codes "Usage: "
      ++ (usage_name program_name
          ++ codes " [--port PORT] [--workers COUNT] [--cache-size BYTES] [--log-level LEVEL]"))
    ∷ (codes "       " ++ (usage_name program_name ++ codes " --help"))
    ∷ []
    ∷ codes "Options:"
    ∷ (codes "  --port PORT          Listening port (default: " ++ (decimal 8080 ++ codes ")"))
    ∷ (codes "  --workers COUNT      Worker thread count (default: " ++ (decimal 4 ++ codes ")"))
    ∷ (codes "  --cache-size BYTES   Shared cache capacity in bytes (default: "
        ++ (decimal 1048576 ++ codes ")"))
    ∷ codes "  --log-level LEVEL    Log level: debug, info, warn, error (default: info)"
    ∷ [])
