-- ===== src/Config.antt =====
-- src/config.c: the settings and the arguments of the program. What is printed is in Report.
pub mod Ranges
mod Tests
use concurrent_http_proxy_se.Base.{
  ℕ, ◌-◌, ◌^◌, ◌==◌, ltb, leb, if◌then◌else◌, Bool, true, false, not, ◌&&◌, ◌||◌, Option, none,
  some, ◌>>=◌, List, [], ◌∷◌,
}
use concurrent_http_proxy_se.Bytes.{Bytes, codes, bytes_eq}
use concurrent_http_proxy_se.Logger.{Level, info, parse_level}
use concurrent_http_proxy_se.Parser.{strtol}

-- proxy_config_t
pub record Config : Type 0 where
  pub port : ℕ
  pub worker_count : ℕ
  pub cache_size_bytes : ℕ
  pub log_level : Level

unfoldable pub defaults : Config
defaults = record { port = 8080; worker_count = 4; cache_size_bytes = 1048576; log_level = info }

-- Whether `strtol` sets errno: the number is none of a long.
abbrev pub is_out_of_long : Bool → ℕ → Bool
is_out_of_long true n = ltb (2 ^ 63) n
is_out_of_long false n = leb (2 ^ 63) n

-- The tests of `parse_int_arg` on what `strtol` gives, with bounds that are not negative.
abbrev pub int_of : ℕ → ℕ → Bool × ℕ × Bytes → Option ℕ
int_of low high (negative, n, rest) =
    if is_out_of_long negative n || not (bytes_eq rest [])
    then none
    else if (negative && ltb 0 n) || ltb n low || ltb high n
    then none
    else some n

-- `parse_int_arg` of a value that is not NULL.
unfoldable pub parse_int_arg : Bytes → ℕ → ℕ → Option ℕ
parse_int_arg value low high = strtol value >>= int_of low high

-- What `strtoull` makes of the number, modulo 2^64; from 2^64 on it sets errno, whatever the sign.
abbrev pub unsigned : Bool → ℕ → ℕ
unsigned true n = if n == 0 then 0 else 2 ^ 64 - n
unsigned false n = n

-- The tests of `parse_size_arg` on that.
abbrev pub size_of : Bool × ℕ × Bytes → Option ℕ
size_of (negative, n, rest) =
    if leb (2 ^ 64) n || not (bytes_eq rest [])
    then none
    else if unsigned negative n == 0
    then none
    else some (unsigned negative n)

unfoldable pub parse_size_arg : Bytes → Option ℕ
parse_size_arg value = strtol value >>= size_of

-- What each flag does with its value.
abbrev pub set_port : Config → Bytes → Option Config
set_port c value = parse_int_arg value 1 65535 >>= λ n. some (record c { port = n })

abbrev pub set_workers : Config → Bytes → Option Config
set_workers c value = parse_int_arg value 1 256 >>= λ n. some (record c { worker_count = n })

abbrev pub set_cache_size : Config → Bytes → Option Config
set_cache_size c value = parse_size_arg value >>= λ n. some (record c { cache_size_bytes = n })

abbrev pub set_log_level : Config → Bytes → Option Config
set_log_level c value = parse_level value >>= λ l. some (record c { log_level = l })

-- One flag with its value.
unfoldable pub set_flag : Config → Bytes → Bytes → Option Config
set_flag c flag value =
    if bytes_eq flag (codes "--port")
    then set_port c value
    else if bytes_eq flag (codes "--workers")
    then set_workers c value
    else if bytes_eq flag (codes "--cache-size")
    then set_cache_size c value
    else if bytes_eq flag (codes "--log-level")
    then set_log_level c value
    else none

-- The results 1, -1 and 0, the last with the settings.
pub data Parsed : Type 0 where
  help invalid : Parsed
  accepted : Config → Parsed

-- The loop of `proxy_config_parse_args`. A last argument other than --help lacks its value or is
-- unknown.
unfoldable pub parse_from : Config → List Bytes → Parsed
parse_from c [] = accepted c
parse_from c (flag ∷ []) = if bytes_eq flag (codes "--help") then help else invalid
parse_from c (flag ∷ value ∷ rest) =
    if bytes_eq flag (codes "--help")
    then help
    else elim (set_flag c flag value) [ none ↦ invalid | some d ↦ parse_from d rest ]

-- The arguments are those behind the program's name, which is there.
unfoldable pub parse_args : List Bytes → Parsed
parse_args args = parse_from defaults args
