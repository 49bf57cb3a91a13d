-- ===== src/Config/Tests.antt =====
-- Arguments that are accepted and some that are not.
use concurrent_http_proxy_se.Base.{◌≡◌, ◌-◌, ◌^◌, refl, some, [], ◌∷◌}
use concurrent_http_proxy_se.Bytes.{codes, bytes_eq}
use concurrent_http_proxy_se.Config.{
  Config, accepted, invalid, parse_int_arg, parse_size_arg, set_flag, parse_from, parse_args,
  defaults,
}
use concurrent_http_proxy_se.Config.Ranges.{IsConfig, parse_args-IsConfig}
use concurrent_http_proxy_se.Logger.{info}
use concurrent_http_proxy_se.Parser.{skip_space, read_sign, read_digits, read_number, strtol}

abbrev settings : Config
settings = record { port = 80; worker_count = 2; cache_size_bytes = 1048576; log_level = info }

two_flags :
    parse_args (codes "--port" ∷ codes "80" ∷ codes "--workers" ∷ codes "2" ∷ [])
    ≡ accepted settings
unfolding parse_args parse_from defaults set_flag bytes_eq parse_int_arg strtol skip_space read_sign
    read_number read_digits
two_flags = refl

missing_value : parse_args (codes "--port" ∷ []) ≡ invalid
unfolding parse_args parse_from bytes_eq
missing_value = refl

-- The minus sign of a size wraps around.
minus_one : parse_size_arg (codes "-1") ≡ some (2 ^ 64 - 1)
unfolding parse_size_arg bytes_eq strtol skip_space read_sign read_number read_digits
minus_one = refl

parse_args-IsConfig_example : IsConfig settings
parse_args-IsConfig_example =
    parse_args-IsConfig (codes "--port" ∷ codes "80" ∷ codes "--workers" ∷ codes "2" ∷ []) settings
      two_flags
