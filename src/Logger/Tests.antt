-- ===== src/Logger/Tests.antt =====
-- Names of levels.
use concurrent_http_proxy_se.Base.{◌≡◌, ◌↔◌, refl, some, none, map}
use concurrent_http_proxy_se.Bytes.{codes}
use concurrent_http_proxy_se.Logger.{
  warn, to_lower, string_equals_ignore_case, level_to_string, level_in, parse_level,
}
use concurrent_http_proxy_se.Logger.Names.{parse_level_iff}

mixed_case : parse_level (codes "Warn") ≡ some warn
unfolding parse_level level_in string_equals_ignore_case
mixed_case = refl

prefix_only : parse_level (codes "war") ≡ none
unfolding parse_level level_in string_equals_ignore_case
prefix_only = refl

parse_level_iff_example :
    (parse_level (codes "warn") ≡ some warn)
    ↔ (map to_lower (codes "warn") ≡ map to_lower (level_to_string warn))
parse_level_iff_example = parse_level_iff (codes "warn") warn
