-- ===== src/Logger.antt =====
-- src/logger.c: the names of the levels. What is printed is in Report.
pub mod Names
mod Tests
use concurrent_http_proxy_se.Base.{
  ℕ, ◌+◌, ◌==◌, ltb, if◌then◌else◌, Bool, true, false, ◌&&◌, Option, none, some, List, [], ◌∷◌,
}
use concurrent_http_proxy_se.Bytes.{Bytes, codes}

-- log_level_t
pub data Level : Type 0 where
  debug info warn error : Level

-- The value of the enumerator.
abbrev pub number : Level → ℕ
number debug = 0
number info = 1
number warn = 2
number error = 3

abbrev pub levels : List (Level × Bytes)
levels =
    (debug, codes "DEBUG")
    ∷ (info, codes "INFO")
    ∷ (warn, codes "WARN")
    ∷ (error, codes "ERROR")
    ∷ []

-- `tolower` in the C locale.
abbrev pub to_lower : ℕ → ℕ
to_lower ch = if ltb 64 ch && ltb ch 91 then ch + 32 else ch

unfoldable pub string_equals_ignore_case : Bytes → Bytes → Bool
string_equals_ignore_case [] [] = true
string_equals_ignore_case [] (y ∷ ys) = false
string_equals_ignore_case (x ∷ xs) [] = false
string_equals_ignore_case (x ∷ xs) (y ∷ ys) =
    let rest = string_equals_ignore_case xs ys in if to_lower x == to_lower y then rest else false

-- The loop of `logger_level_to_string` over the table.
unfoldable pub name_in : List (Level × Bytes) → Level → Bytes
name_in [] level = codes "UNKNOWN"
name_in ((l, name) ∷ table) level =
    let rest = name_in table level in if number l == number level then name else rest

unfoldable pub level_to_string : Level → Bytes
level_to_string level = name_in levels level

-- The loop of `logger_parse_level`.
unfoldable pub level_in : List (Level × Bytes) → Bytes → Option Level
level_in [] value = none
level_in ((l, name) ∷ table) value =
    let rest = level_in table value in if string_equals_ignore_case value name then some l else rest

unfoldable pub parse_level : Bytes → Option Level
parse_level value = level_in levels value
