-- ===== src/Report/Lines.antt =====
-- What can be read back from the lines that the program prints.
use concurrent_http_proxy_se.Base.{
  ℕ, ◌≤◌, ◌≡◌, refl, sym, ap, ◌∙◌, arith, ltb, append-nil, append_cancel, last_split,
  cons_injective, some_injective, Option, some, false, true, [], ◌∷◌, ◌++◌, Bool, if◌then◌else◌,
}
use concurrent_http_proxy_se.Bytes.{Bytes, codes}
use concurrent_http_proxy_se.Config.{Config}
use concurrent_http_proxy_se.Decimal.{decimal, decimal_injective}
use concurrent_http_proxy_se.Logger.{
  Level, debug, info, warn, error, number, level_to_string, name_in, parse_level, level_in,
  string_equals_ignore_case,
}
use concurrent_http_proxy_se.Metrics.{Counters}
use concurrent_http_proxy_se.Report.{
  stamp, padded, log_line, log, summary_labels, summary_numbers, summary, config_labels,
  config_text, log_summary, config_log,
}
use concurrent_http_proxy_se.Report.Fields.{number_split, fields_injective}

-- The name of a level is read back as the level.
level_of_name : (l : Level) → parse_level (level_to_string l) ≡ some l
unfolding level_to_string name_in parse_level level_in string_equals_ignore_case
level_of_name debug = refl
level_of_name info = refl
level_of_name warn = refl
level_of_name error = refl

last_number : (n m : ℕ) → decimal n ++ [] ≡ decimal m ++ [] → (n ≡ m) × (◌≡◌ {A = Bytes} [] [])
last_number n m e =
    (decimal_injective n m (sym (append-nil (decimal n)) ∙ e ∙ append-nil (decimal m)), refl)

same_counters : (a b : Counters) → summary_numbers a ≡ summary_numbers b → a ≡ b
same_counters a b e = cc e

summary_injective : (a b : Counters) → summary a ≡ summary b → a ≡ b
unfolding summary
summary_injective a b e =
    same_counters a b
      (fields_injective (codes "metrics summary: total_requests=") summary_labels
        (summary_numbers a) (summary_numbers b) [] []
        (
          (_, refl),
          ((_, refl), ((_, refl), ((_, refl), ((_, refl), ((_, refl), ((_, refl), tt)))))),
        )
        refl refl last_number e).0

config_injective : (c d : Config) → config_text c ≡ config_text d → c ≡ d
unfolding config_text
config_injective c d e =
    let (numbers, rest) =
      fields_injective (codes "config: port=") config_labels
        (c.port ∷ c.worker_count ∷ c.cache_size_bytes ∷ [])
        (d.port ∷ d.worker_count ∷ d.cache_size_bytes ∷ [])
        (codes " log_level=" ++ level_to_string c.log_level)
        (codes " log_level=" ++ level_to_string d.log_level) ((_, refl), ((_, refl), tt)) refl refl
        (λ n m h. let (same, tail) = number_split n m _ _ h in (same, ap (λ t. 32 ∷ t) tail)) e in
    let name = append_cancel (codes " log_level=") rest in
    let level : c.log_level ≡ d.log_level =
      some_injective
        (sym (level_of_name c.log_level) ∙ ap parse_level name ∙ level_of_name d.log_level) in
    cc (numbers, level)

-- A line determines its message.
log_line_injective :
    (timestamp : Option Bytes) (l : Level) (a b : Bytes)
    → log_line timestamp l a ≡ log_line timestamp l b
    → a ≡ b
unfolding log_line
log_line_injective timestamp l a b e =
    let inner =
      append_cancel (padded (level_to_string l))
        (append_cancel (codes "] ") (append_cancel (91 ∷ stamp timestamp) e)) in
    (last_split 10 a b [] [] refl refl (cons_injective inner).1).0

-- At a level that is not filtered, too.
log_injective :
    (current : Level) (timestamp : Option Bytes) (l : Level) (a b : Bytes)
    → number current ≤ number l
    → log current timestamp l a ≡ log current timestamp l b
    → a ≡ b
unfolding log
log_injective current timestamp l a b h e =
    log_line_injective timestamp l a b (by_level (ltb (number l) (number current)) refl e)
  where
    by_level :
        (f : Bool)
        → ltb (number l) (number current) ≡ f
        → (if f then [] else log_line timestamp l a) ≡ (if f then [] else log_line timestamp l b)
        → log_line timestamp l a ≡ log_line timestamp l b
    by_level true g e = absurd (ground (arith, g, h))
    by_level false g e = e

-- When the level of the logger lets lines of the level INFO through, the line that metrics_log_summary
-- prints and the one that proxy_config_log prints say everything: at the same time, two modules of
-- counters with the same line have the same counters, and two configurations with the same line are
-- the same.
pub log_determines :
    (current : Level) (timestamp : Option Bytes)
    → number current ≤ number info
    → ((a b : Counters)
        → log_summary current timestamp (some a) ≡ log_summary current timestamp (some b)
        → a ≡ b)
      × ((c d : Config) → config_log current timestamp c ≡ config_log current timestamp d → c ≡ d)
unfolding log_summary config_log
log_determines current timestamp h = (
  λ a b e. summary_injective a b (log_injective current timestamp info _ _ h e),
  λ c d e. config_injective c d (log_injective current timestamp info _ _ h e),
)
