-- ===== src/Main/Level.antt =====
-- The log level: parseLevel and NewWithLevel of internal/logging/logging.go.
use swarm_sentinel.Base.{
  Text, text, text_eq, to_lower, trim_space, Bool, true, false, ◌||◌, ◌&&◌, not, is_nil, ◌==◌,
  if◌then◌else◌,
}

-- zerolog.Level
pub data Level : Type 0 where
  trace_level debug_level info_level warn_level error_level fatal_level panic_level : Level

-- parseLevel: the level, and whether the text names one
unfoldable pub parse_level : Text → Level × Bool
unfolding to_lower trim_space
parse_level level =
    let l = to_lower (trim_space level) in
    if l == text "trace"
    then (trace_level, true)
    else if l == text "debug"
    then (debug_level, true)
    else if l == text "info" || is_nil l
    then (info_level, true)
    else if l == text "warn" || l == text "warning"
    then (warn_level, true)
    else if l == text "error"
    then (error_level, true)
    else if l == text "fatal"
    then (fatal_level, true)
    else if l == text "panic"
    then (panic_level, true)
    else (info_level, false)

-- NewWithLevel: the level of the logger, and whether it warns that the text names none
unfoldable pub new_with_level : Text → Level × Bool
unfolding parse_level
new_with_level level =
    let (lvl, valid) = parse_level level in (lvl, not valid && not (is_nil level))
