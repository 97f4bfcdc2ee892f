-- ===== src/Logging/Names.antt =====
-- The names of the log levels and the effect of the threshold
-- (include/nghttp2-corosio/logging.hpp).
use nghttp2_corosio.Base.{
  ◌≤◌, ◌≡◌, ◌≢◌, refl, ap, ◌∙◌, ◌↔◌, true, false, some, arith, Bytes, codes, same, same_iff,
}
use nghttp2_corosio.Logging.{
  LogLevel, debug, info, warn, error, off, rank, parse_log_level, log_level_name, logs,
}

parse_name : (level : LogLevel) → parse_log_level (log_level_name level) ≡ some level
unfolding parse_log_level log_level_name same
parse_name debug = refl
parse_name info = refl
parse_name warn = refl
parse_name error = refl
parse_name off = refl

name_of_parsed :
    (name : Bytes) (level : LogLevel)
    → parse_log_level name ≡ some level
    → name ≡ log_level_name level
unfolding parse_log_level log_level_name
name_of_parsed name level e = ground (
  arith,
  same_iff name (codes "debug"),
  same_iff name (codes "info"),
  same_iff name (codes "warn"),
  same_iff name (codes "error"),
  same_iff name (codes "off"),
)

-- parse_log_level() accepts exactly the names that log_level_name() gives, each for its level.
pub parse_log_level_iff :
    (name : Bytes) (level : LogLevel)
    → (parse_log_level name ≡ some level) ↔ (name ≡ log_level_name level)
parse_log_level_iff name level =
    (name_of_parsed name level, λ e. ap parse_log_level e ∙ parse_name level)

-- A message that is printed at a threshold is printed at every lower one.
pub logs_mono :
    (threshold lower level : LogLevel)
    → rank lower ≤ rank threshold
    → logs threshold level ≡ true
    → logs lower level ≡ true
unfolding logs
logs_mono threshold lower level le h = ground arith

-- The threshold `off` suppresses every message below it, errors included.
pub logs-off : (level : LogLevel) → level ≢ off → logs off level ≡ false
unfolding logs
logs-off level h = ground arith
