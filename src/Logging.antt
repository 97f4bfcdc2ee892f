-- ===== src/Logging.antt =====
-- Log levels, include/nghttp2-corosio/logging.hpp.
pub mod Names
use nghttp2_corosio.Base.{
  ℕ, Bool, true, false, Option, none, some, ◌∷◌, ◌++◌, Bytes, codes, same, leb, if◌then◌else◌,
}

pub data LogLevel : Type 0 where
  debug info warn error off : LogLevel

-- What `log_level()` is before set_log_level().
abbrev pub default_level : LogLevel
default_level = info

-- The order of the enumerators.
unfoldable pub rank : LogLevel → ℕ
rank debug = 0
rank info = 1
rank warn = 2
rank error = 3
rank off = 4

-- `none` is the exception std::invalid_argument.
unfoldable pub parse_log_level : Bytes → Option LogLevel
parse_log_level name =
    if same name (codes "debug")
    then some debug
    else if same name (codes "info")
    then some info
    else if same name (codes "warn")
    then some warn
    else if same name (codes "error")
    then some error
    else if same name (codes "off")
    then some off
    else none

unfoldable pub log_level_name : LogLevel → Bytes
log_level_name debug = codes "debug"
log_level_name info = codes "info"
log_level_name warn = codes "warn"
log_level_name error = codes "error"
log_level_name off = codes "off"

-- The escape character of a terminal, which starts the colour sequences.
abbrev escape : ℕ
escape = 27

unfoldable pub log_level_color_name : LogLevel → Bytes
log_level_color_name debug = escape ∷ codes "[2mdebug" ++ escape ∷ codes "[0m"
log_level_color_name info = codes "info"
log_level_color_name warn = escape ∷ codes "[33mwarn" ++ escape ∷ codes "[0m"
log_level_color_name error = escape ∷ codes "[1;31merror" ++ escape ∷ codes "[0m"
log_level_color_name off = codes "off"

-- The test of NGHTTP2_COROSIO_LOG: whether a message of a level is printed at a threshold.
unfoldable pub logs : LogLevel → LogLevel → Bool
unfolding rank
logs threshold level = leb (rank threshold) (rank level)

-- run_io_context() (include/nghttp2-corosio/run_io_context.hpp) steps through the handlers one by
-- one at this threshold.
unfoldable pub steps_singly : LogLevel → Bool
unfolding rank
steps_singly threshold = leb (rank threshold) (rank debug)

-- NGHTTP2_COROSIO_LOG: the line that it prints, if any, for the text of log_timestamp() and the
-- formatted message.
unfoldable pub log : LogLevel → LogLevel → Bytes → Bytes → Option Bytes
unfolding logs log_level_color_name
log threshold level timestamp message =
    if logs threshold level
    then some (
        codes "["
        ++ timestamp
        ++ codes "] ["
        ++ log_level_color_name level
        ++ codes "] "
        ++ message)
    else none
