-- ===== src/Tests/Logs.antt =====
-- The formats and loggers of saturn/log.cc at concrete inputs.
use saturn.Base.{
  ℕ, ◌≡◌, refl, true, false, ◌+◌, none, some, List, [], ◌∷◌, ◌++◌, All, bytes, cut_at,
  if◌then◌else◌, leb,
}
use saturn.Log.{
  FormatPattern, text, time, level, message, LogFormatter, parse_format, patterns_of, next_pattern,
  directive, time_pattern, plain_str, prepend,
}
use saturn.Log.FormatLaws.{show_all, parse_format-show_all, parse_format-show_all-IsPlain}
use saturn.Log.Events.{
  debug, info, warn, rank, LogEvent, Printer, format, str, str_all, padded_left, level_str,
}
use saturn.Log.Loggers.{
  LogAppender, to_stdout, Logger, LoggerManager, completed, deadlocked, own_or, log, log_or, root,
  get_logger, find, LogConfig, configure_all, configure, add_appenders, valid_formatter,
  clear_appenders, set_formatter, set_level, put_logger, store, new_logger, erase, del_logger,
  contains, retire, retire_all, on_log_config,
}
use saturn.Log.LoggerLaws.{accepted, log-accepted}
use saturn.Log.ConfigLaws.{IsConfigured, on_log_config-IsConfigured}

-- "%p" goes first, whatever follows, and a lone '%' is text.
parse_format_run :
    parse_format (bytes "%p[%t] %")
    ≡ some (record {
      format = bytes "%p[%t] %";
      patterns =
          level
          ∷ text (bytes "[")
          ∷ FormatPattern.thread
          ∷ text (bytes "] ")
          ∷ text (bytes "%")
          ∷ [];
      error = false;
    })
unfolding parse_format patterns_of next_pattern directive time_pattern plain_str cut_at prepend
parse_format_run = refl

parse_format-show_all_example :
    parse_format (show_all (level ∷ text (bytes " ") ∷ time (bytes "UNIX") ∷ []))
    ≡ some (record {
      format = show_all (level ∷ text (bytes " ") ∷ time (bytes "UNIX") ∷ []);
      patterns = level ∷ text (bytes " ") ∷ time (bytes "UNIX") ∷ [];
      error = false;
    })
parse_format-show_all_example =
    parse_format-show_all level (text (bytes " ") ∷ time (bytes "UNIX") ∷ [])
      ((refl, tt), tt, ((refl, (refl, (refl, (refl, tt)))), tt))

parse_format-show_all-IsPlain_example : parse_format (show_all (level ∷ []) ++ bytes " x") ≡ none
parse_format-show_all-IsPlain_example =
    parse_format-show_all-IsPlain (level ∷ []) (bytes " x") tt (refl, (refl, tt))

abbrev printer : Printer
printer = record { number = λ n. (48 + n) ∷ []; path_text = λ p. p; put_time = λ t f. [] }

abbrev event : LogEvent
event = record {
  path = bytes "a.cc";
  line_number = 3;
  elapsed = 0;
  thread_id = 1;
  fiber_id = 2;
  timestamp = 9;
  content = bytes "hello";
}

abbrev plain : LogFormatter
plain = record { format = bytes "%p%m"; patterns = level ∷ message ∷ []; error = false }

abbrev appender : LogAppender
appender = record { address = 1; sink = to_stdout; level = info; formatter = some plain }

abbrev system : Logger
system = record {
  name = bytes "system";
  level = some debug;
  formatter = none;
  appenders = appender ∷ [];
}

abbrev empty_manager : LoggerManager
empty_manager = record { loggers = []; released = [] }

accepted_run :
    accepted printer none (appender ∷ []) (bytes "system") warn event
    ≡ (to_stdout, bytes "WARN  hello" ++ 10 ∷ []) ∷ []
unfolding accepted own_or format str_all str padded_left level_str rank
accepted_run = refl

log-accepted_example : log printer empty_manager system warn event ≡ (
  if leb (rank debug) (rank warn)
      then accepted printer
          (get_logger (bytes "system") empty_manager).formatter
          (appender ∷ [])
          (bytes "system")
          warn
          event
      else [],
  completed,
)
unfolding own_or
log-accepted_example =
    log-accepted printer empty_manager system debug appender [] warn event refl refl
      ((plain, refl), tt)

-- A root logger that has no appenders locks itself.
log-deadlocked_run :
    log printer
      (record {
        loggers =
            (root, record { name = root; level = some debug; formatter = none; appenders = [] })
            ∷ [];
        released = [];
      })
      (record { name = root; level = some debug; formatter = none; appenders = [] })
      warn
      event
    ≡ ([], deadlocked)
unfolding log log_or get_logger find rank
log-deadlocked_run = refl

abbrev quiet : LogConfig
quiet = record { name = bytes "quiet"; level = warn; formatter = []; appenders = [] }

abbrev old_config : LogConfig
old_config = record { name = bytes "system"; level = warn; formatter = []; appenders = [] }

abbrev before : LoggerManager
before = record { loggers = (bytes "system", system) ∷ []; released = [] }

abbrev behind : LoggerManager
behind = record {
  loggers =
      (
        bytes "quiet",
        record { name = bytes "quiet"; level = some warn; formatter = none; appenders = [] },
      )
      ∷ [];
  released =
      (record { name = bytes "system"; level = some debug; formatter = none; appenders = [] }) ∷ [];
}

not_contained : contains [] (bytes "quiet") ≡ false
unfolding contains
not_contained = refl

on_log_config_run : on_log_config 0 (old_config ∷ []) (quiet ∷ []) before ≡ some behind
unfolding on_log_config configure_all configure add_appenders valid_formatter parse_format
    clear_appenders set_formatter set_level put_logger store get_logger find new_logger erase
    del_logger contains retire retire_all
on_log_config_run = refl

on_log_config-IsConfigured_example :
    All (IsConfigured behind) (quiet ∷ [])
    × ((k : List ℕ)
        → contains (quiet ∷ []) k ≡ false
        → contains (old_config ∷ []) k ≡ true
        → find k behind.loggers ≡ none)
on_log_config-IsConfigured_example =
    on_log_config-IsConfigured 0 (old_config ∷ []) (quiet ∷ []) before behind (not_contained, tt)
      on_log_config_run
