-- ===== src/Log/Loggers.antt =====
-- The appenders, `Logger` and `LoggerManager` of saturn/log.h and saturn/log.cc, and the listener of `LogIniter`,
-- which sets them up from the configuration.
use saturn.Base.{
  ℕ, suc, ◌+◌, length, Bool, false, ◌||◌, Option, none, some, List, [], ◌∷◌, ◌++◌, bytes, ◌==◌, leb,
  equal, if◌then◌else◌,
}
use saturn.Log.{LogFormatter, parse_format}
use saturn.Log.Events.{LogLevel, rank, LogEvent, Printer, format}

-- Where an appender writes.
pub data Sink : Type 0 where
  to_stdout : Sink
  to_file : (filepath : List ℕ) → Sink

-- An appender, at its address.
pub record LogAppender : Type 0 where
  pub address : ℕ
  pub sink : Sink
  pub level : LogLevel
  pub formatter : Option LogFormatter

-- A logger: no constructor sets `m_level`, and `none` is the level that nobody has set.
pub record Logger : Type 0 where
  pub name : List ℕ
  pub level : Option LogLevel
  pub formatter : Option LogFormatter
  pub appenders : List LogAppender

-- `m_loggers`, by their names, and the loggers that have left it, which other threads may still hold.
pub record LoggerManager : Type 0 where
  pub loggers : List (List ℕ × Logger)
  pub released : List Logger

-- How a call ends: a second lock of the logger's own mutex never ends, and a level that nobody has set has no
-- value to compare.
pub data Outcome : Type 0 where
  completed formatter_invalid deadlocked level_unset : Outcome

-- What a call has written, in order, and how it has ended.
abbrev pub Logged : Type 0
Logged = List (Sink × List ℕ) × Outcome

unfoldable pub new_logger : List ℕ → Logger
new_logger name = record { name = name; level = none; formatter = none; appenders = [] }

unfoldable pub find : List ℕ → List (List ℕ × Logger) → Option Logger
find name [] = none
find name ((n, lg) ∷ rest) = let found = find name rest in if equal n name then some lg else found

-- `getLogger`: the logger of that name, which is made if there is none.
unfoldable pub get_logger : List ℕ → LoggerManager → Logger
get_logger name m = elim (find name m.loggers) [ some lg ↦ lg | none ↦ new_logger name ]

-- A logger of the map is written to.
unfoldable pub store : List ℕ → Logger → List (List ℕ × Logger) → List (List ℕ × Logger)
store name lg [] = (name, lg) ∷ []
store name lg ((n, l) ∷ rest) =
    let stored = store name lg rest in if equal n name then (n, lg) ∷ rest else (n, l) ∷ stored

unfoldable pub put_logger : List ℕ → Logger → LoggerManager → LoggerManager
put_logger name lg m = record { loggers = store name lg m.loggers; released = m.released }

unfoldable pub erase : List ℕ → List (List ℕ × Logger) → List (List ℕ × Logger)
erase name [] = []
erase name ((n, l) ∷ rest) =
    let erased = erase name rest in if equal n name then erased else (n, l) ∷ erased

-- `delLogger`.
unfoldable pub del_logger : List ℕ → LoggerManager → LoggerManager
del_logger name m = record {
  loggers = erase name m.loggers;
  released = elim (find name m.loggers) [ some lg ↦ lg ∷ m.released | none ↦ m.released ];
}

-- The formatter that is used: the appender's own, and else the logger's.
unfoldable pub own_or : Option LogFormatter → Option LogFormatter → Option LogFormatter
own_or fallback (some f) = some f
own_or fallback none = fallback

-- `log` of an appender, on the formatter that the manager's logger of that name has. Without a formatter the
-- program writes a line and throws.
unfoldable pub append_log :
    Printer → Option LogFormatter → LogAppender → List ℕ → LogLevel → LogEvent → Logged
append_log out fallback ap name l event =
    if leb (rank ap.level) (rank l)
    then elim (own_or fallback ap.formatter) [
      | some f ↦ ((ap.sink, format out f name l event) ∷ [], completed)
      | none ↦ (
        (to_stdout, bytes "both logger's and appender's formatter invalid." ++ 10 ∷ []) ∷ [],
        formatter_invalid,
      )
    ]
    else ([], completed)

-- The loop over the appenders, which an exception leaves.
unfoldable pub append_all :
    Printer → Option LogFormatter → List LogAppender → List ℕ → LogLevel → LogEvent → Logged
append_all out fallback [] name l event = ([], completed)
append_all out fallback (ap ∷ aps) name l event =
    let (written, outcome) = append_log out fallback ap name l event in
    let rest = append_all out fallback aps name l event in
    elim outcome [
      | completed ↦ (written ++ rest.0, rest.1)
      | formatter_invalid ↦ (written, formatter_invalid)
      | deadlocked ↦ (written, deadlocked)
      | level_unset ↦ (written, level_unset)
    ]

-- `Logger::log` by what is done where there are no appenders.
unfoldable pub log_or : Logged → Printer → LoggerManager → Logger → LogLevel → LogEvent → Logged
log_or empty out m lg l event = elim lg.level [
  | none ↦ ([], level_unset)
  | some threshold ↦
      if leb (rank threshold) (rank l)
      then elim lg.appenders [
        | [] ↦ empty
        | ap ∷ aps ↦ append_all out (get_logger lg.name m).formatter (ap ∷ aps) lg.name l event
      ]
      else ([], completed)
]

abbrev pub root : List ℕ
root = bytes "root"

-- `Logger::log`: without appenders the root logger does it. The root logger holds its mutex then, and so it
-- waits for itself.
unfoldable pub log : Printer → LoggerManager → Logger → LogLevel → LogEvent → Logged
log out m lg l event =
    log_or (log_or ([], deadlocked) out m (get_logger root m) l event) out m lg l event

-- `addAppender`.
unfoldable pub add_appender : LogAppender → Logger → Logger
add_appender ap lg = record {
  name = lg.name;
  level = lg.level;
  formatter = lg.formatter;
  appenders = lg.appenders ++ ap ∷ [];
}

-- The loop of `delAppender`: the first of the appenders that is at that address goes.
unfoldable pub erase_first : ℕ → List LogAppender → List LogAppender
erase_first address [] = []
erase_first address (ap ∷ aps) =
    let rest = erase_first address aps in if ap.address == address then aps else ap ∷ rest

unfoldable pub del_appender : ℕ → Logger → Logger
del_appender address lg = record {
  name = lg.name;
  level = lg.level;
  formatter = lg.formatter;
  appenders = erase_first address lg.appenders;
}

unfoldable pub clear_appenders : Logger → Logger
clear_appenders lg = record {
  name = lg.name;
  level = lg.level;
  formatter = lg.formatter;
  appenders = [];
}

unfoldable pub set_level : LogLevel → Logger → Logger
set_level l lg = record {
  name = lg.name;
  level = some l;
  formatter = lg.formatter;
  appenders = lg.appenders;
}

unfoldable pub set_formatter : Option LogFormatter → Logger → Logger
set_formatter f lg = record {
  name = lg.name;
  level = lg.level;
  formatter = f;
  appenders = lg.appenders;
}

pub record LogAppenderConfig : Type 0 where
  pub type : ℕ
  pub level : LogLevel
  pub formatter : List ℕ
  pub file : List ℕ

pub record LogConfig : Type 0 where
  pub name : List ℕ
  pub level : LogLevel
  pub formatter : List ℕ
  pub appenders : List LogAppenderConfig

infixl 5 ◌>>=◌
abbrev pub ◌>>=◌ {ℓ κ} : {A : Type ℓ} {B : Type κ} → Option A → (A → Option B) → Option B
none >>= f = none
some a >>= f = f a

-- A formatter of that format, if it is valid; `none` is the read behind the format's end.
unfoldable pub valid_formatter : List ℕ → Option (Option LogFormatter)
valid_formatter s = elim (parse_format s) [
  | none ↦ none
  | some f ↦ some (if f.error then none else some f)
]

-- The types of appenders: 1 is stdout, 2 is a file, and any other makes none.
unfoldable pub sink_of : LogAppenderConfig → Option Sink
sink_of c =
    if c.type == 1 then some to_stdout else if c.type == 2 then some (to_file c.file) else none

-- The appender of a configuration, at that address.
unfoldable pub make_appender : ℕ → LogAppenderConfig → Option LogFormatter → Option LogAppender
make_appender address c f = elim (sink_of c) [
  | none ↦ none
  | some k ↦ some (record { address = address; sink = k; level = c.level; formatter = f })
]

unfoldable pub add_made : Option LogAppender → Logger → Logger
add_made none lg = lg
add_made (some ap) lg = add_appender ap lg

-- The loop over a configuration's appenders, which are made from the address `next` on.
unfoldable pub add_appenders : ℕ → List LogAppenderConfig → Logger → Option Logger
add_appenders next [] lg = some lg
add_appenders next (c ∷ cs) lg = do
  f ← valid_formatter c.formatter
  add_appenders (suc next) cs (add_made (make_appender next c f) lg)

-- A round of the first loop of the listener, on the logger.
unfoldable pub configure : ℕ → LogConfig → Logger → Option Logger
configure next c lg = do
  f ← valid_formatter c.formatter
  add_appenders next c.appenders (clear_appenders (set_formatter f (set_level c.level lg)))

unfoldable pub configure_all : ℕ → List LogConfig → LoggerManager → Option LoggerManager
configure_all next [] m = some m
configure_all next (c ∷ cs) m = do
  lg ← configure next c (get_logger c.name m)
  configure_all (next + length c.appenders) cs (put_logger c.name lg m)

-- `new_value.contains(val)`: the set is ordered by the names alone.
unfoldable pub contains : List LogConfig → List ℕ → Bool
contains [] name = false
contains (c ∷ cs) name = equal c.name name || contains cs name

-- A round of the second loop: a logger that is no longer configured is emptied and leaves the map.
unfoldable pub retire : LogConfig → LoggerManager → LoggerManager
retire c m = del_logger c.name (put_logger c.name (clear_appenders (get_logger c.name m)) m)

unfoldable pub retire_all : List LogConfig → List LogConfig → LoggerManager → LoggerManager
retire_all new_value [] m = m
retire_all new_value (c ∷ cs) m =
    retire_all new_value cs (if contains new_value c.name then m else retire c m)

-- The listener of the configuration `log`.
unfoldable pub on_log_config :
    ℕ → List LogConfig → List LogConfig → LoggerManager → Option LoggerManager
on_log_config next old_value new_value m = do
  m' ← configure_all next new_value m
  some (retire_all new_value old_value m')
