-- ===== src/Log/Events.antt =====
-- The events of saturn/log.h and their text: `FormatPattern::str` of each class and `LogFormatter::format` of
-- saturn/log.cc. How C++ streams print a number, a quoted path and a time is a parameter.
use saturn.Base.{ℕ, ◌-◌, ◌*◌, List, [], ◌∷◌, ◌++◌, bytes, length, replicate, equal, if◌then◌else◌}
use saturn.Log.{
  FormatPattern, text, time, level, message, file, line, thread, fiber, elapse, logger,
  LogFormatter,
}

pub data LogLevel : Type 0 where
  unknown_level debug info warn error fatal : LogLevel

-- The value of the enumerator, an index of `level_str`.
unfoldable pub rank : LogLevel → ℕ
rank unknown_level = 0
rank debug = 1
rank info = 2
rank warn = 3
rank error = 4
rank fatal = 5

unfoldable pub level_str : LogLevel → List ℕ
level_str unknown_level = bytes "UNKNOWN"
level_str debug = bytes "DEBUG"
level_str info = bytes "INFO"
level_str warn = bytes "WARN"
level_str error = bytes "ERROR"
level_str fatal = bytes "FATAL"

pub record LogEvent : Type 0 where
  pub path : List ℕ
  pub line_number : ℕ
  pub elapsed : ℕ
  pub thread_id : ℕ
  pub fiber_id : ℕ
  pub timestamp : ℕ
  pub content : List ℕ

-- What `operator<<` writes for a number and for a path, and `std::put_time` for a time and a format.
pub record Printer : Type 0 where
  pub number : ℕ → List ℕ
  pub path_text : List ℕ → List ℕ
  pub put_time : ℕ → List ℕ → List ℕ

-- `std::left << std::setw(width)` and `std::setw(width)`.
unfoldable pub padded_left : ℕ → List ℕ → List ℕ
padded_left width s = s ++ replicate (width - length s) b' '

unfoldable pub padded_right : ℕ → List ℕ → List ℕ
padded_right width s = replicate (width - length s) b' ' ++ s

pub data TimeType : Type 0 where
  iso8601 unix unix_millis self_defined : TimeType

-- The constructor of `TimeFormatPattern`.
unfoldable pub time_type : List ℕ → TimeType
time_type pattern =
    if equal pattern (bytes "UNIX")
    then unix
    else if equal pattern (bytes "UNIX_MILLIS")
    then unix_millis
    else if equal pattern (bytes "ISO8601")
    then iso8601
    else if equal pattern []
    then unix
    else self_defined

-- `TimeFormatPattern::str`, at a time whose milliseconds an `int64_t` holds.
unfoldable pub time_str : Printer → List ℕ → LogEvent → List ℕ
time_str out pattern event = elim (time_type pattern) [
  | unix ↦ padded_right 25 (out.number event.timestamp)
  | unix_millis ↦ padded_right 25 (out.number (event.timestamp * 1000))
  | iso8601 ↦ padded_right 25 (out.put_time event.timestamp (bytes "%Y-%m-%dT%H:%M:%SZ"))
  | self_defined ↦ padded_right 25 (out.put_time event.timestamp pattern)
]

-- `str` of each class of patterns, with the name and the level.
unfoldable pub str : Printer → List ℕ → LogLevel → LogEvent → FormatPattern → List ℕ
str out name l event (text s) = s
str out name l event (time pattern) = time_str out pattern event
str out name l event level = padded_left 6 (level_str l)
str out name l event message = event.content
str out name l event file = padded_left 50 (out.path_text event.path)
str out name l event line = padded_left 4 (out.number event.line_number)
str out name l event thread = padded_left 5 (out.number event.thread_id)
str out name l event fiber = padded_left 5 (out.number event.fiber_id)
str out name l event elapse = padded_left 5 (out.number event.elapsed)
str out name l event logger = padded_left 8 name

unfoldable pub str_all : Printer → List ℕ → LogLevel → LogEvent → List FormatPattern → List ℕ
str_all out name l event [] = []
str_all out name l event (p ∷ ps) = str out name l event p ++ str_all out name l event ps

-- `LogFormatter::format`: the patterns and an end of line.
unfoldable pub format : Printer → LogFormatter → List ℕ → LogLevel → LogEvent → List ℕ
format out formatter name l event = str_all out name l event formatter.patterns ++ 10 ∷ []
