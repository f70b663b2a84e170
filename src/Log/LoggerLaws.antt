-- ===== src/Log/LoggerLaws.antt =====
-- What the loggers of saturn/log.cc write, and what the configuration makes of them.
use saturn.Base.{
  inl, inr, ◌≡◌, refl, ◌∙◌, ℕ, true, false, Bool-cases, Option, none, some, List, [], ◌∷◌, All, leb,
  if◌then◌else◌,
}
use saturn.Log.{LogFormatter}
use saturn.Log.Events.{LogLevel, rank, LogEvent, Printer, format}
use saturn.Log.Loggers.{
  Sink, LogAppender, Logger, LoggerManager, Logged, completed, deadlocked, get_logger, append_log,
  append_all, log_or, own_or, root, log,
}

-- The appender has a formatter of its own, or else the logger has one.
abbrev pub HasFormatter : Option LogFormatter → LogAppender → Type 0
HasFormatter fallback a = (f : LogFormatter) × (own_or fallback a.formatter ≡ some f)

-- What the appenders are to write: those whose level is low enough, in order, each a line to its sink.
unfoldable pub accepted :
    Printer
    → Option LogFormatter
    → List LogAppender
    → List ℕ
    → LogLevel
    → LogEvent
    → List (Sink × List ℕ)
accepted out fallback [] name l event = []
accepted out fallback (a ∷ as') name l event =
    let rest = accepted out fallback as' name l event in
    if leb (rank a.level) (rank l)
    then elim (own_or fallback a.formatter) [
      | some f ↦ (a.sink, format out f name l event) ∷ rest
      | none ↦ rest
    ]
    else rest

append_log-accepts :
    (out : Printer) (fallback : Option LogFormatter) (a : LogAppender) (name : List ℕ)
    (l : LogLevel) (event : LogEvent) (f : LogFormatter)
    → own_or fallback a.formatter ≡ some f
    → leb (rank a.level) (rank l) ≡ true
    → append_log out fallback a name l event ≡ ((a.sink, format out f name l event) ∷ [], completed)
unfolding append_log
append_log-accepts out fallback a name l event f e y = rw (y, e) refl

append_log-passes :
    (out : Printer) (fallback : Option LogFormatter) (a : LogAppender) (name : List ℕ)
    (l : LogLevel) (event : LogEvent)
    → leb (rank a.level) (rank l) ≡ false
    → append_log out fallback a name l event ≡ ([], completed)
unfolding append_log
append_log-passes out fallback a name l event n = rw n refl

append_all-accepted :
    (out : Printer) (fallback : Option LogFormatter) (as' : List LogAppender) (name : List ℕ)
    (l : LogLevel) (event : LogEvent)
    → All (HasFormatter fallback) as'
    → append_all out fallback as' name l event ≡ (accepted out fallback as' name l event, completed)
unfolding append_all accepted append_log
append_all-accepted out fallback [] name l event h = refl
append_all-accepted out fallback (a ∷ as') name l event ((f, e), h) =
    let ih = append_all-accepted out fallback as' name l event h in
    elim (Bool-cases (leb (rank a.level) (rank l))) [
      | inl y ↦ rw (append_log-accepts out fallback a name l event f e y, ih, append_all, y, e) refl
      | inr n ↦ rw (append_log-passes out fallback a name l event n, ih, append_all, n) refl
    ]

log_or-accepted :
    (empty : Logged) (out : Printer) (m : LoggerManager) (lg : Logger) (threshold : LogLevel)
    (a : LogAppender) (as' : List LogAppender) (l : LogLevel) (event : LogEvent)
    → lg.level ≡ some threshold
    → lg.appenders ≡ a ∷ as'
    → All (HasFormatter (get_logger lg.name m).formatter) (a ∷ as')
    → log_or empty out m lg l event ≡ (
      if leb (rank threshold) (rank l)
          then accepted out (get_logger lg.name m).formatter (a ∷ as') lg.name l event
          else [],
      completed,
    )
unfolding log_or
log_or-accepted empty out m lg threshold a as' l event e s h =
    let all =
      append_all-accepted out (get_logger lg.name m).formatter (a ∷ as') lg.name l event h in
    elim (Bool-cases (leb (rank threshold) (rank l))) [
      | inl y ↦ rw (e, s, y, log_or) all
      | inr n ↦ rw (e, n, log_or) refl
    ]

log_or-empty :
    (empty : Logged) (out : Printer) (m : LoggerManager) (lg : Logger) (threshold l : LogLevel)
    (event : LogEvent)
    → lg.level ≡ some threshold
    → lg.appenders ≡ []
    → leb (rank threshold) (rank l) ≡ true
    → log_or empty out m lg l event ≡ empty
unfolding log_or
log_or-empty empty out m lg threshold l event e s y = rw (e, s, y, log_or) refl

-- A logger with a level and appenders, each with a formatter of its own or that of the manager's logger of the
-- name: a message whose level is not below the logger's is a line for each appender whose level it reaches, in
-- their order; any other message is none; and the call completes.
pub log-accepted :
    (out : Printer) (m : LoggerManager) (lg : Logger) (threshold : LogLevel) (a : LogAppender)
    (as' : List LogAppender) (l : LogLevel) (event : LogEvent)
    → lg.level ≡ some threshold
    → lg.appenders ≡ a ∷ as'
    → All (HasFormatter (get_logger lg.name m).formatter) (a ∷ as')
    → log out m lg l event ≡ (
      if leb (rank threshold) (rank l)
          then accepted out (get_logger lg.name m).formatter (a ∷ as') lg.name l event
          else [],
      completed,
    )
unfolding log
log-accepted out m lg threshold a as' l event e s h =
    log_or-accepted _ out m lg threshold a as' l event e s h

-- A message that reaches the levels of a logger without appenders and of the root logger, which has none
-- either, is written nowhere: the call waits for a mutex that it holds.
pub log-deadlocked :
    (out : Printer) (m : LoggerManager) (lg : Logger) (threshold root_threshold l : LogLevel)
    (event : LogEvent)
    → lg.level ≡ some threshold
    → lg.appenders ≡ []
    → leb (rank threshold) (rank l) ≡ true
    → (get_logger root m).level ≡ some root_threshold
    → (get_logger root m).appenders ≡ []
    → leb (rank root_threshold) (rank l) ≡ true
    → log out m lg l event ≡ ([], deadlocked)
unfolding log
log-deadlocked out m lg threshold root_threshold l event e s y re rs ry =
    log_or-empty _ out m lg threshold l event e s y
    ∙ log_or-empty ([], deadlocked) out m (get_logger root m) root_threshold l event re rs ry
