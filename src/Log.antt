-- ===== src/Log.antt =====
-- `LogFormatter` of saturn/log.h and saturn/log.cc: the patterns of a format and how they are found.
pub mod Events
pub mod FormatLaws
pub mod Loggers
pub mod LoggerLaws
pub mod Table
pub mod ConfigLaws
use saturn.Base.{
  ℕ, zero, suc, Bool, true, false, ◌||◌, Option, none, some, List, [], ◌∷◌, ◌++◌, bytes, starts,
  length, drop, ◌==◌, if◌then◌else◌, cut_at,
}

-- The classes of patterns: `FormatPattern` itself is a text.
pub data FormatPattern : Type 0 where
  text time : (pattern : List ℕ) → FormatPattern
  level message file line thread fiber elapse logger : FormatPattern

-- `%d`, on what stands behind the 'd'.
unfoldable pub time_pattern : List ℕ → FormatPattern × List ℕ
time_pattern [] = (time [], [])
time_pattern (c ∷ cs) =
    if c == b'{'
    then elim (cut_at b'}' cs) [
      | some (pattern, behind) ↦ (time pattern, behind)
      | none ↦ (time [], c ∷ cs)
    ]
    else (time [], c ∷ cs)

-- The pattern that `sv`, what stands behind a '%', begins with, and what follows it.
unfoldable pub directive : List ℕ → Option (FormatPattern × List ℕ)
directive sv =
    let has = λ (s : List ℕ). starts s sv in
    if has (bytes "p") || has (bytes "level")
    then some (level, drop (if has (bytes "p") then 1 else 5) sv)
    else if has (bytes "m") || (has (bytes "msg") || has (bytes "message"))
    then some
        (message, drop (if has (bytes "message") then 7 else if has (bytes "msg") then 3 else 1) sv)
    else if has (bytes "F") || has (bytes "file")
    then some (file, drop (if has (bytes "F") then 1 else 4) sv)
    else if has (bytes "L") || has (bytes "line")
    then some (line, drop (if has (bytes "L") then 1 else 4) sv)
    else if has (bytes "t") || has (bytes "thread")
    then some (thread, drop (if has (bytes "thread") then 6 else 1) sv)
    else if has (bytes "f") || has (bytes "fiber")
    then some (fiber, drop (if has (bytes "fiber") then 5 else 1) sv)
    else if has (bytes "e") || has (bytes "elapse")
    then some (elapse, drop (if has (bytes "elapse") then 6 else 1) sv)
    else if has (bytes "c") || has (bytes "logger")
    then some (logger, drop (if has (bytes "c") then 1 else 6) sv)
    else if has (bytes "d")
    then some (time_pattern (drop 1 sv))
    else none

-- `plain_str`: the text up to the next '%'. `none` is the search that runs behind the end of the format.
unfoldable pub plain_str : ℕ → List ℕ → Option (FormatPattern × List ℕ)
plain_str c cs = elim (cut_at b'%' cs) [
  | none ↦ none
  | some (before, behind) ↦ some (text (c ∷ before), b'%' ∷ behind)
]

-- A round of the loop, on the character at `i` and those behind it.
unfoldable pub next_pattern : ℕ → List ℕ → Option (FormatPattern × List ℕ)
next_pattern c [] = if c == b'%' then some (text (c ∷ []), []) else plain_str c []
next_pattern c (d ∷ ds) =
    if c == b'%'
    then elim (directive (d ∷ ds)) [ some r ↦ some r | none ↦ plain_str c (d ∷ ds) ]
    else plain_str c (d ∷ ds)

unfoldable pub prepend : FormatPattern → Option (List FormatPattern) → Option (List FormatPattern)
prepend p none = none
prepend p (some ps) = some (p ∷ ps)

-- The loop, on what stands from `i` on, in `fuel` rounds.
unfoldable pub patterns_of : ℕ → List ℕ → Option (List FormatPattern)
patterns_of zero s = some []
patterns_of (suc fuel) [] = some []
patterns_of (suc fuel) (c ∷ cs) = elim (next_pattern c cs) [
  | none ↦ none
  | some (p, rest) ↦ prepend p (patterns_of fuel rest)
]

-- A formatter that has been made, with its `error`, or the read behind the end.
pub record LogFormatter : Type 0 where
  pub format : List ℕ
  pub patterns : List FormatPattern
  pub error : Bool

-- `parseFormat`; each round passes a character.
unfoldable pub parse_format : List ℕ → Option LogFormatter
parse_format [] = some (record { format = []; patterns = []; error = true })
parse_format (c ∷ cs) = elim (patterns_of (length (c ∷ cs)) (c ∷ cs)) [
  | none ↦ none
  | some ps ↦ some (record { format = c ∷ cs; patterns = ps; error = false })
]
