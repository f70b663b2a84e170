-- ===== src/Log/FormatLaws.antt =====
-- What `parseFormat` of saturn/log.cc makes of a format that is written from its patterns.
use saturn.Base.{
  cut_at-append, cut_at-Lacks, Lacks, ◌-◌, ℕ, zero, suc, ◌+◌, ◌≤◌, ◌≡◌, refl, sym, subst, ap, ◌∙◌,
  false, Option, none, some, List, [], ◌∷◌, ◌++◌, bytes, length, length-append, ◌==◌, arith,
}
use mathlib.Core.List.{append_assoc, append-nil}
use saturn.Log.{
  FormatPattern, text, time, level, message, file, line, thread, fiber, elapse, logger,
  time_pattern, directive, plain_str, next_pattern, prepend, patterns_of, parse_format,
}

-- The text of a pattern, by the long name of its directive.
unfoldable pub show : FormatPattern → List ℕ
show (text s) = s
show (time p) = bytes "%d{" ++ p ++ bytes "}"
show level = bytes "%level"
show message = bytes "%message"
show file = bytes "%file"
show line = bytes "%line"
show thread = bytes "%thread"
show fiber = bytes "%fiber"
show elapse = bytes "%elapse"
show logger = bytes "%logger"

unfoldable pub show_all : List FormatPattern → List ℕ
show_all [] = []
show_all (p ∷ ps) = show p ++ show_all ps

-- A text that is not empty and holds no '%'.
abbrev pub IsPlain : List ℕ → Type 0
IsPlain [] = ⊥
IsPlain (c ∷ cs) = ((c == b'%') ≡ false) × Lacks b'%' cs

-- What follows a text begins with '%': it is a directive.
abbrev pub IsDirective : List FormatPattern → Type 0
IsDirective [] = ⊥
IsDirective (text s ∷ ps) = ⊥
IsDirective (p ∷ ps) = Unit

-- Patterns that can be written: a text is plain and a directive follows it, and the pattern of a time holds
-- no '}'.
abbrev pub IsWritable : List FormatPattern → Type 0
IsWritable [] = Unit
IsWritable (text s ∷ ps) = IsPlain s × IsDirective ps × IsWritable ps
IsWritable (time p ∷ ps) = Lacks b'}' p × IsWritable ps
IsWritable (p ∷ ps) = IsWritable ps

next_pattern-time :
    (p rest : List ℕ)
    → Lacks b'}' p
    → next_pattern b'%' (bytes "d{" ++ (p ++ b'}' ∷ rest)) ≡ some (time p, rest)
unfolding next_pattern directive time_pattern
next_pattern-time p rest h = rw (cut_at-append b'}' p rest h) refl

plain_str-append :
    (c : ℕ) (s rest : List ℕ)
    → Lacks b'%' s
    → plain_str c (s ++ b'%' ∷ rest) ≡ some (text (c ∷ s), b'%' ∷ rest)
unfolding plain_str
plain_str-append c s rest h = rw (cut_at-append b'%' s rest h, plain_str) refl

plain_str-Lacks : (c : ℕ) (s : List ℕ) → Lacks b'%' s → plain_str c s ≡ none
unfolding plain_str
plain_str-Lacks c s h = rw (cut_at-Lacks b'%' s h, plain_str) refl

next_pattern-text :
    (c : ℕ) (s rest : List ℕ)
    → IsPlain (c ∷ s)
    → next_pattern c (s ++ b'%' ∷ rest) ≡ some (text (c ∷ s), b'%' ∷ rest)
unfolding next_pattern
next_pattern-text c [] rest h = rw h.0 (plain_str-append c [] rest tt)
next_pattern-text c (d ∷ s) rest h = rw h.0 (plain_str-append c (d ∷ s) rest h.1)

next_pattern-IsPlain : (c : ℕ) (s : List ℕ) → IsPlain (c ∷ s) → next_pattern c s ≡ none
unfolding next_pattern
next_pattern-IsPlain c [] h = rw h.0 (plain_str-Lacks c [] tt)
next_pattern-IsPlain c (d ∷ s) h = rw h.0 (plain_str-Lacks c (d ∷ s) h.1)

-- A pattern whose text the next round takes whole.
patterns_of-round :
    (fuel : ℕ) (p : FormatPattern) (c : ℕ) (cs rest : List ℕ)
    → next_pattern c cs ≡ some (p, rest)
    → patterns_of (suc fuel) (c ∷ cs) ≡ prepend p (patterns_of fuel rest)
unfolding patterns_of
patterns_of-round fuel p c cs rest e = rw (e, patterns_of) refl

patterns_of-time :
    (fuel : ℕ) (p rest : List ℕ)
    → Lacks b'}' p
    → patterns_of (suc fuel) (show (time p) ++ rest) ≡ prepend (time p) (patterns_of fuel rest)
unfolding show
patterns_of-time fuel p rest h =
    subst
      (λ s. patterns_of (suc fuel) (bytes "%d{" ++ s) ≡ prepend (time p) (patterns_of fuel rest))
      (sym (append_assoc p (bytes "}") rest))
      (patterns_of-round fuel (time p) b'%' (bytes "d{" ++ (p ++ b'}' ∷ rest)) rest
        (next_pattern-time p rest h))

-- What follows a text: it begins with '%'.
patterns_of-text :
    (fuel : ℕ) (s : List ℕ) (ps : List FormatPattern) (rest : List ℕ)
    → IsPlain s
    → IsDirective ps
    → patterns_of (suc fuel) (s ++ (show_all ps ++ rest))
      ≡ prepend (text s) (patterns_of fuel (show_all ps ++ rest))
patterns_of-text fuel [] ps rest h d = elim h [ ]
patterns_of-text fuel (c ∷ s) [] rest h d = elim d [ ]
patterns_of-text fuel (c ∷ s) (time p ∷ ps) rest h d =
    unfold show_all show in
    patterns_of-round fuel (text (c ∷ s)) c (s ++ _) _ (next_pattern-text c s _ h)
patterns_of-text fuel (c ∷ s) (text p ∷ ps) rest h d = elim d [ ]
patterns_of-text fuel (c ∷ s) (p ∷ ps) rest h d =
    unfold show_all show in
    patterns_of-round fuel (text (c ∷ s)) c (s ++ _) _ (next_pattern-text c s _ h)

patterns_of-show :
    (fuel : ℕ) (p : FormatPattern) (ps : List FormatPattern) (rest : List ℕ)
    → IsWritable (p ∷ ps)
    → patterns_of (suc fuel) (show p ++ (show_all ps ++ rest))
      ≡ prepend p (patterns_of fuel (show_all ps ++ rest))
unfolding patterns_of show
patterns_of-show fuel (time p) ps rest w = patterns_of-time fuel p (show_all ps ++ rest) w.0
patterns_of-show fuel (text s) ps rest w = patterns_of-text fuel s ps rest w.0 w.1
patterns_of-show fuel p ps rest w = unfold next_pattern directive in refl

abbrev prepend_all : List FormatPattern → Option (List FormatPattern) → Option (List FormatPattern)
prepend_all [] r = r
prepend_all (p ∷ ps) r = prepend p (prepend_all ps r)

prepend_all-some : (ps : List FormatPattern) → prepend_all ps (some []) ≡ some ps
unfolding prepend
prepend_all-some [] = refl
prepend_all-some (p ∷ ps) = rw (prepend_all-some ps) refl

prepend_all-none : (ps : List FormatPattern) → prepend_all ps none ≡ none
unfolding prepend
prepend_all-none [] = refl
prepend_all-none (p ∷ ps) = rw (prepend_all-none ps) refl

IsWritable-tail :
    (p : FormatPattern) (ps : List FormatPattern) → IsWritable (p ∷ ps) → IsWritable ps
IsWritable-tail (text s) ps w = w.2
IsWritable-tail (time p) ps w = w.1
IsWritable-tail p ps w = w

-- A round for each pattern, and `fuel` more.
abbrev rounds : List FormatPattern → ℕ → ℕ
rounds [] fuel = fuel
rounds (p ∷ ps) fuel = suc (rounds ps fuel)

rounds-length : (ps : List FormatPattern) (fuel : ℕ) → rounds ps fuel ≡ length ps + fuel
rounds-length [] fuel = omega arith
rounds-length (p ∷ ps) fuel = let ih = rounds-length ps fuel in omega arith

patterns_of-show_all :
    (fuel : ℕ) (ps : List FormatPattern) (rest : List ℕ)
    → IsWritable ps
    → patterns_of (rounds ps fuel) (show_all ps ++ rest) ≡ prepend_all ps (patterns_of fuel rest)
unfolding show_all
patterns_of-show_all fuel [] rest w = refl
patterns_of-show_all fuel (p ∷ ps) rest w = rw (append_assoc (show p) (show_all ps) rest) (
    patterns_of-show (rounds ps fuel) p ps rest w
    ∙ ap (prepend p) (patterns_of-show_all fuel ps rest (IsWritable-tail p ps w)))

-- The fuel of `parseFormat` is enough: a pattern has a character at least.
length-show_pos :
    (p : FormatPattern) (ps : List FormatPattern) → IsWritable (p ∷ ps) → 1 ≤ length (show p)
unfolding show
length-show_pos (text []) ps w = elim w.0 [ ]
length-show_pos (text (c ∷ s)) ps w = omega arith
length-show_pos p ps w = omega arith

length-show_all : (ps : List FormatPattern) → IsWritable ps → length ps ≤ length (show_all ps)
unfolding show_all
length-show_all [] w = omega arith
length-show_all (p ∷ ps) w = rw (length-append (show p) (show_all ps)) (
    let one = length-show_pos p ps w in
    let more = length-show_all ps (IsWritable-tail p ps w) in omega arith)

-- The fuel of `parseFormat` is a round for each pattern and one for each character left.
patterns_of-length :
    (ps : List FormatPattern) (rest : List ℕ)
    → IsWritable ps
    → (fuel : ℕ) × length rest ≤ fuel
      × patterns_of (length (show_all ps ++ rest)) (show_all ps ++ rest)
        ≡ prepend_all ps (patterns_of fuel rest)
patterns_of-length ps rest w =
    let fuel = length (show_all ps ++ rest) - length ps in
    let long = length-show_all ps w in
    let all = length-append (show_all ps) rest in
    (
      fuel,
      omega arith,
      subst (λ n. patterns_of n (show_all ps ++ rest) ≡ prepend_all ps (patterns_of fuel rest))
          (rounds-length ps fuel ∙ omega arith) (patterns_of-show_all fuel ps rest w),
    )

parse_format-patterns_of :
    (s : List ℕ) (ps : List FormatPattern)
    → 1 ≤ length s
    → patterns_of (length s) s ≡ some ps
    → parse_format s ≡ some (record { format = s; patterns = ps; error = false })
unfolding parse_format
parse_format-patterns_of [] ps h e = grind arith
parse_format-patterns_of (c ∷ s) ps h e = rw (e, parse_format) refl

parse_format-none :
    (s : List ℕ) → 1 ≤ length s → patterns_of (length s) s ≡ none → parse_format s ≡ none
unfolding parse_format
parse_format-none [] h e = grind arith
parse_format-none (c ∷ s) h e = rw (e, parse_format) refl

patterns_of-nil : (fuel : ℕ) → patterns_of fuel [] ≡ some []
unfolding patterns_of
patterns_of-nil zero = refl
patterns_of-nil (suc fuel) = refl

patterns_of-IsPlain :
    (fuel c : ℕ) (s : List ℕ) → 1 ≤ fuel → IsPlain (c ∷ s) → patterns_of fuel (c ∷ s) ≡ none
unfolding patterns_of
patterns_of-IsPlain zero c s f h = grind arith
patterns_of-IsPlain (suc fuel) c s f h = rw (next_pattern-IsPlain c s h, patterns_of) refl

-- A format that is written from its patterns, with the long name of each directive, is read back as these
-- patterns and is valid: for patterns of which each text is plain and stands before a directive, and each
-- pattern of a time holds no '}'.
pub parse_format-show_all :
    (p : FormatPattern) (ps : List FormatPattern)
    → IsWritable (p ∷ ps)
    → parse_format (show_all (p ∷ ps))
      ≡ some (record { format = show_all (p ∷ ps); patterns = p ∷ ps; error = false })
parse_format-show_all p ps w =
    let found = patterns_of-length (p ∷ ps) [] w in
    let long = length-show_all (p ∷ ps) w in
    parse_format-patterns_of (show_all (p ∷ ps)) (p ∷ ps) (omega arith) (
      subst (λ s. patterns_of (length s) s ≡ some (p ∷ ps)) (append-nil (show_all (p ∷ ps)))
        (found.2 ∙ ap (prepend_all (p ∷ ps)) (patterns_of-nil found.0) ∙ prepend_all-some (p ∷ ps)))

-- A format that ends in plain text is not read: the search for the next '%' runs behind its end, whatever
-- patterns, written as above, stand before the text.
pub parse_format-show_all-IsPlain :
    (ps : List FormatPattern) (s : List ℕ)
    → IsWritable ps
    → IsPlain s
    → parse_format (show_all ps ++ s) ≡ none
parse_format-show_all-IsPlain ps [] w h = elim h [ ]
parse_format-show_all-IsPlain ps (c ∷ s) w h =
    let found = patterns_of-length ps (c ∷ s) w in
    let all = length-append (show_all ps) (c ∷ s) in
    parse_format-none (show_all ps ++ c ∷ s) (omega arith) (
      found.2
      ∙ ap (prepend_all ps) (patterns_of-IsPlain found.0 c s (omega (arith, found.1)) h)
      ∙ prepend_all-none ps)
