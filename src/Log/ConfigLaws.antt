-- ===== src/Log/ConfigLaws.antt =====
-- What the listener of `LogIniter` in saturn/log.cc makes of the loggers.
use saturn.Base.{
  inl, inr, ◌≡◌, refl, sym, ap, ◌∙◌, subst, ℕ, suc, ◌+◌, length, Bool, true, false, Bool-cases,
  Option, none, some, Option-cases, List, [], ◌∷◌, ◌++◌, All, equal, equal_iff, ◌||◌,
}
use saturn.Log.Loggers.{
  Sink, sink_of, LogAppender, Logger, LoggerManager, find, get_logger, put_logger, del_logger,
  LogConfig, clear_appenders, valid_formatter, add_appenders, configure, configure_all, contains,
  retire, retire_all, on_log_config, ◌>>=◌, add_made, add_appender, make_appender,
  LogAppenderConfig, set_formatter, set_level,
}
use mathlib.Core.List.{append_assoc, append-nil}
use mathlib.Core.Option.{some-injective}
use saturn.Log.{LogFormatter}
use saturn.Log.Table.{find-store, find-store_other, find-erase, find-erase_other}

-- The appenders that the configurations ask for, in their order.
pub data IsMade : List LogAppenderConfig → List LogAppender → Type 0 where
  nothing : IsMade [] []
  skips :
      (c : LogAppenderConfig) (cs : List LogAppenderConfig) (as' : List LogAppender)
      → sink_of c ≡ none
      → IsMade cs as'
      → IsMade (c ∷ cs) as'
  makes :
      (c : LogAppenderConfig) (cs : List LogAppenderConfig) (a : LogAppender)
      (as' : List LogAppender)
      → sink_of c ≡ some a.sink
      → a.level ≡ c.level
      → valid_formatter c.formatter ≡ some a.formatter
      → IsMade cs as'
      → IsMade (c ∷ cs) (a ∷ as')

-- A logger that is as its configuration says.
pub record Reflects (c : LogConfig) (lg : Logger) : Type 0 where
  pub level_set : lg.level ≡ some c.level
  pub formatter_set : valid_formatter c.formatter ≡ some lg.formatter
  pub appenders_made : IsMade c.appenders lg.appenders

-- The manager has the configuration's logger, as it says.
abbrev pub IsConfigured : LoggerManager → LogConfig → Type 0
IsConfigured m c = (lg : Logger) × (find c.name m.loggers ≡ some lg) × Reflects c lg

-- A set: no two have the same name.
abbrev pub Distinct : List LogConfig → Type 0
Distinct [] = Unit
Distinct (c ∷ cs) = (contains cs c.name ≡ false) × Distinct cs

or-false : (a b : Bool) → (a || b) ≡ false → (a ≡ false) × (b ≡ false)
or-false false b h = (refl, h)
or-false true b h = absurd cc

or-left : (a b : Bool) → a ≡ true → (a || b) ≡ true
or-left true b h = refl
or-left false b h = absurd cc

or-right : (a b : Bool) → b ≡ true → (a || b) ≡ true
or-right true b h = refl
or-right false b h = h

-- A name that is there is not one that is not.
other-contains :
    (cs : List LogConfig) (a b : List ℕ)
    → contains cs a ≡ false
    → contains cs b ≡ true
    → equal a b ≡ false
other-contains cs a b h k = elim (Bool-cases (equal a b)) [
  | inl y ↦ absurd (let e = (equal_iff a b).0 y in cc)
  | inr n ↦ n
]

bind-some {ℓ κ} :
    {A : Type ℓ} {B : Type κ} (o : Option A) (f : A → Option B) (y : B)
    → (o >>= f) ≡ some y
    → (x : A) × (o ≡ some x) × (f x ≡ some y)
bind-some none f y e = absurd cc
bind-some (some x) f y e = (x, refl, e)

add_made-none :
    (next : ℕ) (c : LogAppenderConfig) (f : Option LogFormatter) (lg : Logger)
    → sink_of c ≡ none
    → add_made (make_appender next c f) lg ≡ lg
unfolding make_appender add_made
add_made-none next c f lg e = rw (e, make_appender, add_made) refl

add_made-some :
    (next : ℕ) (c : LogAppenderConfig) (f : Option LogFormatter) (lg : Logger) (k : Sink)
    → sink_of c ≡ some k
    → add_made (make_appender next c f) lg
      ≡ add_appender (record { address = next; sink = k; level = c.level; formatter = f }) lg
unfolding make_appender add_made
add_made-some next c f lg k e = rw (e, make_appender, add_made) refl

-- What the loop over a configuration's appenders has added.
abbrev Added : List LogAppenderConfig → Logger → Logger → Type 0
Added cs lg lg' =
    (lg'.level ≡ lg.level)
    × (lg'.formatter ≡ lg.formatter)
    × ((as' : List LogAppender) × (lg'.appenders ≡ lg.appenders ++ as') × IsMade cs as')

add_appenders-Added :
    (next : ℕ) (cs : List LogAppenderConfig) (lg lg' : Logger)
    → add_appenders next cs lg ≡ some lg'
    → Added cs lg lg'
unfolding add_appenders add_appender
add_appenders-Added next [] lg lg' e =
    let q = sym (some-injective lg lg' e) in
    (
      ap (λ l. l.level) q,
      ap (λ l. l.formatter) q,
      ([], ap (λ l. l.appenders) q ∙ sym (append-nil lg.appenders), nothing),
    )
add_appenders-Added next (c ∷ cs) lg lg' e =
    let (f, v, e') = bind-some (valid_formatter c.formatter) _ lg' e in
    elim (Option-cases (sink_of c)) [
      | inl n ↦
          let (p, q, (as', r, m)) = add_appenders-Added (suc next) cs lg lg' (
            subst (λ l. add_appenders (suc next) cs l ≡ some lg') (add_made-none next c f lg n)
              e') in
          (p, q, (as', r, skips c cs as' n m))
      | inr (k, y) ↦
          let a : LogAppender = record {
            address = next;
            sink = k;
            level = c.level;
            formatter = f;
          } in
          let (p, q, (as', r, m)) = add_appenders-Added (suc next) cs (add_appender a lg) lg' (
            subst (λ l. add_appenders (suc next) cs l ≡ some lg') (add_made-some next c f lg k y)
              e') in
          (p, q, (a ∷ as', r ∙ append_assoc lg.appenders (a ∷ []) as', makes c cs a as' y refl v m))
    ]

configure-Reflects :
    (next : ℕ) (c : LogConfig) (lg lg' : Logger) → configure next c lg ≡ some lg' → Reflects c lg'
unfolding configure clear_appenders set_formatter set_level
configure-Reflects next c lg lg' e =
    let (f, v, e') = bind-some (valid_formatter c.formatter) _ lg' e in
    let (p, q, (as', r, m)) = add_appenders-Added next c.appenders _ lg' e' in
    record {
      level_set = p;
      formatter_set = v ∙ ap some (sym q);
      appenders_made = subst (IsMade c.appenders) (sym r) m;
    }

-- A name that none of the configurations has is not touched.
configure_all-other :
    (next : ℕ) (k : List ℕ) (cs : List LogConfig) (m m' : LoggerManager)
    → contains cs k ≡ false
    → configure_all next cs m ≡ some m'
    → find k m'.loggers ≡ find k m.loggers
unfolding configure_all contains put_logger
configure_all-other next k [] m m' h e = ap (λ n. find k n.loggers) (sym (some-injective m m' e))
configure_all-other next k (c ∷ cs) m m' h e =
    let (here, rest) = or-false (equal c.name k) (contains cs k) h in
    let (lg, v, e') = bind-some (configure next c (get_logger c.name m)) _ m' e in
    configure_all-other (next + length c.appenders) k cs _ m' rest e'
    ∙ find-store_other c.name k lg m.loggers here

IsConfigured-find :
    (m m' : LoggerManager) (c : LogConfig)
    → find c.name m'.loggers ≡ find c.name m.loggers
    → IsConfigured m c
    → IsConfigured m' c
IsConfigured-find m m' c e (lg, f, r) = (lg, e ∙ f, r)

configure_all-IsConfigured :
    (next : ℕ) (cs : List LogConfig) (m m' : LoggerManager)
    → Distinct cs
    → configure_all next cs m ≡ some m'
    → All (IsConfigured m') cs
unfolding configure_all put_logger
configure_all-IsConfigured next [] m m' d e = tt
configure_all-IsConfigured next (c ∷ cs) m m' d e =
    let (lg, v, e') = bind-some (configure next c (get_logger c.name m)) _ m' e in
    (
      (
        lg,
        configure_all-other (next + length c.appenders) c.name cs _ m' d.0 e'
            ∙ find-store c.name lg m.loggers,
        configure-Reflects next c (get_logger c.name m) lg v,
      ),
      configure_all-IsConfigured (next + length c.appenders) cs _ m' d.1 e',
    )

find-retire_other :
    (c : LogConfig) (k : List ℕ) (m : LoggerManager)
    → equal c.name k ≡ false
    → find k (retire c m).loggers ≡ find k m.loggers
unfolding retire del_logger put_logger
find-retire_other c k m h = find-erase_other c.name k _ h ∙ find-store_other c.name k _ m.loggers h

find-retire : (c : LogConfig) (m : LoggerManager) → find c.name (retire c m).loggers ≡ none
unfolding retire del_logger put_logger
find-retire c m = find-erase c.name _

-- The second loop leaves the loggers that are configured.
retire_all-kept :
    (new_value old_value : List LogConfig) (k : List ℕ) (m : LoggerManager)
    → contains new_value k ≡ true
    → find k (retire_all new_value old_value m).loggers ≡ find k m.loggers
unfolding retire_all
retire_all-kept new_value [] k m h = refl
retire_all-kept new_value (c ∷ cs) k m h = elim (Bool-cases (contains new_value c.name)) [
  | inl y ↦ rw (y, retire_all) (retire_all-kept new_value cs k m h)
  | inr n ↦
      rw (n, retire_all)
        (retire_all-kept new_value cs k (retire c m) h
          ∙ find-retire_other c k m (other-contains new_value c.name k n h))
]

-- It does not make one.
retire_all-none :
    (new_value old_value : List LogConfig) (k : List ℕ) (m : LoggerManager)
    → find k m.loggers ≡ none
    → find k (retire_all new_value old_value m).loggers ≡ none
unfolding retire_all
retire_all-none new_value [] k m h = h
retire_all-none new_value (c ∷ cs) k m h = elim (Bool-cases (contains new_value c.name)) [
  | inl y ↦ rw (y, retire_all) (retire_all-none new_value cs k m h)
  | inr n ↦
      rw (n, retire_all)
        (retire_all-none new_value cs k (retire c m) (elim (Bool-cases (equal c.name k)) [
          | inl y ↦
              subst (λ s. find s (retire c m).loggers ≡ none) ((equal_iff c.name k).0 y)
                (find-retire c m)
          | inr x ↦ find-retire_other c k m x ∙ h
        ]))
]

retire_all-retired :
    (new_value old_value : List LogConfig) (k : List ℕ) (m : LoggerManager)
    → contains new_value k ≡ false
    → contains old_value k ≡ true
    → find k (retire_all new_value old_value m).loggers ≡ none
unfolding retire_all contains
retire_all-retired new_value [] k m h g = absurd cc
retire_all-retired new_value (c ∷ cs) k m h g = elim (Bool-cases (equal c.name k)) [
  | inl y ↦
      let same = (equal_iff c.name k).0 y in
      let n = subst (λ s. contains new_value s ≡ false) (sym same) h in
      rw (n, retire_all)
        (retire_all-none new_value cs k (retire c m)
          (subst (λ s. find s (retire c m).loggers ≡ none) same (find-retire c m)))
  | inr x ↦ retire_all-retired new_value cs k _ h (subst (λ b. (b || contains cs k) ≡ true) x g)
]

retire_all-IsConfigured :
    (new_value old_value cs : List LogConfig) (m : LoggerManager)
    → ((k : List ℕ) → contains cs k ≡ true → contains new_value k ≡ true)
    → All (IsConfigured m) cs
    → All (IsConfigured (retire_all new_value old_value m)) cs
unfolding contains
retire_all-IsConfigured new_value old_value [] m h a = tt
retire_all-IsConfigured new_value old_value (c ∷ cs) m h (a, as') = (
  IsConfigured-find m (retire_all new_value old_value m) c
      (retire_all-kept new_value old_value c.name m
        (h c.name (or-left (equal c.name c.name) _ ((equal_iff c.name c.name).1 refl))))
      a,
  retire_all-IsConfigured new_value old_value cs m
      (λ k e. h k (or-right (equal c.name k) (contains cs k) e)) as',
)

-- After the listener has run on configurations with distinct names, without a format whose search runs behind
-- its end, the manager has for each of them a logger of its level, formatter and appenders, in the order and of
-- the kinds asked for, and it has no logger of a name that was configured before and no longer is.
pub on_log_config-IsConfigured :
    (next : ℕ) (old_value new_value : List LogConfig) (m m' : LoggerManager)
    → Distinct new_value
    → on_log_config next old_value new_value m ≡ some m'
    → All (IsConfigured m') new_value
      × ((k : List ℕ)
          → contains new_value k ≡ false
          → contains old_value k ≡ true
          → find k m'.loggers ≡ none)
unfolding on_log_config
on_log_config-IsConfigured next old_value new_value m m' d e =
    let (m₁, v, e') = bind-some (configure_all next new_value m) _ m' e in
    let q = some-injective _ m' e' in
    (
      subst (λ n. All (IsConfigured n) new_value) q
          (retire_all-IsConfigured new_value old_value new_value m₁ (λ k h. h)
            (configure_all-IsConfigured next new_value m m₁ d v)),
      λ k h g.
          subst (λ n. find k n.loggers ≡ none) q (retire_all-retired new_value old_value k m₁ h g),
    )
