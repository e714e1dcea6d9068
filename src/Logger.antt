-- ===== src/Logger.antt =====
-- internal/p2p/logger.go: which lines the logger writes, and how they look. The time is formatted by the
-- library.
use simple_block_chain.Common.{
  inl, inr, refl, false, [], ◌∷◌, Bytes, List, codes, ℕ, ltb, if◌then◌else◌, ◌++◌, arith, ◌≡◌, ◌≤◌,
  ◌≢◌, Bool-cases,
}

pub data Level : Type 0 where
  level_debug level_info level_warn level_error level_none : Level

-- The `iota` of a level.
abbrev pub rank : Level → ℕ
rank level_debug = 0
rank level_info = 1
rank level_warn = 2
rank level_error = 3
rank level_none = 4

abbrev pub color_code : Level → Bytes
color_code level_debug = 27 ∷ codes "[36m"
color_code level_info = 27 ∷ codes "[32m"
color_code level_warn = 27 ∷ codes "[33m"
color_code level_error = 27 ∷ codes "[31m"
color_code level_none = []

unfoldable pub log_line : Bytes → Bytes → Bytes → Bytes → Bytes
log_line [] prefix timestamp msg =
    codes "[" ++ (prefix ++ (codes "] " ++ (timestamp ++ (codes " " ++ (msg ++ 10 ∷ [])))))
log_line (c ∷ color) prefix timestamp msg =
    c ∷ color
    ++ (codes "["
        ++ (prefix
            ++ (codes "] " ++ (timestamp ++ (codes " " ++ (msg ++ 27 ∷ codes "[0m" ++ 10 ∷ []))))))

-- What a logger of level `threshold` writes for a message of level `level`.
unfoldable pub log : Level → Level → Bytes → Bytes → Bytes → List Bytes
unfolding log_line
log threshold level prefix timestamp msg =
    if ltb (rank level) (rank threshold)
    then []
    else log_line (color_code level) prefix timestamp msg ∷ []

-- A logger that is set to a level writes no less than one that is set to a higher level.
log-lower :
    (low high level : Level) (prefix timestamp msg : Bytes)
    → rank low ≤ rank high
    → log high level prefix timestamp msg ≢ []
    → log low level prefix timestamp msg ≡ log high level prefix timestamp msg
unfolding log
log-lower low high level prefix timestamp msg le shown =
    elim (Bool-cases (ltb (rank level) (rank high))) [
      | inl below ↦ absurd (shown (rw (below, log) refl))
      | inr at ↦
          let at_low : ltb (rank level) (rank low) ≡ false = ground arith in
          rw (at, at_low, log) refl
    ]

pub record Logger : Type 0 where
  pub level : Level

-- `defaultLogger`, which writes to the standard output.
abbrev pub default_logger : Logger
default_logger = record { level = level_info }

-- The method `SetLevel`, and `SetLogLevel` on the default logger.
abbrev pub set_level : Level → Logger → Logger
set_level level l = record l { level = level }

abbrev pub set_log_level : Level → Logger → Logger
set_log_level level l = set_level level l

abbrev pub debug : Logger → Bytes → Bytes → Bytes → List Bytes
debug l prefix timestamp msg = log l.level level_debug prefix timestamp msg

abbrev pub info : Logger → Bytes → Bytes → Bytes → List Bytes
info l prefix timestamp msg = log l.level level_info prefix timestamp msg

abbrev pub warn : Logger → Bytes → Bytes → Bytes → List Bytes
warn l prefix timestamp msg = log l.level level_warn prefix timestamp msg

abbrev pub error : Logger → Bytes → Bytes → Bytes → List Bytes
error l prefix timestamp msg = log l.level level_error prefix timestamp msg

-- A new logger keeps debug messages back; one that is set to `LevelNone` writes nothing.
set_log_level-none :
    (l : Logger) (prefix timestamp msg : Bytes)
    → (debug default_logger prefix timestamp msg ≡ [])
      × (error (set_log_level level_none l) prefix timestamp msg ≡ [])
unfolding log
set_log_level-none l prefix timestamp msg = (refl, refl)
