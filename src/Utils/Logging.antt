-- ===== src/Utils/Logging.antt =====
-- `bw2_setLogging` and `bw2_logf` of utils.c. `vprintf` is a parameter: what it makes of the format and the
-- arguments is a text, and its result is the text's length.
use bw2c.Base.{ℕ, ◌≡◌, refl, Bool, true, false, [], ◌++◌, if◌then◌else◌, Bytes, codes, length}

-- `bw2_loggingOn`, and what was printed so far.
record Log : Type 0 where
  logging_on : Bool
  printed : Bytes

set_logging : Bool → Log → Log
set_logging on log = record log { logging_on = on }

-- The test is the wrong way round: with logging on nothing is printed.
logf : (text : Bytes) → Log → ℕ × Log
logf text log =
    if log.logging_on then (0, log) else (length text, record log { printed = log.printed ++ text })

abbrev start : Log
start = record { logging_on = false; printed = [] }

silent_test : (logf (codes "hi") (set_logging true start)).1.printed ≡ []
unfolding logf set_logging
silent_test = refl

loud_test : (logf (codes "hi") (set_logging false start)).1.printed ≡ codes "hi"
unfolding logf set_logging
loud_test = refl
