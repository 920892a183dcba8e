-- ===== src/Tests/Loggers.antt =====
-- The theorems on the log at concrete inputs.
use so2_final.Base.{◌≤◌, ◌≡◌, refl, some, none, [], ◌∷◌, take, length, codes}
use so2_final.Device.Text.{until_zero}
use so2_final.Logger.{Logger, new_logger, info, severe}
use so2_final.Logger.Journal.{Entry, log_all, journal, extended, log_all-journal}
use so2_final.Logger.Format.{direct_sprintf, direct_sprintf_lem}

abbrev started : Entry
started = record {
  timestamp = codes "[12:00] ";
  level = info;
  meta = codes "a.cpp:1";
  message = codes "started";
}

abbrev stopped : Entry
stopped = record started { level = severe; message = codes "stopped" }

abbrev logger : Logger
logger = record new_logger { sinks = some [] ∷ none ∷ [] }

log_all-journal_example :
    log_all (started ∷ stopped ∷ []) logger ≡ extended (journal (started ∷ stopped ∷ [])) logger
log_all-journal_example = log_all-journal (started ∷ stopped ∷ []) logger refl refl

direct_sprintf_lem_example :
    (direct_sprintf (codes "port 4000") ≡ until_zero (take 4094 (codes "port 4000")))
    × (length (direct_sprintf (codes "port 4000")) ≤ 4094)
direct_sprintf_lem_example = direct_sprintf_lem (codes "port 4000")
