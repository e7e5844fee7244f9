-- ===== src/Logger/Levels.antt =====
-- Which messages the logger writes.
use maelstromdb.Base.{
  ℕ, ◌+◌, ◌≡◌, refl, ap, ◌∙◌, List, [], ◌∷◌, ◌++◌, Bool, true, false, some, if◌then◌else◌, leb,
  Text, Bool-cases, inl, inr, append_assoc, append-nil, arith,
}
use maelstromdb.Logger.{
  LogLevel, console, file, Logger, severity, colored, line, log_message, log, log_all, set_log_file,
  open_log_file,
}

-- The lines for the calls that are not below the level, with the readings of the clock from `n` on.
unfoldable pub lines_from : (ℕ → Text) → LogLevel → List (LogLevel × List Text) → ℕ → Text
lines_from timestamp lowest [] n = []
lines_from timestamp lowest ((level, args) ∷ calls) n =
    if leb (severity lowest) (severity level)
    then line (timestamp n ∷ colored level ∷ args) ++ lines_from timestamp lowest calls (n + 1)
    else lines_from timestamp lowest calls n

module _ (timestamp : ℕ → Text) (level : LogLevel) (args : List Text) (l : Logger) where
  log_low : leb (severity l.m_level) (severity level) ≡ false → log timestamp level args l ≡ l
  unfolding log
  log_low low = rw low refl

  log_console :
      l.m_type ≡ console
      → leb (severity l.m_level) (severity level) ≡ true
      → log timestamp level args l ≡ record l {
        readings = l.readings + 1;
        clog = l.clog ++ line (timestamp l.readings ∷ colored level ∷ args);
      }
  unfolding log log_message
  log_console on_console high = ground arith

-- On the console, the lines of the calls at the level or above it are added, in order, and no
-- others.
pub log_all-lines_from :
    (timestamp : ℕ → Text) (calls : List (LogLevel × List Text)) (l : Logger)
    → l.m_type ≡ console
    → (log_all timestamp calls l).clog ≡ l.clog ++ lines_from timestamp l.m_level calls l.readings
unfolding log_all lines_from
log_all-lines_from timestamp [] l on_console = rw append-nil refl
log_all-lines_from timestamp ((level, args) ∷ calls) l on_console =
    elim (Bool-cases (leb (severity l.m_level) (severity level))) [
      | inl high ↦
          let added = line (timestamp l.readings ∷ colored level ∷ args) in
          let next = record l { readings = l.readings + 1; clog = l.clog ++ added } in
          rw high (
            ap (λ m. (log_all timestamp calls m).clog)
              (log_console timestamp level args l on_console high)
            ∙ log_all-lines_from timestamp calls next on_console
            ∙ append_assoc l.clog added (lines_from timestamp l.m_level calls (l.readings + 1)))
      | inr low ↦ rw low (
          ap (λ m. (log_all timestamp calls m).clog) (log_low timestamp level args l low)
          ∙ log_all-lines_from timestamp calls l on_console)
    ]

-- The logger writes to a stream that has failed with a file open.
record IsLost (path : Text) (l : Logger) : Type 0 where
  pub to_file : l.m_type ≡ file
  pub still_open : l.m_log_file.opened ≡ some path
  pub lost : l.m_log_file.failed ≡ true

log-IsLost :
    (timestamp : ℕ → Text) (level : LogLevel) (args : List Text) (path : Text) (l : Logger)
    → IsLost path l
    → IsLost path (log timestamp level args l)
      × ((log timestamp level args l).m_log_file.written ≡ l.m_log_file.written)
unfolding log
log-IsLost timestamp level args path l h = ground arith

log_all-IsLost :
    (timestamp : ℕ → Text) (calls : List (LogLevel × List Text)) (path : Text) (l : Logger)
    → IsLost path l
    → (log_all timestamp calls l).m_log_file.written ≡ l.m_log_file.written
unfolding log_all
log_all-IsLost timestamp [] path l h = refl
log_all-IsLost timestamp ((level, args) ∷ calls) path l h =
    let (still, same) = log-IsLost timestamp level args path l h in
    log_all-IsLost timestamp calls path (log timestamp level args l) still ∙ same

set_log_file-IsLost :
    (can_open : Text → Bool) (address path : Text) (l : Logger)
    → l.m_log_file.opened ≡ some path
    → IsLost path (set_log_file can_open address l)
      × ((set_log_file can_open address l).m_log_file.written ≡ l.m_log_file.written)
unfolding set_log_file open_log_file
set_log_file-IsLost can_open address path l opened = ground arith

-- Where a log file is open, another cannot be opened, and no message is written to any file from
-- then on.
pub set_log_file-loses :
    (timestamp : ℕ → Text) (can_open : Text → Bool) (address path : Text)
    (calls : List (LogLevel × List Text)) (l : Logger)
    → l.m_log_file.opened ≡ some path
    → (log_all timestamp calls (set_log_file can_open address l)).m_log_file.written
      ≡ l.m_log_file.written
set_log_file-loses timestamp can_open address path calls l opened =
    let (lost, same) = set_log_file-IsLost can_open address path l opened in
    log_all-IsLost timestamp calls path (set_log_file can_open address l) lost ∙ same
