-- ===== src/Logger.antt =====
-- src/utils/logger.{h,cpp}: what the logger writes, and where.
--
-- The readings of the clock, printed, are an argument, and so is which files can be opened. What is
-- logged is a list of the texts that the arguments print as.
mod Tests
pub mod Levels
use maelstromdb.Base.{
  ℕ, ◌+◌, List, [], ◌∷◌, ◌++◌, Bool, true, false, Option, none, some, if◌then◌else◌, leb, Text,
}

pub data LogLevel : Type 0 where
  debug info warn error : LogLevel

pub data LogType : Type 0 where
  file console : LogType

-- A `std::ofstream`: the file that it has open, whether it has failed, and what it has written to
-- each file, the newest first.
pub record LogFile : Type 0 where
  pub opened : Option Text
  pub failed : Bool
  pub written : List (Text × Text)

-- The singleton, with `std::clog` and the number of readings of the clock.
pub record Logger : Type 0 where
  pub m_level : LogLevel
  pub m_type : LogType
  pub m_log_file : LogFile
  pub clog : Text
  pub readings : ℕ

unfoldable pub new_logger : Logger
new_logger = record {
  m_level = info;
  m_type = console;
  m_log_file = record { opened = none; failed = false; written = [] };
  clog = [];
  readings = 0;
}

-- The number of a level.
unfoldable pub severity : LogLevel → ℕ
severity debug = 0
severity info = 1
severity warn = 2
severity error = 3

-- A name in brackets and in a colour, with what follows it.
unfoldable pub painted : ℕ → Text → Text → Text
painted colour name padding =
    b' '
    ∷ 0x1b
    ∷ b'['
    ∷ b'3'
    ∷ colour
    ∷ b';'
    ∷ b'1'
    ∷ b'm'
    ∷ b'['
    ∷ (name ++ (b']' ∷ 0x1b ∷ b'[' ∷ b'0' ∷ b'm' ∷ padding))

unfoldable pub colored : LogLevel → Text
unfolding painted
colored error = painted b'1' (b'E' ∷ b'R' ∷ b'R' ∷ b'O' ∷ b'R' ∷ []) (b' ' ∷ [])
colored warn = painted b'3' (b'W' ∷ b'A' ∷ b'R' ∷ b'N' ∷ []) (b' ' ∷ b' ' ∷ [])
colored info = painted b'2' (b'I' ∷ b'N' ∷ b'F' ∷ b'O' ∷ []) (b' ' ∷ b' ' ∷ [])
colored debug = painted b'4' (b'D' ∷ b'E' ∷ b'B' ∷ b'U' ∷ b'G' ∷ []) (b' ' ∷ [])

unfoldable pub set_level : LogLevel → Logger → Logger
set_level new_level l = record l { m_level = new_level }

unfoldable pub set_log_console : Logger → Logger
set_log_console l = record l { m_type = console }

-- `open`: it fails on a stream that has a file open.
unfoldable pub open_log_file : Bool → Text → LogFile → LogFile
open_log_file can_open path f = elim f.opened [
  | some other ↦ record f { failed = true }
  | none ↦
      if can_open
      then record f { opened = some path; failed = false }
      else record f { failed = true }
]

-- Nothing is written by a stream that has failed, or that has no file open, which makes it fail.
unfoldable pub write_log_file : Text → LogFile → LogFile
write_log_file text f = elim f.opened [
  | none ↦ record f { failed = true }
  | some path ↦ if f.failed then f else record f { written = (path, text) ∷ f.written }
]

-- "logs/" + address + "/log.txt"
unfoldable pub log_path : Text → Text
log_path address =
    b'l'
    ∷ b'o'
    ∷ b'g'
    ∷ b's'
    ∷ b'/'
    ∷ (address ++ (b'/' ∷ b'l' ∷ b'o' ∷ b'g' ∷ b'.' ∷ b't' ∷ b'x' ∷ b't' ∷ []))

unfoldable pub set_log_file : (Text → Bool) → Text → Logger → Logger
unfolding open_log_file log_path
set_log_file can_open address l = record l {
  m_type = file;
  m_log_file = open_log_file (can_open (log_path address)) (log_path address) l.m_log_file;
}

-- A space before each argument, and the end of the line.
unfoldable pub line : List Text → Text
line [] = b'\n' ∷ []
line (arg ∷ args) = b' ' ∷ (arg ++ line args)

unfoldable pub log_message : List Text → Logger → Logger
unfolding line write_log_file
log_message args l = elim l.m_type [
  | console ↦ record l { clog = l.clog ++ line args }
  | file ↦ record l { m_log_file = write_log_file (line args) l.m_log_file }
]

module _ (timestamp : ℕ → Text) where
  unfoldable pub log : LogLevel → List Text → Logger → Logger
  unfolding severity colored log_message
  log level args l =
      let now = timestamp l.readings in
      let read = record l { readings = l.readings + 1 } in
      if leb (severity l.m_level) (severity level)
      then elim l.m_type [
        | console ↦ log_message (now ∷ colored level ∷ args) read
        | file ↦ log_message (now ∷ args) read
      ]
      else l

  -- `Debug`, `Info`, `Warn` and `Error`, one after the other.
  unfoldable pub log_all : List (LogLevel × List Text) → Logger → Logger
  unfolding log
  log_all [] l = l
  log_all ((level, args) ∷ calls) l = log_all calls (log level args l)
