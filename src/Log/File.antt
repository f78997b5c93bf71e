-- ===== src/Log/File.antt =====
-- debug.c: alog and the log file. The formatting (vsprintf, sprintf, localtime, strerror) is of the C
-- library: the texts that it gives are arguments.
use aodv.Base.{
  ℕ, ◌+◌, ◌≡◌, Bool, true, false, not, ◌&&◌, List, [], ◌∷◌, ◌++◌, length, ltb, leb, ◌==◌,
  if◌then◌else◌, arith, ℤ, pos, negsuc,
}
use aodv.Log.Text.{Text, codes}

-- The global variables, and what has gone to the file, to the system's log and to stderr, the latest
-- first. A line for the system's log is its priority and its text.
pub record LogState : Type 0 where
  pub debug : Bool
  pub log_to_file : Bool
  pub log_file_fd : ℤ
  pub file : List Text
  pub syslog : List (ℕ × Text)
  pub stderr : List Text

abbrev is_zero : ℤ → Bool
is_zero (pos n) = n == 0
is_zero (negsuc n) = false

abbrev complain : Text → LogState → LogState
complain msg s = record s { stderr = msg ∷ s.stderr }

-- `ok` is whether write succeeds.
unfoldable pub write_to_log_file : (ℤ → Text → Bool) → Text → LogState → LogState
write_to_log_file ok msg s =
    if is_zero s.log_file_fd
    then complain (codes "Could not write to log file\n") s
    else if length msg == 0
    then complain (codes "len=0\n") s
    else if ok s.log_file_fd msg
    then record s { file = msg ∷ s.file }
    else complain (codes "Could not write to log file\n") s

-- A call of alog: LOG_ERR, LOG_WARNING, LOG_NOTICE and LOG_DEBUG are 3, 4, 5 and 7. `time` is what
-- stands between the brackets, `msg` the formatted message.
pub record LogCall : Type 0 where
  pub type : ℕ
  pub errnum : ℕ
  pub function : Text
  pub time : Text
  pub msg : Text

-- The line for the file: `log_buf`, with `len` its length.
unfoldable pub log_buf : (ℕ → Text) → LogCall → Text
log_buf strerror c =
    codes "["
    ++ c.time
    ++ codes "] "
    ++ c.function
    ++ codes ": "
    ++ c.msg
    ++ (if c.errnum == 0 then codes "\n" else codes ": " ++ strerror c.errnum ++ codes "\n")

-- The part of alog from the label `syslog` on; `%m` prints errno. The result is whether it exits.
unfoldable pub alog_syslog : (ℕ → Text) → LogCall → LogState → Bool × LogState
alog_syslog strerror c s =
    let line : Text =
      c.function
      ++ codes ": "
      ++ c.msg
      ++ (if c.errnum == 0 then [] else codes ": " ++ strerror c.errnum) in
    (leb c.type 3, if leb c.type 5 then record s { syslog = (c.type, line) ∷ s.syslog } else s)

-- The part before it; the buffer has been written when its length is tested.
unfoldable pub alog_file : (ℕ → Text) → (ℤ → Text → Bool) → LogCall → LogState → LogState
unfolding log_buf write_to_log_file
alog_file strerror ok c s =
    if not s.debug && not s.log_to_file
    then s
    else if ltb 1024 (length (log_buf strerror c))
    then complain (codes "alog(): buffer data size to limit!\n") s
    else if s.log_to_file
    then write_to_log_file ok (log_buf strerror c) s
    else s

unfoldable pub alog : (ℕ → Text) → (ℤ → Text → Bool) → LogCall → LogState → Bool × LogState
unfolding alog_file alog_syslog
alog strerror ok c s = alog_syslog strerror c (alog_file strerror ok c s)

-- The two files that log_cleanup closes and removes, if it does; what it prints where that fails is
-- left out.
pub data LogPath : Type 0 where
  log_path rt_log_path : LogPath

unfoldable pub log_cleanup : ℕ → ℤ → LogState → List LogPath
log_cleanup rt_log_interval log_rt_fd s =
    (if s.log_to_file && not (is_zero s.log_file_fd) then log_path ∷ [] else [])
    ++ (if not (rt_log_interval == 0) && not (is_zero log_rt_fd) then rt_log_path ∷ [] else [])

-- A call of alog ends the daemon just when its level is LOG_ERR or worse, and gives a line to the
-- system's log just when it is LOG_NOTICE or worse, whatever becomes of the file.
pub alog-levels :
    (strerror : ℕ → Text) (ok : ℤ → Text → Bool) (c : LogCall) (s : LogState)
    → let (exits, t) = alog strerror ok c s in
      (exits ≡ leb c.type 3) × (length t.syslog ≡ (if leb c.type 5 then 1 else 0) + length s.syslog)
unfolding alog alog_syslog alog_file write_to_log_file
alog-levels strerror ok c s = ground arith

-- The file grows by one line, which has at most 1024 characters, or not at all.
pub alog-file :
    (strerror : ℕ → Text) (ok : ℤ → Text → Bool) (c : LogCall) (s : LogState)
    → (ltb 1024 (length (log_buf strerror c)) ≡ true → (alog strerror ok c s).1.file ≡ s.file)
      × (s.log_to_file ≡ false → (alog strerror ok c s).1.file ≡ s.file)
unfolding alog alog_syslog alog_file write_to_log_file
alog-file strerror ok c s = ground arith
