-- ===== src/Ctmaster.antt =====
-- ctprocesslog/ctmaster.c and ctutils.c: the log master's configuration, its table of children, the
-- lines that it hands to them, and the directories of its offsets. A process id of -1 is none; `none`
-- as a result is an access outside of the table or of a text. The table has `max_childs` + 1 entries,
-- and paths are short enough for their buffers.
pub mod Reap
pub mod Directories
mod Tests
use carrots.Base.{
  ℕ, zero, suc, ◌+◌, ◌-◌, List, [], ◌∷◌, ◌++◌, Option, none, some, Bool, true, false, ltb, ◌==◌,
  ◌&&◌, ◌||◌, not, if◌then◌else◌, length, take, get_elem?, set, ◌>>=◌,
}

-- The keys that `read_config` asks for, each `global:` and its name.
pub data Key : Type 0 where
  log_level_key : Key
  process_file_key : Key
  chdir_path_key : Key
  offset_path_key : Key
  wait_sleep_key : Key
  exit_time_key : Key
  max_childs_key : Key

-- `config_st`
pub record Config : Type 0 where
  pub log_level : List ℕ
  pub process_file : List ℕ
  pub chdir_path : List ℕ
  pub offset_path : List ℕ
  pub wait_sleep : List ℕ
  pub exit_time : List ℕ
  pub max_childs : List ℕ

-- "7"
abbrev pub default_log_level : List ℕ
default_log_level = 55 ∷ []

-- "./"
abbrev pub default_chdir_path : List ℕ
default_chdir_path = 46 ∷ 47 ∷ []

-- "./offset"
abbrev pub default_offset_path : List ℕ
default_offset_path = 46 ∷ 47 ∷ 111 ∷ 102 ∷ 102 ∷ 115 ∷ 101 ∷ 116 ∷ []

-- "5"
abbrev pub default_wait_sleep : List ℕ
default_wait_sleep = 53 ∷ []

-- "86400"
abbrev pub default_exit_time : List ℕ
default_exit_time = 56 ∷ 54 ∷ 52 ∷ 48 ∷ 48 ∷ []

-- "128"
abbrev pub default_max_childs : List ℕ
default_max_childs = 49 ∷ 50 ∷ 56 ∷ []

-- `snprintf(field, 1024, "%s", ...)` of the value, or of the default when there is none
unfoldable pub setting : Option (List ℕ) → List ℕ → List ℕ
setting none default = take 1023 default
setting (some value) default = take 1023 value

-- `read_config` from the second key on, when there is a file to process.
unfoldable pub read_rest : (Key → Option (List ℕ)) → List ℕ → Config → ℕ × Config
unfolding setting
read_rest get file config = (
  0,
  record config {
    process_file = take 1023 file;
    chdir_path = setting (get chdir_path_key) default_chdir_path;
    offset_path = setting (get offset_path_key) default_offset_path;
    wait_sleep = setting (get wait_sleep_key) default_wait_sleep;
    exit_time = setting (get exit_time_key) default_exit_time;
    max_childs = setting (get max_childs_key) default_max_childs;
  },
)

-- `read_config`: 1 without a dictionary or without a file to process, after the log level is set.
unfoldable pub read_config : Option (Key → Option (List ℕ)) → Config → ℕ × Config
unfolding setting read_rest
read_config none config = (1, config)
read_config (some get) config =
    let logged = record config { log_level = setting (get log_level_key) default_log_level } in
    elim (get process_file_key) [ none ↦ (1, logged) | some file ↦ read_rest get file logged ]

-- `childs_st`
pub record Worker : Type 0 where
  pub used : ℕ
  pub pid : Option ℕ

abbrev pub idle_worker : Worker
idle_worker = record { used = 0; pid = none }

-- `get_idle_idx_from_childs_t` from the index `i` on; none is -1.
unfoldable pub idle_from : List Worker → ℕ → Option ℕ
idle_from [] i = none
idle_from (w ∷ ws) i = let rest = idle_from ws (suc i) in if w.used == 0 then some i else rest

unfoldable pub get_idle_idx_from_childs_t : List Worker → Option ℕ
get_idle_idx_from_childs_t childs = idle_from childs 0

-- `childs_t[i].pid == pid`
unfoldable pub has_pid : ℕ → Worker → Bool
has_pid pid w = elim w.pid [ none ↦ false | some p ↦ p == pid ]

-- The inner loop of `sigchld_exit`: the first child with the process id is cleaned.
unfoldable pub reap : ℕ → List Worker → List Worker
reap pid [] = []
reap pid (w ∷ ws) = if has_pid pid w then idle_worker ∷ ws else w ∷ reap pid ws

-- `sigchld_exit`, over the process ids that waitpid gives.
unfoldable pub sigchld_exit : List ℕ → List Worker → List Worker
unfolding reap
sigchld_exit [] childs = childs
sigchld_exit (pid ∷ pids) childs = sigchld_exit pids (reap pid childs)

-- `fork` until it succeeds, over what it gives; none waits for ever.
unfoldable pub fork_until : List (Option ℕ) → Option ℕ
fork_until [] = none
fork_until (none ∷ fs) = fork_until fs
fork_until (some pid ∷ fs) = some pid

-- `childs_t[i]` of the new process; an index of -1 is outside of the table.
unfoldable pub record_child : Option ℕ → ℕ → List Worker → Option (List Worker)
record_child none pid childs = none
record_child (some i) pid childs = do
  w ← get_elem? childs i
  some (set childs i (record { used = 1; pid = some pid }))

-- `process_via_child`, in the parent: without an idle child the loop sleeps once and goes on.
unfoldable pub process_via_child : List (Option ℕ) → List Worker → Option (List Worker)
unfolding fork_until record_child
process_via_child forks childs = do
  pid ← fork_until forks
  record_child (get_idle_idx_from_childs_t childs) pid childs

-- `strstr(buf, part)`, and whether a text begins with a part
unfoldable pub begins : List ℕ → List ℕ → Bool
begins text [] = true
begins [] (c ∷ cs) = false
begins (d ∷ ds) (c ∷ cs) = d == c && begins ds cs

unfoldable pub contains : List ℕ → List ℕ → Bool
unfolding begins
contains [] part = begins [] part
contains (c ∷ cs) part = begins (c ∷ cs) part || contains cs part

-- " qmail-smtpd["
abbrev pub smtpd_tag : List ℕ
smtpd_tag = 32 ∷ 113 ∷ 109 ∷ 97 ∷ 105 ∷ 108 ∷ 45 ∷ 115 ∷ 109 ∷ 116 ∷ 112 ∷ 100 ∷ 91 ∷ []

-- "]: [INFO] mail_process ICID:"
abbrev pub process_tag : List ℕ
process_tag =
    93 ∷ 58 ∷ 32 ∷ 91 ∷ 73 ∷ 78 ∷ 70 ∷ 79 ∷ 93 ∷ 32 ∷ 109 ∷ 97 ∷ 105 ∷ 108 ∷ 95 ∷ 112 ∷ 114 ∷ 111
    ∷ 99 ∷ 101 ∷ 115 ∷ 115 ∷ 32 ∷ 73 ∷ 67 ∷ 73 ∷ 68 ∷ 58 ∷ []

-- " LOGExe:[-M"
abbrev pub exe_tag : List ℕ
exe_tag = 32 ∷ 76 ∷ 79 ∷ 71 ∷ 69 ∷ 120 ∷ 101 ∷ 58 ∷ 91 ∷ 45 ∷ 77 ∷ []

-- The lines that are handed to a child.
unfoldable pub is_logic_line : List ℕ → Bool
unfolding contains
is_logic_line buf = contains buf smtpd_tag && contains buf process_tag && contains buf exe_tag

-- What one turn of the master's loop meets: fgets gives a line that ends at an offset and the forks go
-- as listed, or it gives nothing, and the file has expired or not; signals bring exits in between.
pub data Turn : Type 0 where
  line : List ℕ → ℕ → List (Option ℕ) → Turn
  nothing : Bool → Turn
  exits : List ℕ → Turn

pub record Master : Type 0 where
  pub childs : List Worker
  pub rindex_offset : ℕ
  pub saved_offset : Option ℕ
  pub handed : List (List ℕ)

-- A line that is handed on: its offset is saved first.
unfoldable pub hand_on : List ℕ → ℕ → List (Option ℕ) → Master → Option Master
unfolding process_via_child
hand_on buf offset forks m = do
  childs ← process_via_child forks m.childs
  some (record m {
    childs = childs;
    rindex_offset = offset;
    saved_offset = if ltb 0 offset then some offset else m.saved_offset;
    handed = m.handed ++ buf ∷ [];
  })

-- The loop of `main` over the turns; it also ends at MASTER_BYE, when the file has expired.
unfoldable pub master_loop : List Turn → Master → Option Master
unfolding sigchld_exit hand_on is_logic_line
master_loop [] m = some m
master_loop (line buf offset forks ∷ ts) m =
    let handled = hand_on buf offset forks m >>= master_loop ts in
    let skipped = master_loop ts m in if is_logic_line buf then handled else skipped
master_loop (nothing expired ∷ ts) m =
    let rest = master_loop ts m in if expired then some m else rest
master_loop (exits pids ∷ ts) m = master_loop ts (record m { childs = sigchld_exit pids m.childs })

-- `is_need_master_exit`; none is a failing fstat.
unfoldable pub is_need_master_exit : Option ℕ → ℕ → ℕ → ℕ
is_need_master_exit none now exit_time = 0
is_need_master_exit (some mtime) now exit_time = if ltb (mtime + exit_time) now then 1 else 0

-- Equal paths, and a path among those that exist, for `access`.
unfoldable pub same_path : List ℕ → List ℕ → Bool
same_path [] [] = true
same_path [] (d ∷ ds) = false
same_path (c ∷ cs) [] = false
same_path (c ∷ cs) (d ∷ ds) = c == d && same_path cs ds

unfoldable pub exists : List ℕ → List (List ℕ) → Bool
unfolding same_path
exists path [] = false
exists path (d ∷ ds) = same_path path d || exists path ds

-- `is_dir_exits`: the loop over the positions of the path that is left, behind what it has passed; the
-- end was computed before a slash was appended. The directories that exist are a list of paths, and
-- `mkdir` succeeds where the function says so. The result is the return value and the directories.
module _ (mkdir : List ℕ → Bool) where
  unfoldable pub dir_loop : List ℕ → List ℕ → List (List ℕ) → ℕ × List (List ℕ)
  unfolding exists
  dir_loop passed [] dirs = (0, dirs)
  dir_loop passed (c ∷ cs) dirs =
      let kept = dir_loop (passed ++ c ∷ []) cs dirs in
      let made = dir_loop (passed ++ c ∷ []) cs (passed ∷ dirs) in
      if c == 47
      then (if exists passed dirs then kept else (if mkdir passed then made else (1, dirs)))
      else kept

  unfoldable pub is_dir_exits : List ℕ → List (List ℕ) → Option (ℕ × List (List ℕ))
  unfolding dir_loop
  is_dir_exits [] dirs = none
  is_dir_exits (c ∷ cs) dirs = some (dir_loop (c ∷ []) cs dirs)
