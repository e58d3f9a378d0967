-- ===== src/Ctserver/Config.antt =====
-- ctserver/src/ctserver.c: `read_config`. The dictionary is a function from the keys of the `global`
-- section, which the parser supplies; texts are lists of bytes without a NUL.
use carrots.Base.{ℕ, ◌-◌, List, [], ◌∷◌, Option, none, some, take}

-- The keys that `read_config` asks for, each `global:` and its name.
pub data Key : Type 0 where
  bind_port_key : Key
  log_level_key : Key
  chdir_path_key : Key
  max_childs_key : Key
  child_prog_key : Key
  child_cf_key : Key

-- `config_t`
pub record Config : Type 0 where
  pub bind_port : List ℕ
  pub log_level : List ℕ
  pub chdir_path : List ℕ
  pub max_childs : List ℕ
  pub child_prog : List ℕ
  pub child_cf : List ℕ

abbrev pub max_line : ℕ
max_line = 1024

-- "5050"
abbrev pub default_bind_port : List ℕ
default_bind_port = 53 ∷ 48 ∷ 53 ∷ 48 ∷ []

-- "info"
abbrev pub default_log_level : List ℕ
default_log_level = 105 ∷ 110 ∷ 102 ∷ 111 ∷ []

-- "/tmp"
abbrev pub default_chdir_path : List ℕ
default_chdir_path = 47 ∷ 116 ∷ 109 ∷ 112 ∷ []

-- "512"
abbrev pub default_max_childs : List ℕ
default_max_childs = 53 ∷ 49 ∷ 50 ∷ []

-- "./child"
abbrev pub default_child_prog : List ℕ
default_child_prog = 46 ∷ 47 ∷ 99 ∷ 104 ∷ 105 ∷ 108 ∷ 100 ∷ []

-- "./child_cf.ini"
abbrev pub default_child_cf : List ℕ
default_child_cf = 46 ∷ 47 ∷ 99 ∷ 104 ∷ 105 ∷ 108 ∷ 100 ∷ 95 ∷ 99 ∷ 102 ∷ 46 ∷ 105 ∷ 110 ∷ 105 ∷ []

-- `snprintf(field, size, "%s", ...)` of the value, or of the default when there is none
unfoldable pub setting : Option (List ℕ) → List ℕ → ℕ → List ℕ
setting none default size = take (size - 1) default
setting (some value) default size = take (size - 1) value

-- `read_config`; none is no dictionary. The result is the return value and the configuration.
unfoldable pub read_config : Option (Key → Option (List ℕ)) → Config → ℕ × Config
unfolding setting
read_config none config = (1, config)
read_config (some get) config = (
  0,
  record {
    bind_port = setting (get bind_port_key) default_bind_port 10;
    log_level = setting (get log_level_key) default_log_level max_line;
    chdir_path = setting (get chdir_path_key) default_chdir_path max_line;
    max_childs = setting (get max_childs_key) default_max_childs max_line;
    child_prog = setting (get child_prog_key) default_child_prog max_line;
    child_cf = setting (get child_cf_key) default_child_cf max_line;
  },
)
