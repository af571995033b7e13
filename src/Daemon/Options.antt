-- ===== src/Daemon/Options.antt =====
-- lib/optparse.c and lib/config.c. The libraries argp and libconfuse are arguments: the options that the
-- one finds, and what the other makes of a file.
use newtmq_server.Base.{
  ℕ, ◌==◌, if◌then◌else◌, Bool, false, List, [], ◌∷◌, Option, none, some, Bytes, codes,
}

-- `_parse_opt`, on `config_path`
unfoldable pub parse_option : ℕ → Option Bytes → Option Bytes → Option Bytes
parse_option key arg config_path = if key == b'c' then arg else config_path

-- `parse_opt`: `argp_parse` calls `_parse_opt` for each option that it finds. Nothing else sets
-- `config_path`.
unfoldable pub parse_opt : List (ℕ × Option Bytes) → Option Bytes → Option Bytes
unfolding parse_option
parse_opt [] config_path = config_path
parse_opt ((key, arg) ∷ options) config_path = parse_opt options (parse_option key arg config_path)

-- `cfg_opt_t`: a name and its default
pub data ConfigOption : Type 0 where
  cfg_str : Bytes → Option Bytes → ConfigOption
  cfg_int : Bytes → ℕ → ConfigOption
  cfg_bool : Bytes → Bool → ConfigOption

-- what `cfg_getstr`, `cfg_getint` and `cfg_getbool` give
pub record Values : Type 0 where
  pub getstr : Bytes → Option Bytes
  pub getint : Bytes → ℕ
  pub getbool : Bytes → Bool

-- CFG_SUCCESS, CFG_FILE_ERROR and CFG_PARSE_ERROR
pub data CfgParsed : Type 0 where
  cfg_success cfg_file_error cfg_parse_error : CfgParsed

-- `cfg_init` and `cfg_parse` on the path of a file: the code, and the values from then on
abbrev pub Confuse : Type 0
Confuse = List ConfigOption → Bytes → CfgParsed × Values

abbrev pub config_opts : List ConfigOption
config_opts =
    cfg_str (codes "server") (some (codes "localhost"))
    ∷ cfg_int (codes "port") 61613
    ∷ cfg_int (codes "ctrl_port") 61614
    ∷ cfg_str (codes "loglevel") none
    ∷ cfg_str (codes "logfile") (some (codes "/tmp/newtd.log"))
    ∷ cfg_bool (codes "debug") false
    ∷ cfg_str (codes "datadir") (some (codes "/tmp/newtmq"))
    ∷ []

-- `newt_config`
pub record Config : Type 0 where
  pub server : Option Bytes
  pub port : ℕ
  pub ctrl_port : ℕ
  pub logfile : Option Bytes
  pub debug : Bool
  pub loglevel : Option Bytes
  pub datadir : Option Bytes

unfoldable pub config_of : Values → Config
config_of v = record {
  server = v.getstr (codes "server");
  port = v.getint (codes "port");
  ctrl_port = v.getint (codes "ctrl_port");
  logfile = v.getstr (codes "logfile");
  loglevel = v.getstr (codes "loglevel");
  datadir = v.getstr (codes "datadir");
  debug = v.getbool (codes "debug");
}

-- A file that cannot be opened is no error.
unfoldable pub read_values : CfgParsed → Values → Option Config
unfolding config_of
read_values cfg_parse_error v = none
read_values cfg_success v = some (config_of v)
read_values cfg_file_error v = some (config_of v)

-- `load_config`; `none` is RET_ERROR.
unfoldable pub load_config : Confuse → Bytes → Option Config
unfolding read_values
load_config confuse path = let r = confuse config_opts path in read_values r.0 r.1
