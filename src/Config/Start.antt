-- ===== src/Config/Start.antt =====
-- internal/config/load_env.go and logger.go: the .env file and the level of the logger.
use Prim.Native.Char.{code}
use Prim.Native.String.{◌++◌}
use r_orchestrator.Prelude.{
  ℕ, zero, suc, ◌+◌, ◌≡◌, refl, String, Bool, ◌&&◌, ◌||◌, true, false, if◌then◌else◌, leb, ◌==◌,
  same_text, trim_space, none, some, Dict, at_key,
}
use r_orchestrator.Action.{Result, ok, err, refused}

-- The loop of LoadEnvVariable: `missing` is os.IsNotExist of os.Stat.
unfoldable pub find_env_file : (missing : String → Bool) → (tries : ℕ) → String → String
find_env_file missing zero path = path
find_env_file missing (suc n) path =
    let rest = find_env_file missing n ("../" ++ path) in if missing path then rest else path

-- What godotenv.Load answers: the variables of the file, or an error.
pub data EnvFile : Type 0 where
  loaded : Dict String → EnvFile
  absent broken : EnvFile

-- godotenv.Load sets the variables of the file that are not set yet.
abbrev pub with_file :
    (is_set : String → Bool) (getenv : String → String) → Dict String → String → String
with_file is_set getenv vars name =
    if is_set name
    then getenv name
    else elim (at_key name vars) [ none ↦ getenv name | some text ↦ text ]

abbrev pub load_result :
    (is_set : String → Bool) (getenv : String → String) → EnvFile → Result (String → String)
load_result is_set getenv (loaded vars) = ok (with_file is_set getenv vars)
load_result is_set getenv absent = ok getenv
load_result is_set getenv broken = err refused

-- LoadEnvVariable, with the environment that it leaves.
unfoldable pub load_env_variable :
    (is_set : String → Bool) (getenv : String → String) (missing : String → Bool)
    (load : String → EnvFile)
    → Result (String → String)
unfolding find_env_file
load_env_variable is_set getenv missing load =
    if same_text (getenv "ENV") "prod"
    then ok getenv
    else load_result is_set getenv (load (find_env_file missing 10 ".env"))

-- zapcore.Level.
pub data Level : Type 0 where
  debug info warn error : Level

-- The characters whose lower case is an ASCII letter; the others make no difference below.
abbrev pub lower_code : ℕ → ℕ
lower_code c =
    if leb b'A' c && leb c b'Z'
    then c + 32
    else if c == 304
    then b'i'
    else if c == 8490
    then b'k'
    else c

-- strings.ToLower(s) == text, for a text of ASCII letters.
unfoldable pub lower_is : String → (text : String) → Bool
lower_is String.[] String.[] = true
lower_is String.[] (String.◌∷◌ d t) = false
lower_is (String.◌∷◌ c s) String.[] = false
lower_is (String.◌∷◌ c s) (String.◌∷◌ d t) =
    let rest = lower_is s t in if lower_code (code c) == code d then rest else false

-- parseLogLevel, with the variable ENV.
unfoldable pub parse_log_level : (env s : String) → Level
unfolding lower_is trim_space
parse_log_level env s =
    let t = trim_space s in
    if lower_is t "debug"
    then debug
    else if lower_is t "info"
    then info
    else if lower_is t "warn" || lower_is t "warning"
    then warn
    else if lower_is t "error"
    then error
    else if same_text env "production"
    then info
    else debug

pub data Logger : Type 0 where
  production development : Level → Logger

-- InitLogger, as far as it chooses the logger.
unfoldable pub init_logger : (env log_level : String) → Logger
unfolding parse_log_level
init_logger env log_level =
    let level = parse_log_level env log_level in
    if same_text env "production" then production level else development level

warnings : init_logger "production" " WARNING\n" ≡ production warn
unfolding init_logger
warnings = refl
