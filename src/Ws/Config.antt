-- ===== src/Ws/Config.antt =====
-- apps/ws/src/config.ts. `integer` is `Number` of a text, where it is finite and an integer. An
-- exception is `none`; its text is left out. `envInt` reads the process's environment, also where
-- `loadConfig` is given another one.
use block_docs.Base.{◌>>=◌, ℕ, String, Option, none, some, get_or, ite, string_discrete}

abbrev pub Env : Type 0
Env = String → Option String

-- An integer of JavaScript.
pub data EnvNumber : Type 0 where
  natural negative : ℕ → EnvNumber

pub record Config : Type 0 where
  pub port : EnvNumber
  pub instance_id : String
  pub redis_url : String
  pub api_url : String
  pub stream_max_len : EnvNumber
  pub heartbeat_interval_ms : EnvNumber
  pub heartbeat_timeout_ms : EnvNumber
  pub log_level : String

module _ (integer : String → Option EnvNumber) (process_env : Env) where
  int_of : EnvNumber → Option String → Option EnvNumber
  unfolding string_discrete
  int_of fallback none = some fallback
  int_of fallback (some raw) = ite (string_discrete raw "") (some fallback) (integer raw)

  unfoldable pub env_int : String → ℕ → Option EnvNumber
  unfolding int_of
  env_int name fallback = int_of (natural fallback) (process_env name)

  unfoldable pub load_config : Env → Option Config
  unfolding env_int ◌>>=◌
  load_config env = do
    port ← env_int "PORT" 4000
    stream_max_len ← env_int "STREAM_MAXLEN" 100000
    interval ← env_int "HEARTBEAT_INTERVAL_MS" 30000
    timeout ← env_int "HEARTBEAT_TIMEOUT_MS" 10000
    some (record {
      port = port;
      instance_id = get_or (env "INSTANCE_ID") "ws-local";
      redis_url = get_or (env "REDIS_URL") "redis://localhost:6379/0";
      api_url = get_or (env "API_URL") "http://localhost:8000";
      stream_max_len = stream_max_len;
      heartbeat_interval_ms = interval;
      heartbeat_timeout_ms = timeout;
      log_level = get_or (env "LOG_LEVEL") "info";
    })
