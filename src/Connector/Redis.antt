-- ===== src/Connector/Redis.antt =====
-- The Redis sink: `Redis` of src/stream/src/connector.rs and the client of src/common/src/redis.rs.
use lightflus.Base.{
  ℕ, Bool, true, false, Option, none, some, List, [], ◌∷◌, Str, map_option, and_then, is_empty,
  if◌then◌else◌, ◌==◌,
}
use lightflus.Proto.Graph.{RedisDesc, RedisConnectionOpts}

-- ConnectionInfo of the crate redis
pub record ConnectionInfo : Type 0 where
  pub host : Str
  pub port : ℕ
  pub tls : Bool
  pub db : ℕ
  pub username : Option Str
  pub password : Option Str

-- str::split(":"): the pieces between the colons
unfoldable pub split_colon : Str → List Str
split_colon [] = [] ∷ []
split_colon (c ∷ cs) = cut (c == 58) c (split_colon cs)
  where
    cut : Bool → ℕ → List Str → List Str
    cut true c pieces = [] ∷ pieces
    cut false c [] = (c ∷ []) ∷ []
    cut false c (p ∷ ps) = (c ∷ p) ∷ ps

abbrev redis_port : ℕ
redis_port = 6379

abbrev pub connection : RedisConnectionOpts → Str × ℕ → ConnectionInfo
connection opts (host, port) =
    if opts.tls
    then record {
      host = host;
      port = port;
      tls = true;
      db = opts.database;
      username = if is_empty opts.username then some opts.username else none;
      password = some opts.password;
    }
    else record {
      host = host;
      port = port;
      tls = false;
      db = opts.database;
      username = none;
      password = none;
    }

-- `parse_port` is u16::from_str_radix with radix 10; a text that is no port panics: `none`
module _ (parse_port : Str → Option ℕ) where
  abbrev addressed : List Str → Option (Str × ℕ)
  addressed (host ∷ port ∷ rest) = map_option (λ p. (host, p)) (parse_port port)
  addressed (host ∷ []) = some (host, redis_port)
  addressed [] = some (host_local, redis_port)
    where
      host_local : Str
      host_local = 108 ∷ 111 ∷ 99 ∷ 97 ∷ 108 ∷ 104 ∷ 111 ∷ 115 ∷ 116 ∷ []

  abbrev with_opts : Option RedisConnectionOpts → Option ConnectionInfo
  unfolding split_colon
  with_opts none = none
  with_opts (some opts) = map_option (connection opts) (addressed (split_colon opts.host))

  -- redis::to_connection_info; a panic is `none`
  unfoldable pub to_connection_info : RedisDesc → Option ConnectionInfo
  unfolding with_opts
  to_connection_info conf = with_opts conf.connection_opts

-- What is taken from std and the crate redis: u16::from_str_radix with radix 10, and whether a
-- client can be opened.
pub record RedisApi : Type 0 where
  pub parse_port : Str → Option ℕ
  pub opens : ConnectionInfo → Bool

-- RedisClient::new, which panics where the client is not opened
unfoldable pub new_client : RedisApi → RedisDesc → Option ConnectionInfo
unfolding to_connection_info
new_client redis conf =
    and_then (to_connection_info redis.parse_port conf)
      (λ info. if redis.opens info then some info else none)
