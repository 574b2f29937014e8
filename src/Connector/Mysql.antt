-- ===== src/Connector/Mysql.antt =====
-- The MySQL sink: `Mysql` of src/stream/src/connector.rs and MysqlConn::execute of
-- src/common/src/db.rs.
use lightflus.Base.{
  ℕ, Bool, true, false, List, [], ◌∷◌, ◌++◌, Result, ok, err, Str, unwrap_or, keep, map,
}
use lightflus.Base.Sorting.{sort_by_key}
use lightflus.Proto.Graph.{MysqlDesc, MysqlConnectionOpts, get_mysql_statement}
use lightflus.Proto.Event.{KeyedDataEvent, KeyedEventSet, LocalEvent, keyed_data_stream_event}
use lightflus.Types.{
  TypedValue, Formats, Decoded, decoded, map_decoded, bind, string, big_int, boolean, number,
}
use lightflus.Connector.Errors.{ErrorKind, SinkException, BatchSinkException, of_batch}
use lightflus.Connector.Extract.{Scripts, extract_arguments}

pub record Mysql : Type 0 where
  pub connector_id : ℕ
  pub statement : Str
  pub extractors : List Str
  pub conn_opts : MysqlConnectionOpts

-- Mysql::with_config, with MysqlConn::from
unfoldable pub with_config : ℕ → MysqlDesc → Mysql
unfolding sort_by_key get_mysql_statement
with_config connector_id conf = record {
  connector_id = connector_id;
  statement = (get_mysql_statement conf).statement;
  extractors =
      map (λ e. e.extractor) (sort_by_key (λ e. e.index) (get_mysql_statement conf).extractors);
  conn_opts =
      unwrap_or conf.connection_opts
        (record { host = []; username = []; password = []; database = [] });
}

-- A statement with the arguments that are bound to it.
abbrev pub Query : Type 0
Query = Str × List TypedValue

-- the values that MysqlConn::execute binds; it skips all others
abbrev pub is_bound : TypedValue → Bool
is_bound (string v) = true
is_bound (big_int v) = true
is_bound (boolean v) = true
is_bound (number v) = true
is_bound _ = false

-- MysqlConn::execute, up to what is sent
unfoldable pub query : Str → List TypedValue → Query
query statement arguments = (statement, keep is_bound arguments)

abbrev mysql_extractor : Str
mysql_extractor =
    109 ∷ 121 ∷ 115 ∷ 113 ∷ 108 ∷ 95 ∷ 101 ∷ 120 ∷ 116 ∷ 114 ∷ 97 ∷ 99 ∷ 116 ∷ 111 ∷ 114 ∷ []

-- Iterator::flatten
unfoldable pub flatten : List (List TypedValue) → List TypedValue
flatten [] = []
flatten (row ∷ rows) = row ++ flatten rows

-- Queries that were sent, and an outcome.
abbrev pub Queried : Type 0 → Type 0
Queried A = List Query × A

-- `database` is how a query ends, with the connection to the server.
module _ (f : Formats) (scripts : Scripts) (database : Query → Result (Unit {0}) (Unit {0})) where
  -- Mysql::get_arguments
  unfoldable pub get_arguments : Mysql → LocalEvent → Decoded (List (List TypedValue))
  unfolding extract_arguments
  get_arguments m event = extract_arguments f scripts mysql_extractor m.extractors event

  abbrev after :
      Query
      → Result (Unit {0}) (Unit {0})
      → Queried (Result SinkException (Unit {0}))
      → Queried (Result SinkException (Unit {0}))
  after q (err e) rest = (q ∷ [], err ErrorKind.sql_execution_failed)
  after q (ok _) (qs, r) = (q ∷ qs, r)

  -- the loop of Mysql::sink over the rows, which ends at the first error
  unfoldable pub execute_rows :
      Str → List (List TypedValue) → Queried (Result SinkException (Unit {0}))
  unfolding query
  execute_rows statement [] = ([], ok tt)
  execute_rows statement (row ∷ rows) =
      after (query statement row) (database (query statement row)) (execute_rows statement rows)

  -- Mysql::sink
  unfoldable pub sink : Mysql → LocalEvent → Decoded (Queried (Result SinkException (Unit {0})))
  unfolding execute_rows get_arguments
  sink m event = map_decoded (execute_rows m.statement) (get_arguments m event)

  -- the arguments of all rows of all events
  unfoldable pub all_rows : Mysql → List KeyedDataEvent → Decoded (List (List TypedValue))
  unfolding get_arguments
  all_rows m [] = decoded []
  all_rows m (e ∷ es) =
      bind (get_arguments m (keyed_data_stream_event e))
        (λ rows. map_decoded (λ rest. rows ++ rest) (all_rows m es))

  abbrev of_execute :
      Query → Result (Unit {0}) (Unit {0}) → Queried (Result BatchSinkException (Unit {0}))
  of_execute q (ok _) = (q ∷ [], ok tt)
  of_execute q (err e) = (q ∷ [], err (of_batch ErrorKind.sql_execution_failed))

  -- Mysql::batch_sink: one statement for all rows
  unfoldable pub batch_sink :
      Mysql → KeyedEventSet → Decoded (Queried (Result BatchSinkException (Unit {0})))
  unfolding all_rows flatten query
  batch_sink m event_set =
      map_decoded
        (λ rows.
          of_execute (query m.statement (flatten rows))
            (database (query m.statement (flatten rows))))
        (all_rows m event_set.events)

-- Mysql::close_sink
unfoldable pub close_sink : Mysql → Mysql
close_sink m = record m { extractors = []; statement = [] }
