-- ===== src/Database/Metadata/Sent.antt =====
-- What the metadata queries of internal/database/mysql.go and internal/database/clickhouse.go send.
use mcp_server_for_mysql.Base.{
  Bool, true, false, List, [], ◌∷◌, ◌++◌, append_assoc, ◌≡◌, refl, sym, ap, ◌∙◌, if◌then◌else◌, All,
  Bytes, equal, contains, Result, ok, err, All-append,
}
use mcp_server_for_mysql.Database.Identifier.{IdentifierError, validate_identifier}
use mcp_server_for_mysql.Execution.Value.{Value, string}
use mcp_server_for_mysql.Execution.Driver.{Driver, Event, query, Log}
use mcp_server_for_mysql.Database.Metadata.Model.{
  Column, Index, MetadataError, Scanner, select, scan_table, describe_with,
}
use mcp_server_for_mysql.Database.Metadata.Mysql as Mysql
use mcp_server_for_mysql.Database.Metadata.ClickHouse as ClickHouse

-- The statements without a parameter, and those with one.
abbrev pub plain_statements : List Bytes
plain_statements =
    Mysql.tables_query ∷ ClickHouse.tables_query ∷ Mysql.index_expression_support_query ∷ []

abbrev pub bound_statements : List Bytes
bound_statements =
    Mysql.columns_query ∷ Mysql.indexes_with_expressions_query
    ∷ Mysql.indexes_without_expressions_query ∷ ClickHouse.columns_query ∷ ClickHouse.indexes_query
    ∷ []

-- A query by one of the constant statements; a table name is its parameter, never its text.
pub data IsMetadataQuery (table_name : Bytes) : Event → Type 0 where
  plain :
      {statement : Bytes} {done : Bool}
      → contains statement plain_statements ≡ true
      → IsMetadataQuery table_name (query statement [] done)
  bound :
      {statement : Bytes} {done : Bool}
      → contains statement bound_statements ≡ true
      → IsMetadataQuery table_name (query statement (string table_name ∷ []) done)

-- The second log extends the first by such queries.
abbrev pub Extends : Bytes → Log → Log → Type 0
Extends table_name log log' =
    (sent : Log) × All (IsMetadataQuery table_name) sent × (log' ≡ sent ++ log)

module _ {table_name : Bytes} where
  pub unchanged : {log : Log} → Extends table_name log log
  unchanged = ([], tt, refl)

  Extends-trans :
      {a b c : Log} → Extends table_name a b → Extends table_name b c → Extends table_name a c
  Extends-trans {a} (sent, all, e) (sent', all', e') = (
    sent' ++ sent,
    All-append (IsMetadataQuery table_name) sent' sent all' all,
    e' ∙ ap (◌++◌ sent') e ∙ sym (append_assoc sent' sent a),
  )

  module _ {A : Type 0} (d : Driver) (scan : List Value → Result d.Error A) (statement : Bytes)
      (args : List Value) where
    select-Extends :
        ((done : Bool) → IsMetadataQuery table_name (query statement args done))
        → (log : Log) → Extends table_name log (select d scan statement args log).1
    unfolding select
    select-Extends one log = by_answer (d.query_context log statement args) refl
      where
        by_answer :
            (r : Result d.Error _)
            → d.query_context log statement args ≡ r
            → Extends table_name log (select d scan statement args log).1
        by_answer (ok set) e = (query statement args true ∷ [], (one true, tt), rw (e, select) refl)
        by_answer (err x) e =
            (query statement args false ∷ [], (one false, tt), rw (e, select) refl)

  module _ (d : Driver)
      (columns_of : Bytes → Log → Result (MetadataError d.Error) (List Column) × Log)
      (indexes_of : Bytes → Log → Result (MetadataError d.Error) (List Index) × Log)
      (columns-Extends : (log : Log) → Extends table_name log (columns_of table_name log).1)
      (indexes-Extends : (log : Log) → Extends table_name log (indexes_of table_name log).1) where
    describe_with-Extends :
        (log : Log)
        → Extends table_name log (describe_with d columns_of indexes_of table_name log).1
    unfolding describe_with
    describe_with-Extends log = by_name (validate_identifier table_name) refl
      where
        Goal : Type 0
        Goal = Extends table_name log (describe_with d columns_of indexes_of table_name log).1

        cols : Result (MetadataError d.Error) (List Column) × Log
        cols = columns_of table_name log

        by_columns :
            (u : Unit {0}) (r : Result (MetadataError d.Error) (List Column))
            → validate_identifier table_name ≡ ok u
            → cols.0 ≡ r
            → Goal
        by_columns u (err x) v e = rw (v, describe_with, e) (columns-Extends log)
        by_columns u (ok cs) v e =
            rw (v, describe_with, e) (Extends-trans (columns-Extends log) (indexes-Extends cols.1))

        by_name :
            (r : Result IdentifierError (Unit {0})) → validate_identifier table_name ≡ r → Goal
        by_name (err x) v = rw (v, describe_with) unchanged
        by_name (ok u) v = by_columns u cols.0 v refl

module _ (d : Driver) (sc : Scanner d.Error) (table_name : Bytes) where
  bound_query :
      (statement : Bytes)
      → contains statement bound_statements ≡ true
      → (done : Bool) → IsMetadataQuery table_name (query statement (string table_name ∷ []) done)
  bound_query statement e done = bound e

  supports-Extends :
      (log : Log) → Extends table_name log (Mysql.mysql_supports_index_expressions d sc log).1
  unfolding Mysql.mysql_supports_index_expressions equal
  supports-Extends log =
      by_answer (d.query_context log Mysql.index_expression_support_query []) refl
    where
      by_answer :
          (r : Result d.Error _)
          → d.query_context log Mysql.index_expression_support_query [] ≡ r
          → Extends table_name log (Mysql.mysql_supports_index_expressions d sc log).1
      by_answer (ok set) e = (
        query Mysql.index_expression_support_query [] true ∷ [],
        (plain refl, tt),
        rw (e, Mysql.mysql_supports_index_expressions) refl,
      )
      by_answer (err x) e = (
        query Mysql.index_expression_support_query [] false ∷ [],
        (plain refl, tt),
        rw (e, Mysql.mysql_supports_index_expressions) refl,
      )

  index_rows-Extends :
      (supported : Bool) (log : Log)
      → Extends table_name log
          (select d
            (Mysql.scan_index d sc)
            (if supported
              then Mysql.indexes_with_expressions_query
              else Mysql.indexes_without_expressions_query)
            (string table_name ∷ [])
            log).1
  unfolding equal
  index_rows-Extends true =
      select-Extends d _ _ _ (bound_query Mysql.indexes_with_expressions_query refl)
  index_rows-Extends false =
      select-Extends d _ _ _ (bound_query Mysql.indexes_without_expressions_query refl)

  mysql_indexes-Extends :
      (log : Log) → Extends table_name log (Mysql.mysql_indexes d sc table_name log).1
  unfolding Mysql.mysql_indexes
  mysql_indexes-Extends log = by_support (Mysql.mysql_supports_index_expressions d sc log).0 refl
    where
      after : Log
      after = (Mysql.mysql_supports_index_expressions d sc log).1

      by_support :
          (r : Result (MetadataError d.Error) Bool)
          → (Mysql.mysql_supports_index_expressions d sc log).0 ≡ r
          → Extends table_name log (Mysql.mysql_indexes d sc table_name log).1
      by_support (err x) e = rw (e, Mysql.mysql_indexes) (supports-Extends log)
      by_support (ok supported) e =
          rw (e, Mysql.mysql_indexes)
            (Extends-trans (supports-Extends log) (index_rows-Extends supported after))

  -- `ListTables` and `DescribeTable` of both dialects send nothing but the constant queries of their
  -- files, whatever the driver answers; the name of the table is only ever a parameter.
  pub metadata-Extends :
      (log : Log)
      → Extends table_name log (Mysql.list_tables d sc log).1
        × Extends table_name log (Mysql.describe_table d sc table_name log).1
        × Extends table_name log (ClickHouse.list_tables d sc log).1
        × Extends table_name log (ClickHouse.describe_table d sc table_name log).1
  unfolding Mysql.mysql_columns ClickHouse.clickhouse_columns ClickHouse.clickhouse_indexes equal
  metadata-Extends log = (
    select-Extends d (scan_table sc) Mysql.tables_query [] (λ done. plain refl) log,
    describe_with-Extends d (Mysql.mysql_columns d sc) (Mysql.mysql_indexes d sc)
        (select-Extends d (Mysql.scan_column d sc) Mysql.columns_query (string table_name ∷ [])
          (bound_query Mysql.columns_query refl))
        mysql_indexes-Extends log,
    select-Extends d (scan_table sc) ClickHouse.tables_query [] (λ done. plain refl) log,
    describe_with-Extends d (ClickHouse.clickhouse_columns d sc)
        (ClickHouse.clickhouse_indexes d sc)
        (select-Extends d (ClickHouse.scan_column d sc) ClickHouse.columns_query
          (string table_name ∷ []) (bound_query ClickHouse.columns_query refl))
        (select-Extends d (ClickHouse.scan_index d sc) ClickHouse.indexes_query
          (string table_name ∷ []) (bound_query ClickHouse.indexes_query refl))
        log,
  )
