-- ===== src/Tools/Metadata/Laws.antt =====
-- What the metadata tools of internal/tools/service.go send and answer.
use mcp_server_for_mysql.Base.{
  false, List, [], ◌⊎◌, inl, inr, some, ◌≡◌, refl, sym, ap, ◌∙◌, if◌then◌else◌, Bool-cases, Bytes,
  trim_space, Result, ok, err, ℤ, subst,
}
use mcp_server_for_mysql.Database.Source.{Source}
use mcp_server_for_mysql.Database.Dialect.{Dialect, mysql_dialect, clickhouse_dialect}
use mcp_server_for_mysql.Database.Identifier.{IdentifierError, validate_identifier}
use mcp_server_for_mysql.Database.Metadata.Model.{
  Table, TableDescription, MetadataError, invalid_table, Scanner, describe_with,
}
use mcp_server_for_mysql.Database.Metadata.Sent.{Extends, unchanged, metadata-Extends}
use mcp_server_for_mysql.Sqlguard.Splitter.{is_nil}
use mcp_server_for_mysql.Execution.Driver.{Log}
use mcp_server_for_mysql.Tools.Model.{
  RequestMeta, ErrorCode, invalid_input, execution, Service, Env, Reply, description_data,
  indexes_data,
}
use mcp_server_for_mysql.Tools.Service.{source_for, request_id, fail}
use mcp_server_for_mysql.Tools.Metadata.{
  TableInput, dialect_list_tables, dialect_describe_table, metadata_code, data_reply,
  list_tables_tool, describe_table_tool, list_indexes_tool, index_reply,
}

module _ (env : Env) (sc : Scanner env.driver.Error) (pool_stats : Log → List ℤ) (s : Service) where
  dialect_describe_table-Extends :
      (dialect : Dialect) (table : Bytes) (log : Log)
      → Extends table log (dialect_describe_table dialect env.driver sc table log).1
  dialect_describe_table-Extends mysql_dialect table log =
      (metadata-Extends env.driver sc table log).1
  dialect_describe_table-Extends clickhouse_dialect table log =
      (metadata-Extends env.driver sc table log).3

  dialect_list_tables-Extends :
      (dialect : Dialect) (log : Log)
      → Extends [] log (dialect_list_tables dialect env.driver sc log).1
  dialect_list_tables-Extends mysql_dialect log = (metadata-Extends env.driver sc [] log).0
  dialect_list_tables-Extends clickhouse_dialect log = (metadata-Extends env.driver sc [] log).2

  pub list_tables_tool-Extends :
      (meta : RequestMeta) (log : Log)
      → Extends [] log (list_tables_tool env sc pool_stats s meta log).log
  unfolding list_tables_tool
  list_tables_tool-Extends meta log = by_source (source_for s meta.source_id) refl
    where
      by_tables :
          (source : Source) (r : Result (MetadataError env.driver.Error) (List Table))
          → source_for s meta.source_id ≡ ok source
          → (dialect_list_tables source.dialect env.driver sc log).0 ≡ r
          → Extends [] log (list_tables_tool env sc pool_stats s meta log).log
      by_tables source (err e) h t =
          rw (h, list_tables_tool, t) (dialect_list_tables-Extends source.dialect log)
      by_tables source (ok ts) h t =
          rw (h, list_tables_tool, t) (dialect_list_tables-Extends source.dialect log)

      by_source :
          (r : Result ErrorCode Source)
          → source_for s meta.source_id ≡ r
          → Extends [] log (list_tables_tool env sc pool_stats s meta log).log
      by_source (err code) h = rw (h, list_tables_tool) unchanged
      by_source (ok source) h = by_tables source _ h refl

  abbrev describe : TableInput → Log → Reply
  describe = describe_table_tool env sc pool_stats s

  abbrev id_of : TableInput → Bytes
  id_of input = request_id env input.meta.request_id

  -- The tool fails, or describes a table.
  abbrev IsFailed : TableInput → Log → Reply → Type 0
  IsFailed input log reply =
      (code : ErrorCode) × (later : Log) × Extends input.table log later
      × (reply ≡ fail (id_of input) code later)

  abbrev IsDescribed : TableInput → Log → Reply → Type 0
  IsDescribed input log reply =
      (t : TableDescription) × (later : Log) × Extends input.table log later
      × (reply ≡ data_reply env sc pool_stats (id_of input) (description_data t) later)

  describe_table_tool-cases :
      (input : TableInput) (log : Log)
      → IsFailed input log (describe input log) ⊎ IsDescribed input log (describe input log)
  unfolding describe_table_tool
  describe_table_tool-cases input log = by_source (source_for s input.meta.source_id) refl
    where
      Goal : Type 0
      Goal = IsFailed input log (describe input log) ⊎ IsDescribed input log (describe input log)

      by_answer :
          (source : Source) (r : Result (MetadataError env.driver.Error) TableDescription)
          → source_for s input.meta.source_id ≡ ok source
          → is_nil (trim_space input.table) ≡ false
          → (dialect_describe_table source.dialect env.driver sc input.table log).0 ≡ r
          → Goal
      by_answer source (err e) h b t = inl (
        metadata_code env sc pool_stats e,
        _,
        dialect_describe_table-Extends source.dialect input.table log,
        rw (h, describe_table_tool, b, t) refl,
      )
      by_answer source (ok d) h b t = inr (
        d,
        _,
        dialect_describe_table-Extends source.dialect input.table log,
        rw (h, describe_table_tool, b, t) refl,
      )

      by_source : (r : Result ErrorCode Source) → source_for s input.meta.source_id ≡ r → Goal
      by_source (err code) h = inl (code, log, unchanged, rw (h, describe_table_tool) refl)
      by_source (ok source) h = elim (Bool-cases (is_nil (trim_space input.table))) [
        | inl b ↦ inl (invalid_input, log, unchanged, rw (h, describe_table_tool, b) refl)
        | inr b ↦ by_answer source _ h b refl
      ]

  pub describe_table_tool-Extends :
      (input : TableInput) (log : Log) → Extends input.table log (describe input log).log
  describe_table_tool-Extends input log = elim (describe_table_tool-cases input log) [
    | inl (code, later, sent, e) ↦
        subst (Extends input.table log) (sym (ap (λ (r : Reply). r.log) e)) sent
    | inr (t, later, sent, e) ↦
        subst (Extends input.table log) (sym (ap (λ (r : Reply). r.log) e)) sent
  ]

  -- `ListIndexes` fails as `DescribeTable` does, or answers the indexes of its description, and
  -- sends the same queries: constant ones that take the table's name as a parameter.
  pub list_indexes_tool_lem :
      (input : TableInput) (log : Log)
      → Extends input.table log (list_indexes_tool env sc pool_stats s input log).log
        × (((code : ErrorCode) × ((describe input log).failure ≡ some code)
              × (list_indexes_tool env sc pool_stats s input log ≡ describe input log))
            ⊎ ((t : TableDescription) × (later : Log) × (describe input log
                  ≡ data_reply env sc pool_stats (id_of input) (description_data t) later)
                × (list_indexes_tool env sc pool_stats s input log
                    ≡ data_reply env sc pool_stats (id_of input) (indexes_data t.indexes) later)))
  unfolding list_indexes_tool
  list_indexes_tool_lem input log = elim (describe_table_tool-cases input log) [
    | inl (code, later, sent, e) ↦
        let same = ap (index_reply env sc pool_stats) e in
        (
          subst (Extends input.table log) (sym (ap (λ (r : Reply). r.log) same)) sent,
          inl (code, ap (λ (r : Reply). r.failure) e, same ∙ sym e),
        )
    | inr (t, later, sent, e) ↦
        let same = ap (index_reply env sc pool_stats) e in
        (
          subst (Extends input.table log) (sym (ap (λ (r : Reply). r.log) same)) sent,
          inr (t, later, e, same),
        )
  ]

  describe_refused :
      (dialect : Dialect) (table : Bytes) (log : Log) {e : IdentifierError}
      → validate_identifier table ≡ err e
      → dialect_describe_table dialect env.driver sc table log ≡ (err (invalid_table e), log)
  unfolding describe_with
  describe_refused mysql_dialect table log v = rw (v, describe_with) refl
  describe_refused clickhouse_dialect table log v = rw (v, describe_with) refl

  -- With a name that is no identifier, `DescribeTable` fails on a source and sends nothing: with the
  -- code of an invalid input for a blank name, and of a failed execution for another one.
  pub describe_table_tool-refused :
      (input : TableInput) (log : Log) {source : Source} {e : IdentifierError}
      → source_for s input.meta.source_id ≡ ok source
      → validate_identifier input.table ≡ err e
      → describe input log
        ≡ fail
            (id_of input)
            (if is_nil (trim_space input.table) then invalid_input else execution)
            log
  unfolding describe_table_tool
  describe_table_tool-refused input log {source} h v =
      let refused = describe_refused source.dialect input.table log v in
      elim (Bool-cases (is_nil (trim_space input.table))) [
        | inl b ↦ rw (h, describe_table_tool, b) refl
        | inr b ↦ rw (h, describe_table_tool, b, ap (λ r. r.0) refused, ap (λ r. r.1) refused) refl
      ]
