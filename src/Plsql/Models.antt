-- ===== src/Plsql/Models.antt =====
-- The records of the analysis graph: apps/api/app/integrations/plsql/models.py, and the literal
-- types of apps/api/app/models/plsql.py. Identifiers and names are numbers, ordered as the texts
-- are: the program compares and sorts them, and does nothing else with them.
use poc_la_graph.Base.{ℕ, String, Bool, true, false, Option, List}

pub data ObjectKind : Type 0 where
  table view package_object sequence trigger index synonym type_object procedure function_object :
      ObjectKind
  anonymous_block : ObjectKind

pub data Relationship : Type 0 where
  calls reads writes view_depends_on foreign_key trigger_on triggers indexes : Relationship
  synonym_for declares contains : Relationship

pub data Resolution : Type 0 where
  exact inferred ambiguous unresolved : Resolution

-- `PlsqlDependencyCategory`
pub data Category : Type 0 where
  callers callees read_accesses write_accesses other : Category

-- `ImpactDirection`
pub data Direction : Type 0 where
  upstream downstream : Direction

pub record Evidence : Type 0 where
  pub source_file_id : ℕ
  pub path : ℕ
  pub start_line : Option ℕ
  pub start_column : Option ℕ
  pub start_offset : Option ℕ
  pub end_offset : Option ℕ

-- `PlsqlObjectRecord`
pub record ObjectRecord : Type 0 where
  pub id : ℕ
  pub kind : ObjectKind
  pub name : ℕ
  pub schema_name : ℕ
  pub qualified_name : ℕ
  pub project_id : ℕ
  pub owner : Option ℕ
  pub signature : Option String
  pub return_type : Option String
  pub evidence : Option Evidence

-- `PlsqlDependencyRecord`
pub record DependencyRecord : Type 0 where
  pub id : ℕ
  pub relationship : Relationship
  pub resolution : Resolution
  pub source_id : ℕ
  pub source_kind : ObjectKind
  pub source_name : ℕ
  pub source_qualified_name : ℕ
  pub target_id : ℕ
  pub target_kind : ObjectKind
  pub target_name : ℕ
  pub target_qualified_name : ℕ
  pub evidence : Option Evidence
  pub evidence_kind : Option String
  pub derived : Option Bool
  pub events : Option String
  pub via_table_id : Option ℕ
  pub via_table_kind : Option ObjectKind
  pub via_table_name : Option ℕ
  pub via_table_qualified_name : Option ℕ

-- `PlsqlDependencyPage`, `PlsqlPathPage` and the pages of impact items: a slice with the count of
-- the whole.
pub record Page (A : Type 0) : Type 0 where
  pub items : List A
  pub truncated : Bool
  pub total : ℕ

-- `PlsqlDependencySummaryRecord`
pub record DependencySummary : Type 0 where
  pub count_callers : ℕ
  pub count_callees : ℕ
  pub count_reads : ℕ
  pub count_writes : ℕ
  pub count_other : ℕ
  pub page : Page DependencyRecord

-- `PlsqlHealthCategoryRecord` and `PlsqlHealthRecord`
pub record HealthCategory : Type 0 where
  pub count : ℕ
  pub items : List DependencyRecord

pub record Health : Type 0 where
  pub total : ℕ
  pub unresolved : HealthCategory
  pub ambiguous : HealthCategory
  pub dynamic_sql : HealthCategory
  pub parse_errors : HealthCategory
  pub unsupported : HealthCategory
  pub truncated : Bool

-- `PlsqlPathRecord`; its identifier is a digest of the trail, which stands for it.
pub record PathRecord : Type 0 where
  pub trail : List ℕ
  pub steps : List DependencyRecord
  pub hop_count : ℕ

-- `PlsqlImpactItemRecord` and `PlsqlImpactSummaryRecord`
pub record ImpactItem : Type 0 where
  pub dependent : ObjectRecord
  pub distance : ℕ
  pub paths : List PathRecord

pub record ImpactSummary : Type 0 where
  pub direct : ℕ
  pub indirect : ℕ
  pub packages : ℕ
  pub tables_modified : ℕ

-- `PlsqlOverviewRecord`
pub record Overview : Type 0 where
  pub object_record : ObjectRecord
  pub direct_dependents : ℕ
  pub indirect_dependents : ℕ
  pub count_callers : ℕ
  pub count_callees : ℕ
  pub tables_accessed : ℕ
  pub top_callers : List ObjectRecord

abbrev pub is_calls : Relationship → Bool
is_calls Relationship.calls = true
is_calls _ = false

abbrev pub is_reads : Relationship → Bool
is_reads Relationship.reads = true
is_reads _ = false

abbrev pub is_writes : Relationship → Bool
is_writes Relationship.writes = true
is_writes _ = false

-- `TABLE_ACCESS_RELATIONSHIPS`
abbrev pub is_table_access : Relationship → Bool
is_table_access Relationship.reads = true
is_table_access Relationship.writes = true
is_table_access Relationship.trigger_on = true
is_table_access Relationship.view_depends_on = true
is_table_access Relationship.foreign_key = true
is_table_access _ = false

-- `PATH_RELATIONSHIPS`
abbrev pub is_path_relationship : Relationship → Bool
is_path_relationship Relationship.calls = true
is_path_relationship Relationship.reads = true
is_path_relationship Relationship.writes = true
is_path_relationship Relationship.view_depends_on = true
is_path_relationship Relationship.triggers = true
is_path_relationship Relationship.foreign_key = true
is_path_relationship _ = false

abbrev pub is_unresolved : Resolution → Bool
is_unresolved Resolution.unresolved = true
is_unresolved _ = false

abbrev pub is_ambiguous : Resolution → Bool
is_ambiguous Resolution.ambiguous = true
is_ambiguous _ = false

-- `TABLE_OR_VIEW`
abbrev pub is_table_or_view : ObjectKind → Bool
is_table_or_view ObjectKind.table = true
is_table_or_view ObjectKind.view = true
is_table_or_view _ = false

abbrev pub is_package : ObjectKind → Bool
is_package ObjectKind.package_object = true
is_package _ = false
