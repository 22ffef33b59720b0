-- ===== src/Sql/Syntax.antt =====
-- The syntax trees of src/types.ts.
use yasd.Prelude.{ℕ, Bool, Option, List}
use yasd.Text.{Text}

-- A value that SQL can write. `N` is the numbers.
pub data Value (N : Type 0) : Type 0 where
  null : Value N
  boolean : Bool → Value N
  number : N → Value N
  string : Text → Value N

pub data ColumnType : Type 0 where
  string_type number_type boolean_type any_type : ColumnType

-- `ColumnDefinition`
pub record Column (N : Type 0) : Type 0 where
  pub name : Text
  pub type : ColumnType
  pub nullable : Bool
  pub default : Option (Value N)

pub data Expression (N : Type 0) : Type 0 where
  literal : Value N → Expression N
  column_ref : Text → Expression N

-- The operators of a `ComparisonClause` with one right operand.
pub data Operator : Type 0 where
  eq ne gt ge lt le like : Operator

-- `WhereClause`. A `ComparisonClause` has one right operand, or the list of `in`, or the two of
-- `between`.
pub data Where (N : Type 0) : Type 0 where
  and_clause : Where N → Where N → Where N
  or_clause : Where N → Where N → Where N
  not_clause : Where N → Where N
  is_null : Expression N → Where N
  is_not_null : Expression N → Where N
  comparison : Expression N → Operator → Expression N → Where N
  in_list : Expression N → Expression N → List (Expression N) → Where N
  between : Expression N → Expression N → Expression N → Where N

pub data Direction : Type 0 where
  asc desc : Direction

pub record OrderBy : Type 0 where
  pub column : Text
  pub direction : Direction

pub record CreateTable (N : Type 0) : Type 0 where
  pub table_name : Text
  pub columns : List (Column N)
  pub primary_key : Option Text

pub record Insert (N : Type 0) : Type 0 where
  pub table_name : Text
  pub columns : List Text
  pub rows : List (List (Value N))

-- `columns` is `none` for the star.
pub record Select (N : Type 0) : Type 0 where
  pub columns : Option (List Text)
  pub table_name : Text
  pub condition : Option (Where N)
  pub order_by : Option OrderBy
  pub limit : Option ℕ
  pub offset : Option ℕ

pub record Update (N : Type 0) : Type 0 where
  pub table_name : Text
  pub set : List (Text × Value N)
  pub condition : Option (Where N)

pub record Delete (N : Type 0) : Type 0 where
  pub table_name : Text
  pub condition : Option (Where N)

pub data Statement (N : Type 0) : Type 0 where
  create_table : CreateTable N → Statement N
  insert : Insert N → Statement N
  select : Select N → Statement N
  update : Update N → Statement N
  delete : Delete N → Statement N
  drop_table : Text → Statement N
