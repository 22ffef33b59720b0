-- ===== src/Sql/Total/Tables.antt =====
-- `parseCreateTable` of src/parser.ts: what it leaves of the text.
use yasd.Prelude.{ℕ, suc, Bool, some, List, arith, if_rule}
use yasd.Text.{Text, codes}
use yasd.Sql.Result.{multiple_keys}
use yasd.Sql.Syntax.{ColumnType}
use yasd.Sql.Numeric.{Numbers}
use yasd.Sql.Parser.{
  Parser, Parse, pure, raise_if, ◌>>=◌, ◌>>◌, is_word, consume, expect, parse_value,
}
use yasd.Sql.Separated.{separator, separated_item, separated}
use yasd.Sql.Tables.{
  Draft, Modifiers, validate_schema, table_key, type_scale, type_size, modifier, modifiers,
  column_end, column, draft_round, parse_create_table,
}
use yasd.Sql.Total.Rules.{left, Ends, Safe, Strict, Strict-Safe, Safe-pure}
use yasd.Sql.Total.Methods.{Safe-repeat, word_then}
use yasd.Sql.Total.Values.{parse_rules}

pub Strict-separator : {k : ℕ} → Strict k separator
unfolding separator
Strict-separator = search parse_rules depth 12

Safe-separator : {k : ℕ} → Safe k separator
Safe-separator = Strict-Safe Strict-separator

module _ {A : Type 0} {k : ℕ} (item : Parse A) (strict : Strict k item) where
  Strict-separated_item : (acc : List A) → Strict k (separated_item item acc)
  unfolding separated_item
  Strict-separated_item acc = search (parse_rules, Safe-separator) depth 12

  pub Safe-separated : Safe k (separated item)
  unfolding separated
  Safe-separated = search (parse_rules, Strict-separated_item) depth 12

Safe-type_scale : {k : ℕ} (type : ColumnType) (n : ℕ) → Safe k (type_scale type n)
unfolding type_scale
Safe-type_scale type n = search parse_rules depth 16

Safe-type_size : {k : ℕ} (type : ColumnType) → Safe k (type_size type)
unfolding type_size
Safe-type_size type = search (parse_rules, Safe-type_scale) depth 16

module _ {N : Type 0} where
  Safe-validate_schema : {k : ℕ} (d : Draft N) → Safe k (validate_schema d)
  unfolding validate_schema
  Safe-validate_schema d = search parse_rules depth 12

  Strict-table_key : {k : ℕ} (d : Draft N) → Strict k (table_key d)
  unfolding table_key
  Strict-table_key d = search (parse_rules, Safe-separator) depth 20

module _ {N : Type 0} (numbers : Numbers N) where
  Safe-column_end : {k : ℕ} → Safe k (column_end numbers)
  unfolding column_end
  Safe-column_end = search parse_rules depth 12

  null_modifier : {k : ℕ} (m : Modifiers N) → Strict k (do consume; expect (codes "null"); pure m)
  null_modifier m = search parse_rules

  default_modifier :
      {k : ℕ} (m : Modifiers N)
      → Strict k (do consume; v ← parse_value numbers; pure (record m { default = some v }))
  default_modifier m = search parse_rules

  key_modifier :
      {k : ℕ} (b : Bool) (m : Modifiers N)
      → Strict k (do raise_if b multiple_keys; consume; expect (codes "key"); pure m)
  key_modifier b m = search parse_rules depth 12

  modifier-Ends :
      (name : Text) (m : Modifiers N) (p : Parser)
      → Ends (left p) (modifier numbers name m p.current p)
  unfolding modifier
  modifier-Ends name m p =
      let P = λ (a : Parse (Modifiers N)). Ends (left p) (a p) in
      if_rule P (is_word (codes "not") p.current) _ _
        (λ _. (null_modifier {k = suc (left p)} _).from p (omega arith))
        (λ _.
          if_rule P (is_word (codes "null") p.current) _ _
            (λ h. word_then (codes "null") _ p h (Safe-pure _))
            (λ _.
              if_rule P (is_word (codes "default") p.current) _ _
                (λ _. (default_modifier {k = suc (left p)} m).from p (omega arith))
                (λ _. (key_modifier {k = suc (left p)} _ _).from p (omega arith))))

  Safe-modifiers : {k : ℕ} (name : Text) (m : Modifiers N) → Safe k (modifiers numbers name m)
  unfolding modifiers
  Safe-modifiers name m =
      Safe-repeat _ _ (search parse_rules) (λ n. record { from = λ p lt. modifier-Ends name n p }) m

  Strict-column : {k : ℕ} (d : Draft N) → Strict k (column numbers d)
  unfolding column
  Strict-column d = search (parse_rules, Safe-type_size, Safe-modifiers, Safe-column_end) depth 20

  Strict-draft_round : {k : ℕ} (d : Draft N) → Strict k (draft_round numbers d)
  unfolding draft_round
  Strict-draft_round d = search (parse_rules, Strict-table_key, Strict-column)

  pub Safe-parse_create_table : {k : ℕ} → Safe k (parse_create_table numbers)
  unfolding parse_create_table
  Safe-parse_create_table = search (parse_rules, Strict-draft_round, Safe-validate_schema) depth 20
