-- ===== src/Examples/Indexing.antt =====
-- The theorem on indexing, at a concrete index.

use lalvm.Base.{Bool, true, false, none, some, Option}
use lalvm.Base.Words.{signed}
use lalvm.Llvm.{ApsInt, value}
use lalvm.Dialect.Types.{TypeOp, int, static}
use lalvm.Conversions.Meaning.{int_qual}
use lalvm.Conversions.Ranges.{within}
use lalvm.Indexing.{IndexOp, other_index}
use lalvm.Examples.{word, declared, range_info}

abbrev integer_type : TypeOp
integer_type =
    declared "integer" (int 8) (range_info (static (word 8 128)) (static (word 8 127))) none

abbrev third : IndexOp
third = record {
  index = int_qual 8 "integer";
  array_type = some "vector";
  value = other_index;
  has_offset = false;
}

abbrev bounds_hold : Option (ApsInt × ApsInt) → Bool
bounds_hold (some p) = within (value p.0) (value p.1) (signed 8 3)
bounds_hold none = true
