-- ===== src/DataTypes/Table.antt =====
-- What the table of src/ebus/models/data_types.cpp says of every type that it has.
use ebus.Base.{Bool, Option, arith, false, none, not, some, subst, true, ℕ, ◌&&◌, ◌==◌, ◌||◌, ◌≡◌}
use ebus.DataTypes.{DataType, Meta, is_auto_detect, is_bcd, meta_for, null_sentinel}
use ebus.DataTypes.Raw.{IsSize}

abbrev is_size : ℕ → Bool
is_size size = size == 1 || (size == 2 || size == 4)

abbrev pub plain_byte : Meta → Bool
plain_byte m =
    m.is_numeric
    && (not m.is_float
        && (m.size == 1 && (m.has_replacement && m.replacement_value == null_sentinel)))

abbrev row_holds : DataType → Meta → Bool
row_holds dt m =
    not (is_auto_detect dt)
    && ((not m.is_numeric || is_size m.size)
        && ((not m.is_float || m.size == 4) && (not (is_bcd dt) || plain_byte m)))

abbrev entry_holds : DataType → Option Meta → Bool
entry_holds dt none = true
entry_holds dt (some m) = row_holds dt m

table_holds : (dt : DataType) → entry_holds dt (meta_for dt) ≡ true
unfolding meta_for
table_holds dt = ground arith

pub record IsRow (dt : DataType) (m : Meta) : Type 0 where
  pub named : is_auto_detect dt ≡ false
  pub number : m.is_numeric ≡ true → IsSize m.size
  pub float4 : m.is_float ≡ true → m.size ≡ 4
  pub byte : is_bcd dt ≡ true → plain_byte m ≡ true

-- A check of the row, read field by field.
row_holds-IsRow : (dt : DataType) (m : Meta) → row_holds dt m ≡ true → IsRow dt m
row_holds-IsRow dt m h = record {
  named = ground arith;
  number = λ n. ground arith;
  float4 = λ f. ground arith;
  byte = λ b. ground arith;
}

pub meta_for-IsRow : (dt : DataType) (m : Meta) → meta_for dt ≡ some m → IsRow dt m
meta_for-IsRow dt m e =
    row_holds-IsRow dt m (subst (λ o. entry_holds dt o ≡ true) e (table_holds dt))
