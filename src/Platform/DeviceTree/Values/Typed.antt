-- ===== src/Platform/DeviceTree/Values/Typed.antt =====
-- The methods of `Value` that take out a value of one type, of
-- kernel_core/src/platform/device_tree/mod.rs, and the errors.
use endless_hole.Base.{ℕ, ◌+◌, List, Option, none, some, ◌≡◌, refl}
use endless_hole.Platform.DeviceTree.Values.{
  Value, u32, u64, phandle, string, string_list, raw_bytes, reg, StringList, Registers,
}
use Prim.Native.String.{String}

pub data ParseError : Type 0 where
  property_not_found : (name : String) → ParseError
  node_not_found : (path : String) → ParseError
  unexpected_type : (name : List ℕ) (value : Value) (expected_type : String) → ParseError
  unexpected_value : (name : List ℕ) (value : Value) (reason : String) → ParseError

pub data OwnedParseError : Type 0 where
  owned_property_not_found : (name : String) → OwnedParseError
  owned_node_not_found : (path : String) → OwnedParseError
  owned_unexpected_type : (name value expected_type : String) → OwnedParseError
  owned_unexpected_value : (name value reason : String) → OwnedParseError

-- `from_utf8_lossy` and the formatting of a value are the standard library's.
unfoldable pub to_owned : (List ℕ → String) → (Value → String) → ParseError → OwnedParseError
to_owned lossy format (property_not_found name) = owned_property_not_found name
to_owned lossy format (node_not_found path) = owned_node_not_found path
to_owned lossy format (unexpected_type name value expected_type) =
    owned_unexpected_type (lossy name) (format value) expected_type
to_owned lossy format (unexpected_value name value reason) =
    owned_unexpected_value (lossy name) (format value) reason

pub data Parsed (A : Type 0) : Type 0 where
  ok : A → Parsed A
  err : ParseError → Parsed A

unfoldable pub as_u32 : Value → List ℕ → Parsed ℕ
as_u32 (u32 v) name = ok v
as_u32 value name = err (unexpected_type name value "u32")

unfoldable pub as_u64 : Value → List ℕ → Parsed ℕ
as_u64 (u64 v) name = ok v
as_u64 value name = err (unexpected_type name value "u64")

unfoldable pub as_phandle : Value → List ℕ → Parsed ℕ
as_phandle (phandle v) name = ok v
as_phandle value name = err (unexpected_type name value "phandle")

unfoldable pub as_string : Value → List ℕ → Parsed (List ℕ)
as_string (string v) name = ok v
as_string value name = err (unexpected_type name value "string")

unfoldable pub as_strings : Value → List ℕ → Parsed StringList
as_strings (string_list v) name = ok v
as_strings value name = err (unexpected_type name value "stringlist")

unfoldable pub as_bytes : Value → List ℕ → Parsed (List ℕ)
as_bytes (raw_bytes v) name = ok v
as_bytes value name = err (unexpected_type name value "bytes")

unfoldable pub as_reg : Value → List ℕ → Parsed Registers
as_reg (reg v) name = ok v
as_reg value name = err (unexpected_type name value "reg")

unfoldable pub into_u32 : Value → Option ℕ
into_u32 (u32 v) = some v
into_u32 value = none

unfoldable pub into_u64 : Value → Option ℕ
into_u64 (u64 v) = some v
into_u64 value = none

unfoldable pub into_phandle : Value → Option ℕ
into_phandle (phandle v) = some v
into_phandle value = none

unfoldable pub into_string : Value → Option (List ℕ)
into_string (string v) = some v
into_string value = none

unfoldable pub into_strings : Value → Option StringList
into_strings (string_list v) = some v
into_strings value = none

unfoldable pub into_bytes : Value → Option (List ℕ)
into_bytes (raw_bytes v) = some v
into_bytes value = none

unfoldable pub into_reg : Value → Option Registers
into_reg (reg v) = some v
into_reg value = none

-- A fallible method and its optional form answer alike; the error names the property, the value and
-- the type that was expected.
abbrev pub Agrees : {A : Type 0} → Parsed A → Option A → List ℕ → Value → String → Type 0
Agrees found (some a) name value expected = found ≡ ok a
Agrees found none name value expected = found ≡ err (unexpected_type name value expected)

abbrev given : {A : Type 0} → Option A → ℕ
given none = 0
given (some a) = 1

-- How many of the optional methods give something
unfoldable pub into_count : Value → ℕ
unfolding into_u32 into_u64 into_phandle into_string into_strings into_bytes into_reg
into_count value =
    given (into_u32 value)
    + (given (into_u64 value)
        + (given (into_phandle value)
            + (given (into_string value)
                + (given (into_strings value)
                    + (given (into_bytes value) + given (into_reg value))))))

pub record Accessors (value : Value) (name : List ℕ) : Type 0 where
  pub u32_agrees : Agrees (as_u32 value name) (into_u32 value) name value "u32"
  pub u64_agrees : Agrees (as_u64 value name) (into_u64 value) name value "u64"
  pub phandle_agrees : Agrees (as_phandle value name) (into_phandle value) name value "phandle"
  pub string_agrees : Agrees (as_string value name) (into_string value) name value "string"
  pub strings_agrees : Agrees (as_strings value name) (into_strings value) name value "stringlist"
  pub bytes_agrees : Agrees (as_bytes value name) (into_bytes value) name value "bytes"
  pub reg_agrees : Agrees (as_reg value name) (into_reg value) name value "reg"
  pub one_type : into_count value ≡ 1

-- Of every value: each fallible method gives what its optional form gives, and else the error that
-- names the property, the value and the expected type; and exactly one of the optional forms gives
-- something.
pub value-Accessors : (value : Value) (name : List ℕ) → Accessors value name
unfolding as_u32 as_u64 as_phandle as_string as_strings as_bytes as_reg into_u32 into_u64
    into_phandle into_string into_strings into_bytes into_reg into_count
value-Accessors (u32 v) name = record {
  u32_agrees = refl;
  u64_agrees = refl;
  phandle_agrees = refl;
  string_agrees = refl;
  strings_agrees = refl;
  bytes_agrees = refl;
  reg_agrees = refl;
  one_type = refl;
}
value-Accessors (u64 v) name = record {
  u32_agrees = refl;
  u64_agrees = refl;
  phandle_agrees = refl;
  string_agrees = refl;
  strings_agrees = refl;
  bytes_agrees = refl;
  reg_agrees = refl;
  one_type = refl;
}
value-Accessors (phandle v) name = record {
  u32_agrees = refl;
  u64_agrees = refl;
  phandle_agrees = refl;
  string_agrees = refl;
  strings_agrees = refl;
  bytes_agrees = refl;
  reg_agrees = refl;
  one_type = refl;
}
value-Accessors (string v) name = record {
  u32_agrees = refl;
  u64_agrees = refl;
  phandle_agrees = refl;
  string_agrees = refl;
  strings_agrees = refl;
  bytes_agrees = refl;
  reg_agrees = refl;
  one_type = refl;
}
value-Accessors (string_list v) name = record {
  u32_agrees = refl;
  u64_agrees = refl;
  phandle_agrees = refl;
  string_agrees = refl;
  strings_agrees = refl;
  bytes_agrees = refl;
  reg_agrees = refl;
  one_type = refl;
}
value-Accessors (raw_bytes v) name = record {
  u32_agrees = refl;
  u64_agrees = refl;
  phandle_agrees = refl;
  string_agrees = refl;
  strings_agrees = refl;
  bytes_agrees = refl;
  reg_agrees = refl;
  one_type = refl;
}
value-Accessors (reg v) name = record {
  u32_agrees = refl;
  u64_agrees = refl;
  phandle_agrees = refl;
  string_agrees = refl;
  strings_agrees = refl;
  bytes_agrees = refl;
  reg_agrees = refl;
  one_type = refl;
}
