-- ===== src/Idl/Parser/Tests.antt =====
-- Runs of idl/idl_parser.hpp on small inputs.
use cpp20_coroutine_io_uring.Common.{
  ◌≡◌, refl, true, false, List, [], ◌∷◌, ◌++◌, some, Bytes, arith, length, All, str_eq,
}
use cpp20_coroutine_io_uring.Idl.Parser.{
  FieldType, trim, find, starts_with, parse_type, read_fields,
}
use cpp20_coroutine_io_uring.Idl.Parser.Fields.{read_fields_declared}

-- "struct P {", " int8 x;", "}" and "service S {".
abbrev struct_line : Bytes
struct_line = 115 ∷ 116 ∷ 114 ∷ 117 ∷ 99 ∷ 116 ∷ 32 ∷ 80 ∷ 32 ∷ 123 ∷ []

abbrev field_line : Bytes
field_line = 32 ∷ 105 ∷ 110 ∷ 116 ∷ 56 ∷ 32 ∷ 120 ∷ 59 ∷ []

abbrev brace_line : Bytes
brace_line = 125 ∷ []

abbrev service_line : Bytes
service_line = 115 ∷ 101 ∷ 114 ∷ 118 ∷ 105 ∷ 99 ∷ 101 ∷ 32 ∷ 83 ∷ 32 ∷ 123 ∷ []

abbrev later_lines : List Bytes
later_lines = field_line ∷ brace_line ∷ service_line ∷ []

trimmed : trim (9 ∷ 32 ∷ 97 ∷ 32 ∷ 98 ∷ 32 ∷ 13 ∷ 10 ∷ []) ≡ 97 ∷ 32 ∷ 98 ∷ []
unfolding trim
trimmed = refl

-- The line of the service is read as a field of the struct.
service_as_field : length (read_fields later_lines).0 ≡ 2
unfolding read_fields trim find str_eq
service_as_field = refl

is_struct : starts_with (115 ∷ 116 ∷ 114 ∷ 117 ∷ 99 ∷ 116 ∷ []) (trim struct_line) ≡ true
unfolding starts_with trim
is_struct = refl

brace_at : find 123 (trim struct_line) ≡ some 9
unfolding find trim
brace_at = refl

no_end : All (λ l. str_eq (trim l) (34 ∷ 125 ∷ 34 ∷ []) ≡ false) later_lines
unfolding str_eq trim
no_end = (refl, (refl, (refl, tt)))

read_fields_declared_example :
    read_fields (((105 ∷ 110 ∷ []) ++ 32 ∷ ((120 ∷ []) ++ 59 ∷ [])) ∷ later_lines) ≡ (
      record {
        name = 120 ∷ [];
        field_type = parse_type (105 ∷ 110 ∷ []);
        type_name = 105 ∷ 110 ∷ [];
        element_type = FieldType.int32;
        field_id = 0;
      }
          ∷ (read_fields later_lines).0,
      (read_fields later_lines).1,
    )
read_fields_declared_example =
    read_fields_declared 105 (110 ∷ []) (120 ∷ []) later_lines (refl, (refl, tt)) (refl, tt)
      (λ e. omega arith) (λ e. omega arith)
