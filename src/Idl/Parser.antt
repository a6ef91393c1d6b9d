-- ===== src/Idl/Parser.antt =====
-- idl/idl_parser.hpp: the document and `IDLParser`. A stream is the list of the lines that are left
-- in it, and a function that reads from one returns what it leaves. Line numbers are not used.
pub mod Blocks
pub mod Fields
mod Tests
use cpp20_coroutine_io_uring.Common.{
  ℕ, zero, suc, ◌+◌, ◌-◌, ◌%◌, ◌^◌, Bool, true, false, ◌&&◌, ◌||◌, List, [], ◌∷◌, ◌++◌, Option,
  none, some, Bytes, length, take, drop, ◌==◌, if◌then◌else◌, str_eq, ◌>>=◌,
}

pub data FieldType : Type 0 where
  int8 int16 int32 int64 uint8 uint16 uint32 uint64 : FieldType
  float double string bool vector map_type custom : FieldType

pub record Field : Type 0 where
  pub name : Bytes
  pub field_type : FieldType
  pub type_name : Bytes
  pub element_type : FieldType
  pub field_id : ℕ

pub record StructDef : Type 0 where
  pub name : Bytes
  pub fields : List Field

pub record MethodParam : Type 0 where
  pub name : Bytes
  pub param_type : FieldType
  pub type_name : Bytes

pub record MethodDef : Type 0 where
  pub name : Bytes
  pub params : List MethodParam
  pub return_type : MethodParam

pub record ServiceDef : Type 0 where
  pub name : Bytes
  pub methods : List MethodDef

pub record IdlDocument : Type 0 where
  pub namespace_name : Bytes
  pub structs : List StructDef
  pub services : List ServiceDef

-- The characters that `trim` removes.
abbrev pub is_blank : ℕ → Bool
is_blank c = c == 32 || (c == 9 || (c == 13 || c == 10))

unfoldable pub trim_start : Bytes → Bytes
trim_start [] = []
trim_start (c ∷ cs) = if is_blank c then trim_start cs else c ∷ cs

abbrev pub no_more : Bytes → Bool
no_more [] = true
no_more (c ∷ cs) = false

unfoldable pub trim_end : Bytes → Bytes
trim_end [] = []
trim_end (c ∷ cs) = let rest = trim_end cs in if is_blank c && no_more rest then [] else c ∷ rest

unfoldable pub trim : Bytes → Bytes
unfolding trim_start trim_end
trim s = trim_end (trim_start s)

-- The pieces that `std::getline` cuts from a text at a separator.
abbrev pub put_first : ℕ → List Bytes → List Bytes
put_first c [] = (c ∷ []) ∷ []
put_first c (piece ∷ pieces) = (c ∷ piece) ∷ pieces

unfoldable pub split : ℕ → Bytes → List Bytes
split separator [] = []
split separator (c ∷ cs) =
    let pieces = split separator cs in if c == separator then [] ∷ pieces else put_first c pieces

-- `find` and `find_last_of` of one character, and `starts_with`.
unfoldable pub find : ℕ → Bytes → Option ℕ
find c [] = none
find c (x ∷ xs) = let later = find c xs in if x == c then some 0 else (do i ← later; some (suc i))

unfoldable pub find_last : ℕ → Bytes → Option ℕ
find_last c [] = none
find_last c (x ∷ xs) = elim (find_last c xs) [
  | some i ↦ some (suc i)
  | none ↦ if x == c then some 0 else none
]

unfoldable pub starts_with : Bytes → Bytes → Bool
starts_with [] line = true
starts_with (x ∷ xs) [] = false
starts_with (x ∷ xs) (y ∷ ys) = x == y && starts_with xs ys

abbrev pub namespace_text : Bytes
namespace_text = 110 ∷ 97 ∷ 109 ∷ 101 ∷ 115 ∷ 112 ∷ 97 ∷ 99 ∷ 101 ∷ []

abbrev pub struct_text : Bytes
struct_text = 115 ∷ 116 ∷ 114 ∷ 117 ∷ 99 ∷ 116 ∷ []

abbrev pub service_text : Bytes
service_text = 115 ∷ 101 ∷ 114 ∷ 118 ∷ 105 ∷ 99 ∷ 101 ∷ []

abbrev pub vector_text : Bytes
vector_text = 118 ∷ 101 ∷ 99 ∷ 116 ∷ 111 ∷ 114 ∷ []

abbrev pub map_text : Bytes
map_text = 109 ∷ 97 ∷ 112 ∷ []

unfoldable pub parse_type : Bytes → FieldType
parse_type t =
    if str_eq t (105 ∷ 110 ∷ 116 ∷ 56 ∷ [])
    then FieldType.int8
    else if str_eq t (105 ∷ 110 ∷ 116 ∷ 49 ∷ 54 ∷ [])
    then FieldType.int16
    else if str_eq t (105 ∷ 110 ∷ 116 ∷ 51 ∷ 50 ∷ [])
    then FieldType.int32
    else if str_eq t (105 ∷ 110 ∷ 116 ∷ 54 ∷ 52 ∷ [])
    then FieldType.int64
    else if str_eq t (117 ∷ 105 ∷ 110 ∷ 116 ∷ 56 ∷ [])
    then FieldType.uint8
    else if str_eq t (117 ∷ 105 ∷ 110 ∷ 116 ∷ 49 ∷ 54 ∷ [])
    then FieldType.uint16
    else if str_eq t (117 ∷ 105 ∷ 110 ∷ 116 ∷ 51 ∷ 50 ∷ [])
    then FieldType.uint32
    else if str_eq t (117 ∷ 105 ∷ 110 ∷ 116 ∷ 54 ∷ 52 ∷ [])
    then FieldType.uint64
    else if str_eq t (102 ∷ 108 ∷ 111 ∷ 97 ∷ 116 ∷ [])
    then FieldType.float
    else if str_eq t (100 ∷ 111 ∷ 117 ∷ 98 ∷ 108 ∷ 101 ∷ [])
    then FieldType.double
    else if str_eq t (115 ∷ 116 ∷ 114 ∷ 105 ∷ 110 ∷ 103 ∷ [])
    then FieldType.string
    else if str_eq t (98 ∷ 111 ∷ 111 ∷ 108 ∷ [])
    then FieldType.bool
    else if starts_with vector_text t
    then FieldType.vector
    else if starts_with map_text t
    then FieldType.map_type
    else FieldType.custom

unfoldable pub parse_namespace : Bytes → Bytes
parse_namespace line = trim (drop 9 line)

-- The line that ends a block: the character } between quotation marks.
abbrev pub block_end : Bytes
block_end = 34 ∷ 125 ∷ 34 ∷ []

-- `line.empty() || line[0] == '#'`.
abbrev pub is_skipped : Bytes → Bool
is_skipped [] = true
is_skipped (c ∷ cs) = c == 35

-- `if (!s.empty() && s.back() == ';') s.pop_back();`.
unfoldable pub pop_semicolon : Bytes → Bytes
pop_semicolon [] = []
pop_semicolon (c ∷ []) = if c == 59 then [] else c ∷ []
pop_semicolon (c ∷ d ∷ cs) = c ∷ pop_semicolon (d ∷ cs)

abbrev pub field_of : Bytes → ℕ → Field
field_of line space_pos = record {
  name = pop_semicolon (trim (drop space_pos line));
  field_type = parse_type (trim (take space_pos line));
  type_name = trim (take space_pos line);
  element_type = FieldType.int32;
  field_id = 0;
}

-- The loop of `parse_struct`: the fields, and the lines after the block.
unfoldable pub read_fields : List Bytes → List Field × List Bytes
read_fields [] = ([], [])
read_fields (first ∷ lines) =
    let (fields, rest) = read_fields lines in
    let line : Bytes = trim first in
    if str_eq line block_end
    then ([], lines)
    else (if is_skipped line then (fields, rest) else elim (find 32 line) [
      | none ↦ (fields, rest)
      | some space_pos ↦ (field_of line space_pos ∷ fields, rest)
    ])

-- `first_line` starts with "struct", so that its place is 0.
unfoldable pub parse_struct : Bytes → List Bytes → Option StructDef × List Bytes
parse_struct first_line lines = elim (find 123 first_line) [
  | none ↦ (none, lines)
  | some brace_pos ↦
      let (fields, rest) = read_fields lines in
      (
        some (record { name = trim (take (brace_pos - 6) (drop 6 first_line)); fields = fields }),
        rest,
      )
]

abbrev pub param_of : Bytes → ℕ → MethodParam
param_of param space = record {
  name = trim (drop space param);
  param_type = parse_type (trim (take space param));
  type_name = trim (take space param);
}

unfoldable pub read_params : List Bytes → List MethodParam
read_params [] = []
read_params (piece ∷ pieces) =
    let later = read_params pieces in
    let param : Bytes = trim piece in
    elim (find 32 param) [ none ↦ later | some space ↦ param_of param space ∷ later ]

-- What a line of a service declares, if it has both parentheses and a space before them. The length
-- of the part between them wraps.
unfoldable pub parse_method : Bytes → Option MethodDef
parse_method line = do
  paren_open ← find 40 line
  paren_close ← find 41 line
  let before_paren = trim (take paren_open line)
  last_space ← find_last 32 before_paren
  let params = take ((paren_close + 2 ^ 64 - paren_open - 1) % 2 ^ 64) (drop (paren_open + 1) line)
  some (record {
    name = trim (drop last_space before_paren);
    params = read_params (split 44 params);
    return_type = record {
      name = [];
      param_type = parse_type (trim (take last_space before_paren));
      type_name = trim (take last_space before_paren);
    };
  })

-- The loop of `parse_service`.
unfoldable pub read_methods : List Bytes → List MethodDef × List Bytes
read_methods [] = ([], [])
read_methods (first ∷ lines) =
    let (methods, rest) = read_methods lines in
    let line : Bytes = trim first in
    if str_eq line block_end
    then ([], lines)
    else (if is_skipped line then (methods, rest) else elim (parse_method line) [
      | none ↦ (methods, rest)
      | some method ↦ (method ∷ methods, rest)
    ])

unfoldable pub parse_service : Bytes → List Bytes → Option ServiceDef × List Bytes
parse_service first_line lines = elim (find 123 first_line) [
  | none ↦ (none, lines)
  | some brace_pos ↦
      let (methods, rest) = read_methods lines in
      (
        some (record { name = trim (take (brace_pos - 7) (drop 7 first_line)); methods = methods }),
        rest,
      )
]

abbrev pub add_struct : Option StructDef → IdlDocument → IdlDocument
add_struct none doc = doc
add_struct (some s) doc = record doc { structs = doc.structs ++ s ∷ [] }

abbrev pub add_service : Option ServiceDef → IdlDocument → IdlDocument
add_service none doc = doc
add_service (some s) doc = record doc { services = doc.services ++ s ∷ [] }

-- One turn of the loop of `parse`: the document, and the lines that are left.
unfoldable pub parse_line : Bytes → List Bytes → IdlDocument → IdlDocument × List Bytes
parse_line first lines doc =
    let line : Bytes = trim first in
    if is_skipped line
    then (doc, lines)
    else if starts_with namespace_text line
    then (record doc { namespace_name = parse_namespace line }, lines)
    else if starts_with struct_text line
    then (let (s, rest) = parse_struct line lines in (add_struct s doc, rest))
    else if starts_with service_text line
    then (let (s, rest) = parse_service line lines in (add_service s doc, rest))
    else (doc, lines)

unfoldable pub parse_lines : ℕ → List Bytes → IdlDocument → IdlDocument
parse_lines zero lines doc = doc
parse_lines (suc fuel) [] doc = doc
parse_lines (suc fuel) (first ∷ lines) doc =
    let (doc', rest) = parse_line first lines doc in parse_lines fuel rest doc'

abbrev pub empty_document : IdlDocument
empty_document = record { namespace_name = []; structs = []; services = [] }

unfoldable pub parse : Bytes → IdlDocument
parse content = parse_lines (length (split 10 content)) (split 10 content) empty_document
