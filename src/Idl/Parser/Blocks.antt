-- ===== src/Idl/Parser/Blocks.antt =====
-- idl/idl_parser.hpp: the loop of `parse` ends, and what ends a block.
use cpp20_coroutine_io_uring.Common.{
  ℕ, zero, suc, ◌-◌, ◌≤◌, ◌≡◌, refl, true, false, List, [], ◌∷◌, ◌++◌, some, Bytes, arith, inl, inr,
  Option-cases, length, take, drop, All, str_eq,
}
use cpp20_coroutine_io_uring.Idl.Parser.{
  IdlDocument, trim, find, starts_with, namespace_text, struct_text, block_end, is_skipped,
  read_fields, parse_struct, parse_method, read_methods, parse_service, parse_line, parse_lines,
}

-- A block leaves no more lines than there are.
read_fields-length : (lines : List Bytes) → length (read_fields lines).1 ≤ length lines
unfolding read_fields
read_fields-length [] = omega arith
read_fields-length (first ∷ lines) =
    let later = read_fields-length lines in
    elim (Option-cases (find 32 (trim first))) [
      | inl e ↦ ground (arith, e)
      | inr (i, e) ↦ ground (arith, e)
    ]

read_methods-length : (lines : List Bytes) → length (read_methods lines).1 ≤ length lines
unfolding read_methods
read_methods-length [] = omega arith
read_methods-length (first ∷ lines) =
    let later = read_methods-length lines in
    elim (Option-cases (parse_method (trim first))) [
      | inl e ↦ ground (arith, e)
      | inr (m, e) ↦ ground (arith, e)
    ]

parse_line-length :
    (first : Bytes) (lines : List Bytes) (doc : IdlDocument)
    → length (parse_line first lines doc).1 ≤ length lines
unfolding parse_line parse_struct parse_service
parse_line-length first lines doc =
    let fields = read_fields-length lines in
    let methods = read_methods-length lines in
    elim (Option-cases (find 123 (trim first))) [
      | inl e ↦ ground (arith, e)
      | inr (i, e) ↦ ground (arith, e)
    ]

parse_lines_agree :
    (m n : ℕ) (lines : List Bytes) (doc : IdlDocument)
    → length lines ≤ m
    → length lines ≤ n
    → parse_lines m lines doc ≡ parse_lines n lines doc
unfolding parse_lines
parse_lines_agree zero zero lines doc h k = refl
parse_lines_agree zero (suc n) [] doc h k = refl
parse_lines_agree zero (suc n) (first ∷ lines) doc h k = absurd (omega arith)
parse_lines_agree (suc m) zero [] doc h k = refl
parse_lines_agree (suc m) zero (first ∷ lines) doc h k = absurd (omega arith)
parse_lines_agree (suc m) (suc n) [] doc h k = refl
parse_lines_agree (suc m) (suc n) (first ∷ lines) doc h k =
    let left = parse_line-length first lines doc in
    parse_lines_agree m n (parse_line first lines doc).1 (parse_line first lines doc).0
      (omega arith) (omega arith)

-- The loop of `parse` comes to its end by itself: as many turns as there are lines, which `parse`
-- gives it, do all that any larger number of turns does.
pub parse_lines_enough :
    (fuel : ℕ) (lines : List Bytes) (doc : IdlDocument)
    → length lines ≤ fuel
    → parse_lines (length lines) lines doc ≡ parse_lines fuel lines doc
parse_lines_enough fuel lines doc h =
    parse_lines_agree (length lines) fuel lines doc (omega arith) h

read_fields_to_end :
    (lines : List Bytes)
    → All (λ l. str_eq (trim l) block_end ≡ false) lines
    → (read_fields lines).1 ≡ []
unfolding read_fields
read_fields_to_end [] h = refl
read_fields_to_end (first ∷ lines) (open_block, h) =
    let later = read_fields_to_end lines h in
    elim (Option-cases (find 32 (trim first))) [
      | inl e ↦ ground (arith, e)
      | inr (i, e) ↦ ground (arith, e)
    ]

parse_lines_nil : (fuel : ℕ) (doc : IdlDocument) → parse_lines fuel [] doc ≡ doc
unfolding parse_lines
parse_lines_nil zero doc = refl
parse_lines_nil (suc fuel) doc = refl

struct_starts :
    (line : Bytes)
    → starts_with struct_text line ≡ true
    → (is_skipped line ≡ false) × (starts_with namespace_text line ≡ false)
unfolding starts_with
struct_starts [] h = absurd (ground arith)
struct_starts (c ∷ cs) h = (ground arith, ground arith)

parse_line_struct :
    (first : Bytes) (lines : List Bytes) (doc : IdlDocument) (brace_pos : ℕ)
    → starts_with struct_text (trim first) ≡ true
    → find 123 (trim first) ≡ some brace_pos
    → parse_line first lines doc ≡ (
      record doc {
        structs =
            doc.structs
            ++ record {
              name = trim (take (brace_pos - 6) (drop 6 (trim first)));
              fields = (read_fields lines).0;
            }
              ∷ [];
      },
      (read_fields lines).1,
    )
unfolding parse_line parse_struct
parse_line_struct first lines doc brace_pos starts brace =
    let (not_skipped, no_namespace) = struct_starts (trim first) starts in
    rw (not_skipped, no_namespace, starts, brace, parse_struct, parse_line) refl

-- A struct takes in all that follows it: if no later line is a } between quotation marks, the
-- document gets the struct, with a field for every later line that has the form of one, and nothing
-- else, be the later lines a bare } or other structs and services.
pub parse_lines_struct :
    (fuel : ℕ) (first : Bytes) (lines : List Bytes) (doc : IdlDocument) (brace_pos : ℕ)
    → starts_with struct_text (trim first) ≡ true
    → find 123 (trim first) ≡ some brace_pos
    → All (λ l. str_eq (trim l) block_end ≡ false) lines
    → parse_lines (suc fuel) (first ∷ lines) doc ≡ record doc {
      structs =
          doc.structs
          ++ record {
            name = trim (take (brace_pos - 6) (drop 6 (trim first)));
            fields = (read_fields lines).0;
          }
            ∷ [];
    }
unfolding parse_lines
parse_lines_struct fuel first lines doc brace_pos starts brace open_block =
    rw
      (
        parse_line_struct first lines doc brace_pos starts brace,
        read_fields_to_end lines open_block,
      )
      (parse_lines_nil fuel _)
