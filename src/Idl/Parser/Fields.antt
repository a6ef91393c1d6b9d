-- ===== src/Idl/Parser/Fields.antt =====
-- idl/idl_parser.hpp: what the loop of `parse_struct` makes of a field's declaration.
use cpp20_coroutine_io_uring.Common.{
  ℕ, ◌≡◌, ◌≢◌, refl, ap, subst, append_assoc, ◌∙◌, false, ◌==◌, List, [], ◌∷◌, ◌++◌, some, Bytes,
  arith, inl, inr, Bool-cases, length, take-append, drop-append, All, str_eq,
}
use cpp20_coroutine_io_uring.Idl.Parser.{
  FieldType, is_blank, trim, trim_start, trim_end, no_more, find, block_end, is_skipped,
  pop_semicolon, parse_type, field_of, read_fields,
}

-- A text without blanks.
abbrev pub IsWord : Bytes → Type 0
IsWord s = All (λ c. is_blank c ≡ false) s

trim_start-word : (c : ℕ) (cs : Bytes) → is_blank c ≡ false → trim_start (c ∷ cs) ≡ c ∷ cs
unfolding trim_start
trim_start-word c cs h = rw h refl

no_more-append : (xs : Bytes) (y : ℕ) → no_more (xs ++ y ∷ []) ≡ false
no_more-append [] y = refl
no_more-append (x ∷ xs) y = refl

trim_end-append : (xs : Bytes) (y : ℕ) → is_blank y ≡ false → trim_end (xs ++ y ∷ []) ≡ xs ++ y ∷ []
unfolding trim_end
trim_end-append [] y h = rw h refl
trim_end-append (x ∷ xs) y h =
    let later = trim_end-append xs y h in
    rw (later, no_more-append xs y)
      (elim (Bool-cases (is_blank x)) [ inl b ↦ rw b refl | inr b ↦ rw b refl ])

trim_end-word : (s : Bytes) → IsWord s → trim_end s ≡ s
unfolding trim_end
trim_end-word [] h = refl
trim_end-word (c ∷ cs) (solid, h) = rw (trim_end-word cs h, solid) refl

trim-word : (s : Bytes) → IsWord s → trim s ≡ s
unfolding trim
trim-word [] h = unfold trim_start trim_end in refl
trim-word (c ∷ cs) h = ap trim_end (trim_start-word c cs h.0) ∙ trim_end-word (c ∷ cs) h

find-word : (s rest : Bytes) → IsWord s → find 32 (s ++ 32 ∷ rest) ≡ some (length s)
unfolding find
find-word [] rest h = refl
find-word (c ∷ cs) rest h =
    let later = find-word cs rest h.1 in
    let solid = h.0 in let other : (c == 32) ≡ false = ground arith in rw (other, later) refl

pop_semicolon-append : (s : Bytes) → pop_semicolon (s ++ 59 ∷ []) ≡ s
unfolding pop_semicolon
pop_semicolon-append [] = refl
pop_semicolon-append (c ∷ []) = refl
pop_semicolon-append (c ∷ d ∷ cs) = ap (◌∷◌ c) (pop_semicolon-append (d ∷ cs))

-- The name's part of the line, from the space on.
trim-name : (name : Bytes) → IsWord name → trim (32 ∷ (name ++ 59 ∷ [])) ≡ name ++ 59 ∷ []
unfolding trim trim_start
trim-name [] h = unfold trim_end in refl
trim-name (c ∷ cs) h = rw h.0 (trim_end-append (c ∷ cs) 59 refl)

trim-line :
    (c : ℕ) (cs name : Bytes)
    → is_blank c ≡ false
    → trim ((c ∷ cs) ++ 32 ∷ (name ++ 59 ∷ [])) ≡ (c ∷ cs) ++ 32 ∷ (name ++ 59 ∷ [])
unfolding trim
trim-line c cs name h =
    ap trim_end (trim_start-word c (cs ++ 32 ∷ (name ++ 59 ∷ [])) h)
    ∙ subst (λ l. trim_end l ≡ l) (append_assoc (c ∷ cs) (32 ∷ name) (59 ∷ []))
        (trim_end-append ((c ∷ cs) ++ 32 ∷ name) 59 refl)

read_fields_line :
    (first : Bytes) (lines : List Bytes) (i : ℕ)
    → str_eq (trim first) block_end ≡ false
    → is_skipped (trim first) ≡ false
    → find 32 (trim first) ≡ some i
    → read_fields (first ∷ lines)
      ≡ (field_of (trim first) i ∷ (read_fields lines).0, (read_fields lines).1)
unfolding read_fields
read_fields_line first lines i no_end kept space = rw (no_end, kept, space, read_fields) refl

not_end : (c : ℕ) (rest : Bytes) → c ≢ 34 → str_eq (c ∷ rest) block_end ≡ false
unfolding str_eq
not_end c rest h = ground arith

field_of-declared :
    (word name : Bytes)
    → IsWord word
    → IsWord name
    → field_of (word ++ 32 ∷ (name ++ 59 ∷ [])) (length word) ≡ record {
      name = name;
      field_type = parse_type word;
      type_name = word;
      element_type = FieldType.int32;
      field_id = 0;
    }
field_of-declared word name h k =
    rw
      (
        take-append (length word) word (32 ∷ (name ++ 59 ∷ [])) refl,
        drop-append (length word) word (32 ∷ (name ++ 59 ∷ [])) refl,
        trim-word word h,
        trim-name name k,
        pop_semicolon-append name,
      )
      refl

-- A line of a type, a space, a name and a semicolon, the type not starting with # or a quotation mark
-- and neither holding a blank, is read as the field of that type and name, before the fields of the
-- later lines.
pub read_fields_declared :
    (c : ℕ) (cs name : Bytes) (lines : List Bytes)
    → IsWord (c ∷ cs)
    → IsWord name
    → c ≢ 35
    → c ≢ 34
    → read_fields (((c ∷ cs) ++ 32 ∷ (name ++ 59 ∷ [])) ∷ lines) ≡ (
      record {
        name = name;
        field_type = parse_type (c ∷ cs);
        type_name = c ∷ cs;
        element_type = FieldType.int32;
        field_id = 0;
      }
          ∷ (read_fields lines).0,
      (read_fields lines).1,
    )
read_fields_declared c cs name lines word name_word no_hash no_quote =
    let kept : (c == 35) ≡ false = ground arith in
    let same = trim-line c cs name word.0 in
    read_fields_line _ lines (length (c ∷ cs)) (rw same (not_end c _ no_quote)) (rw same kept)
      (rw same (find-word (c ∷ cs) (name ++ 59 ∷ []) word))
    ∙ ap (λ f. (f ∷ (read_fields lines).0, (read_fields lines).1))
        (ap (λ l. field_of l (length (c ∷ cs))) same
          ∙ field_of-declared (c ∷ cs) name word name_word)
