-- ===== src/Functions/Expressions.antt =====
-- Runtime expressions, internal/tmpl/functions.go and utils.go: the Go code that takes a value out
-- of a message along a path. A Go type is a number, `TypeGraph` says what stands behind it, so that
-- types can lead back to themselves. Of an error the branch is kept, not the text.
use go_asyncapi.Common.{
  ℕ, zero, suc, ◌+◌, ◌-◌, ◌*◌, Bool, true, false, not, ◌&&◌, ◌||◌, Option, none, some, List, [],
  ◌∷◌, Bytes, ◌==◌, bytes_eq, if◌then◌else◌, leb, eqb, map, ◌>>=◌,
}
use go_asyncapi.Common.Strings.{has_prefix}
use go_asyncapi.Jsonpointer.Escape.{path_unescape}
use go_asyncapi.Locator.Path.{slash}
use go_asyncapi.Names.{is_digit, is_upper}
use go_asyncapi.Schema.Parts.{itoa}
use go_asyncapi.Functions.{newline, ends_with}

-- The value of unescapeJSONPointerFragmentPart: an int, with its sign, or a string; an error; or
-- the panic of the slice expression.
pub data MemberName : Type 0 where
  number : Bool → ℕ → MemberName
  text : Bytes → MemberName
  not_escaped : MemberName
  slice_panic : MemberName

abbrev pub digits_value : ℕ → Bytes → Option ℕ
digits_value n [] = some n
digits_value n (c ∷ s) =
    let rest = digits_value (n * 10 + (c - 48)) s in if is_digit c then rest else none

abbrev pub max_int : ℕ
max_int = 9223372036854775807

abbrev pub signed : Bool → Bytes → Option (Bool × ℕ)
signed negative [] = none
signed negative (c ∷ s) = do
  n ← digits_value 0 (c ∷ s)
  if leb n (if negative then max_int + 1 else max_int)
      then some (negative && not (eqb n 0), n)
      else none

-- strconv.Atoi, where an int has 64 bits
unfoldable pub atoi : Bytes → Option (Bool × ℕ)
atoi [] = none
atoi (c ∷ s) =
    if eqb c 45 then signed true s else if eqb c 43 then signed false s else signed false (c ∷ s)

-- strings.ReplaceAll of ~ and the digit by a byte
abbrev pub replace_tilde : ℕ → ℕ → Bytes → Bytes
replace_tilde digit by [] = []
replace_tilde digit by (c ∷ []) = c ∷ []
replace_tilde digit by (c ∷ d ∷ s) =
    let rest = replace_tilde digit by s in
    let later = replace_tilde digit by (d ∷ s) in
    if eqb c 126 && eqb d digit then by ∷ rest else c ∷ later

abbrev pub unescape_text : Bytes → MemberName
unescape_text value = elim (path_unescape value) [
  | none ↦ not_escaped
  | some s ↦ text (replace_tilde 48 126 (replace_tilde 49 slash s))
]

abbrev pub quoted_by : ℕ → Bytes → Bool
quoted_by q value = has_prefix value (q ∷ []) && ends_with q value

abbrev pub without_last_byte : Bytes → Bytes
without_last_byte [] = []
without_last_byte (c ∷ []) = []
without_last_byte (c ∷ d ∷ s) = c ∷ without_last_byte (d ∷ s)

-- value[1 : len(value)-1], on a text that is not empty
abbrev pub unquote : Bytes → MemberName
unquote [] = slice_panic
unquote (c ∷ []) = slice_panic
unquote (c ∷ d ∷ s) = unescape_text (without_last_byte (d ∷ s))

unfoldable pub unescape_fragment_part : Bytes → MemberName
unfolding atoi path_unescape has_prefix
unescape_fragment_part value = elim (atoi value) [
  | some v ↦ number v.0 v.1
  | none ↦ if quoted_by 34 value || quoted_by 39 value then unquote value else unescape_text value
]

pub record StructField : Type 0 where
  pub original_name : Bytes
  pub marshal_name : Bytes
  pub field_type : ℕ

-- The cases of the type switch; a wrapper or a reference can hold nil.
pub data TypeView : Type 0 where
  go_struct : List StructField → TypeView
  go_map : ℕ → TypeView
  go_array : ℕ → TypeView
  go_simple : TypeView
  wrapped_type : Option ℕ → TypeView
  reference_type : Option ℕ → TypeView
  other_type : TypeView

pub record CodeStep : Type 0 where
  pub expression_part : Bytes
  pub lines : List Bytes
  pub input_var : Bytes
  pub operator : Bytes
  pub output_var : Bytes
  pub output_type : ℕ

pub data ExpressionError : Type 0 where
  no_struct_field : ExpressionError
  part_not_escaped : ExpressionError
  no_member : ExpressionError
  not_numeric : ExpressionError
  primitive_type : ExpressionError
  nil_wrapped : ExpressionError
  nil_reference : ExpressionError
  not_addressable : ExpressionError

-- fmt.Sprintf("v%d", n)
abbrev pub var_name : ℕ → Bytes
var_name n = 118 ∷ itoa n

abbrev pub decimal : Bool → ℕ → Bytes
decimal negative n = if negative then 45 ∷ itoa n else itoa n

abbrev pub find_field : (StructField → Bool) → List StructField → Option StructField
find_field p [] = none
find_field p (f ∷ fs) = let rest = find_field p fs in if p f then some f else rest

abbrev pub lower : ℕ → ℕ
lower c = if is_upper c then c + 32 else c

-- strings.EqualFold, on ASCII
abbrev pub equal_fold : Bytes → Bytes → Bool
equal_fold a b = map lower a == map lower b

abbrev pub named_member : MemberName → StructField → Bool
named_member (text s) f = f.marshal_name == s
named_member (number negative n) f = false
named_member not_escaped f = false
named_member slice_panic f = false

-- fmt.Sprint(memberName)
abbrev pub part_text : MemberName → Bytes
part_text (number negative n) = decimal negative n
part_text (text s) = s
part_text not_escaped = []
part_text slice_panic = []

abbrev pub tabs : ℕ → Bytes
tabs zero = []
tabs (suc n) = 9 ∷ tabs n

abbrev pub broken : ℕ → Bytes
broken n = newline ∷ tabs n

abbrev pub is_text : MemberName → Bool
is_text (text s) = true
is_text (number negative n) = false
is_text not_escaped = false
is_text slice_panic = false

abbrev pub is_empty : List Bytes → Bool
is_empty [] = true
is_empty (p ∷ ps) = false
