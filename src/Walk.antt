-- ===== src/Walk.antt =====
-- internal/compiler/walk.go: the walk over a decoded document that compiles every object with a
-- Compile method. A value is what package reflect shows of it: its kind, its parts, and the number
-- of its Compile method if it has one. Loggers are left out.

pub mod Order
pub mod Traversal
pub mod Leads
pub mod Places
pub mod Reached
use go_asyncapi.Common.{
  ℕ, zero, suc, Bool, true, false, not, ◌&&◌, Option, none, some, List, [], ◌∷◌, ◌++◌, Bytes, codes,
  ◌==◌, bytes_eq, if◌then◌else◌, eqb,
}
use go_asyncapi.Common.GoMap.{lookup, insert}
use go_asyncapi.Common.Strings.{split}
use go_asyncapi.Types.Stack.{SimpleStack, top, push, pop}
use go_asyncapi.Names.{trim}
use go_asyncapi.Context.{
  Result, returned, panicked, ◌>>=◌, Flags, DocumentTreeItem, CompileContext, Storage, top_item,
  with_results_store,
}
use go_asyncapi.Schema.Parts.{itoa}

-- What is used of a reflect.StructField; the tags are those named `json` and `cgen`.
pub record StructField : Type 0 where
  pub name : Bytes
  pub exported : Bool
  pub anonymous : Bool
  pub json_tag : Option Bytes
  pub tool_tag : Option Bytes

mutual
  -- A scalar is any other value that is not nil; a Go map makes the walk panic.
  pub data Value : Type 0 where
    ordered_map : Option ℕ → Pairs → Value
    union : Option ℕ → Value → Value
    struct_value : Option ℕ → Fields → Value
    slice : Option ℕ → Values → Value
    scalar : Option ℕ → Value
    go_map : Option ℕ → Value
    nil_value : Value

  pub data Pairs : Type 0 where
    no_pairs : Pairs
    pair : Bytes → Value → Pairs → Pairs

  pub data Fields : Type 0 where
    no_fields : Fields
    struct_field : StructField → Value → Fields → Fields

  pub data Values : Type 0 where
    no_values : Values
    next_value : Value → Values → Values

-- The Compile method; a nil pointer's is left out.
abbrev pub method : Value → Option ℕ
method (ordered_map m ps) = m
method (union m v) = m
method (struct_value m fs) = m
method (slice m vs) = m
method (scalar m) = m
method (go_map m) = m
method nil_value = none

-- The name in the first part of the json tag.
unfoldable pub get_field_json_name : StructField → Bytes
get_field_json_name f = elim f.json_tag [
  | none ↦ f.name
  | some tag ↦ elim (split 44 tag) [
    | [] ↦ []
    | part ∷ parts ↦ if part == codes "-" then [] else part
  ]
]

-- strings.Cut(s, "=")
abbrev pub cut_equals : Bytes → Bytes × Bytes
cut_equals [] = ([], [])
cut_equals (c ∷ s) = let rest = cut_equals s in if eqb c 61 then ([], s) else (c ∷ rest.0, rest.1)

abbrev pub is_space : ℕ → Bool
is_space c = eqb c 32

-- A space or an apostrophe.
abbrev pub is_space_or_quote : ℕ → Bool
is_space_or_quote c = if eqb c 32 then true else eqb c 39

abbrev pub parse_parts : List Bytes → Flags → Flags
parse_parts [] flags = flags
parse_parts (p ∷ ps) flags =
    let kv = cut_equals (trim is_space p) in
    let added = insert (trim is_space kv.0) (trim is_space_or_quote kv.1) flags in
    parse_parts ps (if p == [] then flags else added)

-- `none` is the nil map.
unfoldable pub parse_tags : StructField → Option Flags
parse_tags f = elim f.tool_tag [ none ↦ none | some tag ↦ some (parse_parts (split 44 tag) []) ]

abbrev pub data_model : Bytes
data_model = codes "data_model"

-- The data model tag is inherited.
abbrev pub inherited : Option DocumentTreeItem → Flags → Flags
inherited none flags = flags
inherited (some item) flags = elim (lookup data_model item.flags) [
  | none ↦ flags
  | some v ↦ insert data_model v flags
]

abbrev pub flags_or_empty : Option Flags → Flags
flags_or_empty none = []
flags_or_empty (some flags) = flags

-- The stack of pushStack.
unfoldable pub pushed :
    Bytes → Option Flags → SimpleStack DocumentTreeItem → SimpleStack DocumentTreeItem
pushed key flags s = push (record { key = key; flags = inherited (top s) (flags_or_empty flags) }) s

module _ {A : Type 0} {L : Type 0} where
  abbrev pub at_stack : SimpleStack DocumentTreeItem → CompileContext A L → CompileContext A L
  at_stack s c = record c { stack = s }

  abbrev pub push_stack : Bytes → Option Flags → CompileContext A L → CompileContext A L
  push_stack key flags c = at_stack (pushed key flags c.stack) c

  abbrev pub popped :
      Option (DocumentTreeItem × SimpleStack DocumentTreeItem)
      → CompileContext A L
      → Result (CompileContext A L)
  popped none c = panicked
  popped (some r) c = returned (at_stack r.1 c)

  -- ctx.Stack.Pop()
  unfoldable pub pop_stack : CompileContext A L → Result (CompileContext A L)
  pop_stack c = popped (pop c.stack) c

  module _ (compile : ℕ → CompileContext A L → Result (CompileContext A L)) where
    abbrev pub compile_here : Option ℕ → CompileContext A L → Result (CompileContext A L)
    compile_here none c = returned c
    compile_here (some m) c = compile m c

    unfoldable mutual
      -- WalkAndCompile; traverse is compile_here and then the walk.
      pub walk : Value → CompileContext A L → Result (CompileContext A L)
      walk (ordered_map m ps) c = walk_pairs ps c
      walk (union m v) c = do c1 ← compile_here (method v) c; walk v c1
      walk (struct_value m fs) c = walk_fields fs c
      walk (slice m vs) c = walk_values 0 vs c
      walk (scalar m) c = returned c
      walk (go_map m) c = panicked
      walk nil_value c = returned c

      pub walk_pairs : Pairs → CompileContext A L → Result (CompileContext A L)
      walk_pairs no_pairs c = returned c
      walk_pairs (pair k v ps) c = do
        item ← top_item c
        c1 ← compile_here (method v) (push_stack k (some item.flags) c)
        c2 ← walk v c1
        c3 ← pop_stack c2
        walk_pairs ps c3

      pub walk_fields : Fields → CompileContext A L → Result (CompileContext A L)
      walk_fields no_fields c = returned c
      walk_fields (struct_field f v fs) c = elim (f.exported && not f.anonymous) [
        | false ↦ walk_fields fs c
        | true ↦ do
          c1 ← compile_here (method v) (push_stack (get_field_json_name f) (parse_tags f) c)
          c2 ← walk v c1
          c3 ← pop_stack c2
          walk_fields fs c3
      ]

      pub walk_values : ℕ → Values → CompileContext A L → Result (CompileContext A L)
      walk_values index no_values c = returned c
      walk_values index (next_value v vs) c = do
        item ← top_item c
        c1 ← compile_here (method v) (push_stack (itoa index) (some item.flags) c)
        c2 ← walk v c1
        c3 ← pop_stack c2
        walk_values (suc index) vs c3

    -- Document.Compile of internal/compiler/compiler.go; the root's Compile method is first.
    unfoldable pub compile_document :
        Storage A L → Value → CompileContext A L → Result (CompileContext A L)
    compile_document store root c = do
      c1 ← compile_here (method root) (with_results_store store c)
      walk root c1
