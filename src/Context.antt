-- ===== src/Context.antt =====
-- The compile context of internal/compiler/compile/context.go and the storage behind it, the
-- Document of internal/compiler/compiler.go. Logging is left out. A call that panics returns
-- `panicked`, an error is `failed`.

use go_asyncapi.Common.{
  true, none, some, List, [], ◌∷◌, ◌++◌, Bytes, map, ◌==◌, if◌then◌else◌, bytes_eq,
}
use go_asyncapi.Jsonpointer.{UrlPackage, JsonPointer, parse, location, pointer_string}
use go_asyncapi.Linker.{PromiseOrigin}
use go_asyncapi.Common.Strings.{join}
use go_asyncapi.Names.{CasePackage, to_golang_name, underscore}
use go_asyncapi.Types.Stack.{SimpleStack, top, items}

-- The value of a call, the error that it returns, or its panic.
pub data Result {ℓ} (A : Type ℓ) : Type ℓ where
  returned : A → Result A
  failed : Bytes → Bytes → Result A
  panicked : Result A

infixl 5 ◌>>=◌
abbrev pub ◌>>=◌ {ℓ κ} : {A : Type ℓ} {B : Type κ} → Result A → (A → Result B) → Result B
returned a >>= f = f a
failed message path >>= f = failed message path
panicked >>= f = panicked

-- A schema tag is a string, and a map from tags to strings a Go map.
abbrev pub Flags : Type 0
Flags = List (Bytes × Bytes)

pub record DocumentTreeItem : Type 0 where
  pub key : Bytes
  pub flags : Flags

-- What the linker reads of a promise that is addressed by a reference.
pub record ObjectPromise : Type 0 where
  pub ref : Bytes
  pub origin : PromiseOrigin

-- The results of the compilation. An artifact stands with the pointer that it is given.
pub record Storage (A : Type 0) (L : Type 0) : Type 0 where
  pub url : JsonPointer
  pub external_refs : List JsonPointer
  pub artifacts : List (JsonPointer × A)
  pub promises : List ObjectPromise
  pub list_promises : List L

pub record CompileContext (A : Type 0) (L : Type 0) : Type 0 where
  pub storage : Storage A L
  pub stack : SimpleStack DocumentTreeItem

module _ {A : Type 0} {L : Type 0} where
  unfoldable pub add_artifact : JsonPointer × A → Storage A L → Storage A L
  add_artifact a s = record s { artifacts = s.artifacts ++ a ∷ [] }

  unfoldable pub add_external_ref : JsonPointer → Storage A L → Storage A L
  add_external_ref r s = record s { external_refs = s.external_refs ++ r ∷ [] }

  unfoldable pub add_promise : ObjectPromise → Storage A L → Storage A L
  add_promise p s = record s { promises = s.promises ++ p ∷ [] }

  unfoldable pub add_list_promise : L → Storage A L → Storage A L
  add_list_promise p s = record s { list_promises = s.list_promises ++ p ∷ [] }

  unfoldable pub path_stack : CompileContext A L → List Bytes
  unfolding items
  path_stack c = map (λ item. item.key) (items c.stack)

  unfoldable pub current_ref_pointer : List Bytes → CompileContext A L → Bytes
  current_ref_pointer extra_parts c = pointer_string (path_stack c ++ extra_parts)

  unfoldable pub current_ref : CompileContext A L → JsonPointer
  current_ref c = record c.storage.url { pointer = path_stack c }

  unfoldable pub put_artifact : A → CompileContext A L → CompileContext A L
  unfolding add_artifact
  put_artifact obj c = record c { storage = add_artifact (current_ref c, obj) c.storage }

  unfoldable pub put_list_promise : L → CompileContext A L → CompileContext A L
  unfolding add_list_promise
  put_list_promise p c = record c { storage = add_list_promise p c.storage }

  -- c.Stack.Top(), which panics on an empty stack
  unfoldable pub top_item : CompileContext A L → Result DocumentTreeItem
  top_item c = elim (top c.stack) [ none ↦ panicked | some item ↦ returned item ]

  unfoldable pub with_results_store : Storage A L → CompileContext A L → CompileContext A L
  with_results_store store c = record { storage = store; stack = record { stack = [] } }

  -- `lo.Must` panics where the reference cannot be parsed.
  unfoldable pub put_promise :
      UrlPackage → ObjectPromise → CompileContext A L → Result (CompileContext A L)
  put_promise net p c = elim (parse net p.ref) [
    | none ↦ panicked
    | some r ↦
        let known : Storage A L =
          (if location net r == [] then c.storage else add_external_ref r c.storage) in
        returned (record c { storage = add_promise p known })
  ]

  module _ (conv : CasePackage) where
    unfoldable pub generate_obj_name : Bytes → Bytes → CompileContext A L → Result Bytes
    unfolding top_item path_stack
    generate_obj_name name suffix c = do
      given ← (if name == [] then (top_item c >>= λ item. returned item.key) else returned name)
      let res = to_golang_name conv given true
      returned (
          (if res == [] then to_golang_name conv (join underscore (path_stack c)) true else res)
          ++ suffix)
