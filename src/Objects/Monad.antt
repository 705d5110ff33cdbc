-- ===== src/Objects/Monad.antt =====
-- What the build methods of internal/asyncapi do to the compile context: a computation takes the
-- context and returns a value and the new context, an error, or panics.
use go_asyncapi.Common.{Bool, true, false, Option, none, some, List, [], ◌∷◌, Bytes}
use go_asyncapi.Jsonpointer.{UrlPackage}
use go_asyncapi.Linker.{origin_internal}
use go_asyncapi.Names.{CasePackage}
use go_asyncapi.Context.{
  Result, returned, failed, panicked, ObjectPromise, put_promise, put_list_promise,
  current_ref_pointer, generate_obj_name, top_item, DocumentTreeItem, path_stack,
}
use go_asyncapi.Schema.{ListPromise}
use go_asyncapi.Schema.Parts.{Ctx}

abbrev pub Build : Type 0 → Type 0
Build A = Ctx → Result (A × Ctx)

abbrev pub continue : {A B : Type 0} → (A → Build B) → Result (A × Ctx) → Result (B × Ctx)
continue f (returned (a, c)) = f a c
continue f (failed message path) = failed message path
continue f panicked = panicked

infixl 5 ◌>>=◌
abbrev pub ◌>>=◌ : {A B : Type 0} → Build A → (A → Build B) → Build B
◌>>=◌ m f c = continue f (m c)

abbrev pub pure : {A : Type 0} → A → Build A
pure a c = returned (a, c)

abbrev pub paired : {A : Type 0} → Ctx → Result A → Result (A × Ctx)
paired c (returned a) = returned (a, c)
paired c (failed message path) = failed message path
paired c panicked = panicked

-- An error at the current position.
abbrev pub fail : {A : Type 0} → Bytes → Build A
fail message c = failed message (current_ref_pointer [] c)

abbrev pub top_here : Build DocumentTreeItem
top_here c = paired c (top_item c)

abbrev pub path_here : Build (List Bytes)
path_here c = returned (path_stack c, c)

abbrev pub list_promise : ListPromise → Build ListPromise
list_promise l c = returned (l, put_list_promise l c)

-- The loop that makes a value of each item.
abbrev pub for_each : {A B : Type 0} → (A → Build B) → List A → Build (List B)
for_each f [] = pure []
for_each f (x ∷ xs) = do y ← f x; ys ← for_each f xs; pure (y ∷ ys)

abbrev pub when : {A : Type 0} → Bool → Build A → Build (Option A)
when true m = do a ← m; pure (some a)
when false m = pure none

abbrev pub with_promise : ObjectPromise → Result Ctx → Result (ObjectPromise × Ctx)
with_promise p (returned c) = returned (p, c)
with_promise p (failed message path) = failed message path
with_promise p panicked = panicked

module _ (net : UrlPackage) where
  abbrev pub registered : ObjectPromise → Build ObjectPromise
  registered p c = with_promise p (put_promise net p c)

  -- lang.NewPromise of a reference, and PutPromise
  abbrev pub promise_of : Bytes → Build ObjectPromise
  promise_of ref = registered (record { ref = ref; origin = origin_internal })

  -- The same for a position below the current one.
  abbrev pub promise_at : List Bytes → Build ObjectPromise
  promise_at parts c = promise_of (current_ref_pointer parts c) c

abbrev pub obj_name : CasePackage → Bytes → Bytes → Build Bytes
obj_name conv name suffix c = paired c (generate_obj_name conv name suffix c)

abbrev pub crash : {A : Type 0} → Build A
crash c = panicked

abbrev pub is_some : {A : Type 0} → Option A → Bool
is_some none = false
is_some (some a) = true
