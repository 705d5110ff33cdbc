-- ===== src/RenderManager/Transaction.antt =====
-- BeginFile and Commit of internal/tmpl/manager/manager.go as a transaction.
use go_asyncapi.Common.{
  ◌≡◌, ◌≢◌, refl, Bool, true, false, some, List, [], ◌∷◌, ◌++◌, Bytes, if◌then◌else◌, ◌==◌,
  bytes_eq, ap, sym, ◌∙◌, false_of_ne, eq_refl, Option-cases, inl, inr, Bool-cases, ==_iff,
}
use go_asyncapi.Common.GoMap.{lookup, insert, lookup-insert}
use mathlib.Core.Option.{some_inj}
use go_asyncapi.Namespace.{NamespaceManager}
use go_asyncapi.RenderManager.{
  Imports, FileRenderState, RenderManager, write_imports, write_namespace, write_buffer, registered,
  registered_in, begin_file, commit, committed, close_file, fresh_state,
}

-- What a template leaves in the working state.
pub record Work (O : Type 0) : Type 0 where
  pub output : Bytes
  pub imports : Imports
  pub namespace : NamespaceManager O

-- Every state is committed under its own file name.
abbrev pub IsKeyed : List (Bytes × FileRenderState) → Type 0
IsKeyed states = (h : Bytes) (st : FileRenderState) → lookup h states ≡ some st → st.file_name ≡ h

lookup-registered_in :
    (g : Bytes → Bytes) (f p h : Bytes) (states : List (Bytes × FileRenderState))
    → lookup h (registered_in g f p (lookup f states) states)
      ≡ (if f == h then some (registered g f p (lookup f states)) else lookup h states)
lookup-registered_in g f p h states = elim (Option-cases (lookup f states)) [
  | inl e ↦ rw e (lookup-insert f h (fresh_state g f p) states)
  | inr (st, e) ↦ elim (Bool-cases (f == h)) [
    | inl q ↦ rw (e, q, sym ((==_iff f h).0 q), e) refl
    | inr q ↦ rw (e, q) refl
  ]
]

registered-file_name :
    (g : Bytes → Bytes) (f p : Bytes) (states : List (Bytes × FileRenderState))
    → IsKeyed states
    → (registered g f p (lookup f states)).file_name ≡ f
registered-file_name g f p states k = elim (Option-cases (lookup f states)) [
  | inl e ↦ rw e refl
  | inr (st, e) ↦ rw e (k f st e)
]

-- What a commit of this work makes of the file's state.
abbrev pub extended : {O : Type 0} → FileRenderState → Work O → FileRenderState
extended st w = record st { imports = w.imports; buffer = st.buffer ++ w.output ++ 10 ∷ [] }

overwritten :
    {A : Type 0} (b : Bool) (x y z w : A)
    → y ≡ (if b then w else z)
    → (if b then x else y) ≡ (if b then x else z)
overwritten true x y z w e = refl
overwritten false x y z w e = e

abbrev file_name_of : FileRenderState → Bytes
file_name_of st = st.file_name

module _ {O : Type 0} where
  abbrev pub apply_work : RenderManager O → Work O → RenderManager O
  apply_work r w = write_buffer (write_namespace (write_imports r w.imports) w.namespace) w.output

  abbrev pub stored : RenderManager O → FileRenderState → RenderManager O
  stored r state = record (close_file r) {
    state_committed = insert r.file_name (committed r state) r.state_committed;
    imports_shared = some r.file_name;
    buffer = [];
  }

  commit-stored :
      (r : RenderManager O) (st : FileRenderState)
      → r.file_name ≢ []
      → lookup r.file_name r.state_committed ≡ some st
      → commit r ≡ some (stored r st)
  unfolding commit
  commit-stored r st h e = rw (false_of_ne r.file_name [] h, e) refl

  -- The manager with this file begun and this work done in it.
  abbrev pub worked : (Bytes → Bytes) → Bytes → Bytes → RenderManager O → Work O → RenderManager O
  worked g f p r w = apply_work (begin_file g f p r) w

  -- What a commit stores of work on a file: the work's output after what the file held, with a
  -- newline, its imports, its namespace; the other files keep their states.
  pub Commits : (Bytes → Bytes) → Bytes → Bytes → RenderManager O → Work O → Type 0
  Commits g f p r w =
      (r' : RenderManager O) × (commit (worked g f p r w) ≡ some r')
      × (r'.namespace_committed ≡ w.namespace)
      × IsKeyed r'.state_committed
      × ((h : Bytes)
          → lookup h r'.state_committed ≡ (
              if f == h
              then some (extended (registered g f p (lookup f r.state_committed)) w)
              else lookup h r.state_committed))

  worked-lookup :
      (g : Bytes → Bytes) (f p h : Bytes) (r : RenderManager O) (w : Work O)
      → lookup h (worked g f p r w).state_committed ≡ (
          if f == h
          then some (registered g f p (lookup f r.state_committed))
          else lookup h r.state_committed)
  unfolding begin_file write_imports write_namespace write_buffer
  worked-lookup g f p h r w = lookup-registered_in g f p h r.state_committed

  stored-lookup :
      (g : Bytes → Bytes) (f p h : Bytes) (r : RenderManager O) (w : Work O)
      → IsKeyed r.state_committed
      → lookup h
          (stored
            (worked g f p r w)
            (registered g f p (lookup f r.state_committed))).state_committed
        ≡ (if f == h
            then some (extended (registered g f p (lookup f r.state_committed)) w)
            else lookup h r.state_committed)
  unfolding begin_file write_imports write_namespace write_buffer
  stored-lookup g f p h r w k =
      let states = r.state_committed in
      let st = registered g f p (lookup f states) in
      ap (λ n. lookup h (insert n (extended st w) (registered_in g f p (lookup f states) states)))
        (registered-file_name g f p states k)
      ∙ lookup-insert f h (extended st w) (registered_in g f p (lookup f states) states)
      ∙ overwritten (f == h) (some (extended st w))
          (lookup h (registered_in g f p (lookup f states) states)) (lookup h states) (some st)
          (lookup-registered_in g f p h states)

  IsKeyed-after :
      (g : Bytes → Bytes) (f p : Bytes) (r : RenderManager O) (w : Work O) (r' : RenderManager O)
      → IsKeyed r.state_committed
      → ((h : Bytes)
          → lookup h r'.state_committed ≡ (
              if f == h
              then some (extended (registered g f p (lookup f r.state_committed)) w)
              else lookup h r.state_committed))
      → IsKeyed r'.state_committed
  IsKeyed-after g f p r w r' k l h st e = elim (Bool-cases (f == h)) [
    | inl q ↦
        sym (
          ap file_name_of (
            some_inj.0 (
              sym (
                l h
                ∙ ap
                    (λ b.
                      if b
                      then some (extended (registered g f p (lookup f r.state_committed)) w)
                      else lookup h r.state_committed)
                    q)
              ∙ e)))
        ∙ registered-file_name g f p r.state_committed k
        ∙ (==_iff f h).0 q
    | inr q ↦ k h st (
        sym (
          l h
          ∙ ap
              (λ b.
                if b
                then some (extended (registered g f p (lookup f r.state_committed)) w)
                else lookup h r.state_committed)
              q)
        ∙ e)
  ]

  -- Work on a file that is begun with a nonempty name and then committed is stored whole: the
  -- commit does not panic, the file holds the output after what it held before and a newline, and
  -- has the work's imports, the namespace is the work's, and no other file changes. Every state
  -- stays under its own name.
  pub commit-begin_file :
      (g : Bytes → Bytes) (f p : Bytes) (r : RenderManager O) (w : Work O)
      → f ≢ []
      → IsKeyed r.state_committed
      → Commits g f p r w
  unfolding Commits begin_file write_imports write_namespace write_buffer
  commit-begin_file g f p r w hf k =
      let states = r.state_committed in
      let st = registered g f p (lookup f states) in
      let name = registered-file_name g f p states k in
      (
        stored (worked g f p r w) st,
        commit-stored (worked g f p r w) st (λ e. hf (sym name ∙ e))
            (ap (λ n. lookup n (worked g f p r w).state_committed) name
              ∙ worked-lookup g f p f r w
              ∙ rw (eq_refl f) refl),
        refl,
        IsKeyed-after g f p r w (stored (worked g f p r w) st) k (λ h. stored-lookup g f p h r w k),
        λ h. stored-lookup g f p h r w k,
      )

  -- Work on a file that is not committed is dropped by the next BeginFile: nothing of the output,
  -- the imports or the namespace of a template that failed reaches a file, whatever file is begun.
  pub begin_file-discards :
      (g : Bytes → Bytes) (f p f' p' : Bytes) (r : RenderManager O) (w : Work O)
      → begin_file g f' p' (worked g f p r w) ≡ begin_file g f' p' (begin_file g f p r)
  unfolding begin_file write_imports write_namespace write_buffer
  begin_file-discards g f p f' p' r w = refl
