-- ===== src/Locator/Containment.antt =====
-- joinBase of internal/locator/default.go with a root directory: where the joined path lies.
use mathlib.Core.List.{reverse, reverse-append, reverse-cons, reverse-reverse, cons-ne-nil}
use go_asyncapi.Common.{
  ℕ, ◌≡◌, ◌≢◌, refl, Bool, true, false, List, [], ◌∷◌, ◌++◌, Bytes, codes, ◌==◌, bytes_eq, eqb,
  arith, All, append-nil, append_assoc, ap, ◌∙◌, sym, All-append, false_of_ne, ne_of_false,
  Bool-cases, inl, inr, none, some, ◌⊎◌, Option-cases, list_beq, if◌then◌else◌,
}
use go_asyncapi.Common.Strings.{join, split, Lacks, has_prefix, split-join, split-ne-nil, cons_head}
use go_asyncapi.Jsonpointer.{Url, UrlPackage, JsonPointer}
use go_asyncapi.Locator.{join_paths, join_base, resolve_url}
use go_asyncapi.Locator.Path.{
  push_part, push_parts, render_path, path_clean, path_is_abs, path_join, slash, dot, dot_dot,
}

-- A part that names an entry of its directory.
abbrev pub Normal : Bytes → Type 0
Normal p = (p ≢ []) × (p ≢ dot) × (p ≢ dot_dot) × Lacks slash p

cons_head-append :
    (c : ℕ) (ps qs : List Bytes) → ps ≢ [] → cons_head c (ps ++ qs) ≡ cons_head c ps ++ qs
cons_head-append c [] qs h = absurd (h refl)
cons_head-append c (p ∷ ps) qs h = refl

split-append : (sep : ℕ) (s t : Bytes) → split sep (s ++ sep ∷ t) ≡ split sep s ++ split sep t
unfolding split
split-append sep [] t = ground arith
split-append sep (c ∷ s) t = ground (
  arith,
  split-append sep s t,
  cons_head-append c (split sep s) (split sep t) (split-ne-nil sep s),
)

cons_head-Lacks :
    (sep c : ℕ) (ps : List Bytes) → c ≢ sep → All (Lacks sep) ps → All (Lacks sep) (cons_head c ps)
cons_head-Lacks sep c [] h _ = ((h, tt), tt)
cons_head-Lacks sep c (p ∷ ps) h (hp, hps) = ((h, hp), hps)

split-All_Lacks : (sep : ℕ) (s : Bytes) → All (Lacks sep) (split sep s)
unfolding split
split-All_Lacks sep [] = (tt, tt)
split-All_Lacks sep (c ∷ s) = elim (Bool-cases (eqb c sep)) [
  | inl p ↦ rw p (tt, split-All_Lacks sep s)
  | inr p ↦ rw p (cons_head-Lacks sep c (split sep s) (ground (arith, p)) (split-All_Lacks sep s))
]

push_part-nil : (rooted : Bool) (out : List Bytes) → push_part rooted out [] ≡ out
unfolding push_part list_beq
push_part-nil rooted out = refl

push_parts-append :
    (rooted : Bool) (out ps qs : List Bytes)
    → push_parts rooted out (ps ++ qs) ≡ push_parts rooted (push_parts rooted out ps) qs
unfolding push_parts
push_parts-append rooted out [] qs = refl
push_parts-append rooted out (p ∷ ps) qs = push_parts-append rooted (push_part rooted out p) ps qs

push_part_kept :
    (rooted : Bool) (out : List Bytes) (p : Bytes) → Normal p → push_part rooted out p ≡ p ∷ out
unfolding push_part
push_part_kept rooted out p (h1, h2, h3, _) =
    rw (false_of_ne p [] h1, false_of_ne p dot h2, false_of_ne p dot_dot h3) refl

push_parts_kept :
    (rooted : Bool) (out ps : List Bytes)
    → All Normal ps
    → push_parts rooted out ps ≡ reverse ps ++ out
unfolding push_parts
push_parts_kept rooted out [] _ = refl
push_parts_kept rooted out (p ∷ ps) (h, hs) =
    ap (λ o. push_parts rooted o ps) (push_part_kept rooted out p h)
    ∙ push_parts_kept rooted (p ∷ out) ps hs
    ∙ sym (append_assoc (reverse ps) (p ∷ []) out)
    ∙ ap (λ r. r ++ out) (sym (reverse-cons p ps))

pop_part-Normal :
    (out : List Bytes)
    → All Normal out
    → All Normal (elim out [ [] ↦ [] | q ∷ qs ↦ if q == dot_dot then dot_dot ∷ q ∷ qs else qs ])
pop_part-Normal [] h = h
pop_part-Normal (q ∷ qs) ((h1, h2, h3, h4), hs) = rw (false_of_ne q dot_dot h3) hs

-- Under the root, every part kept is normal.
push_part-Normal :
    (out : List Bytes) (p : Bytes)
    → Lacks slash p
    → All Normal out
    → All Normal (push_part true out p)
unfolding push_part
push_part-Normal out p hp h = elim (Bool-cases (p == [])) [
  | inl e ↦ rw e h
  | inr e ↦ elim (Bool-cases (p == dot)) [
    | inl d ↦ rw (e, d) h
    | inr d ↦ elim (Bool-cases (p == dot_dot)) [
      | inl u ↦ rw (e, d, u) (pop_part-Normal out h)
      | inr u ↦
          rw (e, d, u) ((ne_of_false p [] e, ne_of_false p dot d, ne_of_false p dot_dot u, hp), h)
    ]
  ]
]

push_parts-Normal :
    (out ps : List Bytes)
    → All (Lacks slash) ps
    → All Normal out
    → All Normal (push_parts true out ps)
unfolding push_parts
push_parts-Normal out [] _ h = h
push_parts-Normal out (p ∷ ps) (hp, hps) h =
    push_parts-Normal (push_part true out p) ps hps (push_part-Normal out p hp h)

All-reverse : (P : Bytes → Type 0) (ps : List Bytes) → All P ps → All P (reverse ps)
All-reverse P [] h = h
All-reverse P (p ∷ ps) (hp, hps) =
    rw (reverse-cons p ps) (All-append P (reverse ps) (p ∷ []) (All-reverse P ps hps) (hp, tt))

-- The parts of a path that is read with a slash before it.
abbrev pub rooted_parts : Bytes → List Bytes
rooted_parts p = reverse (push_parts true [] (split slash p))

rooted_parts-Normal : (p : Bytes) → All Normal (rooted_parts p)
rooted_parts-Normal p =
    All-reverse Normal (push_parts true [] (split slash p))
      (push_parts-Normal [] (split slash p) (split-All_Lacks slash p) tt)

clean_rooted :
    (ref : Bytes) → path_join (codes "/" ∷ ref ∷ []) ≡ render_path true (rooted_parts ref)
unfolding path_join path_clean push_parts push_part split join path_is_abs has_prefix list_beq
clean_rooted [] = refl
clean_rooted (c ∷ ref) = refl

Lacks-of_Normal : (ps : List Bytes) → All Normal ps → All (Lacks slash) ps
Lacks-of_Normal [] _ = tt
Lacks-of_Normal (p ∷ ps) ((_, _, _, h), hs) = (h, Lacks-of_Normal ps hs)

-- Reading normal parts again, joined by slashes, keeps them.
push_parts-join :
    (rooted : Bool) (out ps : List Bytes)
    → All Normal ps
    → push_parts rooted out (split slash (join slash ps)) ≡ reverse ps ++ out
unfolding push_parts split join
push_parts-join rooted out [] h = push_part-nil rooted out
push_parts-join rooted out (p ∷ ps) h =
    ap (push_parts rooted out)
      (split-join slash (p ∷ ps) (cons-ne-nil p ps) (Lacks-of_Normal (p ∷ ps) h))
    ∙ push_parts_kept rooted out (p ∷ ps) h

clean-render :
    (ps : List Bytes) → All Normal ps → path_clean (render_path true ps) ≡ render_path true ps
unfolding path_clean render_path split push_parts path_is_abs has_prefix
clean-render ps h =
    ap (λ o. slash ∷ join slash (reverse o))
      (ap (λ o. push_parts true o (split slash (join slash ps))) (push_part-nil true [])
        ∙ push_parts-join true [] ps h
        ∙ append-nil (reverse ps))
    ∙ ap (λ o. slash ∷ join slash o) (reverse-reverse ps)

-- The parts that a path keeps when it is cleaned.
abbrev pub kept_parts : Bytes → List Bytes
kept_parts p = reverse (push_parts (path_is_abs p) [] (split slash p))

kept-under :
    (rooted : Bool) (root : Bytes) (ps : List Bytes)
    → All Normal ps
    → reverse (push_parts rooted [] (split slash (root ++ slash ∷ slash ∷ join slash ps)))
      ≡ reverse (push_parts rooted [] (split slash root)) ++ ps
unfolding split push_parts
kept-under rooted root ps h =
    let out = push_parts rooted [] (split slash root) in
    let parts = split slash (join slash ps) in
    ap (λ r. reverse (push_parts rooted [] r)) (split-append slash root (slash ∷ join slash ps))
    ∙ ap reverse (
        push_parts-append rooted [] (split slash root) ([] ∷ parts)
        ∙ ap (λ o. push_parts rooted o parts) (push_part-nil rooted out)
        ∙ push_parts-join rooted out ps h)
    ∙ reverse-append (reverse ps) out
    ∙ ap (λ r. reverse out ++ r) (reverse-reverse ps)

join-under :
    (c : ℕ) (root : Bytes) (ps : List Bytes)
    → All Normal ps
    → path_join ((c ∷ root) ∷ render_path true ps ∷ [])
      ≡ render_path (path_is_abs (c ∷ root)) (kept_parts (c ∷ root) ++ ps)
unfolding path_join render_path path_clean path_is_abs has_prefix join list_beq
join-under c root ps h =
    ap (render_path (path_is_abs (c ∷ root))) (kept-under (path_is_abs (c ∷ root)) (c ∷ root) ps h)

join_paths-rooted :
    (root base ref : Bytes)
    → root ≢ []
    → join_paths root base ref
      ≡ render_path (path_is_abs root) (kept_parts root ++ rooted_parts ref)
unfolding join_paths list_beq
join_paths-rooted [] base ref h = absurd (h refl)
join_paths-rooted (c ∷ root) base ref h =
    ap (λ p. path_join ((c ∷ root) ∷ path_clean p ∷ [])) (clean_rooted ref)
    ∙ ap (λ p. path_join ((c ∷ root) ∷ p ∷ []))
        (clean-render (rooted_parts ref) (rooted_parts-Normal ref))
    ∙ join-under c root (rooted_parts ref) (rooted_parts-Normal ref)

module _ (net : UrlPackage) (resolve_reference : Url → Url → Url) where
  -- With a root directory, a relative file reference from a file is resolved to the path whose
  -- parts are the root's cleaned parts followed by parts of which none is empty, `.` or `..`, so
  -- that the reference stays in the root directory whatever `..` it holds; its pointer is kept.
  pub resolve_url-Contained :
      (root : Bytes) (base ref : JsonPointer)
      → root ≢ []
      → base.uri ≡ none
      → ref.uri ≡ none
      → path_is_abs ref.fs_path ≡ false
      → (parts : List Bytes) × All Normal parts
        × (resolve_url net resolve_reference root base ref
            ≡ some (record {
              uri = none;
              fs_path = render_path (path_is_abs root) (kept_parts root ++ parts);
              pointer = ref.pointer;
            }))
  unfolding resolve_url join_base
  resolve_url-Contained root base ref hr hb hu ha = (
    rooted_parts ref.fs_path,
    rooted_parts-Normal ref.fs_path,
    rw (hb, hu, ha)
        (ap (λ p. some (record { uri = none; fs_path = p; pointer = ref.pointer }))
          (join_paths-rooted root base.fs_path ref.fs_path hr)),
  )

  -- An absolute reference, a URL or a rooted path, is returned as is from a file.
  pub resolve_url-absolute :
      (root : Bytes) (base ref : JsonPointer)
      → base.uri ≡ none
      → ((u : Url) × (ref.uri ≡ some u)) ⊎ (path_is_abs ref.fs_path ≡ true)
      → resolve_url net resolve_reference root base ref ≡ some ref
  unfolding resolve_url join_base
  resolve_url-absolute root base ref hb (inl (u, hu)) = rw (hb, hu) refl
  resolve_url-absolute root base ref hb (inr ha) = elim (Option-cases ref.uri) [
    | inl e ↦ rw (hb, e, ha) refl
    | inr (u, e) ↦ rw (hb, e) refl
  ]
