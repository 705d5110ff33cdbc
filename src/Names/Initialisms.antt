-- ===== src/Names/Initialisms.antt =====
-- What transformInitialisms and ToGolangName of internal/utils/names.go leave as it is.
use go_asyncapi.Common.{
  ℕ, zero, suc, ◌+◌, ◌-◌, ◌≤◌, ◌≡◌, ◌⊎◌, ◌∙◌, refl, sym, ==_iff, eqb, ◌||◌, Bool, true, false, List,
  [], ◌∷◌, Bytes, map, arith, inl, inr, Bool-cases, if_keeps, if◌then◌else◌, length, ltb, ap, ◌++◌,
  ◌==◌, bytes_eq, list_beq,
}
use go_asyncapi.Names.{
  Match, CasePackage, upper, drop, take, slice, copy_at, nth, initialisms, on_match, on_matches,
  zeros, transform_initialisms, ends_word, to_golang_name, is_keyword, underscore, contains_bytes,
  keywords,
}

-- Two texts of one length whose first bytes, as many as the number, are equal but for case.
abbrev pub Agree : ℕ → Bytes → Bytes → Type 0
Agree k [] [] = Unit
Agree k [] (b ∷ bs) = ⊥
Agree k (a ∷ xs) [] = ⊥
Agree zero (a ∷ xs) (b ∷ bs) = Agree zero xs bs
Agree (suc k) (a ∷ xs) (b ∷ bs) = (upper a ≡ upper b) × Agree k xs bs

-- The text starts with the bytes, but for case.
abbrev pub Starts : Bytes → Bytes → Type 0
Starts [] s = Unit
Starts (b ∷ bs) [] = ⊥
Starts (b ∷ bs) (c ∷ s) = (upper b ≡ upper c) × Starts bs s

copy_at-Agree :
    (i : ℕ) (bs res src : Bytes) (last k : ℕ)
    → i ≤ last
    → last ≤ k
    → i + length bs ≡ k
    → Agree last res src
    → Starts bs (drop i src)
    → Agree k (copy_at i bs res) src
copy_at-Agree i bs [] [] last k hi hl e h s = tt
copy_at-Agree i bs [] (c ∷ src) last k hi hl e h s = absurd h
copy_at-Agree i bs (r ∷ res) [] last k hi hl e h s = absurd h
copy_at-Agree (suc i) bs (r ∷ res) (c ∷ src) zero k hi hl e h s = absurd (omega (arith, hi))
copy_at-Agree (suc i) bs (r ∷ res) (c ∷ src) (suc last) zero hi hl e h s =
    absurd (omega (arith, hl))
copy_at-Agree (suc i) bs (r ∷ res) (c ∷ src) (suc last) (suc k) hi hl e h s = (
  h.0,
  copy_at-Agree i bs res src last k (omega (arith, hi)) (omega (arith, hl)) (omega (arith, e)) h.1
      s,
)
copy_at-Agree zero [] (r ∷ res) (c ∷ src) zero zero hi hl e h s = h
copy_at-Agree zero [] (r ∷ res) (c ∷ src) (suc last) zero hi hl e h s = absurd (omega (arith, hl))
copy_at-Agree zero [] (r ∷ res) (c ∷ src) last (suc k) hi hl e h s = absurd (omega (arith, e))
copy_at-Agree zero (b ∷ bs) (r ∷ res) (c ∷ src) last zero hi hl e h s = absurd (omega (arith, e))
copy_at-Agree zero (b ∷ bs) (r ∷ res) (c ∷ src) zero (suc k) hi hl e h s =
    (s.0, copy_at-Agree zero bs res src zero k hi (omega arith) (omega (arith, e)) h s.1)
copy_at-Agree zero (b ∷ bs) (r ∷ res) (c ∷ src) (suc last) (suc k) hi hl e h s = (
  s.0,
  copy_at-Agree zero bs res src last k (omega arith) (omega (arith, hl)) (omega (arith, e)) h.1 s.1,
)

take-Starts : (n : ℕ) (s : Bytes) → Starts (take n s) s
take-Starts zero s = tt
take-Starts (suc n) [] = tt
take-Starts (suc n) (c ∷ s) = (refl, take-Starts n s)

length-take : (n : ℕ) (s : Bytes) → n ≤ length s → length (take n s) ≡ n
length-take zero s h = refl
length-take (suc n) [] h = absurd (omega (arith, h))
length-take (suc n) (c ∷ s) h = omega (arith, length-take n s (omega (arith, h)))

length-drop : (n : ℕ) (s : Bytes) → length (drop n s) ≡ length s - n
length-drop zero s = omega arith
length-drop (suc n) [] = omega arith
length-drop (suc n) (c ∷ s) = omega (arith, length-drop n s)

length-slice : (a b : ℕ) (s : Bytes) → b ≤ length s → length (slice a b s) ≡ b - a
length-slice a b s h = length-take (b - a) (drop a s) (omega (arith, h, length-drop a s))

upper_twice : (c : ℕ) → upper (upper c) ≡ upper c
upper_twice c = ground arith

Starts-upper : (w s : Bytes) → Starts w s → Starts (map upper w) s
Starts-upper [] s h = tt
Starts-upper (b ∷ w) [] h = h
Starts-upper (b ∷ w) (c ∷ s) (p, h) = (upper_twice b ∙ p, Starts-upper w s h)

length-upper : (w : Bytes) → length (map upper w) ≡ length w
length-upper [] = refl
length-upper (b ∷ w) = ap suc (length-upper w)

zeros-Agree : (s : Bytes) → Agree 0 (zeros s) s
zeros-Agree [] = tt
zeros-Agree (c ∷ s) = zeros-Agree s

Agree-equal : (k : ℕ) (a b : Bytes) → length b ≤ k → Agree k a b → map upper a ≡ map upper b
Agree-equal k [] [] h g = refl
Agree-equal k [] (c ∷ b) h g = absurd g
Agree-equal k (r ∷ a) [] h g = absurd g
Agree-equal zero (r ∷ a) (c ∷ b) h g = absurd (omega (arith, h))
Agree-equal (suc k) (r ∷ a) (c ∷ b) h g = cc (g.0, Agree-equal k a b (omega (arith, h)) g.1)

-- The automaton reports occurrences of its patterns, in the order of their ends.
abbrev pub Occurs : Bytes → ℕ → Match → Type 0
Occurs source last m =
    (m.size ≤ suc m.last_byte)
    × (suc m.last_byte ≤ length source)
    × (last ≤ suc m.last_byte)
    × (slice (suc m.last_byte - m.size) (suc m.last_byte) source ≡ nth m.pattern initialisms)

abbrev pub Occurrences : Bytes → ℕ → List Match → Type 0
Occurrences source last [] = Unit
Occurrences source last (m ∷ ms) = Occurs source last m × Occurrences source (suc m.last_byte) ms

module _ (source : Bytes) where
  word-Starts :
      (left right : ℕ) (word : Bytes)
      → left ≤ right
      → right ≤ length source
      → slice left right source ≡ word
      → (w : Bytes) → ((w ≡ map upper word) ⊎ (w ≡ slice left right source))
      → Starts w (drop left source) × (left + length w ≡ right)
  word-Starts left right word hl hr e w (inl p) =
      rw (p, sym e, length-upper (slice left right source), length-slice left right source hr)
        (
          Starts-upper (slice left right source) (drop left source)
              (take-Starts (right - left) (drop left source)),
          omega (arith, hl),
        )
  word-Starts left right word hl hr e w (inr p) =
      rw (p, length-slice left right source hr)
        (take-Starts (right - left) (drop left source), omega (arith, hl))

  if-cases : (b : Bool) (x y : Bytes) → ((if b then x else y) ≡ x) ⊎ ((if b then x else y) ≡ y)
  if-cases true x y = inl refl
  if-cases false x y = inr refl

  filled-Agree :
      (res : Bytes) (last left right : ℕ)
      → left ≤ right
      → right ≤ length source
      → last ≤ right
      → Agree last res source
      → (w : Bytes) → Starts w (drop left source) × (left + length w ≡ right)
      → Agree right
          (copy_at left w
            (if ltb last left then copy_at last (slice last left source) res else res))
          source
  filled-Agree res last left right hl hr hlast g w (s, e) = elim (Bool-cases (ltb last left)) [
    | inl p ↦ rw p (
        copy_at-Agree left w (copy_at last (slice last left source) res) source left right
          (omega arith) hl e
          (copy_at-Agree last (slice last left source) res source last left (omega arith)
            (ground (arith, p))
            (ground (arith, p, length-slice last left source (omega (arith, hl, hr)))) g
            (take-Starts (left - last) (drop last source)))
          s)
    | inr p ↦ rw p (copy_at-Agree left w res source last right (ground (arith, p)) hlast e g s)
  ]

  on_match-Agree :
      (res : Bytes) (last : ℕ) (m : Match)
      → Agree last res source
      → Occurs source last m
      → Agree (on_match source (res, last) m).1 (on_match source (res, last) m).0 source
  unfolding on_match
  on_match-Agree res last m g (hs, hr, hl, e) =
      filled-Agree res last (suc m.last_byte - m.size) (suc m.last_byte) (omega arith) hr hl g _ (
        word-Starts (suc m.last_byte - m.size) (suc m.last_byte) (nth m.pattern initialisms)
          (omega arith) hr e _ (if-cases (ends_word (drop (suc m.last_byte) source)) _ _))

  on_matches-Agree :
      (state : Bytes × ℕ) (ms : List Match)
      → Agree state.1 state.0 source
      → Occurrences source state.1 ms
      → Agree (on_matches source state ms).1 (on_matches source state ms).0 source
  unfolding on_match
  on_matches-Agree state [] g h = g
  on_matches-Agree state (m ∷ ms) g (h, hs) =
      on_matches-Agree (on_match source state m) ms (on_match-Agree state.0 state.1 m g h) hs

  on_matches-bound :
      (state : Bytes × ℕ) (ms : List Match)
      → state.1 ≤ length source
      → Occurrences source state.1 ms
      → (on_matches source state ms).1 ≤ length source
  unfolding on_match
  on_matches-bound state [] h _ = h
  on_matches-bound state (m ∷ ms) h (hm, hs) = on_matches-bound (on_match source state m) ms hm.1 hs

  drop-Starts : (n : ℕ) (s : Bytes) → Starts (drop n s) (drop n s)
  drop-Starts zero [] = tt
  drop-Starts zero (c ∷ s) = (refl, drop-Starts zero s)
  drop-Starts (suc n) [] = tt
  drop-Starts (suc n) (c ∷ s) = drop-Starts n s

module _ (conv : CasePackage) where
  -- If the automaton reports occurrences of its patterns in the order of their ends,
  -- transformInitialisms changes nothing but the case of letters: no byte is lost or added.
  pub transform_initialisms-case :
      (source : Bytes)
      → Occurrences source 0 (conv.walk initialisms source)
      → map upper (transform_initialisms conv source) ≡ map upper source
  unfolding transform_initialisms
  transform_initialisms-case source h =
      let ms = conv.walk initialisms source in
      let r = on_matches source (zeros source, 0) ms in
      Agree-equal (length source) (copy_at r.1 (drop r.1 source) r.0) source (omega arith) (
        copy_at-Agree r.1 (drop r.1 source) r.0 source r.1 (length source) (omega arith)
          (on_matches-bound source (zeros source, 0) ms (omega arith) h)
          (omega (
            arith,
            length-drop r.1 source,
            on_matches-bound source (zeros source, 0) ms (omega arith) h,
          ))
          (on_matches-Agree source (zeros source, 0) ms (zeros-Agree source) h)
          (drop-Starts source r.1 source))

abbrev has_underscore : Bytes → Bool
has_underscore [] = false
has_underscore (c ∷ s) = eqb c underscore || has_underscore s

has_underscore-append : (s : Bytes) → has_underscore (s ++ underscore ∷ []) ≡ true
has_underscore-append [] = refl
has_underscore-append (c ∷ s) = ground (arith, has_underscore-append s)

abbrev any_underscore : List Bytes → Bool
any_underscore [] = false
any_underscore (w ∷ ws) = has_underscore w || any_underscore ws

contains_bytes-underscore :
    (w : Bytes) (ws : List Bytes)
    → has_underscore w ≡ true
    → any_underscore ws ≡ false
    → contains_bytes w ws ≡ false
contains_bytes-underscore w [] h g = refl
contains_bytes-underscore w (v ∷ vs) h g = elim (Bool-cases (v == w)) [
  | inl e ↦ ground (arith, h, g, ap has_underscore ((==_iff v w).0 e))
  | inr e ↦ ground (arith, e, g, contains_bytes-underscore w vs h (ground (arith, g)))
]

append_underscore-no_keyword : (s : Bytes) → is_keyword (s ++ underscore ∷ []) ≡ false
unfolding is_keyword
append_underscore-no_keyword s =
    contains_bytes-underscore (s ++ underscore ∷ []) keywords (has_underscore-append s) refl

nil-no_keyword : is_keyword [] ≡ false
unfolding is_keyword list_beq
nil-no_keyword = refl

escaped-no_keyword :
    (s : Bytes) → is_keyword (if is_keyword s then s ++ underscore ∷ [] else s) ≡ false
escaped-no_keyword s = elim (Bool-cases (is_keyword s)) [
  | inl e ↦ rw e (append_underscore-no_keyword s)
  | inr e ↦ rw e e
]

module _ (conv : CasePackage) where
  -- ToGolangName never returns a keyword of Go.
  pub to_golang_name-no_keyword :
      (raw : Bytes) (exported : Bool) → is_keyword (to_golang_name conv raw exported) ≡ false
  unfolding to_golang_name
  to_golang_name-no_keyword raw exported =
      if_keeps (λ s. is_keyword s ≡ false) (raw == []) nil-no_keyword (escaped-no_keyword _)
