-- ===== src/Jsonpointer/Escape.antt =====
-- url.PathEscape and url.PathUnescape, which internal/jsonpointer/url.go applies to each part of a
-- pointer.
use go_asyncapi.Common.{
  ℕ, ◌+◌, ◌-◌, ◌*◌, ◌/◌, ◌%◌, ◌<◌, ◌≤◌, ◌≡◌, ◌≢◌, refl, Bool, true, ◌&&◌, ◌||◌, Option, none, some,
  [], ◌∷◌, ◌++◌, Bytes, All, All-append, arith, leb, ltb, eqb, if◌then◌else◌, ◌>>=◌, Bool-cases,
  inl, inr, ap, ◌∙◌,
}
use go_asyncapi.Common.Strings.{Lacks}

abbrev pub slash : ℕ
slash = b'/'

abbrev pub percent : ℕ
percent = b'%'

-- The bytes that a path segment holds unescaped.
unreserved : ℕ → Bool
unreserved c =
    (leb b'a' c && leb c b'z')
    || (leb b'A' c && leb c b'Z')
    || (leb b'0' c && leb c b'9')
    || eqb c b'-'
    || eqb c b'_'
    || eqb c b'.'
    || eqb c b'~'
    || eqb c b'$'
    || eqb c b'&'
    || eqb c b'+'
    || eqb c b':'
    || eqb c b'='
    || eqb c b'@'

upper_hex : ℕ → ℕ
upper_hex d = if ltb d 10 then 48 + d else 55 + d

unhex : ℕ → Option ℕ
unhex c =
    if leb b'0' c && leb c b'9'
    then some (c - 48)
    else if leb b'a' c && leb c b'f'
    then some (c - 87)
    else if leb b'A' c && leb c b'F'
    then some (c - 55)
    else none

escape_byte : ℕ → Bytes
unfolding unreserved upper_hex
escape_byte c =
    if unreserved c then c ∷ [] else percent ∷ upper_hex (c / 16) ∷ upper_hex (c % 16) ∷ []

unfoldable pub path_escape : Bytes → Bytes
unfolding escape_byte
path_escape [] = []
path_escape (c ∷ s) = escape_byte c ++ path_escape s

-- `none` is the error on a percent sign that two hexadecimal digits do not follow.
unfoldable pub path_unescape : Bytes → Option Bytes
unfolding unhex
path_unescape [] = some []
path_unescape (c ∷ []) = if eqb c percent then none else some (c ∷ [])
path_unescape (c ∷ d ∷ []) =
    if eqb c percent then none else (do r ← path_unescape (d ∷ []); some (c ∷ r))
path_unescape (c ∷ d ∷ f ∷ s) =
    let escaped = (do h ← unhex d; l ← unhex f; r ← path_unescape s; some ((h * 16 + l) ∷ r)) in
    let plain = (do r ← path_unescape (d ∷ f ∷ s); some (c ∷ r)) in
    if eqb c percent then escaped else plain

abbrev pub AreBytes : Bytes → Type 0
AreBytes = All (λ c. c < 256)

unhex-upper_hex : (d : ℕ) → d < 16 → unhex (upper_hex d) ≡ some d
unfolding unhex upper_hex
unhex-upper_hex d h = ground arith

-- A byte that is no percent sign stays, whatever follows.
path_unescape-plain :
    (c : ℕ) (s : Bytes)
    → c ≢ percent
    → path_unescape (c ∷ s) ≡ (path_unescape s >>= λ r. some (c ∷ r))
unfolding path_unescape
path_unescape-plain c [] h = ground arith
path_unescape-plain c (d ∷ []) h = ground arith
path_unescape-plain c (d ∷ f ∷ s) h = ground arith

unreserved_lem : (c : ℕ) → unreserved c ≡ true → (c ≢ percent) × (c ≢ slash)
unfolding unreserved
unreserved_lem c h = (λ p. ground arith, λ p. ground arith)

path_unescape-escaped :
    (c : ℕ) (s : Bytes)
    → c < 256
    → path_unescape (percent ∷ upper_hex (c / 16) ∷ upper_hex (c % 16) ∷ s)
      ≡ (path_unescape s >>= λ r. some (c ∷ r))
unfolding path_unescape
path_unescape-escaped c s h =
    rw (unhex-upper_hex (c / 16) (omega arith), unhex-upper_hex (c % 16) (omega arith))
      (ap (λ (n : ℕ). path_unescape s >>= λ r. some (n ∷ r)) (omega arith))

path_unescape-byte :
    (c : ℕ) (s : Bytes)
    → c < 256
    → path_unescape (escape_byte c ++ s) ≡ (path_unescape s >>= λ r. some (c ∷ r))
unfolding escape_byte
path_unescape-byte c s h = elim (Bool-cases (unreserved c)) [
  | inl p ↦ rw p (path_unescape-plain c s (unreserved_lem c p).0)
  | inr p ↦ rw p (path_unescape-escaped c s h)
]

-- Unescaping undoes escaping, for every byte string.
pub path_unescape-path_escape : (s : Bytes) → AreBytes s → path_unescape (path_escape s) ≡ some s
unfolding path_escape
path_unescape-path_escape [] h = unfold path_unescape in refl
path_unescape-path_escape (c ∷ s) (hc, hs) =
    path_unescape-byte c (path_escape s) hc
    ∙ ap (λ o. o >>= λ r. some (c ∷ r)) (path_unescape-path_escape s hs)

escape_byte-Lacks : (c : ℕ) → c < 256 → Lacks slash (escape_byte c)
unfolding escape_byte upper_hex
escape_byte-Lacks c h = elim (Bool-cases (unreserved c)) [
  | inl p ↦ rw p ((unreserved_lem c p).1, tt)
  | inr p ↦ rw p (omega arith, (ground arith, (ground arith, tt)))
]

-- An escaped part holds no slash.
pub path_escape-Lacks : (s : Bytes) → AreBytes s → Lacks slash (path_escape s)
unfolding path_escape
path_escape-Lacks [] h = tt
path_escape-Lacks (c ∷ s) (hc, hs) =
    All-append _ (escape_byte c) (path_escape s) (escape_byte-Lacks c hc) (path_escape-Lacks s hs)

abbrev pub AreVisible : Bytes → Type 0
AreVisible = All (λ c. (33 ≤ c) × (c ≤ 126))

escape_byte-AreVisible : (c : ℕ) → c < 256 → AreVisible (escape_byte c)
unfolding escape_byte upper_hex unreserved
escape_byte-AreVisible c h = ground arith

-- Escaped text is visible ASCII.
pub path_escape-AreVisible : (s : Bytes) → AreBytes s → AreVisible (path_escape s)
unfolding path_escape
path_escape-AreVisible [] h = tt
path_escape-AreVisible (c ∷ s) (hc, hs) =
    All-append _ (escape_byte c) (path_escape s) (escape_byte-AreVisible c hc)
      (path_escape-AreVisible s hs)

-- Text with no percent sign is unescaped to itself.
pub path_unescape-Lacks : (s : Bytes) → Lacks percent s → path_unescape s ≡ some s
path_unescape-Lacks [] h = unfold path_unescape in refl
path_unescape-Lacks (c ∷ s) (hc, hs) =
    path_unescape-plain c s hc ∙ ap (λ o. o >>= λ r. some (c ∷ r)) (path_unescape-Lacks s hs)
