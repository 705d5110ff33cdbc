-- ===== src/Locator/CommandLine.antt =====
-- parseCommandLine of internal/locator/subprocess.go. The characters are Go's runes.
use mathlib.Core.List.{foldl, cons-ne-nil}
use go_asyncapi.Common.{
  ℕ, ◌≡◌, ◌≢◌, refl, Bool, true, false, ◌||◌, List, [], ◌∷◌, ◌++◌, Bytes, codes, if◌then◌else◌, eqb,
  arith, ltb, All, append-nil, append_assoc, ap, ◌∙◌, sym, All-append, map, if_keeps, Bool-cases,
  inl, inr,
}
use go_asyncapi.Common.Strings.{join}

abbrev pub space : ℕ
space = b' '

abbrev pub double_quote : ℕ
double_quote = 34

abbrev pub single_quote : ℕ
single_quote = 39

abbrev pub backslash : ℕ
backslash = 92

-- The loop's variables; `first_quote` is 0 outside quotes.
pub record Scan : Type 0 where
  pub args : List Bytes
  pub arg : Bytes
  pub first_quote : ℕ
  pub escape_next : Bool

abbrev pub start : Scan
start = record { args = []; arg = []; first_quote = 0; escape_next = false }

abbrev pub is_nil : Bytes → Bool
is_nil [] = true
is_nil (c ∷ s) = false

-- One round of the loop.
unfoldable pub scan_rune : Scan → ℕ → Scan
scan_rune s c =
    if s.escape_next
    then record s { arg = s.arg ++ c ∷ []; escape_next = false }
    else if eqb c space
    then (if ltb 0 s.first_quote
        then record s { arg = s.arg ++ c ∷ [] }
        else if is_nil s.arg
        then s
        else record s { args = s.args ++ s.arg ∷ []; arg = [] })
    else if eqb c double_quote || eqb c single_quote
    then (if eqb c s.first_quote
        then record s { first_quote = 0 }
        else if eqb s.first_quote 0
        then record s { first_quote = c }
        else record s { arg = s.arg ++ c ∷ [] })
    else if eqb c backslash
    then record s { escape_next = true }
    else record s { arg = s.arg ++ c ∷ [] }

-- After the loop.
abbrev pub finish : Scan → List Bytes
finish s = if is_nil s.arg then s.args else s.args ++ s.arg ∷ []

unfoldable pub parse_command_line : Bytes → List Bytes
parse_command_line line = finish (foldl scan_rune start line)

parse_test :
    parse_command_line (codes "cat  'a b'c \\\"x\\\" ''")
    ≡ codes "cat" ∷ codes "a bc" ∷ codes "\"x\"" ∷ []
unfolding parse_command_line scan_rune
parse_test = refl

abbrev pub NoEmpty : List Bytes → Type 0
NoEmpty = All (λ a. a ≢ [])

push_arg-NoEmpty :
    (args : List Bytes) (arg : Bytes)
    → NoEmpty args
    → NoEmpty (if is_nil arg then args else args ++ arg ∷ [])
push_arg-NoEmpty args [] h = h
push_arg-NoEmpty args (c ∷ arg) h =
    All-append (λ a. a ≢ []) args ((c ∷ arg) ∷ []) h (cons-ne-nil c arg, tt)

space-NoEmpty :
    (s : Scan)
    → NoEmpty s.args
    → NoEmpty (if is_nil s.arg then s else record s { args = s.args ++ s.arg ∷ []; arg = [] }).args
space-NoEmpty s h = elim (Bool-cases (is_nil s.arg)) [
  | inl p ↦ rw p h
  | inr p ↦ ground (arith, p, push_arg-NoEmpty s.args s.arg h)
]

scan_rune-NoEmpty : (s : Scan) (c : ℕ) → NoEmpty s.args → NoEmpty (scan_rune s c).args
unfolding scan_rune
scan_rune-NoEmpty s c h =
    let P : Scan → Type 0 = λ t. NoEmpty t.args in
    if_keeps P s.escape_next h (
      if_keeps P (eqb c space) (if_keeps P (ltb 0 s.first_quote) h (space-NoEmpty s h)) (
        if_keeps P (eqb c double_quote || eqb c single_quote)
          (if_keeps P (eqb c s.first_quote) h (if_keeps P (eqb s.first_quote 0) h h))
          (if_keeps P (eqb c backslash) h h)))

scan-NoEmpty : (line : Bytes) (s : Scan) → NoEmpty s.args → NoEmpty (foldl scan_rune s line).args
scan-NoEmpty [] s h = h
scan-NoEmpty (c ∷ line) s h = scan-NoEmpty line (scan_rune s c) (scan_rune-NoEmpty s c h)

-- Whatever the command line is, no argument that the splitting returns is empty.
pub parse_command_line-NoEmpty : (line : Bytes) → NoEmpty (parse_command_line line)
unfolding parse_command_line
parse_command_line-NoEmpty line =
    push_arg-NoEmpty (foldl scan_rune start line).args (foldl scan_rune start line).arg
      (scan-NoEmpty line start tt)

-- The argument with a backslash before every character.
abbrev pub escape : Bytes → Bytes
escape [] = []
escape (c ∷ s) = backslash ∷ c ∷ escape s

abbrev pub scanned : List Bytes → Bytes → Scan
scanned args arg = record { args = args; arg = arg; first_quote = 0; escape_next = false }

scan-escape :
    (s : Bytes) (args : List Bytes) (arg rest : Bytes)
    → foldl scan_rune (scanned args arg) (escape s ++ rest)
      ≡ foldl scan_rune (scanned args (arg ++ s)) rest
unfolding scan_rune
scan-escape [] args arg rest =
    ap (λ a. foldl scan_rune (scanned args a) rest) (sym (append-nil arg))
scan-escape (c ∷ s) args arg rest =
    scan-escape s args (arg ++ c ∷ []) rest
    ∙ ap (λ a. foldl scan_rune (scanned args a) rest) (append_assoc arg (c ∷ []) s)

scan-space :
    (args : List Bytes) (c : ℕ) (arg : Bytes)
    → scan_rune (scanned args (c ∷ arg)) space ≡ scanned (args ++ (c ∷ arg) ∷ []) []
unfolding scan_rune
scan-space args c arg = refl

finish-escape :
    (args : List Bytes) (a : Bytes)
    → a ≢ []
    → finish (foldl scan_rune (scanned args []) (escape a)) ≡ args ++ a ∷ []
finish-escape args [] h = absurd (h refl)
finish-escape args (c ∷ a) h =
    ap (λ r. finish (foldl scan_rune (scanned args []) r)) (sym (append-nil (escape (c ∷ a))))
    ∙ ap finish (scan-escape (c ∷ a) args [] [])

scan-argument :
    (args : List Bytes) (a rest : Bytes)
    → a ≢ []
    → foldl scan_rune (scanned args []) (escape a ++ space ∷ rest)
      ≡ foldl scan_rune (scanned (args ++ a ∷ []) []) rest
scan-argument args [] rest h = absurd (h refl)
scan-argument args (c ∷ a) rest h =
    scan-escape (c ∷ a) args [] (space ∷ rest)
    ∙ ap (λ t. foldl scan_rune t rest) (scan-space args c a)

scan-join :
    (args argv : List Bytes)
    → NoEmpty argv
    → finish (foldl scan_rune (scanned args []) (join space (map escape argv))) ≡ args ++ argv
unfolding join
scan-join args [] h = sym (append-nil args)
scan-join args (a ∷ []) (h, _) = finish-escape args a h
scan-join args (a ∷ b ∷ argv) (h, hs) =
    ap finish (scan-argument args a (join space (map escape (b ∷ argv))) h)
    ∙ scan-join (args ++ a ∷ []) (b ∷ argv) hs
    ∙ append_assoc args (a ∷ []) (b ∷ argv)

-- Every list of nonempty arguments, whatever spaces, quotes and backslashes they hold, is what the
-- splitting returns for some line: the arguments with each character escaped by a backslash, joined
-- by a space.
pub parse_command_line-escape :
    (argv : List Bytes) → NoEmpty argv → parse_command_line (join space (map escape argv)) ≡ argv
unfolding parse_command_line
parse_command_line-escape argv h = scan-join [] argv h
