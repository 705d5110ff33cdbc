-- ===== src/Names.antt =====
-- ToGolangName, GetPackageName and transformInitialisms of internal/utils/names.go. The case
-- conversions of samber/lo and the Aho-Corasick automaton are parameters (`CasePackage`). Bytes
-- stand for runes: all that is left when the case is converted is ASCII.
pub mod Initialisms
use go_asyncapi.Common.{
  ℕ, zero, suc, ◌+◌, ◌-◌, ◌≡◌, Bool, true, false, not, ◌&&◌, ◌||◌, Option, none, some, List, [],
  ◌∷◌, ◌++◌, Bytes, codes, map, ◌==◌, if◌then◌else◌, bytes_eq, ltb, leb, eqb, length,
}

-- A call of the automaton's callback: the index of the last byte matched, the number of the bytes,
-- and the index of the pattern.
pub record Match : Type 0 where
  pub last_byte : ℕ
  pub size : ℕ
  pub pattern : ℕ

pub record CasePackage : Type 0 where
  pub pascal_case : Bytes → Bytes
  pub camel_case : Bytes → Bytes
  pub walk : List Bytes → Bytes → List Match

abbrev pub is_upper : ℕ → Bool
is_upper c = leb 65 c && leb c 90

abbrev pub is_lower : ℕ → Bool
is_lower c = leb 97 c && leb c 122

abbrev pub is_digit : ℕ → Bool
is_digit c = leb 48 c && leb c 57

abbrev pub underscore : ℕ
underscore = 95

-- [a-zA-Z0-9_]
abbrev pub is_word : ℕ → Bool
is_word c = is_upper c || (is_lower c || (is_digit c || eqb c underscore))

-- Each run of other bytes becomes one underscore; the flag says that the byte before was such.
abbrev pub replace_runs : Bool → Bytes → Bytes
replace_runs inside [] = []
replace_runs inside (c ∷ s) =
    let here = replace_runs true s in
    let after = replace_runs false s in
    if is_word c then c ∷ after else if inside then here else underscore ∷ here

abbrev pub trim_left : (ℕ → Bool) → Bytes → Bytes
trim_left cut [] = []
trim_left cut (c ∷ s) = let rest = trim_left cut s in if cut c then rest else c ∷ s

abbrev pub trim_right : (ℕ → Bool) → Bytes → Bytes
trim_right cut [] = []
trim_right cut (c ∷ s) = elim (trim_right cut s) [
  | [] ↦ if cut c then [] else c ∷ []
  | d ∷ t ↦ c ∷ d ∷ t
]

abbrev pub trim : (ℕ → Bool) → Bytes → Bytes
trim cut s = trim_right cut (trim_left cut s)

abbrev pub initialisms : List Bytes
initialisms = map codes (
    "Acl" ∷ "Api" ∷ "Ascii" ∷ "Cpu" ∷ "Css" ∷ "Dns" ∷ "Eof" ∷ "Guid" ∷ "Html" ∷ "Http" ∷ "Https"
    ∷ "Id" ∷ "Ip" ∷ "Json" ∷ "Lhs" ∷ "Qps" ∷ "Ram" ∷ "Rhs" ∷ "Rpc" ∷ "Sla" ∷ "Smtp" ∷ "Sql" ∷ "Ssh"
    ∷ "Tcp" ∷ "Tls" ∷ "Ttl" ∷ "Udp" ∷ "Ui" ∷ "Uid" ∷ "Uuid" ∷ "Uri" ∷ "Url" ∷ "Utf8" ∷ "Vm" ∷ "Xml"
    ∷ "Xmpp" ∷ "Xsrf" ∷ "Xss" ∷ "Amqp" ∷ "Ip" ∷ "Mqtt" ∷ [])

-- token.IsKeyword
abbrev pub keywords : List Bytes
keywords = map codes (
    "break" ∷ "case" ∷ "chan" ∷ "const" ∷ "continue" ∷ "default" ∷ "defer" ∷ "else" ∷ "fallthrough"
    ∷ "for" ∷ "func" ∷ "go" ∷ "goto" ∷ "if" ∷ "import" ∷ "interface" ∷ "map" ∷ "package" ∷ "range"
    ∷ "return" ∷ "select" ∷ "struct" ∷ "switch" ∷ "type" ∷ "var" ∷ [])

abbrev pub contains_bytes : Bytes → List Bytes → Bool
contains_bytes w [] = false
contains_bytes w (v ∷ vs) = (v == w) || contains_bytes w vs

unfoldable pub is_keyword : Bytes → Bool
is_keyword s = contains_bytes s keywords

abbrev pub upper : ℕ → ℕ
upper c = if is_lower c then c - 32 else c

abbrev pub drop : ℕ → Bytes → Bytes
drop zero s = s
drop (suc n) [] = []
drop (suc n) (c ∷ s) = drop n s

abbrev pub take : ℕ → Bytes → Bytes
take zero s = []
take (suc n) [] = []
take (suc n) (c ∷ s) = c ∷ take n s

-- source[a:b]
abbrev pub slice : ℕ → ℕ → Bytes → Bytes
slice a b s = take (b - a) (drop a s)

-- copy(buffer[i:], bytes): as many bytes as there is room for
abbrev pub copy_at : ℕ → Bytes → Bytes → Bytes
copy_at i bytes [] = []
copy_at (suc i) bytes (r ∷ rs) = r ∷ copy_at i bytes rs
copy_at zero [] (r ∷ rs) = r ∷ rs
copy_at zero (b ∷ bytes) (r ∷ rs) = b ∷ copy_at zero bytes rs

abbrev pub nth : ℕ → List Bytes → Bytes
nth i [] = []
nth zero (w ∷ ws) = w
nth (suc i) (w ∷ ws) = nth i ws

-- The match ends the text or stands before an upper-case letter.
abbrev pub ends_word : Bytes → Bool
ends_word [] = true
ends_word (c ∷ s) = is_upper c

-- One call of the callback: the buffer and `last`.
unfoldable pub on_match : Bytes → Bytes × ℕ → Match → Bytes × ℕ
on_match source (res, last) m =
    let right = suc m.last_byte in
    let left = right - m.size in
    let filled = (if ltb last left then copy_at last (slice last left source) res else res) in
    let word : Bytes =
      (if ends_word (drop right source)
        then map upper (nth m.pattern initialisms)
        else slice left right source) in
    (copy_at left word filled, right)

abbrev pub on_matches : Bytes → Bytes × ℕ → List Match → Bytes × ℕ
on_matches source state [] = state
on_matches source state (m ∷ ms) = on_matches source (on_match source state m) ms

abbrev pub zeros : Bytes → Bytes
zeros = map (λ c. 0)

module _ (conv : CasePackage) where
  unfoldable pub transform_initialisms : Bytes → Bytes
  transform_initialisms source =
      let r = on_matches source (zeros source, 0) (conv.walk initialisms source) in
      copy_at r.1 (drop r.1 source) r.0

  unfoldable pub to_golang_name : Bytes → Bool → Bytes
  to_golang_name raw exported =
      let word = trim_left is_digit (trim (λ c. eqb c underscore) (replace_runs false raw)) in
      let camel = (if exported then conv.pascal_case word else conv.camel_case word) in
      let str = transform_initialisms camel in
      if raw == [] then [] else if is_keyword str then str ++ underscore ∷ [] else str
