-- ===== src/Functions/Text.antt =====
-- What ellipsisStart and templateGoComment of internal/tmpl/functions.go return.
use go_asyncapi.Common.{
  ℕ, zero, suc, ◌-◌, ◌≡◌, ◌≤◌, ◌<◌, ◌⊎◌, ◌∙◌, refl, ap, true, false, ◌&&◌, ◌||◌, Option, none, some,
  [], ◌∷◌, ◌++◌, Bytes, codes, if◌then◌else◌, length, leb, eqb, arith, inl, inr, Bool-cases,
  append_assoc,
}
use go_asyncapi.Common.Strings.{has_prefix}
use go_asyncapi.Names.{drop, take}
use go_asyncapi.Functions.{
  ℤ, pos, negsuc, repeat, ellipsis_start, newline, contains_byte, ends_with, ended,
  template_go_comment,
}

length-repeat : (n : ℕ) → length (repeat n) ≡ n
length-repeat zero = refl
length-repeat (suc n) = omega (arith, length-repeat n)

length-drop : (n : ℕ) (s : Bytes) → length (drop n s) ≡ length s - n
length-drop zero s = omega arith
length-drop (suc n) [] = omega arith
length-drop (suc n) (c ∷ s) = omega (arith, length-drop n s)

drop-suffix : (n : ℕ) (s : Bytes) → (front : Bytes) × (s ≡ front ++ drop n s)
drop-suffix zero s = ([], refl)
drop-suffix (suc n) [] = ([], refl)
drop-suffix (suc n) (c ∷ s) = let (front, e) = drop-suffix n s in (c ∷ front, ap (λ t. c ∷ t) e)

-- What ellipsisStart returns for a length; `none` is a panic.
abbrev pub Ellipsized : ℤ → Bytes → Option Bytes → Type 0
Ellipsized (negsuc n) s o = o ≡ none
Ellipsized (pos n) s none = ⊥
Ellipsized (pos n) s (some r) =
    ((length s ≤ n) × (r ≡ s))
    ⊎ ((n < length s)
        × (length r ≡ n)
        × (((n ≤ 3) × (r ≡ take n (codes "...")))
            ⊎ ((front : Bytes) × (back : Bytes) × (s ≡ front ++ back) × (r ≡ codes "..." ++ back))))

few_dots : (n : ℕ) → n ≤ 3 → repeat n ≡ take n (codes "...")
few_dots zero h = refl
few_dots (suc zero) h = refl
few_dots (suc (suc zero)) h = refl
few_dots (suc (suc (suc zero))) h = refl
few_dots (suc (suc (suc (suc n)))) h = absurd (omega arith)

-- For a length that is not negative ellipsisStart returns a text that fits as it is, and cuts any
-- other to exactly the length asked for: to dots alone for a length of three or less, and else to
-- three dots and the end of the text. For a negative length it panics.
pub ellipsis_start-Ellipsized :
    (maxlen : ℤ) (s : Bytes) → Ellipsized maxlen s (ellipsis_start maxlen s)
unfolding ellipsis_start
ellipsis_start-Ellipsized (negsuc n) s = refl
ellipsis_start-Ellipsized (pos n) s = elim (Bool-cases (leb (length s) n)) [
  | inl e ↦ rw e (inl (ground (arith, e), refl))
  | inr e ↦ rw e (elim (Bool-cases (leb n 3)) [
    | inl f ↦ rw f (
        inr (
          ground (arith, e),
          length-repeat n,
          inl (ground (arith, f), few_dots n (ground (arith, f))),
        ))
    | inr f ↦
        let (front, split) = drop-suffix (length s - (n - 3)) s in
        rw f (
          inr (
            ground (arith, e),
            ground (arith, e, f, length-drop (length s - (n - 3)) s),
            inr (front, _, split, refl),
          ))
  ])
]

-- What follows the first `*/`, if there is one.
abbrev pub after_close : Bytes → Option Bytes
after_close [] = none
after_close (c ∷ []) = none
after_close (c ∷ d ∷ s) =
    let rest = after_close (d ∷ s) in if eqb c 42 && eqb d 47 then some s else rest

-- A text that Go reads as one comment and nothing else.
abbrev pub IsComment : Bytes → Type 0
IsComment [] = ⊥
IsComment (c ∷ []) = ⊥
IsComment (c ∷ d ∷ s) =
    (c ≡ 47)
    × (if eqb d 47 then contains_byte newline s ≡ false else (d ≡ 42) × (after_close s ≡ some []))

after_close-skip : (c : ℕ) (s : Bytes) → eqb c 42 ≡ false → after_close (c ∷ s) ≡ after_close s
after_close-skip c [] e = refl
after_close-skip c (d ∷ s) e = rw e refl

-- The comment that is closed behind a text that does not end in a newline.
after_close-newline :
    (text : Bytes) → after_close text ≡ none → after_close (text ++ newline ∷ codes "*/") ≡ some []
after_close-newline [] h = refl
after_close-newline (c ∷ []) h = elim (Bool-cases (eqb c 42)) [
  | inl e ↦ rw e refl
  | inr e ↦ rw e refl
]
after_close-newline (c ∷ d ∷ s) h = elim (Bool-cases (eqb c 42 && eqb d 47)) [
  | inl e ↦ cc (rw e at h)
  | inr e ↦ rw e (after_close-newline (d ∷ s) (rw e at h))
]

-- The comment that is closed behind a text that ends in a newline.
after_close-ended :
    (text : Bytes)
    → ends_with newline text ≡ true
    → after_close text ≡ none
    → after_close (text ++ codes "*/") ≡ some []
after_close-ended [] n h = refl
after_close-ended (c ∷ []) n h = elim (Bool-cases (eqb c 42)) [
  | inl e ↦ rw e refl
  | inr e ↦ rw e refl
]
after_close-ended (c ∷ d ∷ s) n h = elim (Bool-cases (eqb c 42 && eqb d 47)) [
  | inl e ↦ cc (rw e at h)
  | inr e ↦ rw e (after_close-ended (d ∷ s) n (rw e at h))
]

closed : (text : Bytes) → after_close text ≡ none → after_close (ended text ++ codes "*/") ≡ some []
closed text h = elim (Bool-cases (ends_with newline text)) [
  | inl e ↦ rw e (after_close-ended text e h)
  | inr e ↦
      rw e (
        ap after_close (append_assoc text (newline ∷ []) (codes "*/")) ∙ after_close-newline text h)
]

-- A text that is no comment itself and does not hold `*/` becomes exactly one Go comment: a line
-- comment without a newline, or a block comment that is closed at its end and nowhere before.
pub template_go_comment-IsComment :
    (text : Bytes)
    → (has_prefix text (codes "//") || has_prefix text (codes "/*")) ≡ false
    → after_close text ≡ none
    → IsComment (template_go_comment text)
unfolding template_go_comment
template_go_comment-IsComment text plain h =
    rw plain (elim (Bool-cases (contains_byte newline text)) [
      | inl e ↦
          rw e
            (refl, (refl, after_close-skip newline (ended text ++ codes "*/") refl ∙ closed text h))
      | inr e ↦ rw e (refl, e)
    ])
