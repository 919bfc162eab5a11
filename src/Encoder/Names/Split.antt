-- ===== src/Encoder/Names/Split.antt =====
-- lib/encoder.js: `parseParams` of names of types put together, and `trim` of them.
use mathlib.Core.List.{append_assoc, append-nil}
use integration_hell.Common.{
  ℕ, suc, ◌≡◌, refl, sym, ap, ◌∙◌, arith, Bool, true, false, not, ◌&&◌, ◌||◌, List, [], ◌∷◌, ◌++◌,
  ◌==◌, All,
}
use integration_hell.Common.Int.{ℤ, pos}
use integration_hell.Encoder.Names.{
  Text, parted, split, is_space, level_after, is_zero, trim, trim_start, trim_end, in_front,
}

-- A character of a plain name.
abbrev pub is_plain : ℕ → Bool
is_plain c = not (c == b'<' || c == b'>' || c == b',' || is_space c)

abbrev pub rest_of : Text → ℤ → Text → List Text
rest_of = split b'<' b'>'

-- At a level, the text is taken over as it is.
abbrev pub IsWhole : ℕ → Text → Type 0
IsWhole n p =
    (text current : Text)
    → rest_of (p ++ text) (pos n) current ≡ rest_of text (pos n) (current ++ p)

-- A name has no comma outside of brackets.
abbrev pub IsClosed : Text → Type 0
IsClosed p = (n : ℕ) → IsWhole n p

-- What stands between brackets may have some.
abbrev pub IsInner : Text → Type 0
IsInner p = (n : ℕ) → IsWhole (suc n) p

IsWhole-nil : (n : ℕ) → IsWhole n []
IsWhole-nil n text current = ap (rest_of text (pos n)) (sym (append-nil current))

IsWhole-append : (n : ℕ) (p q : Text) → IsWhole n p → IsWhole n q → IsWhole n (p ++ q)
IsWhole-append n p q hp hq text current =
    ap (λ x. rest_of x (pos n) current) (append_assoc p q text)
    ∙ hp (q ++ text) current
    ∙ hq text (current ++ p)
    ∙ ap (rest_of text (pos n)) (append_assoc current p q)

pub IsInner-nil : IsInner []
IsInner-nil n = IsWhole-nil (suc n)

pub IsClosed-append : (p q : Text) → IsClosed p → IsClosed q → IsClosed (p ++ q)
IsClosed-append p q hp hq n = IsWhole-append n p q (hp n) (hq n)

pub IsInner-append : (p q : Text) → IsInner p → IsInner q → IsInner (p ++ q)
IsInner-append p q hp hq n = IsWhole-append (suc n) p q (hp n) (hq n)

pub IsInner-IsClosed : (p : Text) → IsClosed p → IsInner p
IsInner-IsClosed p h n = h (suc n)

split_kept :
    (c : ℕ) (text current : Text) (level after : ℤ)
    → level_after b'<' b'>' c level ≡ after
    → (is_zero after && c == b',') ≡ false
    → rest_of (c ∷ text) level current ≡ rest_of text after (current ++ c ∷ [])
unfolding split
split_kept c text current level after e f =
    ap (λ l. parted (is_zero l && c == b',') c current (rest_of text l)) e
    ∙ ap (λ b. parted b c current (rest_of text after)) f

not_both : (b c : Bool) → c ≡ false → (b && c) ≡ false
not_both true c h = h
not_both false c h = refl

plain_level : (c : ℕ) (level : ℤ) → is_plain c ≡ true → level_after b'<' b'>' c level ≡ level
plain_level c level h =
    let opens : (c == b'<') ≡ false = ground arith in
    let closes : (c == b'>') ≡ false = ground arith in rw (opens, closes) refl

same_level :
    (c : ℕ) (level : ℤ)
    → (c == b'<') ≡ false
    → (c == b'>') ≡ false
    → level_after b'<' b'>' c level ≡ level
same_level c level opens closes = rw (opens, closes) refl

IsClosed-plain : (c : ℕ) → is_plain c ≡ true → IsClosed (c ∷ [])
IsClosed-plain c h n text current =
    let comma : (c == b',') ≡ false = ground arith in
    split_kept c text current (pos n) (pos n) (plain_level c (pos n) h)
      (not_both (is_zero (pos n)) (c == b',') comma)

pub IsClosed-name : (name : Text) → All (λ c. is_plain c ≡ true) name → IsClosed name
IsClosed-name [] h = IsWhole-nil
IsClosed-name (c ∷ name) h =
    IsClosed-append (c ∷ []) name (IsClosed-plain c h.0) (IsClosed-name name h.1)

pub IsInner-separator : IsInner (b',' ∷ 32 ∷ [])
IsInner-separator = IsInner-append (b',' ∷ []) (32 ∷ []) comma space
  where
    comma : IsInner (b',' ∷ [])
    comma n text current = split_kept b',' text current (pos (suc n)) (pos (suc n)) refl refl

    space : IsInner (32 ∷ [])
    space n text current = split_kept 32 text current (pos (suc n)) (pos (suc n)) refl refl

-- Brackets close what stands between them.
pub IsClosed-brackets : (p : Text) → IsInner p → IsClosed (b'<' ∷ (p ++ b'>' ∷ []))
IsClosed-brackets p inner n text current =
    let from = current ++ b'<' ∷ [] in
    split_kept b'<' ((p ++ b'>' ∷ []) ++ text) current (pos n) (pos (suc n)) refl
      (not_both false (b'<' == b',') refl)
    ∙ ap (λ x. rest_of x (pos (suc n)) from) (append_assoc p (b'>' ∷ []) text)
    ∙ inner n (b'>' ∷ text) from
    ∙ split_kept b'>' text (from ++ p) (pos (suc n)) (pos n) refl
        (not_both (is_zero (pos n)) (b'>' == b',') refl)
    ∙ ap (rest_of text (pos n))
        (append_assoc from p (b'>' ∷ []) ∙ append_assoc current (b'<' ∷ []) (p ++ b'>' ∷ []))

-- A comma at the outermost level ends a parameter.
pub split-comma :
    (p text current : Text)
    → IsClosed p
    → rest_of (p ++ b',' ∷ text) (pos 0) current ≡ (current ++ p) ∷ rest_of text (pos 0) []
unfolding split
split-comma p text current h = h 0 (b',' ∷ text) current

pub split-last :
    (p : Text) (current : Text) → IsClosed p → rest_of p (pos 0) current ≡ (current ++ p) ∷ []
unfolding split
split-last p current h = ap (λ x. rest_of x (pos 0) current) (sym (append-nil p)) ∙ h 0 [] current

pub IsClosed-space : (p : Text) → IsClosed p → IsClosed (32 ∷ p)
IsClosed-space p h = IsClosed-append (32 ∷ []) p space h
  where
    space : IsClosed (32 ∷ [])
    space n text current =
        split_kept 32 text current (pos n) (pos n) refl
          (not_both (is_zero (pos n)) (32 == b',') refl)

-- There is no white space at either end.
abbrev pub IsTrimmed : Text → Type 0
IsTrimmed p = (trim_start p ≡ p) × (trim_end p ≡ p)

pub trim_lem : (p : Text) → IsTrimmed p → (trim p ≡ p) × (trim (32 ∷ p) ≡ p)
trim_lem p (start, end) = (ap trim_end start ∙ end, ap trim_end start ∙ end)

some_in_front : (c d : ℕ) (p : Text) → in_front c (p ++ d ∷ []) ≡ c ∷ (p ++ d ∷ [])
some_in_front c d [] = refl
some_in_front c d (x ∷ p) = refl

pub trim_end-bracket : (p : Text) → trim_end (p ++ b'>' ∷ []) ≡ p ++ b'>' ∷ []
trim_end-bracket [] = refl
trim_end-bracket (c ∷ p) = ap (in_front c) (trim_end-bracket p) ∙ some_in_front c b'>' p
