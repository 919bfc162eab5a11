-- ===== src/Encoder/Names/Brackets.antt =====
-- lib/encoder.js and lib/types/index.js: what stands between the brackets of a name.
use mathlib.Core.List.{append_assoc}
use integration_hell.Common.{
  ℕ, ◌+◌, ◌-◌, ◌≡◌, sym, ap, ◌∙◌, arith, true, [], ◌∷◌, ◌++◌, length, take, drop, if◌then◌else◌,
  All,
}
use integration_hell.Common.Int.{pos}
use integration_hell.Encoder.Buffer.{take_length}
use integration_hell.Encoder.Names.{Text, parse_params, split, trim_start, trim_end}
use integration_hell.Encoder.Names.Alone.{
  plain_space, some_text, stands_alone, plain-IsTrimmed, alone_lem,
}
use integration_hell.Encoder.Names.Split.{
  is_plain, rest_of, IsClosed, IsInner, IsClosed-append, IsClosed-name, IsClosed-brackets,
  IsTrimmed, trim_end-bracket,
}

-- A word with brackets and something between them.
abbrev pub between : Text → Text → Text
between word p = word ++ b'<' ∷ (p ++ b'>' ∷ [])

abbrev pub IsPart : Text → Type 0
IsPart p = IsClosed p × IsTrimmed p

pub alone_IsPart : (name : Text) → stands_alone name ≡ true → IsPart name
alone_IsPart name h =
    let (a, b, c, d, e, plain) = alone_lem name h in
    (IsClosed-name name plain, plain-IsTrimmed name plain)

pub between-IsPart :
    (word p : Text)
    → All (λ c. is_plain c ≡ true) word
    → some_text word ≡ true
    → IsInner p
    → IsPart (between word p)
between-IsPart [] p h some_word inner = ground arith
between-IsPart (c ∷ word) p h some_word inner =
    let closed =
      IsClosed-append (c ∷ word) (b'<' ∷ (p ++ b'>' ∷ [])) (IsClosed-name (c ∷ word) h)
        (IsClosed-brackets p inner) in
    let whole = append_assoc (c ∷ word) (b'<' ∷ p) (b'>' ∷ []) in
    (
      closed,
      (
        ap (λ b. if b then trim_start (between word p) else c ∷ between word p) (plain_space c h.0),
        ap trim_end (sym whole) ∙ trim_end-bracket ((c ∷ word) ++ b'<' ∷ p) ∙ whole,
      ),
    )

-- The parameters of a name whose text between the brackets starts at an index.
pub params_lem :
    (name p : Text) (k : ℕ)
    → drop k name ≡ p ++ b'>' ∷ []
    → length name ≡ k + (length p + 1)
    → parse_params name k (length name - (k + 1)) b'<' b'>' ≡ rest_of p (pos 0) []
unfolding parse_params
params_lem name p k at size =
    let n : length name - (k + 1) ≡ length p = omega (arith, size) in
    ap (λ m. split b'<' b'>' (take m (drop k name)) (pos 0) []) n
    ∙ ap (λ x. split b'<' b'>' (take (length p) x) (pos 0) []) at
    ∙ ap (λ x. split b'<' b'>' x (pos 0) []) (take_length p (b'>' ∷ []))
