-- ===== src/Mapper/Selector/Keys.antt =====
-- lib/mapping/object-selector.js: what `keysAreIncluded` counts.
use integration_hell.Common.{
  ℕ, zero, suc, ◌+◌, ◌<◌, ◌≡◌, ◌↔◌, refl, sym, ap, ◌∙◌, inl, inr, arith, Bool, true, false, ◌||◌,
  Bool-cases, List, [], ◌∷◌, length, ◌==◌,
}
use integration_hell.Common.Counts.{count, one_if, count-eq, count-none, count-le-length}
use integration_hell.Mapper.Selector.{every, is_all, among, matches_of, keys_are_included}

module _ {N : Type 0} (same : N → N → Bool)
    (same_iff : (a b : N) → (same a b ≡ true) ↔ (a ≡ b)) where
  -- No name stands twice in the list.
  abbrev pub IsDistinct : List N → Type 0
  IsDistinct [] = Unit
  IsDistinct (x ∷ xs) = (among same xs x ≡ false) × IsDistinct xs

  pub among-cons : (x y : N) (ys : List N) → among same (y ∷ ys) x ≡ same x y || among same ys x
  among-cons x y ys = elim (Bool-cases (same x y)) [
    | inl equal ↦ rw equal (ground arith)
    | inr apart ↦ rw apart (ground arith)
  ]

  apart_sym : (x y : N) → same x y ≡ false → same y x ≡ false
  apart_sym x y h = elim (Bool-cases (same y x)) [
    | inr fine ↦ fine
    | inl equal ↦ let at = (same_iff x y).1 (sym ((same_iff y x).0 equal)) in ground arith
  ]

  same_sym : (x y : N) → same x y ≡ same y x
  same_sym x y = elim (Bool-cases (same y x)) [
    | inl equal ↦ (same_iff x y).1 (sym ((same_iff y x).0 equal)) ∙ sym equal
    | inr apart ↦ apart_sym y x apart ∙ sym apart
  ]

  -- A name is counted among distinct ones once, besides what is counted anyhow.
  count_or :
      (x : N) (q : N → Bool) (keys : List N)
      → q x ≡ false
      → IsDistinct keys
      → count (λ k. same k x || q k) keys ≡ one_if (among same keys x) + count q keys
  count_or x q [] h d = refl
  count_or x q (k ∷ keys) h (new, d) =
      let later = count_or x q keys h d in
      let at = among-cons x k keys in
      elim (Bool-cases (same k x)) [
        | inl equal ↦
            let e = (same_iff k x).0 equal in
            let new' : among same keys x ≡ false = ap (among same keys) (sym e) ∙ new in
            let none_else : q k ≡ false = ap q e ∙ h in
            let found : among same (k ∷ keys) x ≡ true =
              at ∙ ap (λ b. b || among same keys x) (same_sym x k ∙ equal) in
            rw (found, equal, none_else)
              (omega (arith, later ∙ ap (λ b. one_if b + count q keys) new'))
        | inr apart ↦
            let found : among same (k ∷ keys) x ≡ among same keys x =
              at ∙ ap (λ b. b || among same keys x) (same_sym x k ∙ apart) in
            rw (found, apart) (omega (arith, later))
      ]

  -- Counted from either side.
  pub count-among :
      (keys properties : List N)
      → IsDistinct keys
      → IsDistinct properties
      → count (among same keys) properties ≡ count (among same properties) keys
  count-among keys [] dk dp = sym (count-none (among same []) (λ k. refl) keys)
  count-among keys (p ∷ properties) dk (new, dp) =
      ap (λ n. one_if (among same keys p) + n) (count-among keys properties dk dp)
      ∙ sym (count_or p (among same properties) keys new dk)
      ∙ count-eq (λ k. same k p || among same properties k) (among same (p ∷ properties))
          (λ k. sym (among-cons k p properties)) keys

  pub every-count : (q : N → Bool) (keys : List N) → every q keys ≡ (count q keys == length keys)
  every-count q [] = refl
  every-count q (k ∷ keys) =
      let bound = count-le-length q keys in
      let later = every-count q keys in
      elim (Bool-cases (q k)) [
        | inl holds ↦ rw (holds, later) (ground arith)
        | inr fails ↦ rw fails (ground arith)
      ]

  is_all-matches_of : (size n : ℕ) → 0 < size → is_all (matches_of same size n) ≡ (n == size)
  is_all-matches_of zero n h = ground arith
  is_all-matches_of (suc size) zero h = ground arith
  is_all-matches_of (suc size) (suc n) h = elim (Bool-cases (suc n == suc size)) [
    | inl equal ↦ rw equal refl
    | inr apart ↦ rw apart refl
  ]

  -- All keys are included exactly if each is among the properties.
  pub is_all-keys_are_included :
      (keys properties : List N)
      → IsDistinct keys
      → IsDistinct properties
      → is_all (keys_are_included same keys properties) ≡ every (among same properties) keys
  unfolding keys_are_included
  is_all-keys_are_included [] properties dk dp = refl
  is_all-keys_are_included (k ∷ keys) properties dk dp =
      is_all-matches_of (length (k ∷ keys)) (count (among same (k ∷ keys)) properties) (omega arith)
      ∙ ap (λ n. n == length (k ∷ keys)) (count-among (k ∷ keys) properties dk dp)
      ∙ sym (every-count (among same properties) (k ∷ keys))
