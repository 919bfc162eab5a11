-- ===== src/Utils/HashSet/Refinement.antt =====
-- lib/utils.js: `HashSet` is a finite set of keys, with its number of keys.
use integration_hell.Common.{
  suc, ◌+◌, ◌≤◌, ◌≡◌, ◌↔◌, refl, sym, ap, ◌∙◌, arith, Bool, true, false, not, ◌&&◌, ◌||◌,
  Bool-cases, inl, inr, Option, none, some, List, [], ◌∷◌, ◌++◌, length, ltb, if◌then◌else◌,
}
use integration_hell.Common.Counts.{keep, count, one_if, count-append}
use integration_hell.Utils.HashSet.{HashSet, empty, has, contains, add, remove, to_array}

both : (b : Bool) → b ≡ true → ¬ (b ≡ false)
both true h e = ground arith
both false h e = ground arith

-- The keys that are in a set, and what is done to it.
pub data Operation {ℓ} (K : Type ℓ) : Type ℓ where
  adding : K → Operation K
  removing : K → Operation K

module _ {ℓ} {K : Type ℓ} (same : K → K → Bool)
    (same_iff : (a b : K) → (same a b ≡ true) ↔ (a ≡ b)) where
  -- The set has as many keys as it says, each once, and these are the ones that the predicate holds of.
  abbrev pub Represents : HashSet K → (K → Bool) → Type ℓ
  Represents s p =
      (s.length ≡ length s.items) × ((key : K) → count (same key) s.items ≡ one_if (p key))

  has-count : (xs : List K) (key : K) → has same xs key ≡ ltb 0 (count (same key) xs)
  has-count [] key = refl
  has-count (x ∷ xs) key =
      let more = has-count xs key in
      elim (Bool-cases (same key x)) [
        | inl holds ↦ rw holds (ground arith)
        | inr fails ↦ rw fails (ground arith)
      ]

  count-length : (q : K → Bool) (xs : List K) → count q xs ≤ length xs
  count-length q [] = omega arith
  count-length q (x ∷ xs) =
      let more = count-length q xs in
      elim (Bool-cases (q x)) [
        | inl holds ↦ rw holds (omega arith)
        | inr fails ↦ rw fails (omega arith)
      ]

  has_lem : (s : HashSet K) (p : K → Bool) (key : K) → Represents s p → has same s.items key ≡ p key
  has_lem s p key (size, members) =
      let counted = has-count s.items key in
      let number = members key in
      elim (Bool-cases (p key)) [
        | inl holds ↦
            let one : count (same key) s.items ≡ 1 = number ∙ ap one_if holds in
            counted ∙ ap (ltb 0) one ∙ sym holds
        | inr fails ↦
            let nothing : count (same key) s.items ≡ 0 = number ∙ ap one_if fails in
            counted ∙ ap (ltb 0) nothing ∙ sym fails
      ]

  pub contains_lem :
      (s : HashSet K) (p : K → Bool) (key : K) → Represents s p → contains same s key ≡ p key
  unfolding contains
  contains_lem s p key (size, members) =
      let inside = has_lem s p key (size, members) in
      let number = members key in
      let most = count-length (same key) s.items in
      elim (Bool-cases (p key)) [
        | inl holds ↦
            let one : count (same key) s.items ≡ 1 = number ∙ ap one_if holds in
            let some_keys : ltb 0 s.length ≡ true = ground arith in rw some_keys inside
        | inr fails ↦
            let outside : has same s.items key ≡ false = inside ∙ sym (sym fails) in
            elim (Bool-cases (ltb 0 s.length)) [
              | inl some_keys ↦ rw some_keys inside
              | inr no_keys ↦ rw no_keys (sym fails)
            ]
      ]

  keep-count :
      (key other : K) (xs : List K)
      → count (same other) (keep (λ x. not (same key x)) xs)
        ≡ (if same key other then 0 else count (same other) xs)
  keep-count key other [] = elim (Bool-cases (same key other)) [
    | inl holds ↦ rw holds refl
    | inr fails ↦ rw fails refl
  ]
  keep-count key other (x ∷ xs) =
      let more = keep-count key other xs in
      elim (Bool-cases (same key x)) [
        | inl gone ↦ elim (Bool-cases (same key other)) [
          | inl holds ↦ rw (gone, more, holds) refl
          | inr fails ↦
              let at = (same_iff key x).0 gone in
              let apart : same other x ≡ false = elim (Bool-cases (same other x)) [
                | inr fine ↦ fine
                | inl equal ↦
                    let wrong = (same_iff key other).1 (at ∙ sym ((same_iff other x).0 equal)) in
                    absurd (both (same key other) wrong fails)
              ] in
              rw (gone, more, fails, apart) (omega arith)
        ]
        | inr stays ↦ elim (Bool-cases (same key other)) [
          | inr fails ↦ rw (stays, more, fails) (omega arith)
          | inl holds ↦
              let at = (same_iff key other).0 holds in
              let apart : same other x ≡ false = sym (ap (λ y. same y x) at) ∙ stays in
              rw (stays, more, holds, apart) (omega arith)
        ]
      ]

  keep-length :
      (key : K) (xs : List K)
      → length (keep (λ x. not (same key x)) xs) + count (same key) xs ≡ length xs
  keep-length key [] = omega arith
  keep-length key (x ∷ xs) =
      let more = keep-length key xs in
      elim (Bool-cases (same key x)) [
        | inl gone ↦ rw gone (omega arith)
        | inr stays ↦ rw stays (omega arith)
      ]

  count-append_one :
      (key other : K) (xs : List K)
      → count (same other) (xs ++ key ∷ []) ≡ count (same other) xs + one_if (same other key)
  count-append_one key other xs =
      count-append (same other) xs (key ∷ []) ∙ ap (λ n. count (same other) xs + n) (omega arith)

  symmetric : (a b : K) → same a b ≡ same b a
  symmetric a b = elim (Bool-cases (same a b)) [
    | inl holds ↦ holds ∙ sym ((same_iff b a).1 (sym ((same_iff a b).0 holds)))
    | inr fails ↦ elim (Bool-cases (same b a)) [
      | inl holds ↦ absurd (both (same a b) ((same_iff a b).1 (sym ((same_iff b a).0 holds))) fails)
      | inr equal ↦ fails ∙ sym equal
    ]
  ]

  abbrev pub with_key : K → (K → Bool) → K → Bool
  with_key key p other = same key other || p other

  abbrev pub without_key : K → (K → Bool) → K → Bool
  without_key key p other = not (same key other) && p other

  -- The answer of `add`, and the set after it.
  pub add_lem :
      (s : HashSet K) (p : K → Bool) (key : K)
      → Represents s p
      → Represents (add same s key).0 (with_key key p) × ((add same s key).1 ≡ not (p key))
  unfolding add
  add_lem s p key (size, members) =
      let inside = contains_lem s p key (size, members) in
      let here = has_lem s p key (size, members) in
      elim (Bool-cases (p key)) [
        | inl holds ↦
            let found : contains same s key ≡ true = inside ∙ holds in
            rw (found, holds) ((size, λ other. members other ∙ ap one_if (kept other holds)), refl)
        | inr fails ↦
            let missing : contains same s key ≡ false = inside ∙ fails in
            let new : has same s.items key ≡ false = here ∙ fails in
            rw (missing, new, fails)
              (
                (
                  ap (λ n. n + 1) size ∙ sym (length-append_one s.items),
                  λ other. count-append_one key other s.items ∙ grown other fails,
                ),
                refl,
              )
      ]
    where
      kept : (other : K) → p key ≡ true → p other ≡ with_key key p other
      kept other holds = elim (Bool-cases (same key other)) [
        | inl equal ↦ rw equal (sym (ap p ((same_iff key other).0 equal)) ∙ holds)
        | inr apart ↦ rw apart refl
      ]

      grown :
          (other : K)
          → p key ≡ false
          → count (same other) s.items + one_if (same other key) ≡ one_if (with_key key p other)
      grown other fails =
          let old = members other in
          elim (Bool-cases (same key other)) [
            | inl equal ↦
                let out : p other ≡ false = sym (ap p ((same_iff key other).0 equal)) ∙ fails in
                let back : same other key ≡ true = symmetric other key ∙ equal in
                rw (old, out, back, equal) refl
            | inr apart ↦
                let back : same other key ≡ false = symmetric other key ∙ apart in
                rw (old, back, apart) (omega arith)
          ]

      length-append_one : (xs : List K) → length (xs ++ key ∷ []) ≡ length xs + 1
      length-append_one [] = refl
      length-append_one (x ∷ xs) = ap suc (length-append_one xs) ∙ omega arith

  -- The answer of `remove`, and the set after it.
  pub remove_lem :
      (s : HashSet K) (p : K → Bool) (key : K)
      → Represents s p
      → Represents (remove same s key).0 (without_key key p)
        × ((remove same s key).1 ≡ (if p key then none else some false))
  unfolding remove
  remove_lem s p key (size, members) =
      let inside = contains_lem s p key (size, members) in
      elim (Bool-cases (p key)) [
        | inl holds ↦
            let found : contains same s key ≡ true = inside ∙ holds in
            let one : count (same key) s.items ≡ 1 = members key ∙ ap one_if holds in
            rw (found, holds)
              (
                (
                  omega (arith, keep-length key s.items),
                  λ other. keep-count key other s.items ∙ less other,
                ),
                refl,
              )
        | inr fails ↦
            let missing : contains same s key ≡ false = inside ∙ fails in
            rw (missing, fails)
              ((size, λ other. members other ∙ ap one_if (kept other fails)), refl)
      ]
    where
      kept : (other : K) → p key ≡ false → p other ≡ without_key key p other
      kept other fails = elim (Bool-cases (same key other)) [
        | inl equal ↦ rw equal (sym (ap p ((same_iff key other).0 equal)) ∙ fails)
        | inr apart ↦ rw apart refl
      ]

      less :
          (other : K)
          → (if same key other then 0 else count (same other) s.items)
            ≡ one_if (without_key key p other)
      less other = elim (Bool-cases (same key other)) [
        | inl equal ↦ rw equal refl
        | inr apart ↦ rw apart (members other)
      ]

  -- What the operations answer: whether the key is added, or nothing where it is removed and false
  -- where it is not there.
  abbrev pub run : HashSet K → List (Operation K) → HashSet K × List (Option Bool)
  run s [] = (s, [])
  run s (adding key ∷ more) =
      ((run (add same s key).0 more).0, some (add same s key).1 ∷ (run (add same s key).0 more).1)
  run s (removing key ∷ more) = (
    (run (remove same s key).0 more).0,
    (remove same s key).1 ∷ (run (remove same s key).0 more).1,
  )

  -- The same on the predicate.
  abbrev pub members_after : (K → Bool) → List (Operation K) → K → Bool
  members_after p [] = p
  members_after p (adding key ∷ more) = members_after (with_key key p) more
  members_after p (removing key ∷ more) = members_after (without_key key p) more

  -- The answers that are documented: whether the key is added, and whether it is removed.
  abbrev pub answers : (K → Bool) → List (Operation K) → List Bool
  answers p [] = []
  answers p (adding key ∷ more) = not (p key) ∷ answers (with_key key p) more
  answers p (removing key ∷ more) = p key ∷ answers (without_key key p) more

  -- What is left of the answers: that a key is removed is not told.
  abbrev pub Told : List (Operation K) → List Bool → List (Option Bool) → Type 0
  Told [] [] [] = Unit
  Told (adding key ∷ more) (b ∷ bs) (o ∷ os) = (o ≡ some b) × Told more bs os
  Told (removing key ∷ more) (true ∷ bs) (o ∷ os) = (o ≡ none) × Told more bs os
  Told (removing key ∷ more) (false ∷ bs) (o ∷ os) = (o ≡ some false) × Told more bs os
  Told operations bs os = ⊥

  Told-removing :
      (key : K) (b : Bool) (o : Option Bool) (more : List (Operation K)) (bs : List Bool)
      (os : List (Option Bool))
      → o ≡ (if b then none else some false)
      → Told more bs os
      → Told (removing key ∷ more) (b ∷ bs) (o ∷ os)
  Told-removing key true o more bs os e h = (e, h)
  Told-removing key false o more bs os e h = (e, h)

  run_lem :
      (s : HashSet K) (p : K → Bool) (operations : List (Operation K))
      → Represents s p
      → Represents (run s operations).0 (members_after p operations)
        × Told operations (answers p operations) (run s operations).1
  run_lem s p [] h = (h, tt)
  run_lem s p (adding key ∷ more) h =
      let (after, answer) = add_lem s p key h in
      let (last, rest) = run_lem (add same s key).0 (with_key key p) more after in
      (last, (ap (λ x. some x) answer, rest))
  run_lem s p (removing key ∷ more) h =
      let (after, answer) = remove_lem s p key h in
      let (last, rest) = run_lem (remove same s key).0 (without_key key p) more after in
      (
        last,
        Told-removing key (p key) (remove same s key).1 more (answers (without_key key p) more)
            (run (remove same s key).0 more).1 answer rest,
      )

  -- After any additions and removals, on a set that was empty, the set holds just the keys of the
  -- abstract set that they are done to, has as many as its length says, and lists each of them once. It
  -- has answered each addition by whether the key was added, and a removal by false where there was no
  -- such key; where a key was removed, the answer is undefined instead of the true that is documented.
  pub run-Represents :
      (operations : List (Operation K))
      → ((key : K)
          → (contains same (run empty operations).0 key ≡ members_after (λ k. false) operations key)
            × (count (same key) (to_array (run empty operations).0)
                ≡ one_if (members_after (λ k. false) operations key)))
        × ((run empty operations).0.length ≡ length (to_array (run empty operations).0))
        × Told operations (answers (λ k. false) operations) (run empty operations).1
  run-Represents operations =
      let (last, answered) = run_lem empty (λ k. false) operations (refl, λ key. refl) in
      (λ key. (contains_lem _ _ key last, last.1 key), last.0, answered)
