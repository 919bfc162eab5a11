-- ===== src/Policies/LoadBalancing/TokenAware/AllowList.antt =====
-- What the iterator of `AllowListPolicy` (lib/policies/load-balancing.js) gives in all, and the distances.
use Prim.Native.String.{String}
use text.Mathlib.Text.{◌==◌}
use text.Mathlib.TextEquality.{eq_iff}
use mathlib.Core.Path.{subst}
use integration_hell.Common.Counts.{keep}
use integration_hell.Common.{
  ℕ, zero, suc, ◌≤◌, ◌≡◌, ◌↔◌, ◌⊎◌, refl, sym, ap, ◌∙◌, arith, inl, inr, true, false, Bool-cases,
  none, some, List, [], ◌∷◌, length,
}
use integration_hell.Policies.LoadBalancing.{
  Host, Distance, ignored, drain, drain-more, drain-done, drain-eq,
}
use integration_hell.Policies.LoadBalancing.TokenAware.{
  in_list, contains, allow_distance, filter_next,
}

filter_next-not :
    (allow : List String) (h : Host) (child : List Host)
    → contains allow h ≡ false
    → filter_next allow (h ∷ child) ≡ filter_next allow child
unfolding filter_next
filter_next-not allow h child e = rw e refl

filter_next-in :
    (allow : List String) (h : Host) (child : List Host)
    → contains allow h ≡ true
    → filter_next allow (h ∷ child) ≡ (some h, child)
unfolding filter_next
filter_next-in allow h child e = rw e refl

filter_next-end : (allow : List String) → (filter_next allow []).0 ≡ none
unfolding filter_next
filter_next-end allow = refl

drain-filter_next :
    (allow : List String) (child : List Host) (fuel : ℕ)
    → length child ≤ fuel
    → drain (filter_next allow) fuel child ≡ keep (contains allow) child
unfolding drain
drain-filter_next allow [] zero h = refl
drain-filter_next allow [] (suc fuel) h =
    drain-done (filter_next allow) fuel [] (filter_next-end allow)
drain-filter_next allow (x ∷ child) zero h = absurd (omega arith)
drain-filter_next allow (x ∷ child) (suc fuel) h = elim (Bool-cases (contains allow x)) [
  | inl allowed ↦ rw allowed (
      drain-more (filter_next allow) fuel (x ∷ child) (filter_next-in allow x child allowed)
      ∙ ap (x ∷◌) (drain-filter_next allow child fuel (omega arith)))
  | inr refused ↦ rw refused (
      drain-eq (filter_next allow) fuel (x ∷ child) child (filter_next-not allow x child refused)
      ∙ drain-filter_next allow child (suc fuel) (omega arith))
]

-- Whether an address is on a list.
abbrev pub Listed : List String → String → Type 0
Listed [] a = ⊥
Listed (b ∷ allow) a = (a ≡ b) ⊎ Listed allow a

in_list-Listed : (allow : List String) (a : String) → (in_list allow a ≡ true) ↔ Listed allow a
in_list-Listed [] a = ((λ h. absurd (ground arith)), λ h. absurd h)
in_list-Listed (b ∷ allow) a =
    let later = in_list-Listed allow a in
    elim (Bool-cases (b == a)) [
      | inl equal ↦ rw equal ((λ h. inl (sym ((eq_iff b a).0 equal))), λ h. refl)
      | inr apart ↦ rw apart (
        (λ h. inr (later.0 h)),
        λ h. elim h [
          | inl e ↦ let at = (eq_iff b a).1 (sym e) in ground arith
          | inr more ↦ later.1 more
        ],
      )
    ]

-- What is left of hosts: those whose address is on the list, and no others.
abbrev pub Allowed : List String → List Host → List Host → Type 0
Allowed allow [] left = left ≡ []
Allowed allow (h ∷ child) left =
    (Listed allow h.address × ((rest : List Host) × (left ≡ h ∷ rest) × Allowed allow child rest))
    ⊎ ((¬ Listed allow h.address) × Allowed allow child left)

keep-Allowed :
    (allow : List String) (child : List Host) → Allowed allow child (keep (contains allow) child)
unfolding contains
keep-Allowed allow [] = refl
keep-Allowed allow (h ∷ child) = elim (Bool-cases (in_list allow h.address)) [
  | inl inside ↦ rw inside (
      inl (
        (in_list-Listed allow h.address).0 inside,
        (keep (contains allow) child, refl, keep-Allowed allow child),
      ))
  | inr outside ↦
      rw outside (
        inr
          ((λ h. let at = (in_list-Listed allow _).1 h in ground arith), keep-Allowed allow child))
]

distance_lem :
    (allow : List String) (get_distance : Host → Distance) (h : Host)
    → (Listed allow h.address × (allow_distance allow get_distance h ≡ get_distance h))
      ⊎ ((¬ Listed allow h.address) × (allow_distance allow get_distance h ≡ ignored))
unfolding allow_distance contains
distance_lem allow get_distance h = elim (Bool-cases (in_list allow h.address)) [
  | inl inside ↦ rw inside (inl ((in_list-Listed allow h.address).0 inside, refl))
  | inr outside ↦
      rw outside (inr ((λ l. let at = (in_list-Listed allow h.address).1 l in ground arith), refl))
]

-- The iterator of an allow-list policy, called until it is done and at least once for each host of the
-- child's plan, gives the hosts of that plan whose address is on the list, in its order, and no others;
-- and a host has the distance of the child policy if its address is on the list, and is ignored if not.
pub allow_list-Allowed :
    (allow : List String) (get_distance : Host → Distance) (child : List Host) (fuel : ℕ)
    → length child ≤ fuel
    → Allowed allow child (drain (filter_next allow) fuel child)
      × ((h : Host)
          → (Listed allow h.address × (allow_distance allow get_distance h ≡ get_distance h))
            ⊎ ((¬ Listed allow h.address) × (allow_distance allow get_distance h ≡ ignored)))
allow_list-Allowed allow get_distance child fuel fits = (
  subst (Allowed allow child) (sym (drain-filter_next allow child fuel fits))
      (keep-Allowed allow child),
  distance_lem allow get_distance,
)
