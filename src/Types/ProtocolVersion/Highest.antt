-- ===== src/Types/ProtocolVersion/Highest.antt =====
-- lib/types/protocol-version.js: `getHighestCommon` against the versions that the hosts support.
use integration_hell.Common.{
  ℕ, ◌≤◌, ◌<◌, ◌≡◌, ◌≢◌, refl, ap, ◌∙◌, ◌⊎◌, inl, inr, arith, Bool, true, false, ◌||◌, ◌&&◌, Option,
  none, some, List, [], ◌∷◌, ◌++◌, min, ltb, if◌then◌else◌, All, Bool-cases,
}
use integration_hell.Types.ProtocolVersion.{
  Host, Parsed, absent, unparseable, parsed, Found, at_least, release, visit, visit_cassandra,
  visit_all, get_highest_common,
}

-- The highest protocol version of a Cassandra version.
abbrev pub cassandra_limit : Parsed → Option ℕ
cassandra_limit absent = none
cassandra_limit unparseable = none
cassandra_limit (parsed v) =
    if at_least v (release 3 0)
    then some 4
    else if at_least v (release 2 2)
    then some 4
    else if at_least v (release 2 1)
    then some 3
    else if at_least v (release 2 0)
    then some 2
    else some 1

abbrev pub cassandra_needs : Parsed → Bool
cassandra_needs absent = false
cassandra_needs unparseable = false
cassandra_needs (parsed v) = at_least v (release 3 0)

-- The highest protocol version that a host supports, where its version is known.
abbrev pub limit : Host → Option ℕ
limit h = elim h.dse_version [
  | absent ↦ cassandra_limit h.cassandra_version
  | unparseable ↦ cassandra_limit h.cassandra_version
  | parsed dse ↦
      if at_least dse (release 5 1)
      then if at_least dse (release 6 0) then some 66 else some 65
      else cassandra_limit h.cassandra_version
]

-- Whether a host requires version 3.
abbrev pub needs : Host → Bool
needs h = elim h.dse_version [
  | absent ↦ cassandra_needs h.cassandra_version
  | unparseable ↦ cassandra_needs h.cassandra_version
  | parsed dse ↦ if at_least dse (release 5 1) then true else cassandra_needs h.cassandra_version
]

abbrev pub any_needs : List Host → Bool
any_needs [] = false
any_needs (h ∷ hosts) = needs h || any_needs hosts

abbrev pub limited : Option ℕ → ℕ → ℕ
limited none v = v
limited (some l) v = min l v

-- The least of a version and of the highest versions of the hosts.
abbrev pub least : ℕ → List Host → ℕ
least v [] = v
least v (h ∷ hosts) = limited (limit h) (least v hosts)

abbrev pub DseParses : Host → Type 0
DseParses h = h.dse_version ≢ unparseable

-- `maxVersionWith3OrMore` after a host with a limit.
abbrev with3 : Option ℕ → ℕ → ℕ → ℕ
with3 none v w = w
with3 (some l) v w = if ltb l 3 then w else min l v

abbrev after : Host → Found → Found
after h s = record {
  max_version = limited (limit h) s.max_version;
  v3_requirement = needs h || s.v3_requirement;
  max_version_with3_or_more = with3 (limit h) s.max_version s.max_version_with3_or_more;
}

visit_cassandra_lem :
    (p : Parsed) (s : Found)
    → 1 ≤ s.max_version
    → visit_cassandra p s ≡ record {
      max_version = limited (cassandra_limit p) s.max_version;
      v3_requirement = cassandra_needs p || s.v3_requirement;
      max_version_with3_or_more =
          with3 (cassandra_limit p) s.max_version s.max_version_with3_or_more;
    }
unfolding visit_cassandra
visit_cassandra_lem absent s h = refl
visit_cassandra_lem unparseable s h = refl
visit_cassandra_lem (parsed v) s h = ground arith

visit_at :
    (d c : Parsed) (s : Found)
    → d ≢ unparseable
    → 1 ≤ s.max_version
    → visit (record { dse_version = d; cassandra_version = c }) s
      ≡ some (after (record { dse_version = d; cassandra_version = c }) s)
unfolding visit
visit_at absent c s p q = ap some (visit_cassandra_lem c s q)
visit_at unparseable c s p q = absurd (p refl)
visit_at (parsed dse) c s p q =
    let e = visit_cassandra_lem c s q in
    elim (Bool-cases (at_least dse (release 5 1))) [
      | inl new ↦ rw new (ground arith)
      | inr old ↦ rw old (ap some e)
    ]

visit_lem : (h : Host) (s : Found) → DseParses h → 1 ≤ s.max_version → visit h s ≡ some (after h s)
visit_lem h s p q = visit_at h.dse_version h.cassandra_version s p q

cassandra_limited_pos : (p : Parsed) (v : ℕ) → 1 ≤ v → 1 ≤ limited (cassandra_limit p) v
cassandra_limited_pos p v h = ground arith

limited_pos_at :
    (d c : Parsed) (v : ℕ)
    → 1 ≤ v
    → 1 ≤ limited (limit (record { dse_version = d; cassandra_version = c })) v
limited_pos_at absent c v h = cassandra_limited_pos c v h
limited_pos_at unparseable c v h = cassandra_limited_pos c v h
limited_pos_at (parsed dse) c v h = let low = cassandra_limited_pos c v h in ground arith

limited_pos : (h : Host) (v : ℕ) → 1 ≤ v → 1 ≤ limited (limit h) v
limited_pos h v = limited_pos_at h.dse_version h.cassandra_version v

limited_comm : (a b : Option ℕ) (v : ℕ) → limited a (limited b v) ≡ limited b (limited a v)
limited_comm a b v = ground arith

least-limited :
    (h : Host) (v : ℕ) (hosts : List Host)
    → least (limited (limit h) v) hosts ≡ limited (limit h) (least v hosts)
least-limited h v [] = refl
least-limited h v (k ∷ hosts) =
    rw (least-limited h v hosts) (limited_comm (limit k) (limit h) (least v hosts))

or_swap : (a b c : Bool) → (a || (b || c)) ≡ (b || a || c)
or_swap a b c = ground arith

visit_all-cons :
    (h : Host) (hosts : List Host) (s t : Found)
    → visit h s ≡ some t
    → visit_all (h ∷ hosts) s ≡ visit_all hosts t
unfolding visit_all
visit_all-cons h hosts s t e = ap (λ o. elim o [ none ↦ none | some u ↦ visit_all hosts u ]) e

visit_all_lem :
    (hosts : List Host) (s : Found)
    → All DseParses hosts
    → 1 ≤ s.max_version
    → (t : Found) × (visit_all hosts s ≡ some t)
      × (t.max_version ≡ least s.max_version hosts)
      × (t.v3_requirement ≡ (any_needs hosts || s.v3_requirement))
unfolding visit_all
visit_all_lem [] s p q = (s, refl, refl, refl)
visit_all_lem (h ∷ hosts) s p q =
    let r = visit_all_lem hosts (after h s) p.1 (limited_pos h s.max_version q) in
    (
      r.0,
      visit_all-cons h hosts s (after h s) (visit_lem h s p.0 q) ∙ r.1,
      r.2 ∙ least-limited h s.max_version hosts,
      r.3 ∙ or_swap (any_needs hosts) (needs h) s.v3_requirement,
    )

abbrev start : ℕ → Found
start version = record {
  max_version = version;
  v3_requirement = false;
  max_version_with3_or_more = version;
}

abbrev result : Found → ℕ
result s =
    if s.v3_requirement && ltb s.max_version 3 then s.max_version_with3_or_more else s.max_version

get_highest_common-some :
    (version : ℕ) (hosts : List Host) (t : Found)
    → visit_all hosts (start version) ≡ some t
    → get_highest_common version hosts ≡ some (result t)
unfolding get_highest_common
get_highest_common-some version hosts t e =
    ap (λ o. elim o [ none ↦ none | some u ↦ some (result u) ]) e

result_least :
    (t : Found) (n : ℕ) (b : Bool)
    → t.max_version ≡ n
    → t.v3_requirement ≡ (b || false)
    → (b ≡ false) ⊎ (3 ≤ n)
    → result t ≡ n
result_least t n b = ground arith

-- With every DSE version parsed and a connection's version of at least 1: the highest common version is
-- the least of the connection's and of the hosts' highest versions, hosts of no known version left out,
-- where no host requires version 3 or that least version is at least 3.
pub get_highest_common-least :
    (version : ℕ) (hosts : List Host)
    → 1 ≤ version
    → All DseParses hosts
    → (any_needs hosts ≡ false) ⊎ (3 ≤ least version hosts)
    → get_highest_common version hosts ≡ some (least version hosts)
get_highest_common-least version hosts q p r =
    let t = visit_all_lem hosts (start version) p q in
    get_highest_common-some version hosts t.0 t.1
    ∙ ap some (result_least t.0 (least version hosts) (any_needs hosts) t.2 t.3 r)

-- A host that supports version 3, and one that does not; neither may have a DSE version that does not
-- parse.
abbrev pub Newer : Host → Type 0
Newer h = DseParses h × (limited (limit h) 3 ≡ 3)

abbrev pub Older : Host → Type 0
Older h = DseParses h × (limited (limit h) 3 < 3)

older_needs_at :
    (d c : Parsed)
    → limited (limit (record { dse_version = d; cassandra_version = c })) 3 < 3
    → needs (record { dse_version = d; cassandra_version = c }) ≡ false
older_needs_at d c h = ground arith

older_needs : (h : Host) → limited (limit h) 3 < 3 → needs h ≡ false
older_needs h = older_needs_at h.dse_version h.cassandra_version

with3_older : (l : Option ℕ) (v w : ℕ) → limited l 3 < 3 → with3 l v w ≡ w
with3_older l v w = ground arith

limited_older : (l : Option ℕ) (v : ℕ) → limited l 3 < 3 → limited l v < 3
limited_older l v = ground arith

with3_newer : (l : Option ℕ) (v w : ℕ) → limited l 3 ≡ 3 → w ≡ v → with3 l v w ≡ limited l v
with3_newer l v w = ground arith

limited_newer : (l : Option ℕ) (v : ℕ) → limited l 3 ≡ 3 → 3 ≤ v → 3 ≤ limited l v
limited_newer l v = ground arith

abbrev Agrees : Found → Type 0
Agrees s = 3 ≤ s.max_version → s.max_version_with3_or_more ≡ s.max_version

Older-All :
    (older : List Host) (s : Found)
    → All Older older
    → 1 ≤ s.max_version
    → Agrees s
    → (t : Found) × (visit_all older s ≡ some t)
      × (t.max_version_with3_or_more ≡ s.max_version_with3_or_more)
      × (t.v3_requirement ≡ s.v3_requirement)
      × Agrees t
unfolding visit_all
Older-All [] s p q a = (s, refl, refl, refl, a)
Older-All (h ∷ older) s p q a =
    let low = limited_older (limit h) s.max_version p.0.1 in
    let r =
      Older-All older (after h s) p.1 (limited_pos h s.max_version q) (λ three. omega arith) in
    (
      r.0,
      visit_all-cons h older s (after h s) (visit_lem h s p.0.0 q) ∙ r.1,
      r.2 ∙ with3_older (limit h) s.max_version s.max_version_with3_or_more p.0.1,
      r.3 ∙ ap (λ b. b || s.v3_requirement) (older_needs h p.0.1),
      r.4,
    )

Newer-All :
    (newer older : List Host) (s : Found)
    → All Newer newer
    → All Older older
    → 3 ≤ s.max_version
    → s.max_version_with3_or_more ≡ s.max_version
    → (t : Found) × (visit_all (newer ++ older) s ≡ some t)
      × (t.max_version_with3_or_more ≡ least s.max_version newer)
      × (t.v3_requirement ≡ (any_needs newer || s.v3_requirement))
      × Agrees t
unfolding visit_all
Newer-All [] older s p q m w =
    let r = Older-All older s q (omega arith) (λ three. w) in (r.0, r.1, r.2 ∙ w, r.3, r.4)
Newer-All (h ∷ newer) older s p q m w =
    let r =
      Newer-All newer older (after h s) p.1 q (limited_newer (limit h) s.max_version p.0.1 m)
        (with3_newer (limit h) s.max_version s.max_version_with3_or_more p.0.1 w) in
    (
      r.0,
      visit_all-cons h (newer ++ older) s (after h s) (visit_lem h s p.0.0 (omega arith)) ∙ r.1,
      r.2 ∙ least-limited h s.max_version newer,
      r.3 ∙ or_swap (any_needs newer) (needs h) s.v3_requirement,
      r.4,
    )

result_newer :
    (t : Found) (n : ℕ) (b : Bool)
    → t.max_version_with3_or_more ≡ n
    → t.v3_requirement ≡ (b || false)
    → b ≡ true
    → Agrees t
    → result t ≡ n
result_newer t n b p q r a = ground arith

-- With every DSE version parsed: where the hosts that do not support version 3 come after all those
-- that do, one of which requires it, and the connection's version is at least 3: the highest common
-- version is the least of the connection's and of the highest versions of those that do; the older
-- hosts do not count.
pub get_highest_common-Newer :
    (version : ℕ) (newer older : List Host)
    → 3 ≤ version
    → All Newer newer
    → All Older older
    → any_needs newer ≡ true
    → get_highest_common version (newer ++ older) ≡ some (least version newer)
get_highest_common-Newer version newer older m p q r =
    let t = Newer-All newer older (start version) p q m refl in
    get_highest_common-some version (newer ++ older) t.0 t.1
    ∙ ap some (result_newer t.0 (least version newer) (any_needs newer) t.2 t.3 r t.4)
