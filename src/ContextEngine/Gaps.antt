-- ===== src/ContextEngine/Gaps.antt =====
-- When a package has a blocking gap.
use instructional_agent_mvp.Prelude.{
  ◌≡◌, ◌⊎◌, ◌∙◌, refl, ap, String, Bool, true, false, ◌||◌, Option, some, none, List, [], ◌∷◌, ◌++◌,
  arith, exists, text_eq, is_none, inl, inr, Option-cases,
}
use instructional_agent_mvp.Schema.{Uuid, Database}
use instructional_agent_mvp.Session.{Result, ok, raised}
use instructional_agent_mvp.ContextEngine.Contract.{ContextMapping, RequiredEvidence}
use instructional_agent_mvp.ContextEngine.Entries.{Gap}
use instructional_agent_mvp.ContextEngine.Resolvers.{
  Adapters, satisfied, blocked_by_dependency, DependencyResolution, found, missing,
}
use instructional_agent_mvp.ContextEngine.Assembly.{
  ContextRequest, Contents, Target, effective, rejected, complete, collect, target_contents,
  add_dependency, add_dependencies, add_evidence, resolve_target, assemble, compare_with_approved,
  gaps_of_evidence, evidence_entry, dependency_gap, ◌>>=◌,
}

abbrev pub is_blocking : Gap → Bool
is_blocking g = g.blocking

abbrev pub has_blocking : List Gap → Bool
has_blocking = exists is_blocking

abbrev pub is_blocked : DependencyResolution → Bool
is_blocked d = elim d.status [ satisfied ↦ false | blocked_by_dependency ↦ true ]

-- A required kind of evidence that is missing and blocks.
abbrev pub lacks : Adapters → String → Database → RequiredEvidence → Bool
lacks a target db r =
    let e = a.retrieve target r db in
    elim e.resolution_status [ found ↦ false | missing ↦ text_eq e.blocking_behavior "BLOCKING" ]

exists-append {ℓ} :
    {A : Type ℓ} (p : A → Bool) (l m : List A) → exists p (l ++ m) ≡ (exists p l || exists p m)
exists-append p [] m = refl
exists-append p (x ∷ l) m = ground (arith, exists-append p l m)

-- A chain that ends well has gone well at its first step.
pub bind-ok :
    {A B : Type 0} (r : Result A) (f : A → Result B) (b : B)
    → (r >>= f) ≡ ok b
    → (a : A) × ((r ≡ ok a) × (f a ≡ ok b))
bind-ok (ok a) f b e = (a, (refl, e))
bind-ok (raised x) f b e = absurd (ground arith)

module _ (target : String) (db : Database) where
  add_dependency-gaps :
      (d : DependencyResolution) (c c' : Contents)
      → add_dependency target db c d ≡ ok c'
      → (has_blocking c'.gaps ≡ (has_blocking c.gaps || is_blocked d))
        × (c'.effective_version_id ≡ c.effective_version_id)
  unfolding add_dependency
  add_dependency-gaps d c c' e =
      ground (arith, exists-append is_blocking c.gaps (dependency_gap d ∷ []))

  add_dependencies-gaps :
      (l : List DependencyResolution) (c c' : Contents)
      → add_dependencies target db l c ≡ ok c'
      → (has_blocking c'.gaps ≡ (has_blocking c.gaps || exists is_blocked l))
        × (c'.effective_version_id ≡ c.effective_version_id)
  unfolding add_dependencies
  add_dependencies-gaps [] c c' e = ground arith
  add_dependencies-gaps (d ∷ l) c c' e =
      let (c₁, (first, rest)) = bind-ok (add_dependency target db c d) _ c' e in
      ground (arith, add_dependency-gaps d c c₁ first, add_dependencies-gaps l c₁ c' rest)

  add_evidence-gaps :
      (a : Adapters) (l : List RequiredEvidence) (c : Contents)
      → (has_blocking (add_evidence a target db l c).gaps
          ≡ (has_blocking c.gaps || exists (lacks a target db) l))
        × ((add_evidence a target db l c).effective_version_id ≡ c.effective_version_id)
  unfolding add_evidence
  add_evidence-gaps a [] c = ground arith
  add_evidence-gaps a (r ∷ l) c =
      let e = a.retrieve target r db in
      ground (
        arith,
        exists-append is_blocking c.gaps (gaps_of_evidence r e),
        add_evidence-gaps a l (record c {
          evidence = c.evidence ++ evidence_entry e ∷ [];
          gaps = c.gaps ++ gaps_of_evidence r e;
        }),
      )

-- What the version resolution leaves: a version and no gap, or no version and at most a blocking gap.
abbrev IsStart : Option Uuid → List Gap → Type 0
IsStart (some id) gaps = gaps ≡ []
IsStart none gaps = (gaps ≡ []) ⊎ (has_blocking gaps ≡ true)

compare-IsStart :
    (target : String) (id : Uuid) (db : Database) (v : Option Uuid) (gaps : List Gap)
    → compare_with_approved target id db ≡ ok (effective v gaps)
    → IsStart v gaps
unfolding compare_with_approved
compare-IsStart target id db none gaps e = ground arith
compare-IsStart target id db (some i) gaps e = ground arith

resolve_target-IsStart :
    (str_uuid : Uuid → String) (q : ContextRequest) (db : Database) (v : Option Uuid)
    (gaps : List Gap)
    → resolve_target str_uuid q db ≡ ok (effective v gaps)
    → IsStart v gaps
unfolding resolve_target
resolve_target-IsStart str_uuid q db none gaps e = elim (Option-cases q.pinned_version_id) [
  | inl e' ↦ ground arith
  | inr (id, e') ↦ ground (arith, compare-IsStart q.target_object_id id db none gaps)
]
resolve_target-IsStart str_uuid q db (some v) gaps e = elim (Option-cases q.pinned_version_id) [
  | inl e' ↦ ground arith
  | inr (id, e') ↦ ground (arith, compare-IsStart q.target_object_id id db (some v) gaps)
]

target_contents-gaps :
    (q : ContextRequest) (db : Database) (v : Option Uuid) (gaps : List Gap) (c : Contents)
    → IsStart v gaps
    → target_contents q v gaps db ≡ ok c
    → (has_blocking c.gaps ≡ is_none v) × (c.effective_version_id ≡ v)
unfolding target_contents
target_contents-gaps q db none [] c s e = ground arith
target_contents-gaps q db none (g ∷ rest) c s e = ground arith
target_contents-gaps q db (some id) gaps c s e = ground arith

collect-gaps :
    (a : Adapters) (m : ContextMapping) (q : ContextRequest) (db : Database) (c : Contents)
    (t : Target)
    → ((v : Option Uuid) (gaps : List Gap) → t ≡ effective v gaps → IsStart v gaps)
    → collect a m q db t ≡ ok (complete c)
    → has_blocking c.gaps ≡ (
        is_none c.effective_version_id
        || exists is_blocked (a.resolve q.target_object_id m.required_relations db)
        || exists (lacks a q.target_object_id db) m.required_evidence)
collect-gaps a m q db c (rejected o) start e = absurd (ground arith)
collect-gaps a m q db c (effective v gaps) start e =
    let target = q.target_object_id in
    let deps = a.resolve target m.required_relations db in
    let (c₀, (first, rest)) = bind-ok (target_contents q v gaps db) _ (complete c) e in
    let (c₁, (added, last)) = bind-ok (add_dependencies target db deps c₀) _ (complete c) rest in
    ground (
      arith,
      target_contents-gaps q db v gaps c₀ (start v gaps refl) first,
      add_dependencies-gaps target db deps c₀ c₁ added,
      add_evidence-gaps target db a m.required_evidence c₁,
    )

-- The package has a blocking gap exactly if no version of the target counts, a required relation is
-- blocked, or a required kind of blocking evidence is missing, whatever adapters resolve them.
pub blocking_iff_lacking :
    (str_uuid : Uuid → String) (a : Adapters) (m : ContextMapping) (q : ContextRequest)
    (db : Database) (c : Contents)
    → assemble str_uuid a m q db ≡ ok (complete c)
    → has_blocking c.gaps ≡ (
        is_none c.effective_version_id
        || exists is_blocked (a.resolve q.target_object_id m.required_relations db)
        || exists (lacks a q.target_object_id db) m.required_evidence)
unfolding assemble
blocking_iff_lacking str_uuid a m q db c e =
    let (t, (resolved, collected)) = bind-ok (resolve_target str_uuid q db) _ (complete c) e in
    collect-gaps a m q db c t
      (λ v gaps e'. resolve_target-IsStart str_uuid q db v gaps (resolved ∙ ap ok e')) collected
