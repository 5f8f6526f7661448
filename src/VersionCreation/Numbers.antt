-- ===== src/VersionCreation/Numbers.antt =====
-- The versions of an object have different numbers, which is the constraint on
-- `(object_id, version_number)` of `object_version`.
use instructional_agent_mvp.Prelude.{
  ℕ, ◌+◌, ◌<◌, ◌≡◌, refl, String, Bool, false, ◌&&◌, ◌||◌, List, [], ◌∷◌, arith, exists, insert,
  text_eq, text_eq_iff, ◌==◌, Option-cases, inl, inr,
}
use instructional_agent_mvp.Schema.{ObjectVersion, Database}
use instructional_agent_mvp.VersionCreation.{
  max_version, versions_of, new_version, lowest, is_reusable, resolve_or_create_object_version,
}

abbrev pub takes : String → ℕ → ObjectVersion → Bool
takes o n v = text_eq v.object_id o && v.version_number == n

abbrev pub UniqueNumbers : List ObjectVersion → Type 0
UniqueNumbers [] = Unit
UniqueNumbers (v ∷ rows) =
    (exists (takes v.object_id v.version_number) rows ≡ false) × UniqueNumbers rows

above_max :
    (o : String) (n : ℕ) (rows : List ObjectVersion)
    → max_version (versions_of o rows) < n
    → exists (takes o n) rows ≡ false
above_max o n [] h = refl
above_max o n (v ∷ rows) h = ground (arith, above_max o n rows)

exists-insert :
    (k : ObjectVersion → Bool) (n : ObjectVersion) (rows : List ObjectVersion)
    → exists k (insert n rows) ≡ exists k rows || k n
exists-insert k n [] = ground arith
exists-insert k n (v ∷ rows) = ground (arith, exists-insert k n rows)

insert-UniqueNumbers :
    (n : ObjectVersion) (rows : List ObjectVersion)
    → UniqueNumbers rows
    → exists (takes n.object_id n.version_number) rows ≡ false
    → UniqueNumbers (insert n rows)
insert-UniqueNumbers n [] u h = (refl, tt)
insert-UniqueNumbers n (v ∷ rows) u h = (
  ground (
    arith,
    exists-insert (takes v.object_id v.version_number) n rows,
    text_eq_iff v.object_id n.object_id,
    text_eq_iff n.object_id v.object_id,
    u.0,
  ),
  insert-UniqueNumbers n rows u.1 (ground arith),
)

-- Resolving a version keeps the version numbers of every object distinct.
pub resolve-UniqueNumbers :
    (o : String) (db : Database)
    → UniqueNumbers db.versions
    → UniqueNumbers (resolve_or_create_object_version o db).1.versions
unfolding resolve_or_create_object_version
resolve-UniqueNumbers o db u = elim (Option-cases (lowest (is_reusable o db) db.versions)) [
  | inl e ↦
      rw (e, resolve_or_create_object_version)
        (insert-UniqueNumbers
          (new_version o (max_version (versions_of o db.versions) + 1) db.next_uuid) db.versions u
          (above_max o (max_version (versions_of o db.versions) + 1) db.versions (omega arith)))
  | inr (v, e) ↦ rw (e, resolve_or_create_object_version) u
]
