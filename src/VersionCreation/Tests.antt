-- ===== src/VersionCreation/Tests.antt =====
-- The theorems on versions at the example course.
use instructional_agent_mvp.Prelude.{◌≡◌, refl, arith}
use instructional_agent_mvp.VersionCreation.{resolve_or_create_object_version}
use instructional_agent_mvp.VersionCreation.Numbers.{UniqueNumbers, resolve-UniqueNumbers}
use instructional_agent_mvp.VersionCreation.Reuse.{IsDrawn, IsFree, resolve-IsFree, resolve_lowest}
use instructional_agent_mvp.Examples.{course, version_of}

-- The lesson's version is free and is reused; the goal gets a second version.
course-IsDrawn : IsDrawn course
course-IsDrawn = record { versions = omega arith; contents = tt; targets = tt }

resolve-IsFree_example :
    let (id, db') = resolve_or_create_object_version "goal" course in IsFree "goal" id db'
resolve-IsFree_example = resolve-IsFree "goal" course (refl, (refl, (refl, tt))) course-IsDrawn

lesson-IsFree : IsFree "lesson" 0 course
lesson-IsFree = record {
  version = version_of 0 "lesson" 1 "ELIGIBLE_PENDING";
  found = refl;
  owned = refl;
  eligible = refl;
  no_content = refl;
  no_run = refl;
}

resolve_lowest_example : (resolve_or_create_object_version "lesson" course).1 ≡ course
resolve_lowest_example =
    (resolve_lowest "lesson" 0 course (refl, (refl, (refl, tt))) lesson-IsFree).0

resolve-UniqueNumbers_example :
    UniqueNumbers (resolve_or_create_object_version "goal" course).1.versions
resolve-UniqueNumbers_example = resolve-UniqueNumbers "goal" course (refl, (refl, (refl, tt)))
