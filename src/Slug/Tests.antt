-- ===== src/Slug/Tests.antt =====
-- `slugify` on the source's kind of names.
use crabhelm.Common.{true, false, ◌≡◌, ◌⊎◌, refl}
use crabhelm.Slug.{slugify, is_slug}
use crabhelm.Slug.Shape.{slugify-is_slug}

slugify_tests :
    (slugify "  Research & Ops: Team #1 " ≡ "research-ops-team-1")
    × (slugify "日本" ≡ "")
    × (slugify "--A__b--" ≡ "a-b")
    × (is_slug "a-b" ≡ true)
    × (is_slug "a-" ≡ false)
unfolding slugify is_slug
slugify_tests = (refl, refl, refl, refl, refl)

slugify-is_slug_example : (slugify "Big Claw" ≡ "") ⊎ (is_slug (slugify "Big Claw") ≡ true)
slugify-is_slug_example = slugify-is_slug "Big Claw"
