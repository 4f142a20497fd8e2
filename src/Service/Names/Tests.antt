-- ===== src/Service/Names/Tests.antt =====
-- Slugs of names of their own (internal/service/service.go).
use workspace.Base.{◌≤◌, ◌≡◌, refl, true}
use workspace.Service.Names.{size, slugify}
use workspace.Service.Names.Slugs.{is_slug, slugify-shape}

spaced : slugify (λ s. s) "  my  team_1! " ≡ "my-team-1"
unfolding slugify
spaced = refl

nameless : slugify (λ s. s) " !? " ≡ "ws"
unfolding slugify
nameless = refl

slugify-shape_example :
    (is_slug (slugify (λ s. s) "  my  team_1! ") ≡ true)
    × (size (slugify (λ s. s) "  my  team_1! ") ≤ 48)
slugify-shape_example = slugify-shape (λ s. s) "  my  team_1! "
