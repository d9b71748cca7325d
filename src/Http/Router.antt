-- ===== src/Http/Router.antt =====
-- internal/adapter/http/router/router.go: joining a route to the prefix, and the routes.
pub mod FileRoutes
pub mod GitRoutes
pub mod FileScope
pub mod GitScope
pub mod FileRefusals
pub mod GitRefusals
pub mod StorageFaults
mod Examples
use workspace_service.Base.{
  Text, codes, [], ◌∷◌, ◌++◌, ◌||◌, ◌==◌, ◌&&◌, is_empty, text_eq, trim_space, if◌then◌else◌,
}
use workspace_service.FilePath.{separator}

-- strings.TrimPrefix(s, "/")
unfoldable pub trim_prefix : Text → Text
trim_prefix [] = []
trim_prefix (c ∷ s) = if c == separator then s else c ∷ s

-- strings.TrimSuffix(s, "/")
unfoldable pub trim_suffix : Text → Text
trim_suffix [] = []
trim_suffix (c ∷ s) =
    let rest = trim_suffix s in if is_empty s && c == separator then [] else c ∷ rest

-- The slashes in front are cut off.
unfoldable pub trim_slashes_left : Text → Text
trim_slashes_left [] = []
trim_slashes_left (c ∷ s) = let rest = trim_slashes_left s in if c == separator then rest else c ∷ s

unfoldable pub trim_slashes_right : Text → Text
trim_slashes_right [] = []
trim_slashes_right (c ∷ s) =
    let rest = trim_slashes_right s in if c == separator && is_empty rest then [] else c ∷ rest

-- The route for a prefix without spaces around it.
unfoldable pub join_trimmed : Text → Text → Text
unfolding trim_prefix trim_suffix trim_slashes_left trim_slashes_right text_eq
join_trimmed prefix path =
    if is_empty prefix || text_eq prefix (separator ∷ [])
    then path
    else separator
      ∷ trim_slashes_right
          (trim_slashes_left (trim_suffix prefix ++ (separator ∷ trim_prefix path)))

-- joinRoute
unfoldable pub join_route : Text → Text → Text
unfolding join_trimmed trim_space
join_route prefix path = join_trimmed (trim_space prefix) path
