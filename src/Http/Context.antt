-- ===== src/Http/Context.antt =====
-- Where the identity of a request comes from: the body and the headers, in their order.
use workspace_service.Base.{
  ◌≡◌, refl, Text, List, [], ◌∷◌, codes, is_empty, trim_space, if◌then◌else◌, arith,
}
use workspace_service.Errors.{ok, ◌>>=◌}
use workspace_service.Http.{
  WorkspaceContext, header_owner_uin, header_uin, header_app_id, header_workspace_id, or_header,
  filled, to_identity, resolve_workspace_context,
}
use workspace_service.Identity.{RequestContext, normalize, validate}
use workspace_service.Identity.Normalizing.{trim_space_idem}

-- The first text that is not blank, without the spaces around it.
unfoldable pub first_non_blank : List Text → Text
first_non_blank [] = codes ""
first_non_blank (v ∷ values) =
    let rest = first_non_blank values in if is_empty (trim_space v) then rest else trim_space v

-- The identity of a request, field by field.
unfoldable pub sources : (Text → Text) → WorkspaceContext → RequestContext
unfolding first_non_blank
sources get_header ws = record {
  owner_uin =
      first_non_blank
        (ws.owner_uin ∷ ws.uin ∷ get_header header_owner_uin ∷ get_header header_uin ∷ []);
  uin =
      first_non_blank
        (ws.uin ∷ ws.owner_uin ∷ get_header header_uin ∷ get_header header_owner_uin ∷ []);
  app_id = first_non_blank (ws.app_id ∷ get_header header_app_id ∷ []);
  workspace_id = first_non_blank (ws.workspace_id ∷ get_header header_workspace_id ∷ []);
}

normalize-filled :
    (get_header : Text → Text) (ws : WorkspaceContext)
    → normalize (filled get_header (to_identity ws)) ≡ sources get_header ws
unfolding normalize filled to_identity or_header sources first_non_blank
normalize-filled h ws = ground (
  arith,
  trim_space_idem ws.owner_uin,
  trim_space_idem ws.uin,
  trim_space_idem ws.app_id,
  trim_space_idem ws.workspace_id,
  trim_space_idem (h header_owner_uin),
  trim_space_idem (h header_uin),
  trim_space_idem (h header_app_id),
  trim_space_idem (h header_workspace_id),
)

-- The identity of a request is the one whose uin is the first text that is not blank of the uin
-- and the owner uin of the body, the uin and the owner uin of the headers, whose owner uin is
-- found likewise from the owner uins first, and whose app id and workspace id come from the body
-- and then the headers, if it is valid; otherwise the error of Validate.
pub resolve_workspace_context-sources :
    (get_header : Text → Text) (ws : WorkspaceContext)
    → resolve_workspace_context get_header ws
      ≡ (validate (sources get_header ws) >>= λ _. ok (sources get_header ws))
unfolding resolve_workspace_context
resolve_workspace_context-sources h ws = rw (normalize-filled h ws) refl
