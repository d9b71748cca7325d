-- ===== src/File/NodeType/Laws.antt =====
-- Node types after normalizing.
use workspace_service.Base.{◌≡◌, refl, codes}
use workspace_service.File.NodeType.{normalize_node_type, notebook}

normalize_mixed : normalize_node_type (codes " NoteBook\n") ≡ notebook
unfolding normalize_node_type
normalize_mixed = refl
