-- ===== src/File/NodeType.antt =====
-- internal/domain/file/node_type.go
mod Laws
use workspace_service.Base.{
  Bool, Text, codes, text_eq, trim_space, to_lower, has_suffix, if◌then◌else◌,
}

abbrev pub file : Text
file = codes "file"

abbrev pub directory : Text
directory = codes "directory"

abbrev pub git_folder : Text
git_folder = codes "git_folder"

abbrev pub notebook : Text
notebook = codes "notebook"

select_node_type : Text → Text
select_node_type s =
    if text_eq s file
    then file
    else if text_eq s directory
    then directory
    else if text_eq s git_folder
    then git_folder
    else if text_eq s notebook
    then notebook
    else codes ""

-- NormalizeNodeType
unfoldable pub normalize_node_type : Text → Text
unfolding select_node_type to_lower trim_space text_eq
normalize_node_type raw = select_node_type (to_lower (trim_space raw))

-- NodeTypeFromDir
unfoldable pub node_type_from_dir : Bool → Text
node_type_from_dir is_dir = if is_dir then directory else file

-- InferNodeTypeFromName
unfoldable pub infer_node_type_from_name : Text → Bool → Text
unfolding has_suffix to_lower trim_space
infer_node_type_from_name name is_dir =
    if is_dir
    then directory
    else if has_suffix (codes ".ipynb") (to_lower (trim_space name))
    then notebook
    else file
