-- ===== src/FileInfo.antt =====
-- internal/domain/fs/fs.go: what is known of a file, the requests to the storage client, and its
-- interface, whose operations take the state W that they act on.
use workspace_service.Base.{ℕ, Bool, List, Text}
use workspace_service.Calls.{Call}
use workspace_service.Identity.{RequestContext}

-- Actor is another name of RequestContext.
abbrev pub Actor : Type 0
Actor = RequestContext

pub record FileInfo : Type 0 where
  pub name : Text
  pub path : Text
  pub is_dir : Bool
  pub size : ℕ
  pub modify_time : ℕ
  pub inode_id : ℕ
  pub owner_uin : Text
  pub creator_uin : Text
  pub node_type : Text
  pub is_git_folder : Bool
  pub in_recycle : Bool
  pub origin_path : Text

pub record CreateFolderReq : Type 0 where
  pub actor : Actor
  pub path : Text

pub record CreateFileReq : Type 0 where
  pub actor : Actor
  pub path : Text
  pub content : List ℕ
  pub overwrite : Bool

pub record CreateNotebookReq : Type 0 where
  pub actor : Actor
  pub path : Text
  pub kernel_name : Text
  pub overwrite : Bool

pub record DeletePathReq : Type 0 where
  pub actor : Actor
  pub path : Text
  pub soft_delete : Bool
  pub permanent : Bool

pub record MovePathReq : Type 0 where
  pub actor : Actor
  pub src_path : Text
  pub dest_path : Text
  pub overwrite : Bool

pub record CopyPathReq : Type 0 where
  pub actor : Actor
  pub src_path : Text
  pub dest_path : Text
  pub overwrite : Bool

pub record RenamePathReq : Type 0 where
  pub actor : Actor
  pub path : Text
  pub new_name : Text
  pub overwrite : Bool

pub record ListFilesReq : Type 0 where
  pub actor : Actor
  pub path : Text
  pub recursive : Bool

pub record ValidatePathReq : Type 0 where
  pub actor : Actor
  pub parent_path : Text
  pub name : Text

pub record GetFolderNodePathReq : Type 0 where
  pub actor : Actor
  pub path : Text

pub record RestorePathReq : Type 0 where
  pub actor : Actor
  pub trash_path : Text
  pub target_parent : Text

pub record ReadFileReq : Type 0 where
  pub actor : Actor
  pub path : Text

pub record ReadFileResult : Type 0 where
  pub info : FileInfo
  pub content : List ℕ

pub record WriteFileReq : Type 0 where
  pub actor : Actor
  pub path : Text
  pub content : List ℕ
  pub overwrite : Bool

pub record WorkspaceFs (W : Type 0) : Type 0 where
  pub create_folder : CreateFolderReq → Call W FileInfo
  pub create_file : CreateFileReq → Call W FileInfo
  pub create_notebook : CreateNotebookReq → Call W FileInfo
  pub delete_path : DeletePathReq → Call W (Unit {0})
  pub move_path : MovePathReq → Call W FileInfo
  pub copy_path : CopyPathReq → Call W FileInfo
  pub rename_path : RenamePathReq → Call W FileInfo
  pub list_files : ListFilesReq → Call W (List FileInfo)
  pub validate_path : ValidatePathReq → Call W Bool
  pub get_folder_node_path : GetFolderNodePathReq → Call W (List FileInfo)
  pub list_recycle_bin : Actor → Call W (List FileInfo)
  pub restore_path : RestorePathReq → Call W FileInfo
  pub empty_recycle_bin : Actor → Call W (Unit {0})
  pub get_file_info : Text → Call W FileInfo
  pub read_file : ReadFileReq → Call W ReadFileResult
  pub write_file : WriteFileReq → Call W FileInfo
