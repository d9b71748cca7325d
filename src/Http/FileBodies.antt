-- ===== src/Http/FileBodies.antt =====
-- internal/adapter/http/req/fs.go: the bodies of the requests to the file service.
use workspace_service.Base.{Bool, Text}
use workspace_service.Http.{WorkspaceContext}

pub record CreateFolderReq : Type 0 where
  pub workspace_context : WorkspaceContext
  pub path : Text

pub record CreateFileReq : Type 0 where
  pub workspace_context : WorkspaceContext
  pub path : Text
  pub content_base64 : Text
  pub overwrite : Bool

pub record CreateNotebookReq : Type 0 where
  pub workspace_context : WorkspaceContext
  pub path : Text
  pub kernel_name : Text
  pub overwrite : Bool

pub record DeletePathReq : Type 0 where
  pub workspace_context : WorkspaceContext
  pub path : Text
  pub soft_delete : Bool
  pub permanent : Bool

pub record MovePathReq : Type 0 where
  pub workspace_context : WorkspaceContext
  pub src_path : Text
  pub dest_path : Text
  pub overwrite : Bool

pub record CopyPathReq : Type 0 where
  pub workspace_context : WorkspaceContext
  pub src_path : Text
  pub dest_path : Text
  pub overwrite : Bool

pub record RenamePathReq : Type 0 where
  pub workspace_context : WorkspaceContext
  pub path : Text
  pub new_name : Text
  pub overwrite : Bool

pub record ListFilesReq : Type 0 where
  pub workspace_context : WorkspaceContext
  pub path : Text
  pub recursive : Bool

pub record GetFileInfoReq : Type 0 where
  pub workspace_context : WorkspaceContext
  pub path : Text

pub record ReadFileReq : Type 0 where
  pub workspace_context : WorkspaceContext
  pub path : Text

pub record WriteFileReq : Type 0 where
  pub workspace_context : WorkspaceContext
  pub path : Text
  pub content_base64 : Text
  pub overwrite : Bool

pub record DownloadFileReq : Type 0 where
  pub workspace_context : WorkspaceContext
  pub path : Text

pub record ValidatePathReq : Type 0 where
  pub workspace_context : WorkspaceContext
  pub parent_path : Text
  pub name : Text

pub record GetFolderNodePathReq : Type 0 where
  pub workspace_context : WorkspaceContext
  pub path : Text

pub record ListRecycleBinReq : Type 0 where
  pub workspace_context : WorkspaceContext

pub record RestorePathReq : Type 0 where
  pub workspace_context : WorkspaceContext
  pub trash_path : Text
  pub target_parent : Text

pub record EmptyRecycleBinReq : Type 0 where
  pub workspace_context : WorkspaceContext
