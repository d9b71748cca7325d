-- ===== src/FsService/Recorder/Examples.antt =====
-- Runs and instances of the recorder.
use workspace_service.Base.{◌≡◌, refl, codes, Text, true, false, none, some}
use workspace_service.Errors.{Result, ok}
use workspace_service.File.{create_file}
use workspace_service.File.NodeType.{file}
use workspace_service.FileInfo.{Actor, FileInfo}
use workspace_service.Memory.Intents.{new_file_intent_store}
use workspace_service.Memory.Nodes.{new_file_node_store}
use workspace_service.FsService.Recorder.{enqueue, run}
use workspace_service.FsService.Recorder.Protocol.{
  memory_recorder, Recorded, run-Recorded, run-answer,
}
use workspace_service.FsService.Recovery.World.{World}

abbrev actor : Actor
actor = record {
  owner_uin = codes "100";
  uin = codes "200";
  app_id = codes "app";
  workspace_id = codes "ws";
}

abbrev path : Text
path = codes "/mnt/jfs/app/ws/users/200/a.txt"

abbrev written : FileInfo
written = record {
  name = codes "a.txt";
  path = path;
  is_dir = false;
  size = 3;
  modify_time = 10;
  inode_id = 42;
  owner_uin = codes "";
  creator_uin = codes "";
  node_type = codes "";
  is_git_folder = false;
  in_recycle = false;
  origin_path = codes "";
}

abbrev empty_world : World
empty_world = record {
  now = 7;
  intents = new_file_intent_store;
  nodes = new_file_node_store;
  disk = λ t p. ok (0, false);
  cancelled = λ t. none;
}

-- An action that puts the file on the storage.
abbrev write : World → Result FileInfo × World
write w = (ok written, record w { disk = λ t p. ok (42, true) })

run-Recorded_example :
    Recorded
      (codes "id")
      actor
      file
      (write (enqueue memory_recorder (codes "id") create_file path actor file empty_world).1)
      (run (some memory_recorder) (codes "id") create_file path actor file write empty_world).1
run-Recorded_example =
    run-Recorded (codes "id") create_file path actor file write empty_world refl refl (λ v. refl)

run-answer_example :
    (run (some memory_recorder) (codes "id") create_file path actor file write empty_world).0
    ≡ (write (enqueue memory_recorder (codes "id") create_file path actor file empty_world).1).0
run-answer_example =
    run-answer memory_recorder (codes "id") create_file path actor file write empty_world
