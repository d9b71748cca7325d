-- ===== src/Memory/Intents/Examples.antt =====
-- Instances of the laws of the listing.
use workspace_service.Base.{◌≡◌, codes, [], ◌∷◌, none, lookup, text_key, refl, All, text_eq}
use workspace_service.File.{Intent, IntentStatus, create_file}
use workspace_service.Memory.Intents.{FileIntentStore, list_pending}
use workspace_service.Memory.Intents.Listing.{IsKeyed, IsListed, IsSorted, list_pending-IsListed}

abbrev first : Intent
first = record {
  id = codes "a";
  op = create_file;
  abs_path = codes "/mnt/a";
  actor = record {
    owner_uin = codes "100";
    uin = codes "200";
    app_id = codes "app";
    workspace_id = codes "ws";
  };
  node_type = codes "file";
  status = IntentStatus.pending;
  attempts = 0;
  last_error = codes "";
  created_at = 1;
  updated_at = 1;
}

-- The later intent stands first in the map.
abbrev two_intents : FileIntentStore
two_intents = record {
  seq = 2;
  order = (codes "b", 2) ∷ (codes "a", 1) ∷ [];
  intents = (codes "b", record first { id = codes "b" }) ∷ (codes "a", first) ∷ [];
  enqueue_err = none;
}

two-IsKeyed : IsKeyed two_intents.intents
unfolding lookup text_eq
two-IsKeyed = (refl, refl, (refl, refl, tt))

list_sorted : list_pending 0 two_intents ≡ first ∷ record first { id = codes "b" } ∷ []
unfolding list_pending text_eq
list_sorted = refl

list_pending-IsListed_example :
    All (IsListed two_intents.intents) (list_pending 1 two_intents)
    × IsSorted two_intents.order (list_pending 1 two_intents)
list_pending-IsListed_example = list_pending-IsListed 1 two_intents two-IsKeyed
