-- ===== src/GitService/Folder/Guarded.antt =====
-- A folder is reported as waiting or cloning only while a goroutine is on its way to settle it.
use workspace_service.Base.{
  ℕ, zero, suc, ◌≡◌, refl, Bool, true, false, ◌&&◌, ◌||◌, Option, none, some, List, [], ◌∷◌, ◌++◌,
  Text, text_eq, text_key, ◌==◌, arith, codes,
}
use workspace_service.Errors.{Error, Result, ok, err}
use workspace_service.GitClient.{CloneReq}
use workspace_service.GitService.{Service}
use workspace_service.GitService.Folder.{
  GitFolderJob, CloneJobRegistry, get, Stage, starting, in_clone, failing, cloned, recording,
  CloneTask, job_of, after_clone, Machine, advance, advance_nth, create_git_folder, started, start,
  new_clone_job_registry, Reached, idle, created, advanced, elsewhere, step_nth,
}
use workspace_service.GitService.Folder.Registry.{get-set}

-- The folder is reported as waiting or cloning.
unfoldable pub busy : Option GitFolderJob → Bool
busy none = false
busy (some job) = job.status == 1 || job.status == 2

-- The goroutine sets a final status yet.
unfoldable pub unsettled : Stage → Bool
unsettled starting = true
unsettled in_clone = true
unsettled (failing message) = true
unsettled cloned = true
unsettled recording = false

unfoldable pub at_work : Text → List CloneTask → Bool
unfolding unsettled
at_work key [] = false
at_work key (t ∷ ts) = (text_eq t.key key && unsettled t.stage) || at_work key ts

at_work-append :
    (key : Text) (ts us : List CloneTask)
    → at_work key (ts ++ us) ≡ (at_work key ts || at_work key us)
unfolding at_work
at_work-append key [] us = refl
at_work-append key (t ∷ ts) us = ground (arith, at_work-append key ts us)

unsettled-after_clone : {A : Type 0} (r : Result A) → unsettled (after_clone r) ≡ true
unfolding unsettled after_clone
unsettled-after_clone (ok r) = refl
unsettled-after_clone (err e) = refl

module _ {W : Type 0} (s : Service W) where
  advance-guarded :
      (key : Text) (others : Bool) (t : CloneTask) (stage : Stage) (r : CloneJobRegistry) (w : W)
      → t.stage ≡ stage
      → (busy (get key r) ≡ true → (at_work key (t ∷ []) || others) ≡ true)
      → busy (get key (advance s t r w).1) ≡ true
      → (at_work key (advance s t r w).0 || others) ≡ true
  unfolding advance busy at_work unsettled job_of after_clone
  advance-guarded key others t starting r w e h b =
      ground (arith, get-set t.key key (job_of t 2 (codes "")) r)
  advance-guarded key others t in_clone r w e h b =
      ground (arith, unsettled-after_clone (s.git_client.clone t.req w).0)
  advance-guarded key others t (failing m) r w e h b =
      ground (arith, get-set t.key key (job_of t 5 m) r)
  advance-guarded key others t cloned r w e h b =
      ground (arith, get-set t.key key (job_of t 4 (codes "")) r)
  advance-guarded key others t recording r w e h b = ground arith

  advance_nth-guarded :
      (key : Text) (others : Bool) (n : ℕ) (ts : List CloneTask) (r : CloneJobRegistry) (w : W)
      → (busy (get key r) ≡ true → (at_work key ts || others) ≡ true)
      → busy (get key (advance_nth s n ts r w).1) ≡ true
      → (at_work key (advance_nth s n ts r w).0 || others) ≡ true
  unfolding advance_nth at_work
  advance_nth-guarded key others n [] r w h b = h b
  advance_nth-guarded key others zero (t ∷ ts) r w h b = ground (
    arith,
    advance-guarded key (at_work key ts || others) t t.stage r w refl,
    at_work-append key (advance s t r w).0 ts,
  )
  advance_nth-guarded key others (suc n) (t ∷ ts) r w h b =
      ground (arith, advance_nth-guarded key (at_work key (t ∷ []) || others) n ts r w)

  started-guarded :
      (key : Text) (req : CloneReq) (rel_path : Text) (t : CloneTask) (o : Option Error × W)
      (m : Machine W)
      → t.stage ≡ starting
      → (busy (get key m.registry) ≡ true → at_work key m.tasks ≡ true)
      → busy (get key (started s req rel_path t o m).1.registry) ≡ true
      → at_work key (started s req rel_path t o m).1.tasks ≡ true
  unfolding started busy at_work unsettled job_of
  started-guarded key req rel_path t (some e, w) m fresh h b = h b
  started-guarded key req rel_path t (none, w) m fresh h b =
      ground (arith, get-set t.key key (job_of t 1 (codes "")) m.registry)

  create-guarded :
      (key target : Text) (built : Result CloneReq) (m : Machine W)
      → (busy (get key m.registry) ≡ true → at_work key m.tasks ≡ true)
      → busy (get key (start s target built m).1.registry) ≡ true
      → at_work key (start s target built m).1.tasks ≡ true
  unfolding start
  create-guarded key target (err e) m h b = h b
  create-guarded key target (ok req) m h b = started-guarded key req _ _ _ m refl h b

  -- In every machine that requests, steps of goroutines and changes of the world outside lead to,
  -- in any order and with several requests for one folder, a folder whose registered job is
  -- waiting or cloning has a goroutine that sets a final status yet.
  pub busy-at_work :
      {m : Machine W} (key : Text)
      → Reached s m
      → busy (get key m.registry) ≡ true
      → at_work key m.tasks ≡ true
  unfolding busy step_nth get new_clone_job_registry create_git_folder
  busy-at_work key (idle w) b = ground arith
  busy-at_work key (created {m} input before) b =
      create-guarded key input.target_path _ m (busy-at_work key before) b
  busy-at_work key (advanced {m} n before) b =
      ground
        (arith, busy-at_work key before, advance_nth-guarded key false n m.tasks m.registry m.world)
  busy-at_work key (elsewhere change before) b = busy-at_work key before b
