-- ===== src/Storage/Reads/Chain.antt =====
-- GetFolderNodePath: the nodes from the user's directory down to a directory below it.
use workspace_service.Base.{
  ℕ, zero, if◌then◌else◌, suc, true, ◌||◌, not, ◌≡◌, refl, sym, ap, ◌∙◌, Option, some, List, [],
  ◌∷◌, ◌++◌, Text, text_eq, text_eq_refl, all, arith, length, ◌<◌, has_prefix,
}
use workspace_service.Errors.{Error, Result, ok, err}
use workspace_service.FileInfo.{Actor, FileInfo, GetFolderNodePathReq}
use workspace_service.FilePath.{dir, clean}
use workspace_service.FilePath.Elements.{is_plain}
use workspace_service.Identity.Isolation.{IsPlainContext}
use workspace_service.Os.{Stat}
use workspace_service.Storage.{WorkspaceFsClient, user_root_of}
use workspace_service.Storage.Enrich.{build_file_info, enrich_file_info}
use workspace_service.Storage.Parents.{
  place, ancestors, clean-place, dir-place, length-place, has_prefix-place, text_eq-place,
}
use workspace_service.Storage.Places.{absolute, root_elements, root_elements_plain, user_root_of-eq}
use workspace_service.Storage.Reads.{above, visited, folder_nodes, chain_of, get_folder_node_path}

module _ {W : Type 0} (c : WorkspaceFsClient W) (actor : Actor) where
  -- One more directory in front of the nodes below it, whose error comes first.
  on_top : Result (List FileInfo) → Result FileInfo → W → Result (List FileInfo)
  unfolding enrich_file_info
  on_top (err e) r w = err e
  on_top (ok nodes) (err e) w = err e
  on_top (ok nodes) (ok info) w = ok (enrich_file_info c actor info w ∷ nodes)

  -- The nodes of some directories, one below the other, in front of others. The error is that of the lowest one that
  -- can not be looked at.
  unfoldable pub nodes_along : List Text → List FileInfo → W → Result (List FileInfo)
  unfolding on_top build_file_info
  nodes_along [] nodes w = ok nodes
  nodes_along (p ∷ ps) nodes w = on_top (nodes_along ps nodes w) (build_file_info c p w) w

  nodes_along-ok :
      (ps : List Text) (p : Text) (nodes : List FileInfo) (w : W) {info : FileInfo}
      → build_file_info c p w ≡ ok info
      → nodes_along (ps ++ (p ∷ [])) nodes w
        ≡ nodes_along ps (enrich_file_info c actor info w ∷ nodes) w
  unfolding nodes_along
  nodes_along-ok [] p nodes w e = ap (λ r. on_top (ok nodes) r w) e
  nodes_along-ok (q ∷ ps) p nodes w e =
      ap (λ rest. on_top rest (build_file_info c q w) w) (nodes_along-ok ps p nodes w e)

  nodes_along-err :
      (ps : List Text) (p : Text) (nodes : List FileInfo) (w : W) {e : Error}
      → build_file_info c p w ≡ err e
      → nodes_along (ps ++ (p ∷ [])) nodes w ≡ err e
  unfolding nodes_along
  nodes_along-err [] p nodes w e = ap (λ r. on_top (ok nodes) r w) e
  nodes_along-err (q ∷ ps) p nodes w e =
      ap (λ rest. on_top rest (build_file_info c q w) w) (nodes_along-err ps p nodes w e)

  above-root :
      (root : Text) (found : List FileInfo)
      (next : Text → List FileInfo → Option (Result (List FileInfo)))
      → user_root_of c actor ≡ root
      → above c actor root found next ≡ some (ok found)
  unfolding above
  above-root root found next e =
      let here : text_eq root (user_root_of c actor) ≡ true =
        ap (text_eq root) e ∙ text_eq_refl root in
      rw here refl

  above-below :
      (d : Text) (ds : List Text) (q : Text) (rs : List Text) (found : List FileInfo)
      (next : Text → List FileInfo → Option (Result (List FileInfo)))
      → user_root_of c actor ≡ absolute (d ∷ ds)
      → all is_plain (d ∷ ds) ≡ true
      → all is_plain (q ∷ rs) ≡ true
      → above c actor (place (absolute (d ∷ ds)) (q ∷ rs)) found next
        ≡ next (place (absolute (d ∷ ds)) rs) found
  unfolding above
  above-below d ds q rs found next e h k =
      let current : Text = place (absolute (d ∷ ds)) (q ∷ rs) in
      let other = text_eq-place (absolute (d ∷ ds)) q rs in
      ap
        (λ r.
          if text_eq current r || text_eq (dir current) current || not (has_prefix r (dir current))
          then some (ok found)
          else next (dir current) found)
        e
      ∙ ap
          (λ p.
            if text_eq current (absolute (d ∷ ds))
              || text_eq p current
              || not (has_prefix (absolute (d ∷ ds)) p)
            then some (ok found)
            else next p found)
          (dir-place d ds h q rs k)
      ∙ rw (other.0, other.1, has_prefix-place (absolute (d ∷ ds)) rs) refl

  visited-root :
      (root : Text) (nodes : List FileInfo) (r : Result FileInfo)
      (next : Text → List FileInfo → Option (Result (List FileInfo))) (w : W)
      → user_root_of c actor ≡ root
      → visited c actor root nodes r next w ≡ some (on_top (ok nodes) r w)
  unfolding visited on_top
  visited-root root nodes (err x) next w e = refl
  visited-root root nodes (ok info) next w e =
      above-root root (enrich_file_info c actor info w ∷ nodes) next e

  visited-below :
      (d : Text) (ds : List Text) (q : Text) (rs ps : List Text) (nodes : List FileInfo) (w : W)
      (next : Text → List FileInfo → Option (Result (List FileInfo))) (r : Result FileInfo)
      → user_root_of c actor ≡ absolute (d ∷ ds)
      → all is_plain (d ∷ ds) ≡ true
      → all is_plain (q ∷ rs) ≡ true
      → ((found : List FileInfo)
          → next (place (absolute (d ∷ ds)) rs) found ≡ some (nodes_along ps found w))
      → build_file_info c (place (absolute (d ∷ ds)) (q ∷ rs)) w ≡ r
      → visited c actor (place (absolute (d ∷ ds)) (q ∷ rs)) nodes r next w
        ≡ some (nodes_along (ps ++ (place (absolute (d ∷ ds)) (q ∷ rs) ∷ [])) nodes w)
  unfolding visited
  visited-below d ds q rs ps nodes w next (err x) e h k rest b =
      ap some (sym (nodes_along-err ps (place (absolute (d ∷ ds)) (q ∷ rs)) nodes w b))
  visited-below d ds q rs ps nodes w next (ok info) e h k rest b =
      above-below d ds q rs (enrich_file_info c actor info w ∷ nodes) next e h k
      ∙ rest (enrich_file_info c actor info w ∷ nodes)
      ∙ ap some (sym (nodes_along-ok ps (place (absolute (d ∷ ds)) (q ∷ rs)) nodes w b))

  -- With enough fuel, the loop finds the nodes of the place and of the directories above it.
  folder_nodes-place :
      (d : Text) (ds rs : List Text) (fuel : ℕ) (nodes : List FileInfo) (w : W)
      → user_root_of c actor ≡ absolute (d ∷ ds)
      → all is_plain (d ∷ ds) ≡ true
      → all is_plain rs ≡ true
      → length rs < fuel
      → folder_nodes c fuel actor (place (absolute (d ∷ ds)) rs) nodes w
        ≡ some (nodes_along (ancestors (absolute (d ∷ ds)) rs) nodes w)
  unfolding folder_nodes ancestors nodes_along
  folder_nodes-place d ds rs zero nodes w e h k enough = absurd (omega arith)
  folder_nodes-place d ds [] (suc fuel) nodes w e h k enough =
      visited-root (absolute (d ∷ ds)) nodes (build_file_info c (absolute (d ∷ ds)) w) _ w e
  folder_nodes-place d ds (q ∷ rs) (suc fuel) nodes w e h k enough =
      visited-below d ds q rs (ancestors (absolute (d ∷ ds)) rs) nodes w
        (λ p n. folder_nodes c fuel actor p n w) _ e h k
        (λ found. folder_nodes-place d ds rs fuel found w e h (ground arith) (omega arith)) refl

  found_directory :
      (req : GetFolderNodePathReq) (w : W) {info : Stat} {p : Text}
      → clean req.path ≡ p
      → c.os.stat p w ≡ ok (some info)
      → info.is_dir ≡ true
      → get_folder_node_path c req w ≡ folder_nodes c (suc (length p)) req.actor p [] w
  unfolding get_folder_node_path chain_of
  found_directory req w {info} {p} cl st d =
      ap (λ s. chain_of c req (c.os.stat s w) w) cl
      ∙ ap (λ r. chain_of c req r w) st
      ∙ rw (d, cl) refl

  -- When the mount root is an absolute path of plain elements and app id, workspace id and uin of
  -- the actor are plain directory names, GetFolderNodePath for an existing directory that lies
  -- any number of plain names below the directory of the user comes to an end, and answers the
  -- enriched nodes of the directories from that of the user down to it, or the error of the
  -- lowest one whose file information can not be had.
  pub get_folder_node_path-eq :
      (m : Text) (ms rs : List Text) (w : W) {info : Stat}
      → c.mount_root ≡ absolute (m ∷ ms)
      → all is_plain (m ∷ ms) ≡ true
      → IsPlainContext actor
      → all is_plain rs ≡ true
      → c.os.stat (place (user_root_of c actor) rs) w ≡ ok (some info)
      → info.is_dir ≡ true
      → get_folder_node_path c (record { actor = actor; path = place (user_root_of c actor) rs }) w
        ≡ some (nodes_along (ancestors (user_root_of c actor) rs) [] w)
  get_folder_node_path-eq m ms rs w e h plain k st d =
      let es : List Text = root_elements c m ms actor in
      let root : user_root_of c actor ≡ absolute (m ∷ es) =
        user_root_of-eq c m ms actor e h plain in
      let all_plain : all is_plain (m ∷ es) ≡ true = root_elements_plain c m ms actor h plain in
      let cl : clean (place (user_root_of c actor) rs) ≡ place (user_root_of c actor) rs =
        ap (λ r. clean (place r rs)) root
        ∙ clean-place m es all_plain rs k
        ∙ ap (λ r. place r rs) (sym root) in
      found_directory (record { actor = actor; path = place (user_root_of c actor) rs }) w cl st d
      ∙ ap
          (λ r.
            folder_nodes c (suc (length (place (user_root_of c actor) rs))) actor (place r rs) [] w)
          root
      ∙ folder_nodes-place m es rs (suc (length (place (user_root_of c actor) rs))) [] w root
          all_plain k (omega (arith, length-place (user_root_of c actor) rs))
      ∙ ap (λ r. some (nodes_along (ancestors r rs) [] w)) (sym root)
