-- ===== src/Agent/Images.antt =====
-- internal/agent/image_cleanup.go: the images of nodes and their removal. Docker's answers are
-- arguments; `none` is an error.
use Prim.Native.Char.{code}
use klever_node_hub.Prelude.{
  ℕ, String, Bool, true, false, not, List, [], ◌∷◌, ◌++◌, Option, none, some, Map, lookup, insert,
  string_eq, ◌==◌, if◌then◌else◌, or_nil, ltb, nat_beq, length,
}
pub mod Removal
pub mod Tests

pub record ImageInfo : Type 0 where
  pub id : String
  pub repo_tags : List String
  pub created : ℕ
  pub size : ℕ
  pub in_use : Bool
  pub used_by : List String

-- An image and a container as Docker lists them.
pub record RawImage : Type 0 where
  pub raw_id : String
  pub raw_tags : List String
  pub raw_created : ℕ
  pub raw_size : ℕ

pub record RawContainer : Type 0 where
  pub names : List String
  pub image_id : String

-- The first name without the slash before it.
abbrev pub trim_slash : String → String
trim_slash String.[] = ""
trim_slash (String.◌∷◌ c s) = if nat_beq (code c) 47 then s else String.◌∷◌ c s

abbrev pub first_name : List String → String
first_name [] = ""
first_name (n ∷ ns) = trim_slash n

-- The loop of imageUsage
unfoldable pub add_usage : List RawContainer → Map String (List String) → Map String (List String)
add_usage [] usage = usage
add_usage (c ∷ cs) usage =
    add_usage cs
      (insert c.image_id (or_nil (lookup c.image_id usage) ++ (first_name c.names ∷ [])) usage)

-- imageUsage
abbrev pub image_usage : Option (List RawContainer) → Option (Map String (List String))
image_usage none = none
image_usage (some containers) = some (add_usage containers [])

unfoldable pub with_usage : Map String (List String) → List RawImage → List ImageInfo
with_usage usage [] = []
with_usage usage (img ∷ rest) =
    let users = or_nil (lookup img.raw_id usage) in
    record {
      id = img.raw_id;
      repo_tags = img.raw_tags;
      created = img.raw_created;
      size = img.raw_size;
      in_use = ltb 0 (length users);
      used_by = users;
    }
    ∷ with_usage usage rest

abbrev pub listed : List RawImage → Option (Map String (List String)) → Option (List ImageInfo)
listed raw none = none
listed raw (some usage) = some (with_usage usage raw)

-- ListKleverImages, from the two answers of Docker.
unfoldable pub list_klever_images :
    Option (List RawImage) → Option (List RawContainer) → Option (List ImageInfo)
list_klever_images none containers = none
list_klever_images (some raw) containers = listed raw (image_usage containers)

-- The set of executeRemoveImages.
unfoldable pub deletable : List ImageInfo → String → Bool
deletable [] id = false
deletable (img ∷ rest) id =
    if not img.in_use then (if img.id == id then true else deletable rest id) else deletable rest id

pub record ImageRemoveResult : Type 0 where
  pub removed_id : String
  pub success : Bool
  pub error : String

abbrev pub not_removable : String
not_removable = "image is not a removable klever-go image (unknown or in use)"

abbrev pub refused_result : String → ImageRemoveResult
refused_result id = record { removed_id = id; success = false; error = not_removable }

-- The result for one image that Docker was asked to remove; the error is "" for nil.
abbrev pub removal_result : String → Option String → ImageRemoveResult
removal_result id none = record { removed_id = id; success = true; error = "" }
removal_result id (some e) = record { removed_id = id; success = false; error = e }

abbrev pub entry_for : Bool → String → Option String → ImageRemoveResult
entry_for ok id e = if ok then removal_result id e else refused_result id

-- What was asked of Docker, and the results.
pub record Removed : Type 0 where
  pub asked : List String
  pub results : List ImageRemoveResult

-- What RemoveImage answers for an image, after the images that it was asked to remove before: its
-- error, `none` for nil.
abbrev pub RemoveImage : Type 0
RemoveImage = List String → String → Option String

-- The loop of executeRemoveImages
unfoldable pub remove_loop :
    RemoveImage → List ImageInfo → List String → List ImageRemoveResult → List String → Removed
remove_loop remove images asked results [] = record { asked = asked; results = results }
remove_loop remove images asked results (id ∷ ids) =
    let ok = deletable images id in
    remove_loop remove images (if ok then asked ++ (id ∷ []) else asked)
      (results ++ (entry_for ok id (remove asked id) ∷ [])) ids

pub data RemoveOutcome : Type 0 where
  no_ids cannot_list : RemoveOutcome
  removed : Removed → RemoveOutcome

abbrev pub remove_listed : RemoveImage → List String → Option (List ImageInfo) → RemoveOutcome
remove_listed remove ids none = cannot_list
remove_listed remove ids (some images) = removed (remove_loop remove images [] [] ids)

-- executeRemoveImages
unfoldable pub execute_remove_images :
    RemoveImage → Option (List RawImage) → Option (List RawContainer) → List String → RemoveOutcome
execute_remove_images remove raw containers [] = no_ids
execute_remove_images remove raw containers (id ∷ ids) =
    remove_listed remove (id ∷ ids) (list_klever_images raw containers)
