-- ===== src/Agent/Images/Removal.antt =====
-- Which images are removed.
use klever_node_hub.Prelude.{
  ℕ, ◌+◌, ◌≡◌, ◌≤◌, refl, sym, String, Bool, true, false, List, [], ◌∷◌, ◌++◌, Option, none, some,
  Map, lookup, insert, lookup-insert, string_eq, ◌==◌, eq_iff, if◌then◌else◌, or_nil, length,
  length-append, arith, All, All-append, ap, append-nil, append_assoc,
}
use klever_node_hub.Agent.Images.{
  ImageInfo, RawImage, RawContainer, ImageRemoveResult, RemoveImage, RemoveOutcome, removed,
  first_name, add_usage, with_usage, list_klever_images, deletable, entry_for, remove_loop,
  execute_remove_images,
}

-- Docker lists the image.
unfoldable pub has_image : String → List RawImage → Bool
has_image id [] = false
has_image id (img ∷ rest) = if img.raw_id == id then true else has_image id rest

-- A container, running or not, has the image.
unfoldable pub has_user : String → List RawContainer → Bool
has_user id [] = false
has_user id (c ∷ cs) = if c.image_id == id then true else has_user id cs

abbrev users_of : String → Map String (List String) → ℕ
users_of id usage = length (or_nil (lookup id usage))

users_of-insert :
    (id key name : String) (usage : Map String (List String))
    → users_of id (insert key (or_nil (lookup key usage) ++ (name ∷ [])) usage)
      ≡ (if key == id then users_of id usage + 1 else users_of id usage)
users_of-insert id key name usage = ground (
  arith,
  lookup-insert key id (or_nil (lookup key usage) ++ (name ∷ [])) usage,
  length-append (or_nil (lookup key usage)) (name ∷ []),
  eq_iff key id,
)

add_usage-grows :
    (id : String) (cs : List RawContainer) (usage : Map String (List String))
    → users_of id usage ≤ users_of id (add_usage cs usage)
unfolding add_usage
add_usage-grows id [] usage = omega arith
add_usage-grows id (c ∷ cs) usage =
    let name = first_name c.names in
    let next = insert c.image_id (or_nil (lookup c.image_id usage) ++ (name ∷ [])) usage in
    ground (arith, users_of-insert id c.image_id name usage, add_usage-grows id cs next)

-- An image of a container has a user.
has_user-users_of :
    (id : String) (cs : List RawContainer) (usage : Map String (List String))
    → has_user id cs ≡ true
    → 1 ≤ users_of id (add_usage cs usage)
unfolding add_usage has_user
has_user-users_of id [] usage h = ground arith
has_user-users_of id (c ∷ cs) usage h =
    let name = first_name c.names in
    let next = insert c.image_id (or_nil (lookup c.image_id usage) ++ (name ∷ [])) usage in
    ground (
      arith,
      users_of-insert id c.image_id name usage,
      add_usage-grows id cs next,
      has_user-users_of id cs next,
    )

-- Listed by Docker, and of no container.
abbrev pub IsRemovable : List RawImage → List RawContainer → String → Type 0
IsRemovable raw cs id = (has_image id raw ≡ true) × (has_user id cs ≡ false)

deletable-IsRemovable :
    (id : String) (raw : List RawImage) (cs : List RawContainer)
    → deletable (with_usage (add_usage cs []) raw) id ≡ true
    → IsRemovable raw cs id
unfolding deletable with_usage has_image
deletable-IsRemovable id [] cs h = ground arith
deletable-IsRemovable id (img ∷ raw) cs h =
    ground
      (arith, eq_iff img.raw_id id, has_user-users_of id cs [], deletable-IsRemovable id raw cs)

All-if :
    (P : String → Type 0) (b : Bool) (id : String) (asked : List String)
    → (b ≡ true → P id)
    → All P asked
    → All P (if b then asked ++ (id ∷ []) else asked)
All-if P true id asked ok h = All-append P asked (id ∷ []) h (ok refl, tt)
All-if P false id asked ok h = h

remove_loop-asked :
    (P : String → Type 0) (remove : RemoveImage) (images : List ImageInfo) (asked : List String)
    (results : List ImageRemoveResult) (ids : List String)
    → ((id : String) → deletable images id ≡ true → P id)
    → All P asked
    → All P (remove_loop remove images asked results ids).asked
unfolding remove_loop
remove_loop-asked P remove images asked results [] ok h = h
remove_loop-asked P remove images asked results (id ∷ ids) ok h =
    let b = deletable images id in
    remove_loop-asked P remove images (if b then asked ++ (id ∷ []) else asked)
      (results ++ (entry_for b id (remove asked id) ∷ [])) ids ok (All-if P b id asked (ok id) h)

unfoldable pub ids_of : List ImageRemoveResult → List String
ids_of [] = []
ids_of (entry ∷ rest) = entry.removed_id ∷ ids_of rest

-- What Docker was asked to remove.
abbrev pub asked_of : RemoveOutcome → List String
asked_of (removed r) = r.asked
asked_of _ = []

-- The images of the results, in order.
abbrev pub answered_of : RemoveOutcome → List String
answered_of (removed r) = ids_of r.results
answered_of _ = []

ids_of-append : (xs ys : List ImageRemoveResult) → ids_of (xs ++ ys) ≡ ids_of xs ++ ids_of ys
unfolding ids_of
ids_of-append [] ys = refl
ids_of-append (x ∷ xs) ys = ap (λ rest. x.removed_id ∷ rest) (ids_of-append xs ys)

entry_for-id : (b : Bool) (id : String) (e : Option String) → (entry_for b id e).removed_id ≡ id
entry_for-id true id none = refl
entry_for-id true id (some e) = refl
entry_for-id false id e = refl

remove_loop-answered :
    (remove : RemoveImage) (images : List ImageInfo) (asked : List String)
    (results : List ImageRemoveResult) (ids : List String)
    → ids_of (remove_loop remove images asked results ids).results ≡ ids_of results ++ ids
unfolding remove_loop ids_of
remove_loop-answered remove images asked results [] = sym (append-nil (ids_of results))
remove_loop-answered remove images asked results (id ∷ ids) =
    let b = deletable images id in
    let entry = entry_for b id (remove asked id) in
    let rest =
      remove_loop-answered remove images (if b then asked ++ (id ∷ []) else asked)
        (results ++ (entry ∷ [])) ids in
    rw (
      rest,
      ids_of-append results (entry ∷ []),
      entry_for-id b id (remove asked id),
      append_assoc (ids_of results) (id ∷ []) ids,
    )

remove_listed-asked :
    (remove : RemoveImage) (raw : List RawImage) (cs : List RawContainer) (ids : List String)
    → All
        (IsRemovable raw cs)
        (remove_loop remove (with_usage (add_usage cs []) raw) [] [] ids).asked
remove_listed-asked remove raw cs ids =
    remove_loop-asked (IsRemovable raw cs) remove (with_usage (add_usage cs []) raw) [] [] ids
      (λ id h. deletable-IsRemovable id raw cs h) tt

-- Whatever is asked for and whatever Docker lists: an image is removed only if Docker lists it among
-- the images of nodes and no container, running or not, has it; and each image that is asked for has
-- its answer, in order. If a listing fails, nothing is removed.
pub execute_remove_images-IsRemovable :
    (remove : RemoveImage) (raw : List RawImage) (cs : List RawContainer) (id : String)
    (ids : List String)
    → All
        (IsRemovable raw cs)
        (asked_of (execute_remove_images remove (some raw) (some cs) (id ∷ ids)))
      × (answered_of (execute_remove_images remove (some raw) (some cs) (id ∷ ids)) ≡ id ∷ ids)
      × (asked_of (execute_remove_images remove none (some cs) (id ∷ ids)) ≡ [])
      × (asked_of (execute_remove_images remove (some raw) none (id ∷ ids)) ≡ [])
unfolding execute_remove_images list_klever_images ids_of
execute_remove_images-IsRemovable remove raw cs id ids = (
  remove_listed-asked remove raw cs (id ∷ ids),
  remove_loop-answered remove (with_usage (add_usage cs []) raw) [] [] (id ∷ ids),
  refl,
  refl,
)
