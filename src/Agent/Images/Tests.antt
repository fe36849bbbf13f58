-- ===== src/Agent/Images/Tests.antt =====
-- Three images, one of them in use by a stopped container.
use klever_node_hub.Prelude.{◌≡◌, refl, String, List, [], ◌∷◌, none, some, All, lookup, insert}
use klever_node_hub.Agent.Images.{
  RawImage, RawContainer, RemoveImage, execute_remove_images, remove_loop, list_klever_images,
  add_usage, with_usage, deletable,
}
use klever_node_hub.Agent.Images.Removal.{
  IsRemovable, asked_of, answered_of, execute_remove_images-IsRemovable,
}

abbrev image_of : String → RawImage
image_of id = record { raw_id = id; raw_tags = "klever-go:1" ∷ []; raw_created = 5; raw_size = 9 }

abbrev three_images : List RawImage
three_images = image_of "a" ∷ image_of "b" ∷ image_of "c" ∷ []

abbrev one_container : List RawContainer
one_container = record { names = "/klever-node1" ∷ []; image_id = "b" } ∷ []

abbrev always : RemoveImage
always = λ before id. none

abbrev wanted : List String
wanted = "b" ∷ "c" ∷ "z" ∷ []

execute_remove_images-IsRemovable_example :
    All
      (IsRemovable three_images one_container)
      (asked_of (execute_remove_images always (some three_images) (some one_container) wanted))
    × (answered_of (execute_remove_images always (some three_images) (some one_container) wanted)
        ≡ wanted)
    × (asked_of (execute_remove_images always none (some one_container) wanted) ≡ [])
    × (asked_of (execute_remove_images always (some three_images) none wanted) ≡ [])
execute_remove_images-IsRemovable_example =
    execute_remove_images-IsRemovable always three_images one_container "b" ("c" ∷ "z" ∷ [])

only_c :
    asked_of (execute_remove_images always (some three_images) (some one_container) wanted)
    ≡ "c" ∷ []
unfolding execute_remove_images remove_loop list_klever_images add_usage with_usage deletable lookup
    insert
only_c = refl
