-- ===== src/Canvas/NodeSpec.antt =====
-- The ports of each type of node (apps/canvas-api/src/canvas/node-spec.ts).
use xg_canvas.Prelude.{
  string_eq, nat_eq, ◌==◌, get_or, find?, String, Bool, true, false, Option, none, some, List, [],
  ◌∷◌,
}
use xg_canvas.Canvas.Io.{
  IoType, text, image, image_list, grid, video, audio, json, mask, style_token, entity_ref,
  EntityRefKind, character, scene, prop, storyboard,
}

pub record PortSpec : Type 0 where
  pub id : String
  pub type : IoType
  pub entity_kind : Option EntityRefKind
  pub optional : Bool

pub record NodeSpec : Type 0 where
  pub type : String
  pub inputs : List PortSpec
  pub outputs : List PortSpec

abbrev pub required_port : String → IoType → PortSpec
required_port id io = record { id = id; type = io; entity_kind = none; optional = false }

abbrev pub optional_port : String → IoType → PortSpec
optional_port id io = record { id = id; type = io; entity_kind = none; optional = true }

abbrev pub required_entity : String → EntityRefKind → PortSpec
required_entity id k = record { id = id; type = entity_ref; entity_kind = some k; optional = false }

abbrev pub optional_entity : String → EntityRefKind → PortSpec
optional_entity id k = record { id = id; type = entity_ref; entity_kind = some k; optional = true }

abbrev pub node_spec : String → List PortSpec → List PortSpec → NodeSpec
node_spec type inputs outputs = record { type = type; inputs = inputs; outputs = outputs }

unfoldable pub node_specs : List NodeSpec
node_specs =
    node_spec "asset_input" []
      (required_port "image" image ∷ required_port "video" video ∷ required_port "audio" audio ∷ [])
    ∷ node_spec "gen_text" (optional_port "prompt" text ∷ optional_port "system" json ∷ [])
        (required_port "out" text ∷ [])
    ∷ node_spec "gen_image"
        (optional_port "prompt" text
          ∷ optional_port "reference" image_list
          ∷ optional_port "mask" mask
          ∷ optional_port "style" style_token
          ∷ [])
        (required_port "out" image ∷ [])
    ∷ node_spec "gen_video"
        (optional_port "prompt" text
          ∷ optional_port "reference" image_list
          ∷ optional_port "audio_ref" audio
          ∷ optional_entity "storyboard" storyboard
          ∷ [])
        (required_port "out" video ∷ [])
    ∷ node_spec "gen_audio" (optional_port "prompt" text ∷ []) (required_port "out" audio ∷ [])
    ∷ node_spec "script_input" (optional_port "in_text" text ∷ optional_port "in_json" json ∷ [])
        (required_port "out_text" text ∷ required_port "out_json" json ∷ [])
    ∷ node_spec "entity_character" (optional_port "reference" image_list ∷ [])
        (required_entity "ref" character ∷ required_port "image" image ∷ [])
    ∷ node_spec "entity_scene" (optional_port "reference" image_list ∷ [])
        (required_entity "ref" scene ∷ required_port "image" image ∷ [])
    ∷ node_spec "entity_prop" (optional_port "reference" image_list ∷ [])
        (required_entity "ref" prop ∷ required_port "image" image ∷ [])
    ∷ node_spec "storyboard_shot"
        (optional_entity "characters" character
          ∷ optional_entity "scene" scene
          ∷ optional_entity "props" prop
          ∷ optional_port "reference" image_list
          ∷ [])
        (required_entity "storyboard_ref" storyboard
          ∷ optional_port "image" image
          ∷ optional_port "video" video
          ∷ [])
    ∷ node_spec "grid" (required_port "in" image_list ∷ [])
        (required_port "out_grid" grid ∷ required_port "out_list" image_list ∷ [])
    ∷ []

-- A type without an entry has no ports.
unfoldable pub get_node_spec : String → NodeSpec
get_node_spec type = get_or (find? (λ s. s.type == type) node_specs) (node_spec type [] [])
