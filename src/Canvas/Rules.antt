-- ===== src/Canvas/Rules.antt =====
-- The table of allowed connections (packages/shared-types/src/connection-rules.ts).
use xg_canvas.Prelude.{
  if◌then◌else◌, string_eq, nat_eq, ◌==◌, any, Bool, true, false, ◌&&◌, Option, none, some, List,
  [], ◌∷◌,
}
use xg_canvas.Canvas.Io.{
  IoType, text, image, image_list, grid, video, audio, json, mask, style_token, entity_ref,
  EntityRefKind, character, scene, prop, storyboard, io_name, entity_kind_name,
}

abbrev pub same_io : IoType → IoType → Bool
same_io a b = io_name a == io_name b

abbrev pub same_kind : EntityRefKind → EntityRefKind → Bool
same_kind a b = entity_kind_name a == entity_kind_name b

-- `===` of an optional kind.
abbrev pub same_optional_kind : Option EntityRefKind → Option EntityRefKind → Bool
same_optional_kind none none = true
same_optional_kind (some a) (some b) = same_kind a b
same_optional_kind _ _ = false

pub record PortRef : Type 0 where
  pub io : IoType
  pub entity_kind : Option EntityRefKind

pub record Rule : Type 0 where
  pub source : PortRef
  pub target : PortRef

abbrev pub of_io : IoType → PortRef
of_io io = record { io = io; entity_kind = none }

abbrev pub of_entity : EntityRefKind → PortRef
of_entity k = record { io = entity_ref; entity_kind = some k }

abbrev pub rule : PortRef → PortRef → Rule
rule source target = record { source = source; target = target }

abbrev pub rules : List Rule
rules =
    rule (of_io text) (of_io text)
    ∷ rule (of_io image) (of_io image)
    ∷ rule (of_io image) (of_io image_list)
    ∷ rule (of_io image_list) (of_io image_list)
    ∷ rule (of_io grid) (of_io image_list)
    ∷ rule (of_io grid) (of_io image)
    ∷ rule (of_io image_list) (of_io grid)
    ∷ rule (of_io audio) (of_io audio)
    ∷ rule (of_io mask) (of_io mask)
    ∷ rule (of_io style_token) (of_io style_token)
    ∷ rule (of_io json) (of_io json)
    ∷ rule (of_entity character) (of_entity character)
    ∷ rule (of_entity scene) (of_entity scene)
    ∷ rule (of_entity prop) (of_entity prop)
    ∷ rule (of_entity storyboard) (of_entity storyboard)
    ∷ rule (of_entity storyboard) (of_io image)
    ∷ rule (of_entity storyboard) (of_io video)
    ∷ []

abbrev pub is_entity_ref : IoType → Bool
is_entity_ref io = same_io io entity_ref

unfoldable pub port_matches : PortRef → PortRef → Bool
port_matches a b =
    if same_io a.io b.io
    then (if is_entity_ref a.io then same_optional_kind a.entity_kind b.entity_kind else true)
    else false

unfoldable pub is_connection_allowed : PortRef → PortRef → Bool
unfolding port_matches
is_connection_allowed source target =
    any (λ r. port_matches r.source source && port_matches r.target target) rules
