-- ===== src/Canvas/Io.antt =====
-- Types of ports and edges (packages/shared-types/src/io-types.ts) and the table of allowed
-- connections (packages/shared-types/src/connection-rules.ts).
pub mod Names
use xg_canvas.Prelude.{
  slice, len, starts_with, if◌then◌else◌, string_eq, nat_eq, ◌==◌, find?, text_append, ◌>>=◌, ◌>>◌,
  String, Option, none, some, List, [], ◌∷◌,
}

pub data IoType : Type 0 where
  text image image_list grid video audio json reference mask style_token entity_ref library_ref :
      IoType

pub data EntityRefKind : Type 0 where
  character scene prop storyboard : EntityRefKind

pub data LibraryRefKind : Type 0 where
  library_character voice style : LibraryRefKind

abbrev pub io_name : IoType → String
io_name text = "text"
io_name image = "image"
io_name image_list = "image_list"
io_name grid = "grid"
io_name video = "video"
io_name audio = "audio"
io_name json = "json"
io_name reference = "reference"
io_name mask = "mask"
io_name style_token = "style_token"
io_name entity_ref = "entity_ref"
io_name library_ref = "library_ref"

abbrev pub entity_kind_name : EntityRefKind → String
entity_kind_name character = "character"
entity_kind_name scene = "scene"
entity_kind_name prop = "prop"
entity_kind_name storyboard = "storyboard"

abbrev pub library_kind_name : LibraryRefKind → String
library_kind_name library_character = "character"
library_kind_name voice = "voice"
library_kind_name style = "style"

abbrev pub io_types : List IoType
io_types =
    text ∷ image ∷ image_list ∷ grid ∷ video ∷ audio ∷ json ∷ reference ∷ mask ∷ style_token
    ∷ entity_ref ∷ library_ref ∷ []

abbrev pub entity_ref_kinds : List EntityRefKind
entity_ref_kinds = character ∷ scene ∷ prop ∷ storyboard ∷ []

abbrev pub library_ref_kinds : List LibraryRefKind
library_ref_kinds = library_character ∷ voice ∷ style ∷ []

pub record EdgeDataType : Type 0 where
  pub io : IoType
  pub entity_kind : Option EntityRefKind
  pub library_kind : Option LibraryRefKind

-- `v.slice('…'.length)`, after `v.startsWith('…')`.
abbrev pub after_prefix : String → String → Option String
after_prefix prefix v = if starts_with v prefix then some (slice v (len prefix) (len v)) else none

abbrev pub entity_data_type : EntityRefKind → EdgeDataType
entity_data_type k = record { io = entity_ref; entity_kind = some k; library_kind = none }

abbrev pub library_data_type : LibraryRefKind → EdgeDataType
library_data_type k = record { io = library_ref; entity_kind = none; library_kind = some k }

abbrev pub entity_of : Option String → Option EntityRefKind
entity_of none = none
entity_of (some kind) = find? (λ k. entity_kind_name k == kind) entity_ref_kinds

abbrev pub library_of : Option String → Option LibraryRefKind
library_of none = none
library_of (some kind) = find? (λ k. library_kind_name k == kind) library_ref_kinds

abbrev pub parse_library : Option LibraryRefKind → Option EdgeDataType
parse_library none = none
parse_library (some k) = some (library_data_type k)

abbrev pub parse_entity : String → Option EntityRefKind → Option EdgeDataType
parse_entity v none = parse_library (library_of (after_prefix "library_ref:" v))
parse_entity v (some k) = some (entity_data_type k)

abbrev pub parse_io : String → Option IoType → Option EdgeDataType
parse_io v none = parse_entity v (entity_of (after_prefix "entity_ref:" v))
parse_io v (some io) = some (record { io = io; entity_kind = none; library_kind = none })

unfoldable pub parse_edge_data_type : String → Option EdgeDataType
parse_edge_data_type v = parse_io v (find? (λ io. io_name io == v) io_types)

-- The text of a data type.
abbrev pub print_data_type : EdgeDataType → String
print_data_type d = elim d.entity_kind [
  | some k ↦ text_append "entity_ref:" (entity_kind_name k)
  | none ↦ elim d.library_kind [
    | some k ↦ text_append "library_ref:" (library_kind_name k)
    | none ↦ io_name d.io
  ]
]
