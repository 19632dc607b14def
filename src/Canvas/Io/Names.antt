-- ===== src/Canvas/Io/Names.antt =====
-- Data types survive being printed and parsed.
use xg_canvas.Prelude.{
  string_eq, nat_eq, ◌==◌, get_or, find?, text_append, String, ◌≡◌, refl, ap, subst, Option, none,
  some,
}
use xg_canvas.Canvas.Io.{
  IoType, text, image, image_list, grid, video, audio, json, reference, mask, style_token,
  entity_ref, library_ref, EntityRefKind, character, scene, prop, storyboard, LibraryRefKind,
  library_character, voice, style, io_name, entity_kind_name, library_kind_name, io_types,
  EdgeDataType, after_prefix, entity_data_type, library_data_type, entity_of, library_of,
  parse_library, parse_entity, parse_io, parse_edge_data_type, print_data_type,
}

-- The data types: an io type, or a reference with its kind.
pub data IsDataType : EdgeDataType → Type 0 where
  plain : (io : IoType) → IsDataType (record { io = io; entity_kind = none; library_kind = none })
  to_entity : (k : EntityRefKind) → IsDataType (entity_data_type k)
  to_library : (k : LibraryRefKind) → IsDataType (library_data_type k)

plain-print :
    (io : IoType)
    → parse_edge_data_type (io_name io)
      ≡ some (record { io = io; entity_kind = none; library_kind = none })
unfolding parse_edge_data_type
plain-print text = refl
plain-print image = refl
plain-print image_list = refl
plain-print grid = refl
plain-print video = refl
plain-print audio = refl
plain-print json = refl
plain-print reference = refl
plain-print mask = refl
plain-print style_token = refl
plain-print entity_ref = refl
plain-print library_ref = refl

entity-print :
    (k : EntityRefKind)
    → parse_edge_data_type (text_append "entity_ref:" (entity_kind_name k))
      ≡ some (entity_data_type k)
unfolding parse_edge_data_type
entity-print character = refl
entity-print scene = refl
entity-print prop = refl
entity-print storyboard = refl

library-print :
    (k : LibraryRefKind)
    → parse_edge_data_type (text_append "library_ref:" (library_kind_name k))
      ≡ some (library_data_type k)
unfolding parse_edge_data_type
library-print library_character = refl
library-print voice = refl
library-print style = refl

-- Every data type of an edge, an io type or a reference with a kind, is what its text is parsed to.
parse_edge_data_type-print :
    {d : EdgeDataType} → IsDataType d → parse_edge_data_type (print_data_type d) ≡ some d
parse_edge_data_type-print (plain io) = plain-print io
parse_edge_data_type-print (to_entity k) = entity-print k
parse_edge_data_type-print (to_library k) = library-print k

some-injective : {a b : EdgeDataType} → some a ≡ some b → a ≡ b
some-injective {a} e = ap (λ o. get_or o a) e

library-IsDataType :
    (k : Option LibraryRefKind) (d : EdgeDataType) → parse_library k ≡ some d → IsDataType d
library-IsDataType none d h = cc
library-IsDataType (some k) d h = subst IsDataType (some-injective h) (to_library k)

entity-IsDataType :
    (v : String) (k : Option EntityRefKind) (d : EdgeDataType)
    → parse_entity v k ≡ some d
    → IsDataType d
entity-IsDataType v none d h = library-IsDataType (library_of (after_prefix "library_ref:" v)) d h
entity-IsDataType v (some k) d h = subst IsDataType (some-injective h) (to_entity k)

io-IsDataType :
    (v : String) (io : Option IoType) (d : EdgeDataType) → parse_io v io ≡ some d → IsDataType d
io-IsDataType v none d h = entity-IsDataType v (entity_of (after_prefix "entity_ref:" v)) d h
io-IsDataType v (some io) d h = subst IsDataType (some-injective h) (plain io)

-- What is parsed is a data type: a kind comes with its own io type, and never two kinds.
parse_edge_data_type-IsDataType :
    (v : String) (d : EdgeDataType) → parse_edge_data_type v ≡ some d → IsDataType d
unfolding parse_edge_data_type
parse_edge_data_type-IsDataType v d h = io-IsDataType v (find? (λ io. io_name io == v) io_types) d h
