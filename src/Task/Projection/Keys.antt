-- ===== src/Task/Projection/Keys.antt =====
-- The keys of the source node's data after the write-back.
use xg_canvas.Task.Row.{Task}
use xg_canvas.Prelude.{
  ◌==◌, nat_eq, string_eq, if◌then◌else◌, String, ◌≡◌, refl, sym, ap, ◌∙◌, Bool, false, ◌||◌,
  Option, none, some, [], ◌∷◌, eq_iff, arith,
}
use xg_canvas.Task.Status.{cancelled, failed, succeeded, Status, status_eq}
use xg_canvas.Task.World.{text, reference, NodeValue, NodeData}
use xg_canvas.Task.Projection.{
  error_text, first_asset, output_text, projected, delete_key, put_key, put_some,
}

-- `data[k]`.
unfoldable pub get_key : String → NodeData → Option NodeValue
get_key k [] = none
get_key k ((j, v) ∷ d) = if j == k then some v else get_key k d

get_key-put_key : (k : String) (v : NodeValue) (d : NodeData) → get_key k (put_key k v d) ≡ some v
unfolding get_key put_key
get_key-put_key k v [] = rw ((eq_iff k k).1 refl) refl
get_key-put_key k v ((j, u) ∷ d) = ground (arith, get_key-put_key k v d, (eq_iff k k).1 refl)

get_key-put_other :
    (k j : String) (v : NodeValue) (d : NodeData)
    → (j == k) ≡ false
    → get_key k (put_key j v d) ≡ get_key k d
unfolding get_key put_key
get_key-put_other k j v [] h = rw h refl
get_key-put_other k j v ((i, u) ∷ d) h = ground (arith, get_key-put_other k j v d h, (eq_iff i j).0)

get_key-delete_key : (k : String) (d : NodeData) → get_key k (delete_key k d) ≡ none
unfolding get_key delete_key
get_key-delete_key k [] = refl
get_key-delete_key k ((j, u) ∷ d) = ground (arith, get_key-delete_key k d)

get_key-delete_other :
    (k j : String) (d : NodeData) → (j == k) ≡ false → get_key k (delete_key j d) ≡ get_key k d
unfolding get_key delete_key
get_key-delete_other k j [] h = refl
get_key-delete_other k j ((i, u) ∷ d) h =
    ground (arith, get_key-delete_other k j d h, (eq_iff i j).0)

get_key-put_some :
    (k : String) (v : Option NodeValue) (d : NodeData)
    → get_key k (put_some k v d) ≡ elim v [ none ↦ get_key k d | some x ↦ some x ]
get_key-put_some k none d = refl
get_key-put_some k (some x) d = get_key-put_key k x d

get_key-put_some_other :
    (k j : String) (v : Option NodeValue) (d : NodeData)
    → (j == k) ≡ false
    → get_key k (put_some j v d) ≡ get_key k d
get_key-put_some_other k j none d h = refl
get_key-put_some_other k j (some x) d h = get_key-put_other k j x d h

abbrev pub key_of : String → Option NodeData → Option NodeValue
key_of k none = none
key_of k (some d) = get_key k d

-- A new value, or the old one if there is none.
abbrev pub value_or : Option NodeValue → Option NodeValue → Option NodeValue
value_or none old = old
value_or (some v) old = some v

put_some-value_or :
    (k : String) (v : Option NodeValue) (d : NodeData)
    → get_key k (put_some k v d) ≡ value_or v (get_key k d)
put_some-value_or k none d = refl
put_some-value_or k (some x) d = get_key-put_key k x d

-- After a success, the node's data carries the task's id as `output_task_id` and no `last_error`;
-- `output_text` and `output_asset_id` are the task's text and first asset where it has them, and as
-- before where it has not.
projected-succeeded :
    (t : Task) (d : NodeData)
    → let r = projected succeeded t d in
      (key_of "last_error" r ≡ none)
      × (key_of "output_task_id" r ≡ some (reference t.id))
      × (key_of "output_text" r ≡ value_or (output_text t.text_output) (get_key "output_text" d))
      × (key_of "output_asset_id" r
          ≡ value_or (first_asset t.output_asset_ids) (get_key "output_asset_id" d))
unfolding projected
projected-succeeded t d =
    let a = put_some "output_asset_id" (first_asset t.output_asset_ids) d in
    let b = put_some "output_text" (output_text t.text_output) a in
    let c = put_key "output_task_id" (reference t.id) b in
    (
      get_key-delete_key "last_error" c,
      get_key-delete_other "output_task_id" "last_error" c refl
          ∙ get_key-put_key "output_task_id" (reference t.id) b,
      get_key-delete_other "output_text" "last_error" c refl
          ∙ get_key-put_other "output_text" "output_task_id" (reference t.id) b refl
          ∙ put_some-value_or "output_text" (output_text t.text_output) a
          ∙ ap (value_or (output_text t.text_output)) (
              get_key-put_some_other "output_text" "output_asset_id"
                (first_asset t.output_asset_ids) d refl),
      get_key-delete_other "output_asset_id" "last_error" c refl
          ∙ get_key-put_other "output_asset_id" "output_task_id" (reference t.id) b refl
          ∙ get_key-put_some_other "output_asset_id" "output_text" (output_text t.text_output) a
              refl
          ∙ put_some-value_or "output_asset_id" (first_asset t.output_asset_ids) d,
    )

-- The keys that the write-back may change.
abbrev pub is_written_key : String → Bool
is_written_key k =
    "last_error" == k || "output_task_id" == k || "output_text" == k || "output_asset_id" == k

four_false :
    (a b c d : Bool)
    → (a || b || c || d) ≡ false
    → (a ≡ false) × (b ≡ false) × (c ≡ false) × (d ≡ false)
four_false a b c d h = ground arith

-- Whatever the task's end, each other key of the node's data keeps its value.
projected_keeps :
    (s : Status) (t : Task) (d d' : NodeData) (k : String)
    → projected s t d ≡ some d'
    → is_written_key k ≡ false
    → get_key k d' ≡ get_key k d
unfolding projected
projected_keeps succeeded t d d' k h n =
    let a = put_some "output_asset_id" (first_asset t.output_asset_ids) d in
    let b = put_some "output_text" (output_text t.text_output) a in
    let c = put_key "output_task_id" (reference t.id) b in
    let (e, i, o, u) =
      four_false ("last_error" == k) ("output_task_id" == k) ("output_text" == k)
        ("output_asset_id" == k) n in
    ap (λ r. key_of k r) (sym h)
    ∙ get_key-delete_other k "last_error" c e
    ∙ get_key-put_other k "output_task_id" (reference t.id) b i
    ∙ get_key-put_some_other k "output_text" (output_text t.text_output) a o
    ∙ get_key-put_some_other k "output_asset_id" (first_asset t.output_asset_ids) d u
projected_keeps failed t d d' k h n =
    let (e, i, o, u) =
      four_false ("last_error" == k) ("output_task_id" == k) ("output_text" == k)
        ("output_asset_id" == k) n in
    ap (λ r. key_of k r) (sym h) ∙ get_key-put_other k "last_error" (text (error_text t.error)) d e
projected_keeps cancelled t d d' k h n = ground arith
projected_keeps _ t d d' k h n = ground arith
