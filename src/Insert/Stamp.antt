-- ===== src/Insert/Stamp.antt =====
-- internal/core/insert_stamp.go: the tags and the metadata that every inserted row carries.
use go_flywheel.Base.{
  List, Option, String, [], false, if◌then◌else◌, length, ltb, none, not, select, some, str_eq,
  str_mem, true, ℕ, ◌∷◌,
}
use go_flywheel.Env.{Ctx, InsertInfo, Lib, Meta}
use go_flywheel.Types.{Bytes, Error, Result, err, guard, invalid, ok, ◌>>=◌, ◌>>◌}

abbrev pub max_tags : ℕ
max_tags = 16

abbrev pub max_tag_bytes : ℕ
max_tag_bytes = 64

abbrev pub max_metadata_bytes : ℕ
max_metadata_bytes = 8192

-- constants.FieldRequestID of go-foundation.
abbrev pub request_id_key : String
request_id_key = "request_id"

-- The first occurrences, in order.
pub distinct : List String → List String → List String
distinct seen [] = []
distinct seen (t ∷ ts) = elim (str_mem t seen) [
  | true ↦ distinct seen ts
  | false ↦ t ∷ distinct (t ∷ seen) ts
]

tag_fault : Lib → String → Option Error
tag_fault lib t =
    if str_eq t ""
    then some (invalid "tags" "holds an empty tag")
    else if ltb max_tag_bytes (lib.byte_len t)
    then some (invalid "tags" "holds a tag longer than 64 bytes")
    else if not (lib.valid_utf8 t)
    then some (invalid "tags" "holds a tag that is not valid UTF-8")
    else if lib.has_control t
    then some (invalid "tags" "holds a tag with a control character")
    else none

check_tags : Lib → List String → Result (Unit {0})
check_tags lib [] = ok tt
check_tags lib (t ∷ ts) =
    let rest = check_tags lib ts in elim (tag_fault lib t) [ none ↦ rest | some e ↦ err e ]

-- tagsJSON: the tags kept, which the column holds as a JSON array.
pub tags_json : Lib → List String → Result (List String)
unfolding distinct tag_fault check_tags
tags_json lib tags = do
  let kept = distinct [] tags
  guard (not (ltb max_tags (length kept))) (invalid "tags" "holds more than 16 tags")
  check_tags lib kept
  ok kept

-- A write to a Go map, whose encoding orders the keys.
put : String → Bytes → Meta → Meta
put k v m = (k, v) ∷ select (λ e. not (str_eq e.0 k)) m

put_all : Meta → Meta → Meta
unfolding put
put_all [] m = m
put_all ((k, v) ∷ rest) m = put_all rest (if str_eq k request_id_key then m else put k v m)

merge : Ctx → String → Meta → Meta → Meta
unfolding put put_all
merge c request_id caller hooked =
    let merged = put_all hooked (put_all caller []) in
    if str_eq request_id ""
    then merged
    else put request_id_key (c.lib.encode_string request_id) merged

bounded_meta : Option Bytes → Result Bytes
bounded_meta none = err (invalid "metadata" "cannot be encoded as JSON")
bounded_meta (some out) =
    if ltb max_metadata_bytes (length out)
    then err (invalid "metadata" "is larger than 8192 bytes once merged")
    else ok out

pub metadata_json : Ctx → String → Meta → Meta → Result Bytes
unfolding merge bounded_meta
metadata_json c request_id [] [] = ok (c.lib.request_metadata request_id)
metadata_json c request_id caller hooked =
    bounded_meta (c.lib.marshal_meta (merge c request_id caller hooked))

pub record Stamp : Type 0 where
  pub tags : List String
  pub metadata : Bytes

unfoldable pub stamp_row : Ctx → InsertInfo → List String → Meta → String → Result Stamp
unfolding tags_json metadata_json
stamp_row c info tags meta request_id = do
  kept ← tags_json c.lib tags
  metadata ← metadata_json c request_id meta (c.hook info)
  ok (record { tags = kept; metadata = metadata })
