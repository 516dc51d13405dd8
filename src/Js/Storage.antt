-- ===== src/Js/Storage.antt =====
-- `localStorage` as a map from keys to texts.
use wagr.Common.{String, Option, none, some, ◌===◌, if◌then◌else◌}

abbrev pub Storage : Type 0
Storage = String → Option String

abbrev pub set_item : String → String → Storage → Storage
set_item key v store k = if k === key then some v else store k

abbrev pub remove_item : String → Storage → Storage
remove_item key store k = if k === key then none else store k
