-- ===== src/KeySpace.antt =====
-- The mirror of a prefix of Etcd (v2/pkg/keyspace/key_values.go and key_space.go). `decode` is the
-- client's decoder; revisions and versions are numbers.
pub mod Apply
pub mod Tail
pub mod Around
pub mod Round
pub mod Order
pub mod Drain
pub mod Loop
pub mod Applying
pub mod Ranges
mod Examples
use gazette.Prelude.{
  ℕ, zero, suc, ◌+◌, Bool, true, false, ◌&&◌, ◌||◌, not, Option, none, some, List, [], ◌∷◌, ◌++◌,
  ltb, leb, ◌==◌, if◌then◌else◌, Bytes, bytes_eq, bytes_lt, length, take, drop, test_at, get_elem?,
  last, init,
}
use gazette.Go.Search.{search_index}

-- mvccpb.KeyValue.
pub record Raw : Type 0 where
  pub key : Bytes
  pub create_revision : ℕ
  pub mod_revision : ℕ
  pub version : ℕ
  pub value : Bytes

pub record KeyValue (D : Type 0) : Type 0 where
  pub raw : Raw
  pub decoded : D

pub data EventType : Type 0 where
  put delete unknown : EventType

pub record Event : Type 0 where
  pub type : EventType
  pub kv : Raw

-- The inconsistencies that an update reports.
pub data UpdateError : Type 0 where
  undecodable unknown_deletion unknown_modification wrong_version : UpdateError
  old_revision wrong_create_revision skipped_version : UpdateError

pub data Update (A : Type 0) : Type 0 where
  updated : A → Option UpdateError → Update A
  panics : Update A

pub record Header : Type 0 where
  pub cluster_id : ℕ
  pub member_id : ℕ
  pub revision : ℕ
  pub raft_term : ℕ

-- `is_progress_notify` is what IsProgressNotify of Etcd's client answers, by the events that the
-- response has when it is asked.
pub record WatchResponse : Type 0 where
  pub header : Header
  pub events : List Event
  pub is_progress_notify : List Event → Bool

pub record KeySpace (D : Type 0) : Type 0 where
  pub root : Bytes
  pub header : Header
  pub key_values : List (KeyValue D)
  pub updates : ℕ  -- how often observers and waiting goroutines were told

pub data HeaderError : Type 0 where
  cluster_mismatch revision_mismatch : HeaderError

abbrev pub zero_header : Header
zero_header = record { cluster_id = 0; member_id = 0; revision = 0; raft_term = 0 }

-- The header after a patch, or the error; the caller keeps the old header on an error.
unfoldable pub patch_header : Header → Header → Bool → Header × Option HeaderError
patch_header h update allow_same_revision =
    if not (h.cluster_id == 0) && not (h.cluster_id == update.cluster_id)
    then (h, some cluster_mismatch)
    else if allow_same_revision && ltb update.revision h.revision
    then (h, some revision_mismatch)
    else if not allow_same_revision && leb update.revision h.revision
    then (h, some revision_mismatch)
    else (update, none)

module _ {D : Type 0} where
  -- The test of the binary search: `key` is not after the element's key.
  abbrev pub key_from : Bytes → KeyValue D → Bool
  key_from key x = not (bytes_lt x.raw.key key)

  abbrev pub found_at : List (KeyValue D) → ℕ → Bytes → Bool
  found_at kv ind key = elim (get_elem? kv ind) [ none ↦ false | some x ↦ bytes_eq key x.raw.key ]

  unfoldable pub search_key : List (KeyValue D) → Bytes → ℕ × Bool
  search_key kv key =
      let ind = search_index (length kv) (test_at (key_from key) kv) in (ind, found_at kv ind key)

  -- Range: the keys in [from, to).
  unfoldable pub key_range : List (KeyValue D) → Bytes → Bytes → List (KeyValue D)
  unfolding search_key
  key_range kv from to = let tmp = drop (search_key kv from).0 kv in take (search_key tmp to).0 tmp

module _ {D : Type 0} (decode : Raw → Option D) where
  abbrev pub key_value : Raw → D → KeyValue D
  key_value raw d = record { raw = raw; decoded = d }

  abbrev pub append_decoded : List (KeyValue D) → Raw → Update (List (KeyValue D))
  append_decoded kv cur = elim (decode cur) [
    | none ↦ updated kv (some undecodable)
    | some d ↦ updated (kv ++ key_value cur d ∷ []) none
  ]

  unfoldable pub append_key_value : List (KeyValue D) → Raw → Update (List (KeyValue D))
  append_key_value [] cur = append_decoded [] cur
  append_key_value (x ∷ xs) cur =
      if bytes_lt (last x xs).raw.key cur.key then append_decoded (x ∷ xs) cur else panics

  -- The report on an event that created a key, and on one that changed a known value.
  abbrev pub created_error : Raw → Option UpdateError
  created_error kv =
      if not (kv.create_revision == kv.mod_revision)
      then some unknown_modification
      else if not (kv.version == 1)
      then some wrong_version
      else none

  abbrev pub modified_error : Raw → Raw → Option UpdateError
  modified_error old kv =
      if not (old.create_revision == kv.create_revision)
      then some wrong_create_revision
      else if not (old.version + 1 == kv.version)
      then some skipped_version
      else none

  -- The event's key comes after the tail.
  unfoldable pub update_new : List (KeyValue D) → Event → Update (List (KeyValue D))
  update_new kv event = elim event.type [
    | delete ↦ updated kv (some unknown_deletion)
    | unknown ↦ panics
    | put ↦ elim (decode event.kv) [
      | none ↦ updated kv (some undecodable)
      | some d ↦ updated (kv ++ key_value event.kv d ∷ []) (created_error event.kv)
    ]
  ]

  -- The event's key is that of the tail, which comes after `front`.
  unfoldable pub update_last : List (KeyValue D) → KeyValue D → Event → Update (List (KeyValue D))
  update_last front tail event =
      if leb event.kv.mod_revision tail.raw.mod_revision
      then updated (front ++ tail ∷ []) (some old_revision)
      else elim event.type [
        | delete ↦ updated front none
        | unknown ↦ panics
        | put ↦ elim (decode event.kv) [
          | none ↦ updated (front ++ tail ∷ []) (some undecodable)
          | some d ↦ updated (front ++ key_value event.kv d ∷ []) (modified_error tail.raw event.kv)
        ]
      ]

  -- `kv` is `front` and `tail`.
  unfoldable pub update_against :
      List (KeyValue D) → List (KeyValue D) → KeyValue D → Event → Update (List (KeyValue D))
  unfolding update_new update_last
  update_against kv front tail event =
      if bytes_lt event.kv.key tail.raw.key
      then panics
      else if bytes_lt tail.raw.key event.kv.key
      then update_new kv event
      else update_last front tail event

  unfoldable pub update_tail : List (KeyValue D) → Event → Update (List (KeyValue D))
  update_tail [] event = update_new [] event
  update_tail (x ∷ xs) event = update_against (x ∷ xs) (init x xs) (last x xs) event

  -- One round of Apply: current keys are passed on through the event's, and the tail is updated.
  abbrev pub passed_through : List (KeyValue D) → Bytes → ℕ
  unfolding search_key
  passed_through current key =
      if (search_key current key).1
      then suc (search_key current key).0
      else (search_key current key).0
