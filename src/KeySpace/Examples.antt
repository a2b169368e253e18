-- ===== src/KeySpace/Examples.antt =====
-- The theorems on the key space at concrete keys, events and responses.
use gazette.Prelude.{
  ◌==◌, length, ℕ, ◌≡◌, ◌⊎◌, refl, false, Option, none, some, List, [], ◌∷◌, arith, Bytes, bytes_lt,
  bytes_eq,
}
use gazette.Go.Search.{search_index}
use gazette.KeySpace.{
  Raw, KeyValue, EventType, put, delete, Event, Header, WatchResponse, KeySpace, HeaderError,
  patch_header, update_new, update_last, update_against, update_tail, search_key,
}
use gazette.KeySpace.Apply.{
  pop_least, patch_headers, pass_and_update, apply_event, apply_loop, apply_responses, applied,
}
use gazette.KeySpace.Tail.{IsSorted}
use gazette.KeySpace.Applying.{
  IsWatched, HeadersFit, IsApplied, apply_responses-IsApplied, Advanced, apply_responses-Advanced,
  apply_responses-unfit,
}

-- A decoder that refuses the empty value.
abbrev decode_first : Raw → Option ℕ
decode_first raw = elim raw.value [ [] ↦ none | b ∷ bs ↦ some b ]

abbrev raw_key : ℕ → ℕ → ℕ → ℕ → Bytes → Raw
raw_key key created modified version value = record {
  key = key ∷ [];
  create_revision = created;
  mod_revision = modified;
  version = version;
  value = value;
}

abbrev held : ℕ → KeyValue ℕ
held key = record { raw = raw_key key 1 1 1 (7 ∷ []); decoded = 7 }

abbrev revision_header : ℕ → Header
revision_header revision = record {
  cluster_id = 9;
  member_id = 1;
  revision = revision;
  raft_term = 1;
}

abbrev space : KeySpace ℕ
space = record {
  root = [];
  header = revision_header 1;
  key_values = held 10 ∷ held 20 ∷ held 30 ∷ [];
  updates = 0;
}

abbrev event_at : EventType → Raw → Event
event_at type kv = record { type = type; kv = kv }

-- In the first, key 20 is changed and key 15 created; in the second, 20 is deleted.
abbrev responses : List WatchResponse
responses =
    record {
      header = revision_header 3;
      events =
          event_at put (raw_key 20 1 2 2 (8 ∷ [])) ∷ event_at put (raw_key 15 3 3 1 (6 ∷ [])) ∷ [];
      is_progress_notify = λ es. false;
    }
    ∷ record {
      header = revision_header 4;
      events = event_at delete (raw_key 20 0 4 0 []) ∷ [];
      is_progress_notify = λ es. false;
    }
    ∷ []

space-IsSorted : IsSorted space.key_values
unfolding bytes_lt
space-IsSorted = ((refl, (refl, tt)), ((refl, tt), (tt, tt)))

responses-IsWatched : IsWatched responses
unfolding bytes_eq
responses-IsWatched = (
  ((((λ h. ground arith), tt), (tt, tt)), ((tt, tt), tt)),
  ((λ h. ground arith), ((λ h. ground arith), ((λ h. ground arith), tt))),
)

responses-HeadersFit : HeadersFit decode_first space responses
unfolding patch_header patch_headers
responses-HeadersFit = (refl, refl)

apply_responses_runs :
    apply_responses decode_first space responses
    ≡ applied
        record {
          root = [];
          header = revision_header 4;
          key_values =
              held 10 ∷ record { raw = raw_key 15 3 3 1 (6 ∷ []); decoded = 6 } ∷ held 30 ∷ [];
          updates = 1;
        }
        none
unfolding apply_responses patch_headers patch_header apply_loop pop_least apply_event
    pass_and_update update_tail update_against update_new update_last search_key search_index
    bytes_lt bytes_eq
apply_responses_runs = refl

apply_responses-IsApplied_example :
    IsApplied decode_first space responses (apply_responses decode_first space responses)
apply_responses-IsApplied_example =
    apply_responses-IsApplied decode_first space responses space-IsSorted responses-IsWatched
      responses-HeadersFit

apply_responses-Advanced_example :
    Advanced decode_first space responses (apply_responses decode_first space responses)
apply_responses-Advanced_example = apply_responses-Advanced decode_first space responses

-- A lone response at the revision of the key space, with an event, which is taken before the check.
abbrev repeated : List WatchResponse
repeated =
    record {
      header = space.header;
      events = event_at delete (raw_key 20 0 4 0 []) ∷ [];
      is_progress_notify = λ es. length es == 0;
    }
    ∷ []

apply_responses_repeats :
    apply_responses decode_first space repeated
    ≡ applied (record space { key_values = held 10 ∷ held 30 ∷ []; updates = 1 }) none
unfolding apply_responses patch_headers patch_header apply_loop pop_least apply_event
    pass_and_update update_tail update_against update_new update_last search_key search_index
    bytes_lt bytes_eq
apply_responses_repeats = refl

-- Another cluster answers.
abbrev foreign : List WatchResponse
foreign =
    record {
      header = record { cluster_id = 8; member_id = 1; revision = 5; raft_term = 1 };
      events = [];
      is_progress_notify = λ es. false;
    }
    ∷ []

foreign-IsWatched : IsWatched foreign
foreign-IsWatched = ((tt, tt), tt)

apply_responses-unfit_example :
    ((e : HeaderError) × (apply_responses decode_first space foreign ≡ applied space (some e)))
    ⊎ HeadersFit decode_first space foreign
apply_responses-unfit_example =
    apply_responses-unfit decode_first space foreign space-IsSorted foreign-IsWatched
