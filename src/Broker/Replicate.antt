-- ===== src/Broker/Replicate.antt =====
-- How a replica answers a request that the pipeline sends to synchronize, with its validation
-- (serveReplicate of v2/pkg/broker/replicate_api.go, ReplicateRequest.Validate of
-- v2/pkg/protocol/rpc_extensions.go). The header that goes with the first response is left out, as no
-- status that it gives is looked at.
use gazette.Prelude.{
  ℕ, Bool, false, not, ◌&&◌, Option, none, some, List, [], ◌∷◌, leb, ◌==◌, if◌then◌else◌, Bytes,
  bytes_eq, length,
}
use gazette.Protocol.Fragment.{Fragment, Sha1Sum, codec_invalid}
use gazette.Protocol.Validator.{validate_token}
use gazette.Fragment.Spool.{
  Spool, Notice, ReplicateRequest, Reply, ok, fragment_mismatch, invalid_content_delta, apply,
}
use gazette.Broker.Pipeline.{ReplicateResponse, status_ok, mismatch, is_none}

abbrev pub begins_by_slash : Bytes → Bool
begins_by_slash [] = false
begins_by_slash (c ∷ n) = c == 47

-- A response that is sent, none that is asked for, or an error that ends the stream.
pub data Served : Type 0 where
  answered : Spool → ReplicateResponse → Served
  unanswered : Spool → Served
  serve_failed : Spool → Served
  serve_panics : Served

abbrev pub ok_response : ReplicateResponse
ok_response = record { status = status_ok; header = none; fragment = none }

abbrev pub mismatch_response : Fragment → ReplicateResponse
mismatch_response f = record { status = mismatch; header = none; fragment = some f }

abbrev pub serve_reply : Bool → Option (Spool × Reply × List Notice) → Served
serve_reply acknowledge none = serve_panics
serve_reply acknowledge (some (s, ok, told)) =
    if acknowledge then answered s ok_response else unanswered s
serve_reply acknowledge (some (s, fragment_mismatch f, told)) =
    if acknowledge then answered s (mismatch_response f) else serve_failed s
serve_reply acknowledge (some (s, invalid_content_delta, told)) = serve_failed s

-- Journal.Validate; `clean` is path.Clean.
unfoldable pub valid_journal : (Bytes → Bytes) → Bytes → Bool
unfolding validate_token
valid_journal clean n =
    is_none (validate_token n 4 512) && bytes_eq (clean n) n && not (begins_by_slash n)

-- CompressionCodec.Validate: the codecs are the numbers to 5, and 0 is the invalid one.
abbrev pub valid_codec : ℕ → Bool
valid_codec c = leb c 5 && not (c == codec_invalid)

-- Fragment.Validate.
unfoldable pub valid_fragment : (Bytes → Bytes) → Fragment → Bool
unfolding valid_journal
valid_fragment clean f =
    valid_journal clean f.journal && leb f.begin f.end && valid_codec f.compression_codec

abbrev pub valid_proposal : (Bytes → Bytes) → Bytes → Option Fragment → Bool
unfolding valid_fragment
valid_proposal clean journal none = false
valid_proposal clean journal (some p) = valid_fragment clean p && bytes_eq p.journal journal

-- ReplicateRequest.Validate of a request that names its journal, as synchronize sends it;
-- `header_valid` tells whether Header.Validate passes its header.
unfoldable pub valid_request : (Bytes → Bytes) → Bool → Bytes → ReplicateRequest → Bool
unfolding valid_journal valid_proposal
valid_request clean header_valid journal r =
    valid_journal clean journal
    && header_valid
    && valid_proposal clean journal r.proposal
    && length r.content == 0
    && r.content_delta == 0
    && r.acknowledge

-- A request that is received: it is validated, and applied if it is valid.
unfoldable pub serve_request :
    (Bytes → Sha1Sum)
    → (ℕ → Bytes → Bytes)
    → (Bytes → Bytes)
    → Bool
    → Bytes
    → Spool
    → ReplicateRequest
    → ℕ
    → Served
unfolding apply valid_request
serve_request sum_of encode clean header_valid journal s r now =
    let reply = serve_reply r.acknowledge (apply sum_of encode s r false now) in
    if valid_request clean header_valid journal r then reply else serve_failed s
