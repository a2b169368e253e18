-- ===== src/Broker/Pipeline.antt =====
-- The replication pipeline of v2/pkg/broker/pipeline.go: its proposals to the peers of a journal and
-- what it makes of their answers. What a peer's stream returns is an argument, and a panic is `none`
-- or `sync_panics`. The arrays by peer are one list, without the primary, whose
-- error of sending is apart.
pub mod Gathering
pub mod Agreement
pub mod Rolling
pub mod Convergence
use gazette.Prelude.{
  ℕ, zero, suc, ◌+◌, Bool, true, false, ◌&&◌, ◌||◌, not, Option, none, some, List, [], ◌∷◌, ltb,
  ◌==◌, if◌then◌else◌, Bytes, bytes_eq,
}
use gazette.Protocol.Fragment.{Fragment, Sha1Sum, zero_sum, is_empty}
use gazette.Fragment.Spool.{
  Spool, Notice, ReplicateRequest, Reply, ok, fragment_mismatch, invalid_content_delta, apply,
  must_apply,
}

pub record ProcessId : Type 0 where
  pub zone : Bytes
  pub suffix : Bytes

-- No primary is the index -1.
pub record Route : Type 0 where
  pub members : List ProcessId
  pub primary : Option ℕ

pub record Header : Type 0 where
  pub route : Route
  pub revision : ℕ

abbrev pub members_equal : List ProcessId → List ProcessId → Bool
members_equal [] [] = true
members_equal [] (b ∷ bs) = false
members_equal (a ∷ as') [] = false
members_equal (a ∷ as') (b ∷ bs) =
    bytes_eq a.zone b.zone && bytes_eq a.suffix b.suffix && members_equal as' bs

abbrev pub primary_equal : Option ℕ → Option ℕ → Bool
primary_equal none none = true
primary_equal none (some b) = false
primary_equal (some a) none = false
primary_equal (some a) (some b) = a == b

unfoldable pub equivalent : Route → Route → Bool
equivalent m other = primary_equal m.primary other.primary && members_equal m.members other.members

pub data Status : Type 0 where
  status_ok wrong_route mismatch : Status
  other_status : ℕ → Status

pub record ReplicateResponse : Type 0 where
  pub status : Status
  pub header : Option Header
  pub fragment : Option Fragment

pub data PeerError : Type 0 where
  stream_error : ℕ → PeerError
  spool_error unexpected_wrong_route unexpected_mismatch unexpected_status unexpected_response :
      PeerError

pub record Peer : Type 0 where
  pub stream : Bool
  pub send_err : Option PeerError
  pub recv_err : Option PeerError
  pub recv_resp : ReplicateResponse

-- What a receive from a stream returns.
pub data Received : Type 0 where
  received : ReplicateResponse → Received
  receive_failed : ℕ → Received

abbrev pub is_none {ℓ} : {A : Type ℓ} → Option A → Bool
is_none none = true
is_none (some a) = false

abbrev pub receives : Peer → Bool
receives p = p.stream && is_none p.recv_err

abbrev pub gather_peer : Peer → Received → Peer
gather_peer p (received resp) = record p { recv_resp = resp }
gather_peer p (receive_failed e) = record p { recv_err = some (stream_error e) }

unfoldable pub gather : List Peer → List Received → List Peer
gather [] rs = []
gather (p ∷ ps) [] = p ∷ ps
gather (p ∷ ps) (r ∷ rs) =
    let rest = gather ps rs in if receives p then gather_peer p r ∷ rest else p ∷ rest

-- What is gathered: the peers, the offset to roll to and the revision to read through.
pub record Gathered : Type 0 where
  pub peers : List Peer
  pub roll_to_offset : ℕ
  pub read_through_rev : ℕ

abbrev pub failed : Peer → PeerError → Peer
failed p e = record p { recv_err = some e }

abbrev pub larger : ℕ → ℕ → ℕ
larger a b = if ltb b a then a else b

module _ (hdr : Header) (proposal : Fragment) where
  -- The peer, and the offset and revision so far, after its response.
  abbrev pub sync_wrong_route : Peer → Header → ℕ → ℕ → Peer × ℕ × ℕ
  unfolding equivalent
  sync_wrong_route p h roll through =
      if not (equivalent h.route hdr.route) && ltb hdr.revision h.revision
      then (p, roll, larger h.revision through)
      else (failed p unexpected_wrong_route, roll, through)

  abbrev pub sync_mismatch : Peer → Fragment → ℕ → ℕ → Peer × ℕ × ℕ
  unfolding is_empty
  sync_mismatch p f roll through =
      if ltb proposal.end f.end || (f.end == proposal.end && is_empty f)
      then (p, larger f.end roll, through)
      else (failed p unexpected_mismatch, roll, through)

  -- A response without the header or fragment of its status is a nil pointer.
  abbrev pub header_response : Peer → Option Header → ℕ → ℕ → Option (Peer × ℕ × ℕ)
  unfolding sync_wrong_route
  header_response p none roll through = none
  header_response p (some h) roll through = some (sync_wrong_route p h roll through)

  abbrev pub fragment_response : Peer → Option Fragment → ℕ → ℕ → Option (Peer × ℕ × ℕ)
  unfolding sync_mismatch
  fragment_response p none roll through = none
  fragment_response p (some f) roll through = some (sync_mismatch p f roll through)

  abbrev pub status_response : Peer → Status → ℕ → ℕ → Option (Peer × ℕ × ℕ)
  unfolding header_response fragment_response
  status_response p status_ok roll through = some (p, roll, through)
  status_response p wrong_route roll through = header_response p p.recv_resp.header roll through
  status_response p mismatch roll through = fragment_response p p.recv_resp.fragment roll through
  status_response p (other_status n) roll through = some (failed p unexpected_status, roll, through)

  unfoldable pub sync_response : Peer → ℕ → ℕ → Option (Peer × ℕ × ℕ)
  unfolding status_response
  sync_response p roll through = status_response p p.recv_resp.status roll through

  abbrev pub with_peer : Peer → Option Gathered → Option Gathered
  with_peer p none = none
  with_peer p (some g) = some (record g { peers = p ∷ g.peers })

  unfoldable pub sync_peers : List Peer → ℕ → ℕ → Option Gathered
  unfolding sync_response
  sync_peers [] roll through =
      some record { peers = []; roll_to_offset = roll; read_through_rev = through }
  sync_peers (p ∷ ps) roll through =
      if receives p
      then elim (sync_response p roll through) [
        | none ↦ none
        | some (p', roll', through') ↦ with_peer p' (sync_peers ps roll' through')
      ]
      else with_peer p (sync_peers ps roll through)

  unfoldable pub gather_sync : List Peer → List Received → Option Gathered
  unfolding gather sync_peers
  gather_sync peers rs = sync_peers (gather peers rs) 0 0

-- sendErr and recvErr: the first error.
abbrev pub first_send_err : List Peer → Option PeerError
first_send_err [] = none
first_send_err (p ∷ ps) = elim p.send_err [ none ↦ first_send_err ps | some e ↦ some e ]

abbrev pub first_recv_err : List Peer → Option PeerError
first_recv_err [] = none
first_recv_err (p ∷ ps) = elim p.recv_err [ none ↦ first_recv_err ps | some e ↦ some e ]

-- The outcomes of sends over the streams that have not failed.
unfoldable pub send_all : List Peer → List (Option PeerError) → List Peer
send_all [] es = []
send_all (p ∷ ps) [] = p ∷ ps
send_all (p ∷ ps) (e ∷ es) =
    let rest = send_all ps es in
    if p.stream && is_none p.send_err then record p { send_err = e } ∷ rest else p ∷ rest

pub record Pipeline : Type 0 where
  pub header : Header
  pub spool : Spool
  pub peers : List Peer
  pub primary_err : Option PeerError  -- the entry of the primary in sendErrs
  pub read_through_rev : ℕ

-- What the streams return in a round: of sends, of receives and, if it shuts down, of CloseSend.
pub record Round : Type 0 where
  pub now : ℕ
  pub sends : List (Option PeerError)
  pub receipts : List Received
  pub closes : List (Option PeerError)
  pub ends : List (Option PeerError)  -- of the last receive: none is an end of file

pub data Synced : Type 0 where
  returned : Pipeline → Option PeerError → Synced
  again : Pipeline → Fragment → Synced
  sync_panics : Synced

abbrev pub proposes : Fragment → ReplicateRequest
proposes p = record { proposal = some p; content = []; content_delta = 0; acknowledge = true }

unfoldable pub end_all : List Peer → List (Option PeerError) → List Peer
end_all [] es = []
end_all (p ∷ ps) [] = p ∷ ps
end_all (p ∷ ps) (e ∷ es) =
    let rest = end_all ps es in if receives p then record p { recv_err = e } ∷ rest else p ∷ rest

abbrev pub first_of : Option PeerError → Option PeerError → Option PeerError
first_of none b = b
first_of (some e) b = some e

module _ (sum_of : Bytes → Sha1Sum) (encode : ℕ → Bytes → Bytes) where
  -- The pipeline that has sent, with the primary's own reply.
  abbrev pub primary_applied : Pipeline → Option (Spool × Reply × List Notice) → Option Pipeline
  primary_applied sent none = none
  primary_applied sent (some (spool, ok, told)) = some (record sent { spool = spool })
  primary_applied sent (some (spool, fragment_mismatch f, told)) = none
  primary_applied sent (some (spool, invalid_content_delta, told)) =
      some (record sent { spool = spool; primary_err = some spool_error })

  abbrev pub to_primary :
      Pipeline → Option PeerError → Option (Spool × Reply × List Notice) → Option Pipeline
  to_primary sent (some e) applied = some sent
  to_primary sent none applied = primary_applied sent applied

  -- The primary's own spool takes part after the peers.
  unfoldable pub scatter : Pipeline → ReplicateRequest → Round → Option Pipeline
  unfolding send_all apply
  scatter pln r round =
      to_primary (record pln { peers = send_all pln.peers round.sends }) pln.primary_err
        (apply sum_of encode pln.spool r true round.now)

  -- closeSend and gatherEOF, which the returned spool is rolled back by.
  unfoldable pub shutdown : Pipeline → Round → Option Pipeline
  unfolding must_apply send_all end_all
  shutdown pln round =
      elim (must_apply sum_of encode pln.spool
        (record (proposes pln.spool.fragment) { acknowledge = false }) round.now) [
          | none ↦ none
          | some (spool, told) ↦ some (record pln {
            spool = spool;
            peers = end_all (send_all pln.peers round.closes) round.ends;
          })
        ]

  abbrev pub rolled_to : Fragment → ℕ → Fragment
  rolled_to p offset = record p { begin = offset; end = offset; sum = zero_sum }

  abbrev pub after_shutdown : Option Pipeline → ℕ → Option PeerError → Synced
  after_shutdown none rev err = sync_panics
  after_shutdown (some pln) rev err = returned (record pln { read_through_rev = rev }) err

  -- After responses are gathered, by the first error.
  abbrev pub sync_decided : Pipeline → Fragment → Round → Gathered → Option PeerError → Synced
  unfolding shutdown
  sync_decided pln proposal round g (some e) =
      after_shutdown (shutdown pln round) pln.read_through_rev (some e)
  sync_decided pln proposal round g none =
      if not (g.roll_to_offset == 0)
      then again pln (rolled_to proposal g.roll_to_offset)
      else if not (g.read_through_rev == 0)
      then after_shutdown (shutdown pln round) g.read_through_rev none
      else returned pln none

  unfoldable pub sync_gathered : Pipeline → Fragment → Round → Gathered → Synced
  unfolding sync_decided
  sync_gathered pln proposal round g =
      sync_decided (record pln { peers = g.peers }) proposal round g
        (first_of (first_recv_err g.peers) (first_of (first_send_err g.peers) pln.primary_err))

  abbrev pub sync_received : Pipeline → Fragment → Round → Option Gathered → Synced
  unfolding sync_gathered
  sync_received pln proposal round none = sync_panics
  sync_received pln proposal round (some g) = sync_gathered pln proposal round g

  abbrev pub sync_scattered : Fragment → Round → Option Pipeline → Synced
  unfolding sync_received gather_sync
  sync_scattered proposal round none = sync_panics
  sync_scattered proposal round (some pln) =
      sync_received pln proposal round (gather_sync pln.header proposal pln.peers round.receipts)

  -- A round of synchronize.
  unfoldable pub sync_round : Pipeline → Fragment → Round → Synced
  unfolding scatter sync_scattered
  sync_round pln proposal round =
      sync_scattered proposal round (scatter pln (proposes proposal) round)

  -- The loop of synchronize, over the rounds that happen; `again` is that it waits in the next one.
  abbrev pub sync_rounds : Pipeline → Fragment → List Round → Synced
  unfolding sync_round
  sync_rounds pln proposal [] = again pln proposal
  sync_rounds pln proposal (round ∷ rounds) = elim (sync_round pln proposal round) [
    | again pln' proposal' ↦ sync_rounds pln' proposal' rounds
    | returned pln' err ↦ returned pln' err
    | sync_panics ↦ sync_panics
  ]

  unfoldable pub synchronize : Pipeline → List Round → Synced
  unfolding sync_rounds
  synchronize pln rounds = sync_rounds pln pln.spool.fragment rounds
