-- ===== src/Broker/Pipeline/Convergence.antt =====
-- The second round of synchronize (v2/pkg/broker/pipeline.go), with replicas that answer as
-- serveReplicate (v2/pkg/broker/replicate_api.go) does from spools.
use mathlib.Core.Path.{subst}
use gazette.Prelude.{
  ℕ, ◌≡◌, refl, sym, ap, ◌∙◌, arith, Bool, true, false, Option, none, some, List, [], ◌∷◌,
  if◌then◌else◌, All, Bytes, bytes_eq_iff, length, map, ◌&&◌,
}
use gazette.Protocol.Fragment.{Fragment, Sha1Sum}
use gazette.Fragment.Spool.{Spool, apply, apply_commit}
use gazette.Broker.Pipeline.{
  Header, Peer, PeerError, Received, received, receive_failed, status_ok, Gathered, is_none,
  receives, first_recv_err, first_send_err, first_of, send_all, gather, gather_sync, with_peer,
  sync_response, status_response, sync_peers, Pipeline, Round, returned, proposes, rolled_to,
  to_primary, primary_applied, scatter, sync_decided, sync_gathered, sync_received, sync_scattered,
  sync_round,
}
use gazette.Broker.Replicate.{
  answered, ok_response, serve_reply, valid_journal, valid_codec, valid_fragment, valid_request,
  serve_request,
}
use gazette.Broker.Pipeline.Rolling.{Behind, IsProposal, rolled-accepted}

module _ (sum_of : Bytes → Sha1Sum) (encode : ℕ → Bytes → Bytes) (clean : Bytes → Bytes)
    (header_valid : Bool) (journal : Bytes) where
  -- What the stream to a replica returns, and its spool after.
  abbrev pub answer : Fragment → ℕ → Spool → Received
  unfolding serve_request
  answer q now s =
      elim (serve_request sum_of encode clean header_valid journal s (proposes q) now) [
        | answered s' resp ↦ received resp
        | _ ↦ receive_failed 0
      ]

  abbrev pub AnswersAt : Fragment → ℕ → Spool → Type 0
  AnswersAt q now s =
      (s' : Spool) × (serve_request sum_of encode clean header_valid journal s (proposes q) now
        ≡ answered s' ok_response)
      × (s'.fragment ≡ q)

  -- Each replica passes the header, and the journal and the codec of the proposal are valid.
  abbrev pub IsValid : Fragment → Type 0
  IsValid p =
      (header_valid ≡ true)
      × (p.journal ≡ journal)
      × (valid_journal clean journal ≡ true)
      × (valid_codec p.compression_codec ≡ true)

  rolled-valid :
      (p : Fragment) (offset : ℕ)
      → IsValid p
      → valid_request clean header_valid journal (proposes (rolled_to sum_of encode p offset))
        ≡ true
  unfolding valid_request valid_fragment
  rolled-valid p offset (h, e, j, c) =
      ground (arith, h, e, j, c, ap (valid_journal clean) e, bytes_eq_iff p.journal journal)

  served :
      (s : Spool) (q : Fragment) (now : ℕ)
      → valid_request clean header_valid journal (proposes q) ≡ true
      → serve_request sum_of encode clean header_valid journal s (proposes q) now
        ≡ serve_reply true (apply sum_of encode s (proposes q) false now)
  unfolding serve_request
  served s q now h = rw h refl

  pub Behind-AnswersAt :
      (p : Fragment) (offset now : ℕ) (s : Spool)
      → IsProposal sum_of encode p
      → IsValid p
      → Behind sum_of encode p offset s
      → AnswersAt (rolled_to sum_of encode p offset) now s
  unfolding serve_request apply
  Behind-AnswersAt p offset now s i v b =
      let (s', told, e, f, d) = rolled-accepted sum_of encode p offset now false s i b in
      (
        s',
        served s (rolled_to sum_of encode p offset) now (rolled-valid p offset v)
            ∙ ap (serve_reply true) e,
        f,
      )

  answer-ok :
      (q : Fragment) (now : ℕ) (s : Spool)
      → AnswersAt q now s
      → answer q now s ≡ received ok_response
  unfolding answer
  answer-ok q now s (s', e, f) = rw (answer, e) refl

  -- A peer whose stream has not failed, and one that has accepted.
  abbrev pub IsHealthy : Peer → Type 0
  IsHealthy p = (p.stream ≡ true) × (p.send_err ≡ none) × (p.recv_err ≡ none)

  abbrev HasAccepted : Peer → Type 0
  HasAccepted p = IsHealthy p × (p.recv_resp.status ≡ status_ok)

  abbrev pub no_error : (p : Peer) → Option PeerError
  no_error p = none

  healthy-sends : (p : Peer) → IsHealthy p → (p.stream && is_none p.send_err) ≡ true
  healthy-sends p h = ground (arith, h)

  healthy-receives : (p : Peer) → IsHealthy p → receives p ≡ true
  healthy-receives p h = ground (arith, h)

  -- A healthy peer that accepts.
  abbrev accept : Peer → Peer
  accept p = record p { send_err = none; recv_resp = ok_response }

  sent_and_gathered :
      (q : Fragment) (now : ℕ) (ps : List Peer) (ss : List Spool)
      → length ps ≡ length ss
      → All IsHealthy ps
      → All (AnswersAt q now) ss
      → All HasAccepted (gather (send_all ps (map no_error ps)) (map (answer q now) ss))
  unfolding gather send_all answer
  sent_and_gathered q now [] ss l h a = tt
  sent_and_gathered q now (p ∷ ps) [] l h a = absurd (omega (arith, l))
  sent_and_gathered q now (p ∷ ps) (s ∷ ss) l h a =
      let rest = sent_and_gathered q now ps ss (omega (arith, l)) h.1 a.1 in
      let p' : Peer = record p { send_err = none } in
      let ps' = send_all ps (map no_error ps) in
      let rs = map (answer q now) ss in
      let sends : send_all (p ∷ ps) (none ∷ map no_error ps) ≡ p' ∷ ps' =
        ap (λ b. if b then p' ∷ ps' else p ∷ ps') (healthy-sends p h.0) in
      let gathers : gather (p' ∷ ps') (received ok_response ∷ rs) ≡ accept p ∷ gather ps' rs =
        ap (λ b. if b then accept p ∷ gather ps' rs else p' ∷ gather ps' rs)
          (healthy-receives p' (h.0.0, refl, h.0.2)) in
      subst (All HasAccepted)
        (sym (
          ap (λ t. gather t (answer q now s ∷ rs)) sends
          ∙ ap (λ r. gather (p' ∷ ps') (r ∷ rs)) (answer-ok q now s a.0)
          ∙ gathers))
        (((h.0.0, refl, h.0.2), refl), rest)

  -- Peers that have all accepted are gathered without an error, an offset or a revision.
  sync_peers-accepted :
      (hdr : Header) (q : Fragment) (ps : List Peer)
      → All HasAccepted ps
      → sync_peers hdr q ps 0 0
        ≡ some record { peers = ps; roll_to_offset = 0; read_through_rev = 0 }
  unfolding sync_peers sync_response status_response
  sync_peers-accepted hdr q [] a = refl
  sync_peers-accepted hdr q (p ∷ ps) a =
      let next_peers : Option (Peer × ℕ × ℕ) → Option Gathered = λ o. elim o [
        | none ↦ none
        | some (p', roll', through') ↦ with_peer hdr q p' (sync_peers hdr q ps roll' through')
      ] in
      let receive : sync_peers hdr q (p ∷ ps) 0 0 ≡ next_peers (sync_response hdr q p 0 0) =
        ap
          (λ b.
            if b
            then next_peers (sync_response hdr q p 0 0)
            else with_peer hdr q p (sync_peers hdr q ps 0 0))
          (healthy-receives p a.0.0) in
      receive
      ∙ ap (λ t. next_peers (status_response hdr q p t 0 0)) a.0.1
      ∙ ap (with_peer hdr q p) (sync_peers-accepted hdr q ps a.1)

  no_recv_err : (ps : List Peer) → All HasAccepted ps → first_recv_err ps ≡ none
  no_recv_err [] a = refl
  no_recv_err (p ∷ ps) a = ground (arith, a.0.0, no_recv_err ps a.1)

  no_send_err : (ps : List Peer) → All HasAccepted ps → first_send_err ps ≡ none
  no_send_err [] a = refl
  no_send_err (p ∷ ps) a = ground (arith, a.0.0, no_send_err ps a.1)

  -- A round in which no stream fails, and the replicas answer from their spools.
  abbrev pub healthy_round : ℕ → Fragment → List Peer → List Spool → Round
  unfolding answer
  healthy_round now q ps ss = record {
    now = now;
    sends = map no_error ps;
    receipts = map (answer q now) ss;
    closes = [];
    ends = [];
  }

  All-AnswersAt :
      (p : Fragment) (offset now : ℕ) (ss : List Spool)
      → IsProposal sum_of encode p
      → IsValid p
      → All (Behind sum_of encode p offset) ss
      → All (AnswersAt (rolled_to sum_of encode p offset) now) ss
  All-AnswersAt p offset now [] i v b = tt
  All-AnswersAt p offset now (s ∷ ss) i v b =
      (Behind-AnswersAt p offset now s i v b.0, All-AnswersAt p offset now ss i v b.1)

  -- The primary's spool and those of the replicas, one for each peer, are of the proposal's journal,
  -- have nothing uncommitted, agree with their files and sums, and end by an offset. The proposal has
  -- no backing store and no modification time, its journal and codec are valid, and each replica
  -- passes the header. No stream has failed or fails, and the replicas validate and answer as
  -- serveReplicate does. Then a round with the proposal moved to the offset returns without an error
  -- and without a revision to read through that was not there before, and the primary's and every
  -- replica's spool is at that proposal.
  pub sync_round-converges :
      (pln : Pipeline) (p : Fragment) (offset now : ℕ) (ss : List Spool)
      → IsProposal sum_of encode p
      → IsValid p
      → Behind sum_of encode p offset pln.spool
      → All (Behind sum_of encode p offset) ss
      → All IsHealthy pln.peers
      → length pln.peers ≡ length ss
      → pln.primary_err ≡ none
      → (pln' : Pipeline) × (sync_round sum_of encode pln
            (rolled_to sum_of encode p offset)
            (healthy_round now (rolled_to sum_of encode p offset) pln.peers ss)
          ≡ returned pln' none)
        × (pln'.read_through_rev ≡ pln.read_through_rev)
        × (pln'.spool.fragment ≡ rolled_to sum_of encode p offset)
        × All (AnswersAt (rolled_to sum_of encode p offset) now) ss
  unfolding sync_round scatter sync_scattered sync_received gather_sync sync_gathered sync_decided
      healthy_round apply
  sync_round-converges pln p offset now ss i v b bs h l e =
      let q = rolled_to sum_of encode p offset in
      let round = healthy_round now q pln.peers ss in
      let (s', told, c, f, d) = rolled-accepted sum_of encode p offset now true pln.spool i b in
      let answers = All-AnswersAt p offset now ss i v bs in
      let sent = send_all pln.peers (map no_error pln.peers) in
      let accepted = sent_and_gathered q now pln.peers ss l h answers in
      let ps = gather sent (map (answer q now) ss) in
      let g : Gathered = record { peers = ps; roll_to_offset = 0; read_through_rev = 0 } in
      let pln1 : Pipeline = record pln { peers = sent; spool = s' } in
      let pln2 : Pipeline = record pln1 { peers = ps } in
      let scattered : scatter sum_of encode pln (proposes q) round ≡ some pln1 =
        ap
          (λ t.
            to_primary sum_of encode (record pln { peers = sent }) t
              (apply_commit sum_of encode pln.spool q true now))
          e
        ∙ ap (primary_applied sum_of encode (record pln { peers = sent })) c in
      let gathered : gather_sync pln.header q sent (map (answer q now) ss) ≡ some g =
        sync_peers-accepted pln.header q ps accepted in
      let errs : first_of (first_recv_err ps) (first_of (first_send_err ps) pln.primary_err)
          ≡ none =
        ap (λ t. first_of t (first_of (first_send_err ps) pln.primary_err))
          (no_recv_err ps accepted)
        ∙ ap (λ t. first_of t pln.primary_err) (no_send_err ps accepted)
        ∙ e in
      (
        pln2,
        ap (sync_scattered sum_of encode q round) scattered
            ∙ ap (sync_received sum_of encode pln1 q round) gathered
            ∙ ap (sync_decided sum_of encode pln2 q round g) errs,
        refl,
        f,
        answers,
      )
