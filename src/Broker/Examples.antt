-- ===== src/Broker/Examples.antt =====
-- The theorems on the pipeline at concrete peers.
use gazette.Prelude.{
  All, ◌≤◌, ℕ, ◌≡◌, refl, true, none, some, List, [], ◌∷◌, arith, Bytes, length, bytes_eq,
}
use gazette.Protocol.Fragment.{Sha1Sum, fragment_eq, is_empty}
use gazette.Fragment.Spool.{
  Spool, empty_fragment, empty_spool, compress_through, next, roll_forward, settle, apply_commit,
  apply,
}
use gazette.Fragment.Spool.State.{IsConsistent, empty-IsConsistent}
use gazette.Broker.Pipeline.{
  status_ok, mismatch, ReplicateResponse, Peer, received, gather, sync_response, sync_peers,
  gather_sync, send_all, Pipeline, Round, returned, scatter, sync_gathered, sync_round, synchronize,
}
use gazette.Broker.Pipeline.{rolled_to}
use gazette.Protocol.Validator.{validate_token}
use gazette.Broker.Replicate.{valid_journal}
use gazette.Broker.Pipeline.Rolling.{Behind}
use gazette.Broker.Pipeline.Convergence.{AnswersAt, healthy_round, sync_round-converges}
use gazette.Broker.Pipeline.Agreement.{RoundEnds, sync_round-RoundEnds}

abbrev sum_of : Bytes → Sha1Sum
sum_of b = record { part1 = length b; part2 = 7; part3 = 7 }

abbrev encode : ℕ → Bytes → Bytes
encode codec b = b

-- "logs"
abbrev journal : Bytes
journal = 108 ∷ 111 ∷ 103 ∷ 115 ∷ []

-- A path that is clean.
abbrev clean : Bytes → Bytes
clean n = n

journal-valid : valid_journal clean journal ≡ true
unfolding valid_journal validate_token bytes_eq
journal-valid = refl

abbrev spool_at : ℕ → Spool
spool_at offset = empty_spool (empty_fragment journal offset 1)

spool_at-IsConsistent : IsConsistent sum_of (spool_at 20)
spool_at-IsConsistent = empty-IsConsistent sum_of encode journal 20 1

abbrev accepted : ReplicateResponse
accepted = record { status = status_ok; header = none; fragment = none }

abbrev ahead : ReplicateResponse
ahead = record { status = mismatch; header = none; fragment = some (empty_fragment journal 30 1) }

abbrev peer : ReplicateResponse → Peer
peer resp = record { stream = true; send_err = none; recv_err = none; recv_resp = resp }

abbrev pipeline : Spool → List Peer → Pipeline
pipeline spool peers = record {
  header = record { route = record { members = []; primary = some 0 }; revision = 7 };
  spool = spool;
  peers = peers;
  primary_err = none;
  read_through_rev = 0;
}

abbrev first_round : Round
first_round = record {
  now = 1;
  sends = none ∷ none ∷ [];
  receipts = received accepted ∷ received ahead ∷ [];
  closes = [];
  ends = [];
}

abbrev second_round : Round
second_round = record {
  now = 2;
  sends = none ∷ none ∷ [];
  receipts = received accepted ∷ received accepted ∷ [];
  closes = [];
  ends = [];
}

-- The second peer is at offset 30, to which all roll.
synchronize_runs :
    synchronize sum_of encode
      (pipeline (spool_at 20) (peer accepted ∷ peer accepted ∷ []))
      (first_round ∷ second_round ∷ [])
    ≡ returned (pipeline (spool_at 30) (peer accepted ∷ peer accepted ∷ [])) none
unfolding synchronize sync_round scatter send_all apply apply_commit roll_forward settle next
    is_empty fragment_eq bytes_eq compress_through gather_sync gather sync_peers sync_response
    sync_gathered
synchronize_runs = refl

sync_round-RoundEnds_example : RoundEnds sum_of encode (empty_fragment journal 20 1) (
    sync_round sum_of encode
      (pipeline (spool_at 20) (peer accepted ∷ peer accepted ∷ []))
      (empty_fragment journal 20 1)
      first_round)
sync_round-RoundEnds_example =
    sync_round-RoundEnds sum_of encode (pipeline (spool_at 20) (peer accepted ∷ peer accepted ∷ []))
      (empty_fragment journal 20 1) first_round spool_at-IsConsistent (omega arith)

at-Behind :
    (offset : ℕ)
    → offset ≤ 30
    → Behind sum_of encode (empty_fragment journal 20 1) 30 (spool_at offset)
at-Behind offset h = record {
  consistent = empty-IsConsistent sum_of encode journal offset 1;
  committed = refl;
  journal = refl;
  ends = h;
}

sync_round-converges_example :
    (pln' : Pipeline) × (sync_round sum_of encode
        (pipeline (spool_at 20) (peer accepted ∷ peer accepted ∷ []))
        (rolled_to sum_of encode (empty_fragment journal 20 1) 30)
        (healthy_round sum_of encode clean true journal 2
          (rolled_to sum_of encode (empty_fragment journal 20 1) 30)
          (peer accepted ∷ peer accepted ∷ [])
          (spool_at 20 ∷ spool_at 30 ∷ []))
      ≡ returned pln' none)
    × (pln'.read_through_rev ≡ 0)
    × (pln'.spool.fragment ≡ rolled_to sum_of encode (empty_fragment journal 20 1) 30)
    × All
        (AnswersAt sum_of encode clean true journal
          (rolled_to sum_of encode (empty_fragment journal 20 1) 30)
          2)
        (spool_at 20 ∷ spool_at 30 ∷ [])
sync_round-converges_example =
    sync_round-converges sum_of encode clean true journal
      (pipeline (spool_at 20) (peer accepted ∷ peer accepted ∷ [])) (empty_fragment journal 20 1) 30
      2 (spool_at 20 ∷ spool_at 30 ∷ []) (refl, refl) (refl, refl, journal-valid, refl)
      (at-Behind 20 (omega arith)) (at-Behind 20 (omega arith), (at-Behind 30 (omega arith), tt))
      ((refl, refl, refl), ((refl, refl, refl), tt)) refl refl
