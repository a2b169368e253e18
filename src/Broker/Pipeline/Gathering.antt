-- ===== src/Broker/Pipeline/Gathering.antt =====
-- What gatherSync of v2/pkg/broker/pipeline.go says of the peers' responses.
use mathlib.Core.Path.{subst}
use gazette.Prelude.{
  ℕ, ◌≤◌, ◌<◌, ◌≡◌, ◌⊎◌, inl, inr, refl, ap, ◌∙◌, arith, true, false, ◌&&◌, ◌||◌, not, Option, none,
  some, List, [], ◌∷◌, ltb, ◌==◌, Bool-cases, Option-cases, All,
}
use gazette.Protocol.Fragment.{Fragment, is_empty}
use gazette.Broker.Pipeline.{
  Header, Status, status_ok, wrong_route, mismatch, other_status, unexpected_status, Peer,
  PeerError, Gathered, receives, failed, larger, equivalent, sync_wrong_route, sync_mismatch,
  sync_response, status_response, header_response, fragment_response, with_peer, sync_peers,
  first_recv_err,
}

-- A peer that agrees: it has no stream, or has answered that the proposal is accepted.
abbrev pub Agrees : Peer → Type 0
Agrees p = p.stream ≡ true → p.recv_resp.status ≡ status_ok

module _ (hdr : Header) (proposal : Fragment) where
  -- The peer and what is gathered so far, before and after its response.
  record Answered (p p' : Peer) (roll through roll' through' : ℕ) : Type 0 where
    pub roll-grows : roll ≤ roll'
    pub rolls_on : (roll' ≡ roll) ⊎ (proposal.end ≤ roll')
    pub through-grows : through ≤ through'
    pub agrees : roll' ≡ 0 → through' ≡ 0 → 0 < proposal.end → p'.recv_err ≡ none → Agrees p'

  Status-cases :
      (s : Status)
      → (s ≡ status_ok) ⊎ ((s ≡ wrong_route) ⊎ ((s ≡ mismatch) ⊎ ((n : ℕ) × (s ≡ other_status n))))
  Status-cases status_ok = inl refl
  Status-cases wrong_route = inr (inl refl)
  Status-cases mismatch = inr (inr (inl refl))
  Status-cases (other_status n) = inr (inr (inr (n, refl)))

  larger-left : (a b : ℕ) → b ≤ larger a b
  larger-left a b = ground arith

  larger-right : (a b : ℕ) → a ≤ larger a b
  larger-right a b = ground arith

  -- A failed peer is no peer without an error.
  failed-Answered :
      (p : Peer) (e : PeerError) (roll through : ℕ)
      → Answered p (failed p e) roll through roll through
  failed-Answered p e roll through = record {
    roll-grows = omega arith;
    rolls_on = inl refl;
    through-grows = omega arith;
    agrees = λ a b c d. absurd (ground arith);
  }

  wrong_route-Answered :
      (p : Peer) (h : Header) (roll through : ℕ)
      → Answered p
          (sync_wrong_route hdr proposal p h roll through).0
          roll
          through
          (sync_wrong_route hdr proposal p h roll through).1
          (sync_wrong_route hdr proposal p h roll through).2
  unfolding sync_wrong_route
  wrong_route-Answered p h roll through =
      elim (Bool-cases (not (equivalent h.route hdr.route) && ltb hdr.revision h.revision)) [
        | inl q ↦
            rw (sync_wrong_route, q)
              record {
                roll-grows = omega arith;
                rolls_on = inl refl;
                through-grows = larger-left h.revision through;
                agrees =
                    λ a b c d s. absurd (ground (arith, b, q, larger-right h.revision through));
              }
        | inr q ↦ rw (sync_wrong_route, q) (failed-Answered p _ roll through)
      ]

  mismatch-Answered :
      (p : Peer) (f : Fragment) (roll through : ℕ)
      → Answered p
          (sync_mismatch hdr proposal p f roll through).0
          roll
          through
          (sync_mismatch hdr proposal p f roll through).1
          (sync_mismatch hdr proposal p f roll through).2
  unfolding sync_mismatch
  mismatch-Answered p f roll through =
      elim (Bool-cases (ltb proposal.end f.end || (f.end == proposal.end && is_empty f))) [
        | inl q ↦
            rw (sync_mismatch, q)
              record {
                roll-grows = larger-left f.end roll;
                rolls_on = inr (ground (arith, q, larger-right f.end roll));
                through-grows = omega arith;
                agrees = λ a b c d s. absurd (ground (arith, a, c, q, larger-right f.end roll));
              }
        | inr q ↦ rw (sync_mismatch, q) (failed-Answered p _ roll through)
      ]

  -- A response that does not panic.
  response-Answered :
      (p : Peer) (roll through : ℕ)
      → (sync_response hdr proposal p roll through ≡ none)
        ⊎ ((t : Peer × ℕ × ℕ) × (sync_response hdr proposal p roll through ≡ some t)
            × Answered p t.0 roll through t.1 t.2)
  unfolding sync_response status_response header_response fragment_response
  response-Answered p roll through =
      let by_status : (t : Status)
          → p.recv_resp.status ≡ t
          → sync_response hdr proposal p roll through
            ≡ status_response hdr proposal p t roll through =
        λ t e. ap (λ t. status_response hdr proposal p t roll through) e in
      elim (Status-cases p.recv_resp.status) [
        | inl s ↦ inr (
          (p, roll, through),
          by_status status_ok s,
          record {
            roll-grows = omega arith;
            rolls_on = inl refl;
            through-grows = omega arith;
            agrees = λ a b c d e. s;
          },
        )
        | inr (inl s) ↦ elim (Option-cases p.recv_resp.header) [
          | inl h ↦
              inl (
                by_status wrong_route s ∙ ap (λ o. header_response hdr proposal p o roll through) h)
          | inr (h, e) ↦ inr (
            sync_wrong_route hdr proposal p h roll through,
            by_status wrong_route s ∙ ap (λ o. header_response hdr proposal p o roll through) e,
            wrong_route-Answered p h roll through,
          )
        ]
        | inr (inr (inl s)) ↦ elim (Option-cases p.recv_resp.fragment) [
          | inl h ↦
              inl
                (by_status mismatch s ∙ ap (λ o. fragment_response hdr proposal p o roll through) h)
          | inr (f, e) ↦ inr (
            sync_mismatch hdr proposal p f roll through,
            by_status mismatch s ∙ ap (λ o. fragment_response hdr proposal p o roll through) e,
            mismatch-Answered p f roll through,
          )
        ]
        | inr (inr (inr (n, s))) ↦ inr (
          (failed p unexpected_status, roll, through),
          by_status (other_status n) s,
          failed-Answered p _ roll through,
        )
      ]

  -- All agree unless there is an offset to roll to or a revision to read through, or a peer failed.
  pub record AllAnswered (roll through : ℕ) (g : Gathered) : Type 0 where
    pub roll-grows : roll ≤ g.roll_to_offset
    pub rolls_on : (g.roll_to_offset ≡ roll) ⊎ (proposal.end ≤ g.roll_to_offset)
    pub through-grows : through ≤ g.read_through_rev
    pub agree :
        g.roll_to_offset ≡ 0
        → g.read_through_rev ≡ 0
        → 0 < proposal.end
        → first_recv_err g.peers ≡ none
        → All Agrees g.peers

  -- The first error, of a peer and of the others.
  first_none :
      (p : Peer) (ps : List Peer)
      → first_recv_err (p ∷ ps) ≡ none
      → (p.recv_err ≡ none) × (first_recv_err ps ≡ none)
  first_none p ps h = elim (Option-cases p.recv_err) [
    | inl e ↦ (e, (rw e at h))
    | inr (x, e) ↦ absurd (ground arith)
  ]

  idle-Agrees : (p : Peer) → receives p ≡ false → p.recv_err ≡ none → Agrees p
  idle-Agrees p r e s = absurd (ground (arith, r, e, s))

  with_peer-cases :
      (p : Peer) (o : Option Gathered) (g : Gathered)
      → with_peer hdr proposal p o ≡ some g
      → (g' : Gathered) × (o ≡ some g') × (record g' { peers = p ∷ g'.peers } ≡ g)
  with_peer-cases p none g h = absurd (ground arith)
  with_peer-cases p (some g') g h = (g', refl, ground arith)

  add_peer-AllAnswered :
      (p p' : Peer) (roll through roll' through' : ℕ) (g : Gathered)
      → roll ≤ roll'
      → (roll' ≡ roll) ⊎ (proposal.end ≤ roll')
      → through ≤ through'
      → (roll' ≡ 0 → through' ≡ 0 → 0 < proposal.end → p'.recv_err ≡ none → Agrees p')
      → AllAnswered roll' through' g
      → AllAnswered roll through (record g { peers = p' ∷ g.peers })
  add_peer-AllAnswered p p' roll through roll' through' g l k m a r = record {
    roll-grows = omega (arith, l, r.roll-grows);
    rolls_on = ground (arith, k, r.rolls_on, r.roll-grows);
    through-grows = omega (arith, m, r.through-grows);
    agree = λ x y z n.
        let (e, f) = first_none p' g.peers n in
        (
          a (omega (arith, x, r.roll-grows)) (omega (arith, y, r.through-grows)) z e,
          r.agree x y z f,
        );
  }

  pub sync_peers-AllAnswered :
      (ps : List Peer) (roll through : ℕ) (g : Gathered)
      → sync_peers hdr proposal ps roll through ≡ some g
      → AllAnswered roll through g
  unfolding sync_peers
  sync_peers-AllAnswered [] roll through g h =
      subst (AllAnswered roll through) (some_eq h) (record {
        roll-grows = omega arith;
        rolls_on = inl refl;
        through-grows = omega arith;
        agree = λ a b c d. tt;
      })
    where
      some_eq : {a b : Gathered} → ◌≡◌ {A = Option Gathered} (some a) (some b) → a ≡ b
      some_eq e = ground arith
  sync_peers-AllAnswered (p ∷ ps) roll through g h = elim (Bool-cases (receives p)) [
    | inr q ↦
        let (g', e, s) =
          with_peer-cases p (sync_peers hdr proposal ps roll through) g (rw (sync_peers, q) at h) in
        subst (AllAnswered roll through) s (
          add_peer-AllAnswered p p roll through roll through g' (omega arith) (inl refl)
            (omega arith) (λ a b c d. idle-Agrees p q d)
            (sync_peers-AllAnswered ps roll through g' e))
    | inl q ↦ elim (response-Answered p roll through) [
      | inl e ↦ absurd (ground (arith, (rw (sync_peers, q, e) at h)))
      | inr (t, e, a) ↦
          let (g', f, s) =
            with_peer-cases t.0 (sync_peers hdr proposal ps t.1 t.2) g
              (rw (sync_peers, q, e) at h) in
          subst (AllAnswered roll through) s (
            add_peer-AllAnswered p t.0 roll through t.1 t.2 g' a.roll-grows a.rolls_on
              a.through-grows a.agrees (sync_peers-AllAnswered ps t.1 t.2 g' f))
    ]
  ]
