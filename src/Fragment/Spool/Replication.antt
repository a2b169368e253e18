-- ===== src/Fragment/Spool/Replication.antt =====
-- What a primary may rely on of the Spools (v2/pkg/fragment/spool.go) that it replicates to.
use mathlib.Core.Path.{subst, subst₂}
use gazette.Prelude.{
  ℕ, ◌+◌, ◌<◌, ◌≡◌, refl, sym, ap, ◌∙◌, ◌≢◌, ◌⊎◌, Bool, true, false, Option, none, some, List, [],
  ◌∷◌, ◌++◌, arith, ◌==◌, if◌then◌else◌, Bytes, length, Bool-cases, Option-cases, inl, inr,
}
use gazette.Protocol.Fragment.{Fragment, Sha1Sum, is_empty}
use gazette.Fragment.Spool.{
  Spool, Notice, ReplicateRequest, Reply, ok, fragment_mismatch, invalid_content_delta,
  apply_content, next, rolls, rolled, apply_commit, apply, must_apply,
}
use gazette.Fragment.Spool.State.{IsConsistent, written-IsConsistent}
use gazette.Fragment.Spool.Commit.{
  Settled, undoes, commits, refuses, Settled-IsConsistent, apply_commit-Settled, written,
  apply_content-written, apply_content-refused,
}

abbrev pub proposal_of : Fragment → ReplicateRequest
proposal_of p = record { proposal = some p; content = []; content_delta = 0; acknowledge = false }

abbrev pub content_of : Bytes → ℕ → ReplicateRequest
content_of c d = record { proposal = none; content = c; content_delta = d; acknowledge = false }

module _ (sum_of : Bytes → Sha1Sum) (encode : ℕ → Bytes → Bytes) where
  -- From a spool whose file, sums and fragment agree, no request panics, and each leaves a spool in
  -- which they agree.
  pub apply-IsConsistent :
      (s : Spool) (r : ReplicateRequest) (primary : Bool) (now : ℕ)
      → IsConsistent sum_of s
      → (s' : Spool) × (reply : Reply) × (told : List Notice) × (apply sum_of encode s r primary now
          ≡ some (s', reply, told))
        × IsConsistent sum_of s'
  unfolding apply
  apply-IsConsistent s r primary now c = elim (Option-cases r.proposal) [
    | inr (p, e) ↦
        let t = apply_commit-Settled sum_of encode s p primary now c in
        (t.1, t.2, t.3, rw (e, apply) t.4, Settled-IsConsistent sum_of encode t.6 t.7.1)
    | inl e ↦ elim (Bool-cases (r.content_delta == s.delta)) [
      | inl q ↦ (
        written sum_of encode s r.content,
        ok,
        [],
        rw (e, apply) (rw (apply_content-written sum_of encode s r c (ground arith))),
        written-IsConsistent sum_of encode s r.content c,
      )
      | inr q ↦ (
        s,
        invalid_content_delta,
        [],
        rw (e, apply) (rw (apply_content-refused sum_of encode s r (λ h. ground arith))),
        c,
      )
    ]
  ]

  -- The spool that a proposal meets: the empty one that it rolls to, or the one there was.
  abbrev pub met_by : Spool → Fragment → Spool
  met_by s p = if rolls sum_of encode s p then rolled sum_of encode s p else s

  -- The reply to a proposal that meets `s`: what is committed when it is accepted, and that nothing
  -- changes when it is not.
  abbrev pub Replies : Spool → Fragment → Spool → Reply → Type 0
  Replies s p s' reply =
      ((reply ≡ ok)
        × (s'.fragment ≡ p)
        × (s'.delta ≡ 0)
        × (s'.file ≡ s.file)
        × (((s.fragment ≡ p) × (s'.summer ≡ s.sum_state) × (s'.sum_state ≡ s.sum_state))
            ⊎ ((next sum_of encode s ≡ p) × (s'.summer ≡ s.summer) × (s'.sum_state ≡ s.summer))))
      ⊎ ((reply ≡ fragment_mismatch s.fragment)
          × (s' ≡ s)
          × (s.fragment ≢ p)
          × (next sum_of encode s ≢ p))

  Settled-Replies :
      {s s' : Spool} {p : Fragment} {now : ℕ} {reply : Reply} {told : List Notice}
      → Settled sum_of encode s p now s' reply told
      → Replies s p s' reply
  unfolding next
  Settled-Replies (undoes e) = inl (refl, e, refl, refl, inl (e, refl, refl))
  Settled-Replies (commits k b n e h) = inl (refl, e, refl, refl, inr (e, refl, refl))
  Settled-Replies (refuses m n) = inr (refl, refl, m, n)

  -- Where file, sums and fragment agree, a proposal meets the spool, or the empty spool that it rolls
  -- to. It is accepted if the spool it meets is at that fragment or would commit it next: the file
  -- is kept, the spool is at the fragment with nothing uncommitted, and its committed sum is the one
  -- before, or that of all content. Otherwise the spool it meets is kept, and the reply carries the
  -- fragment at which that spool is.
  pub apply_commit-Replies :
      (s : Spool) (p : Fragment) (primary : Bool) (now : ℕ)
      → IsConsistent sum_of s
      → (s' : Spool) × (reply : Reply) × (told : List Notice) × (apply_commit sum_of encode s p
            primary now
          ≡ some (s', reply, told))
        × Replies (met_by s p) p s' reply
  apply_commit-Replies s p primary now c =
      let t = apply_commit-Settled sum_of encode s p primary now c in
      (t.1, t.2, t.3, t.4, subst (λ u. Replies u p t.1 t.2) t.5 (Settled-Replies t.7.1))

  -- Proposing a spool's own fragment drops what is not committed.
  Settled-own :
      {s s' : Spool} {p : Fragment} {now : ℕ} {reply : Reply} {told : List Notice}
      → Settled sum_of encode s p now s' reply told
      → s.fragment ≡ p
      → (reply ≡ ok)
        × (s'.fragment ≡ p)
        × (s'.delta ≡ 0)
        × (s'.summer ≡ s.sum_state)
        × (s'.sum_state ≡ s.sum_state)
  Settled-own (undoes e) q = (refl, e, refl, refl, refl)
  Settled-own (commits k b n e h) q = absurd (n q)
  Settled-own (refuses m n) q = absurd (m q)

  length-zero : (b : Bytes) → length b ≡ 0 → [] ≡ b
  length-zero [] h = refl
  length-zero (x ∷ b) h = absurd (omega arith)

  -- The spool that a proposal of its own fragment meets, rolled or not.
  own_start :
      (s s0 : Spool)
      → IsConsistent sum_of s
      → s0 ≡ (if rolls sum_of encode s s.fragment then rolled sum_of encode s s.fragment else s)
      → (s0.fragment ≡ s.fragment) × (s0.sum_state ≡ s.sum_state)
  unfolding is_empty
  own_start s s0 c e = elim (Bool-cases (rolls sum_of encode s s.fragment)) [
    | inr r ↦ let q : s0 ≡ s = (rw r at e) in (ap (λ t. t.fragment) q, ap (λ t. t.sum_state) q)
    | inl r ↦
        let q : s0 ≡ rolled sum_of encode s s.fragment = (rw r at e) in
        (
          ap (λ t. t.fragment) q ∙ ground (arith, c.summed, c.unbacked, c.unstored),
          ap (λ t. t.sum_state) q ∙ length-zero s.sum_state (ground (arith, c.extent)),
        )
  ]

  must_apply-ok :
      (s : Spool) (p : Fragment) (now : ℕ) {s' : Spool} {reply : Reply} {told : List Notice}
      → apply_commit sum_of encode s p false now ≡ some (s', reply, told)
      → reply ≡ ok
      → must_apply sum_of encode s (proposal_of p) now ≡ some (s', told)
  unfolding must_apply apply
  must_apply-ok s p now e q = ground arith

  -- Where file, sums and fragment agree, MustApply of a spool's own fragment does not panic: the fragment and the committed sum stay, and
  -- uncommitted content is dropped.
  pub must_apply-rolls_back :
      (s : Spool) (now : ℕ)
      → IsConsistent sum_of s
      → (s' : Spool) × (told : List Notice) × (must_apply sum_of encode s
            (proposal_of s.fragment)
            now
          ≡ some (s', told))
        × (s'.fragment ≡ s.fragment)
        × (s'.delta ≡ 0)
        × (s'.summer ≡ s.sum_state)
        × (s'.sum_state ≡ s.sum_state)
  must_apply-rolls_back s now c =
      let t = apply_commit-Settled sum_of encode s s.fragment false now c in
      let w = own_start s t.0 c t.5 in
      let o = Settled-own t.7.1 w.0 in
      (t.1, t.3, must_apply-ok s s.fragment now t.4 o.0, o.1, o.2, o.3 ∙ w.1, o.4 ∙ w.1)

  -- Content chunks sent one after another, each at the delta that the spool is at.
  abbrev send : Spool → List Bytes → Spool
  send s [] = s
  send s (c ∷ cs) = send (written sum_of encode s c) cs

  -- The spool accepted each chunk in turn.
  pub data Sent : Spool → List Bytes → Spool → Type 0 where
    nothing : {s : Spool} → Sent s [] s
    chunk :
        {cs : List Bytes} {s s' s'' : Spool} (c : Bytes)
        → apply_content s (content_of c s.delta) ≡ some (s', ok)
        → Sent s' cs s''
        → Sent s (c ∷ cs) s''

  first-some :
      {s s' : Spool} {r r' : Reply}
      → ◌≡◌ {A = Option (Spool × Reply)} (some (s, r)) (some (s', r'))
      → s ≡ s'
  first-some e = ground arith

  Sent-send :
      {s s' : Spool} {cs : List Bytes}
      → Sent s cs s'
      → IsConsistent sum_of s
      → (s' ≡ send s cs) × IsConsistent sum_of s'
  Sent-send nothing c = (refl, c)
  Sent-send {s} {s' = s''} (chunk {cs} {s' = s'} d e t) c =
      let q : written sum_of encode s d ≡ s' =
        first-some
          (sym (apply_content-written sum_of encode s (content_of d s.delta) c refl) ∙ e) in
      let w =
        Sent-send t (subst (IsConsistent sum_of) q (written-IsConsistent sum_of encode s d c)) in
      (w.0 ∙ ap (λ u. send u cs) (sym q), w.1)

  -- Two spools that agree on what decides the next fragment.
  pub record Alike (a b : Spool) : Type 0 where
    pub fragment : a.fragment ≡ b.fragment
    pub summer : a.summer ≡ b.summer
    pub delta : a.delta ≡ b.delta

  send-Alike : (a b : Spool) (cs : List Bytes) → Alike a b → Alike (send a cs) (send b cs)
  send-Alike a b [] e = e
  send-Alike a b (c ∷ cs) e =
      send-Alike (written sum_of encode a c) (written sum_of encode b c) cs (record {
        fragment = e.fragment;
        summer = ap (λ t. t ++ c) e.summer;
        delta = ap (λ t. t + length c) e.delta;
      })

  Alike-next : {a b : Spool} → Alike a b → next sum_of encode a ≡ next sum_of encode b
  unfolding next
  Alike-next e = ground (arith, e.fragment, e.summer, e.delta)

  Settled-accepts :
      {s s' : Spool} {p : Fragment} {now : ℕ} {reply : Reply} {told : List Notice}
      → Settled sum_of encode s p now s' reply told
      → next sum_of encode s ≡ p
      → (reply ≡ ok) × (s'.fragment ≡ p)
  unfolding next
  Settled-accepts (undoes e) q = (refl, e)
  Settled-accepts (commits k b n e h) q = (refl, e)
  Settled-accepts (refuses m n) q = absurd (n q)

  -- Its next fragment, with some content, rolls no spool and is accepted.
  next-accepted :
      (s : Spool) (primary : Bool) (now : ℕ)
      → IsConsistent sum_of s
      → 0 < s.delta
      → (s' : Spool) × (told : List Notice) × (apply_commit sum_of encode s
            (next sum_of encode s)
            primary
            now
          ≡ some (s', ok, told))
        × (s'.fragment ≡ next sum_of encode s)
  unfolding next is_empty
  next-accepted s primary now c n =
      let t = apply_commit-Settled sum_of encode s (next sum_of encode s) primary now c in
      let stays : t.0 ≡ s = ground (arith, t.5) in
      let o = Settled-accepts t.7.1 (ap (next sum_of encode) stays) in
      (t.1, t.3, t.4 ∙ ap (λ r. some (t.1, r, t.3)) o.0, o.1)

  -- A primary and a replica in which file, sums and fragment agree, and that are at one fragment with
  -- one running sum and delta, are sent the same content, so that some is uncommitted. Then both accept
  -- the fragment that the primary commits next, and both are at it.
  pub replicas_agree :
      (a b : Spool) (cs : List Bytes) (now later : ℕ) {a' b' : Spool}
      → IsConsistent sum_of a
      → IsConsistent sum_of b
      → Alike a b
      → Sent a cs a'
      → Sent b cs b'
      → 0 < a'.delta
      → (a'' : Spool) × (b'' : Spool) × (told : List Notice) × (told' : List Notice) × (apply_commit
            sum_of encode a'
            (next sum_of encode a')
            true
            now
          ≡ some (a'', ok, told))
        × (apply_commit sum_of encode b' (next sum_of encode a') false later
            ≡ some (b'', ok, told'))
        × (a''.fragment ≡ next sum_of encode a')
        × (b''.fragment ≡ a''.fragment)
  replicas_agree a b cs now later {a'} {b'} ca cb e sa sb n =
      let p = Sent-send sa ca in
      let q = Sent-send sb cb in
      let like = subst₂ Alike (sym p.0) (sym q.0) (send-Alike a b cs e) in
      let same = Alike-next like in
      let x = next-accepted a' true now p.1 n in
      let y = next-accepted b' false later q.1 (subst (λ d. 0 < d) like.delta n) in
      (
        x.0,
        y.0,
        x.1,
        y.1,
        x.2,
        ap (λ f. apply_commit sum_of encode b' f false later) same ∙ y.2,
        x.3,
        y.3 ∙ sym same ∙ sym x.3,
      )
