-- ===== src/Fragment/Spool/Commit.antt =====
-- Requests to a Spool (v2/pkg/fragment/spool.go): the consistency kept, what is accepted, and that
-- replicas that are sent the same requests hold the same fragment.
use mathlib.Core.Path.{subst}
use gazette.Prelude.{
  ℕ, zero, suc, ◌+◌, ◌-◌, ◌≡◌, refl, sym, ap, ◌∙◌, ◌≢◌, Bool, true, false, ◌&&◌, not, Option, none,
  some, List, [], ◌∷◌, ◌++◌, arith, ◌==◌, if◌then◌else◌, Bytes, length, take, Bool-cases,
  Option-cases, inl, inr,
}
use gazette.Protocol.Fragment.{
  Fragment, Sha1Sum, codec_none, fragment_eq, fragment_eq_iff, is_empty,
}
use gazette.Fragment.Spool.{
  Spool, Notice, spool_commit, ReplicateRequest, Reply, ok, fragment_mismatch,
  invalid_content_delta, file_bytes, write_at, section, content_length, apply_content, next, commit,
  restore_sum_state, compress_through, close_compressor, settle, rolls, rolled, completes,
  committed, roll_forward, finish_compression, apply_commit,
}
use gazette.Fragment.Spool.State.{
  HasCodec, IsConsistent, empty-IsConsistent, restored-IsConsistent, commit-IsConsistent,
}

take-nil : (n : ℕ) → take {A = ℕ} n [] ≡ []
take-nil zero = refl
take-nil (suc n) = refl

module _ (sum_of : Bytes → Sha1Sum) (encode : ℕ → Bytes → Bytes) where
  -- Without a file nothing is spooled.
  no_file-is_empty :
      (s : Spool) → IsConsistent sum_of s → s.file ≡ none → is_empty s.fragment ≡ true
  unfolding is_empty
  no_file-is_empty s c e =
      let none_spooled : [] ≡ s.summer = sym (take-nil (length s.summer)) ∙ (rw e at c.stored) in
      ground (arith, c.extent, c.spooled, ap length none_spooled)

  abbrev pub written : Spool → Bytes → Spool
  written s d = record s {
    file = some (write_at (file_bytes s.file) (content_length s.fragment + s.delta) d);
    summer = s.summer ++ d;
    delta = s.delta + length d;
  }

  pub apply_content-written :
      (s : Spool) (r : ReplicateRequest)
      → IsConsistent sum_of s
      → r.content_delta ≡ s.delta
      → apply_content s r ≡ some (written s r.content, ok)
  unfolding apply_content
  apply_content-written s r c e = elim (Option-cases s.file) [
    | inl f ↦ ground (arith, no_file-is_empty s c f)
    | inr (b, f) ↦ ground arith
  ]

  pub apply_content-refused :
      (s : Spool) (r : ReplicateRequest)
      → r.content_delta ≢ s.delta
      → apply_content s r ≡ some (s, invalid_content_delta)
  unfolding apply_content
  apply_content-refused s r e = ground arith

  pub finish_compression_total :
      (s : Spool) (fed : Bytes)
      → s.compressor ≡ some fed
      → s.fragment.compression_codec ≢ codec_none
      → (s' : Spool) × (finish_compression sum_of encode s ≡ some s') × (s'.fragment ≡ s.fragment)
  unfolding finish_compression
  finish_compression_total s fed e n = (
    if not (s.compressed_length == 0) then s else close_compressor sum_of encode s,
    ground arith,
    ground arith,
  )

  pub has_codec :
      (s : Spool) (fed : Bytes)
      → IsConsistent sum_of s
      → s.compressor ≡ some fed
      → s.fragment.compression_codec ≢ codec_none
  has_codec s fed c e = subst (λ k. HasCodec k s.fragment.compression_codec) e c.codec

  -- A roll starts an empty spool at the end of the proposal, under its codec.
  pub roll_forward-rolled :
      (s : Spool) (p : Fragment) (primary : Bool)
      → IsConsistent sum_of s
      → rolls sum_of encode s p ≡ true
      → (told : List Notice) × (roll_forward sum_of encode s p primary
          ≡ some (rolled sum_of encode s p, told))
  unfolding roll_forward
  roll_forward-rolled s p primary c r = elim (Option-cases s.compressor) [
    | inl e ↦ (completes sum_of encode s primary, ground arith)
    | inr (fed, e) ↦
        let t = finish_compression_total s fed e (has_codec s fed c e) in
        (completes sum_of encode t.0 primary, ground (arith, t.1, t.2))
  ]

  pub roll_forward-stays :
      (s : Spool) (p : Fragment) (primary : Bool)
      → rolls sum_of encode s p ≡ false
      → roll_forward sum_of encode s p primary ≡ some (s, [])
  unfolding roll_forward
  roll_forward-stays s p primary r = rw r

  -- What a proposal comes to once the spool has rolled, or has not.
  pub data Settled (s : Spool) (p : Fragment) (now : ℕ) : Spool → Reply → List Notice → Type 0 where
    undoes : s.fragment ≡ p → Settled s p now (restore_sum_state (record s { delta = 0 })) ok []
    commits :
        (k : Option Bytes) (b : Option Bytes)
        → s.fragment ≢ p
        → next sum_of encode s ≡ p
        → HasCodec k s.fragment.compression_codec
        → Settled s p now
            (commit sum_of encode (record s { compressor = k; compressed_file = b }) now)
            ok
            (spool_commit (next sum_of encode s) s.file ∷ [])
    refuses :
        s.fragment ≢ p
        → next sum_of encode s ≢ p
        → Settled s p now s (fragment_mismatch s.fragment) []

  pub compress_through_total :
      (s : Spool) (end : ℕ)
      → s.fragment.compression_codec ≢ codec_none
      → (fed : Bytes) × (compress_through s end
          ≡ some (record s {
            compressor = some fed;
            compressed_file = some (file_bytes s.compressed_file);
          }))
  unfolding compress_through
  compress_through_total s end n = (
    elim s.compressor [
      | none ↦ take (end - s.fragment.begin) (file_bytes s.file)
      | some fed ↦
          fed ++ section (file_bytes s.file) (content_length s.fragment) (end - s.fragment.end)
    ],
    ground arith,
  )

  abbrev pub compressed : Spool → Bytes → Spool
  compressed s fed = record s {
    compressor = some fed;
    compressed_file = some (file_bytes s.compressed_file);
  }

  pub after_compression :
      (s : Spool) (now : ℕ) (fed : Bytes)
      → compress_through s (next sum_of encode s).end ≡ some (compressed s fed)
      → elim (compress_through s (next sum_of encode s).end) [
        | none ↦ none
        | some s' ↦ some (committed sum_of encode s' now)
      ]
        ≡ some (
          commit sum_of encode (compressed s fed) now,
          ok,
          spool_commit (next sum_of encode s) s.file ∷ [],
        )
  unfolding next
  after_compression s now fed e = rw e

  settle-Settled :
      (s : Spool) (p : Fragment) (primary : Bool) (now : ℕ)
      → IsConsistent sum_of s
      → (s' : Spool) × (reply : Reply) × (told : List Notice) × (settle sum_of encode s p primary
            now
          ≡ some (s', reply, told))
        × Settled s p now s' reply told
  unfolding settle
  settle-Settled s p primary now c = elim (Bool-cases (fragment_eq s.fragment p)) [
    | inl e ↦ (_, _, _, rw e, undoes ((fragment_eq_iff s.fragment p).0 e))
    | inr e ↦ elim (Bool-cases (fragment_eq (next sum_of encode s) p)) [
      | inr e' ↦ (
        _,
        _,
        _,
        rw (e, e'),
        refuses (unequal s.fragment p e) (unequal (next sum_of encode s) p e'),
      )
      | inl e' ↦ elim (Bool-cases (primary && not (s.fragment.compression_codec == codec_none))) [
        | inr q ↦ (
          _,
          _,
          _,
          rw (e, e', q),
          commits s.compressor s.compressed_file (unequal s.fragment p e)
              ((fragment_eq_iff _ p).0 e') c.codec,
        )
        | inl q ↦
            let codec : s.fragment.compression_codec ≢ codec_none = λ h. ground arith in
            let t = compress_through_total s (next sum_of encode s).end codec in
            (
              _,
              _,
              _,
              rw (e, e', q) (after_compression s now t.0 t.1),
              commits (some t.0) (some (file_bytes s.compressed_file)) (unequal s.fragment p e)
                  ((fragment_eq_iff _ p).0 e') codec,
            )
      ]
    ]
  ]
    where
      unequal : (a b : Fragment) → fragment_eq a b ≡ false → a ≢ b
      unequal a b e q = ground (arith, fragment_eq_iff a b)

  pub Settled-IsConsistent :
      {s s' : Spool} {p : Fragment} {now : ℕ} {reply : Reply} {told : List Notice}
      → IsConsistent sum_of s
      → Settled s p now s' reply told
      → IsConsistent sum_of s'
  Settled-IsConsistent {s} c (undoes e) = restored-IsConsistent sum_of encode s c
  Settled-IsConsistent {s} {now = now} c (commits k b n e h) =
      commit-IsConsistent sum_of encode (record s { compressor = k; compressed_file = b }) now
        (record {
          extent = c.extent;
          spooled = c.spooled;
          extends = c.extends;
          summed = c.summed;
          stored = c.stored;
          codec = h;
          unbacked = c.unbacked;
          unstored = c.unstored;
        })
  Settled-IsConsistent c (refuses m n) = c

  -- A proposal never panics. It is settled by the spool, or by the empty spool that it rolls to.
  pub apply_commit-Settled :
      (s : Spool) (p : Fragment) (primary : Bool) (now : ℕ)
      → IsConsistent sum_of s
      → (s0 : Spool) × (s' : Spool) × (reply : Reply) × (told : List Notice) × (apply_commit sum_of
            encode s p primary now
          ≡ some (s', reply, told))
        × (s0 ≡ (if rolls sum_of encode s p then rolled sum_of encode s p else s))
        × IsConsistent sum_of s0
        × ((more : List Notice) × Settled s0 p now s' reply more)
  unfolding apply_commit
  apply_commit-Settled s p primary now c = elim (Bool-cases (rolls sum_of encode s p)) [
    | inr r ↦
        let t = settle-Settled s p primary now c in
        (
          s,
          t.0,
          t.1,
          t.2,
          rw (roll_forward-stays s p primary r, t.3, apply_commit) refl,
          rw r,
          c,
          (t.2, t.4),
        )
    | inl r ↦
        let w = roll_forward-rolled s p primary c r in
        let c0 = empty-IsConsistent sum_of encode s.fragment.journal p.end p.compression_codec in
        let t = settle-Settled (rolled sum_of encode s p) p primary now c0 in
        (
          rolled sum_of encode s p,
          t.0,
          t.1,
          w.0 ++ t.2,
          rw (w.1, t.3, apply_commit) refl,
          rw r,
          c0,
          (t.2, t.4),
        )
  ]
