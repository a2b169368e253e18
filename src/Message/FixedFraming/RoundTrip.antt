-- ===== src/Message/FixedFraming/RoundTrip.antt =====
-- Messages written by Marshal are read back by Unpack and Unmarshal
-- (v2/pkg/message/fixed_framing.go).
use mathlib.Core.List.{append_assoc, append-nil}
use mathlib.Core.Path.{subst}
use gazette.Prelude.{
  ℕ, zero, suc, ◌+◌, ◌^◌, ◌≤◌, ◌<◌, ◌≡◌, inl, inr, refl, sym, ap, ◌∙◌, arith, true, false, Option,
  none, some, List, [], ◌∷◌, ◌++◌, Bytes, ltb, length, take, drop, Bool-cases, All, length-append,
  take-append-of_le, take-length, length-take, length-drop, drop-append, drop-length,
}
use gazette.Message.Reader.{Reader, filled, fill, peek, discard}
use gazette.Message.FixedFraming.{
  header_length, magic_word, put_uint32, uint32, matches_magic_word, frame_region, zeros, framed,
  Marshaler, encoded, encode, marshal, unpacked, frame_peeked, header_peeked, read_full,
  unpack_frame, unpack, fixed_up, unmarshal_payload, unmarshal, Unpacked,
}
use gazette.Message.FixedFraming.Words.{matches_word-append}
use gazette.Message.FixedFraming.Unpacking.{
  IsReader, peek-cases, fill-IsReader, filled-enough, discard-IsReader,
}

pub peek-enough :
    (n extra : ℕ) (r : Reader)
    → IsReader r
    → n ≤ r.capacity
    → n ≤ length r.content
    → peek n extra r ≡ (take n r.content, none, fill n extra r)
unfolding peek
peek-enough n extra r h c l =
    let e = filled-enough n extra r h c l in
    let a : ltb r.capacity n ≡ false = ground arith in
    let b : ltb (filled n extra r) n ≡ false = ground arith in rw (peek, a, b) refl

module _ {M : Type 0} (marshaler : M → Option Marshaler) (p : Bytes → Option M)
    (fixup : Option (M → Option M)) where
  -- The message's size is less than 2³², and what MarshalTo writes is of that size and decodes.
  abbrev pub IsFramable : M → Type 0
  IsFramable msg =
      (q : Marshaler) × (marshaler msg ≡ some q)
      × (q.proto_size < 2 ^ 32)
      × ((dst : Bytes)
          → length dst ≡ q.proto_size
          → (payload : Bytes) × (q.marshal_to dst ≡ some payload)
            × (length payload ≡ q.proto_size)
            × (p payload ≡ some msg))

  pub record IsFrame (msg : M) (frame : Bytes) : Type 0 where
    pub payload : Bytes
    pub frame-payload : frame ≡ magic_word ++ put_uint32 (length payload) ++ payload
    pub size-fits : length payload < 2 ^ 32
    pub decodes : p payload ≡ some msg

  length-zeros : (n : ℕ) → length (zeros n) ≡ n
  length-zeros zero = refl
  length-zeros (suc n) = omega (arith, length-zeros n)

  length-frame_region : (size : ℕ) (spare : Bytes) → length (frame_region size spare) ≡ size
  length-frame_region size spare = elim (Bool-cases (ltb (length spare) size)) [
    | inl q ↦ rw q (length-zeros size)
    | inr q ↦ rw q (length-take size spare (ground arith))
  ]

  pub encode-IsFrame :
      (msg : M) (spare : Bytes)
      → IsFramable msg
      → (frame : Bytes) × (encode marshaler msg [] spare ≡ encoded frame) × IsFrame msg frame
  unfolding encode
  encode-IsFrame msg spare (q, e, fits, writes) =
      let region = drop header_length (frame_region (header_length + q.proto_size) spare) in
      let (payload, w, n, d) = writes region (
        omega (
          arith,
          length-drop header_length (frame_region (header_length + q.proto_size) spare),
          length-frame_region (header_length + q.proto_size) spare,
        )) in
      (
        magic_word ++ put_uint32 q.proto_size ++ payload,
        rw (encode, e, framed, w) refl,
        record {
          payload = payload;
          frame-payload = ap (λ t. magic_word ++ put_uint32 t ++ payload) (sym n);
          size-fits = omega (arith, n, fits);
          decodes = d;
        },
      )

  marshal-IsFrame :
      (msg : M) (writer spare : Bytes)
      → IsFramable msg
      → (frame : Bytes) × (marshal marshaler msg writer spare ≡ (writer ++ frame, none))
        × IsFrame msg frame
  unfolding marshal
  marshal-IsFrame msg writer spare h =
      let (frame, e, f) = encode-IsFrame msg spare h in (frame, rw (marshal, e) refl, f)

  -- The header of a frame, and of all that follows it.
  length-frame :
      (msg : M) (frame : Bytes) (f : IsFrame msg frame) → length frame ≡ 8 + length f.payload
  length-frame msg frame f = ap length f.frame-payload ∙ omega arith

  frame-matches :
      (msg : M) (frame rest : Bytes)
      → IsFrame msg frame
      → matches_magic_word (frame ++ rest) ≡ some true
  frame-matches msg frame rest f =
      ap (λ t. matches_magic_word (t ++ rest)) f.frame-payload
      ∙ matches_word-append magic_word (put_uint32 (length f.payload) ++ f.payload ++ rest)

  frame-size :
      (msg : M) (frame rest : Bytes) (f : IsFrame msg frame)
      → uint32 (drop 4 (take 8 (frame ++ rest))) ≡ length f.payload
  frame-size msg frame rest f =
      ap (λ t. uint32 (drop 4 (take 8 (t ++ rest)))) f.frame-payload ∙ omega (arith, f.size-fits)

  header-matches :
      (msg : M) (frame rest : Bytes)
      → IsFrame msg frame
      → matches_magic_word (take 8 (frame ++ rest)) ≡ some true
  header-matches msg frame rest f =
      ap (λ t. matches_magic_word (take 8 (t ++ rest))) f.frame-payload
      ∙ matches_word-append magic_word (put_uint32 (length f.payload))

  -- A frame is taken off the content that begins with it.
  take-frame : (frame rest : Bytes) (n : ℕ) → n ≡ length frame → take n (frame ++ rest) ≡ frame
  take-frame frame rest n e =
      ap (λ t. take t (frame ++ rest)) e
      ∙ take-append-of_le (length frame) frame rest (omega arith)
      ∙ take-length frame

  drop-frame : (frame rest : Bytes) (n : ℕ) → n ≡ length frame → drop n (frame ++ rest) ≡ rest
  drop-frame frame rest n e =
      ap (λ t. drop t (frame ++ rest)) e
      ∙ drop-append (length frame) frame rest (omega arith)
      ∙ ap (λ t. t ++ rest) (drop-length frame)

  -- The frame, and a reader of what follows.
  abbrev Splits : Bytes → Bytes → Unpacked → Type 0
  Splits frame rest result =
      (r : Reader) × (result ≡ unpacked frame r) × IsReader r × (r.content ≡ rest)

  whole-Splits :
      (frame rest : Bytes) (n : ℕ) (r : Reader)
      → IsReader r
      → r.content ≡ frame ++ rest
      → n ≡ length frame
      → Splits frame rest (unpacked (take n r.content) (discard n r))
  whole-Splits frame rest n r h c e = (
    discard n r,
    ap (λ t. unpacked t (discard n r)) (ap (take n) c ∙ take-frame frame rest n e),
    discard-IsReader n r h (omega (arith, ap length c, e, length-append frame rest)),
    ap (drop n) c ∙ drop-frame frame rest n e,
  )

  unpack_frame-Splits :
      (frame rest : Bytes) (n more : ℕ) (r : Reader)
      → IsReader r
      → r.content ≡ frame ++ rest
      → n ≡ length frame
      → Splits frame rest (unpack_frame n more r)
  unfolding unpack_frame
  unpack_frame-Splits frame rest n more r h c e =
      let whole = whole-Splits frame rest n (fill n more r) (fill-IsReader n more r h) c e in
      elim (peek-cases n more r h) [
        | inl (l, q) ↦ subst (λ t. Splits frame rest (frame_peeked n t)) (sym q) whole
        | inr (b, err, q) ↦
            let s : ltb (length r.content) n ≡ false =
              ground (arith, ap length c, length-append frame rest) in
            subst (λ t. Splits frame rest (frame_peeked n t)) (sym q) (rw (read_full, s) whole)
      ]

  pub unpack-IsFrame :
      (msg : M) (frame rest : Bytes) (extra more : ℕ) (r : Reader)
      → IsReader r
      → IsFrame msg frame
      → r.content ≡ frame ++ rest
      → Splits frame rest (unpack extra more r)
  unfolding unpack header_peeked
  unpack-IsFrame msg frame rest extra more r h f c =
      let l : 8 ≤ length r.content =
        omega (arith, ap length c, length-append frame rest, length-frame msg frame f) in
      let r' = fill 8 extra r in
      let size : 8 + uint32 (drop 4 (take 8 r.content)) ≡ length frame =
        ap (λ t. 8 + uint32 (drop 4 (take 8 t))) c
        ∙ ap (λ t. 8 + t) (frame-size msg frame rest f)
        ∙ sym (length-frame msg frame f) in
      let m : matches_magic_word (take 8 r.content) ≡ some true =
        ap (λ t. matches_magic_word (take 8 t)) c ∙ header-matches msg frame rest f in
      subst (λ t. Splits frame rest (header_peeked more t))
        (sym (peek-enough 8 extra r h (omega (arith, h.0)) l))
        (rw (header_peeked, m)
          (unpack_frame-Splits frame rest (8 + uint32 (drop 4 (take 8 r.content))) more r'
            (fill-IsReader 8 extra r h) c size))

  pub unmarshal-IsFrame :
      (msg : M) (frame : Bytes)
      → IsFrame msg frame
      → unmarshal (some p) fixup frame ≡ fixed_up (some p) fixup msg
  unfolding unmarshal
  unmarshal-IsFrame msg frame f =
      let m : matches_magic_word frame ≡ some true =
        ap matches_magic_word (sym (append-nil frame)) ∙ frame-matches msg frame [] f in
      let s : ltb (length frame) header_length ≡ false = ground (arith, length-frame msg frame f) in
      let d : p (drop 8 frame) ≡ some msg = ap (λ t. p (drop 8 t)) f.frame-payload ∙ f.decodes in
      rw (unmarshal, m, s, unmarshal_payload, d) refl

  -- What a writer has been given after messages, each with the buffer that its Marshal took.
  abbrev pub marshal_all : List (M × Bytes) → Bytes → Bytes
  marshal_all [] writer = writer
  marshal_all ((msg, spare) ∷ msgs) writer = marshal_all msgs (marshal marshaler msg writer spare).0

  -- However much each Peek brings: each message is read, and `rest` is left.
  abbrev pub Reads : List (M × Bytes) → Bytes → Reader → Type 0
  Reads [] rest r = r.content ≡ rest
  Reads ((msg, spare) ∷ msgs) rest r =
      (extra more : ℕ)
      → (frame : Bytes) × (r' : Reader) × (unpack extra more r ≡ unpacked frame r')
        × (unmarshal (some p) fixup frame ≡ fixed_up (some p) fixup msg)
        × Reads msgs rest r'

  abbrev pub AllFramable : List (M × Bytes) → Type 0
  AllFramable msgs = All (λ m. IsFramable m.0) msgs

  -- What is written is appended, and read as written.
  marshal_all-Reads :
      (msgs : List (M × Bytes)) (writer rest : Bytes)
      → AllFramable msgs
      → (written : Bytes) × (marshal_all msgs writer ≡ writer ++ written)
        × ((r : Reader) → IsReader r → r.content ≡ written ++ rest → Reads msgs rest r)
  marshal_all-Reads [] writer rest a = ([], sym (append-nil writer), λ r h c. c)
  marshal_all-Reads ((msg, spare) ∷ msgs) writer rest a =
      let (frame, e, f) = marshal-IsFrame msg writer spare a.0 in
      let (written, w, reads) = marshal_all-Reads msgs (writer ++ frame) rest a.1 in
      (
        frame ++ written,
        ap (λ t. marshal_all msgs t.0) e ∙ w ∙ append_assoc writer frame written,
        λ r h c extra more.
            let (r', u, h', c') =
              unpack-IsFrame msg frame (written ++ rest) extra more r h f
                (c ∙ append_assoc frame written rest) in
            (frame, r', u, unmarshal-IsFrame msg frame f, reads r' h' c'),
      )

  -- Messages that are marshaled one after another are unpacked and unmarshaled in that order, and
  -- what follows them is left, whatever the buffers and however the reader is filled, if each
  -- message's size is less than 2³² and what it marshals to is of that size and decodes to it.
  pub marshal-Reads :
      (msgs : List (M × Bytes)) (rest : Bytes) (r : Reader)
      → AllFramable msgs
      → IsReader r
      → r.content ≡ marshal_all msgs [] ++ rest
      → Reads msgs rest r
  marshal-Reads msgs rest r a h c =
      let (written, w, reads) = marshal_all-Reads msgs [] rest a in
      reads r h (c ∙ ap (λ t. t ++ rest) w)
