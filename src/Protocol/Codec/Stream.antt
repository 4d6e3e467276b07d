-- ===== src/Protocol/Codec/Stream.antt =====
-- The decoder as a function of the bytes that wait, without chunks: the specification of `push`.
use weisley_rpc_framework.Prelude.{
  ℕ, zero, suc, ◌+◌, ◌≤◌, ◌<◌, ◌≡◌, ◌≢◌, refl, sym, ap, ◌∙◌, ◌⊎◌, inl, inr, Option, none, some,
  List, [], ◌∷◌, ◌++◌, length, take, drop, ltb, if◌then◌else◌, ok, throws, arith, Bool-cases,
  length-append, length-drop, take_append_le, drop_append_le, ltb→le, le→ltb, subst,
}
use weisley_rpc_framework.Protocol.Types.{Buffer, Result, ProtocolError, RpcMessage, header_length}
use weisley_rpc_framework.Protocol.Packet.{PacketHeader, decode_packet_header}
use weisley_rpc_framework.Protocol.Codec.{RpcCodec, decode_body}

-- What the bytes begin with: no whole packet, one that is refused, or one with a message; and the
-- bytes after it.
pub data Next (Value : Type 0) : Type 0 where
  waits : Next Value
  fails : ProtocolError → Buffer → Next Value
  yields : RpcMessage Value → Buffer → Next Value

module _ {Value : Type 0} where
  unfoldable pub body_next : Buffer → Result (RpcMessage Value) → Next Value
  body_next rest (throws e) = fails e rest
  body_next rest (ok m) = yields m rest

  unfoldable pub header_next : RpcCodec Value → Buffer → Result PacketHeader → Next Value
  unfolding body_next
  header_next codec bs (throws e) = fails e bs
  header_next codec bs (ok h) =
      if ltb (length bs) (header_length + h.body_length)
      then waits
      else body_next (drop h.body_length (drop header_length bs))
          (decode_body codec h (take h.body_length (drop header_length bs)))

  unfoldable pub next : RpcCodec Value → Buffer → Next Value
  unfolding header_next
  next codec bs =
      if ltb (length bs) header_length
      then waits
      else header_next codec bs (decode_packet_header (take header_length bs))

  -- More bytes at the end, where something has been decided.
  abbrev pub extend : Next Value → Buffer → Next Value
  extend waits xs = waits
  extend (fails e r) xs = fails e (r ++ xs)
  extend (yields m r) xs = yields m (r ++ xs)

  body_next-append :
      (r xs : Buffer) (o : Result (RpcMessage Value))
      → body_next (r ++ xs) o ≡ extend (body_next r o) xs
  unfolding body_next
  body_next-append r xs (ok m) = refl
  body_next-append r xs (throws e) = refl

  header_next-append :
      (codec : RpcCodec Value) (bs xs : Buffer) (o : Result PacketHeader)
      → header_length ≤ length bs
      → header_next codec bs o ≢ waits
      → header_next codec (bs ++ xs) o ≡ extend (header_next codec bs o) xs
  unfolding header_next
  header_next-append codec bs xs (throws e) h d = refl
  header_next-append codec bs xs (ok p) h d =
      elim (Bool-cases (ltb (length bs) (header_length + p.body_length))) [
        | inl short ↦ absurd (d (rw short))
        | inr whole ↦
            let fits = ltb→le (length bs) (header_length + p.body_length) whole in
            let fits' : header_length + p.body_length ≤ length (bs ++ xs) =
              omega (arith, fits, length-append bs xs) in
            let enough : p.body_length ≤ length (drop header_length bs) =
              omega (arith, length-drop header_length bs, fits) in
            rw
              (
                whole,
                le→ltb _ _ fits',
                drop_append_le header_length bs xs h,
                take_append_le p.body_length (drop header_length bs) xs enough,
                drop_append_le p.body_length (drop header_length bs) xs enough,
              )
              (body_next-append _ xs _)
      ]

  -- Bytes that come later do not change what has been decided.
  pub next-append :
      (codec : RpcCodec Value) (bs xs : Buffer)
      → next codec bs ≢ waits
      → next codec (bs ++ xs) ≡ extend (next codec bs) xs
  unfolding next
  next-append codec bs xs d = elim (Bool-cases (ltb (length bs) header_length)) [
    | inl short ↦ absurd (d (rw short))
    | inr enough ↦
        let fits = ltb→le (length bs) header_length enough in
        rw
          (
            enough,
            le→ltb (length (bs ++ xs)) header_length (omega (arith, fits, length-append bs xs)),
            take_append_le header_length bs xs fits,
          )
          (header_next-append codec bs xs _ fits (λ e. d (rw enough e)))
  ]

-- What a decoder makes of its bytes until no whole packet is left, or one is refused: the messages,
-- the error if any, and the bytes that stay.
pub data Drains {Value : Type 0} (codec : RpcCodec Value)
    : Buffer → List (RpcMessage Value) → Option ProtocolError → Buffer → Type 0 where
  rests : {bs : Buffer} → next codec bs ≡ waits → Drains codec bs [] none bs
  breaks :
      {bs rest : Buffer} {e : ProtocolError}
      → next codec bs ≡ fails e rest
      → Drains codec bs [] (some e) rest
  reads :
      {bs rest last : Buffer} {m : RpcMessage Value} {ms : List (RpcMessage Value)}
      {end : Option ProtocolError}
      → next codec bs ≡ yields m rest
      → Drains codec rest ms end last
      → Drains codec bs (m ∷ ms) end last

module _ {Value : Type 0} (codec : RpcCodec Value) where
  pub Next-cases :
      (n : Next Value)
      → (n ≡ waits)
        ⊎ ((e : ProtocolError) × (r : Buffer) × (n ≡ fails e r))
        ⊎ ((m : RpcMessage Value) × (r : Buffer) × (n ≡ yields m r))
  Next-cases waits = inl refl
  Next-cases (fails e r) = inr (inl (e, r, refl))
  Next-cases (yields m r) = inr (inr (m, r, refl))

  body_yields :
      (rest : Buffer) (o : Result (RpcMessage Value)) (m : RpcMessage Value) (r : Buffer)
      → body_next rest o ≡ yields m r
      → r ≡ rest
  unfolding body_next
  body_yields rest (ok m') m r e = cc
  body_yields rest (throws x) m r e = cc

  header_yields :
      (bs : Buffer) (m : RpcMessage Value) (r : Buffer) (o : Result PacketHeader)
      → header_length ≤ length bs
      → header_next codec bs o ≡ yields m r
      → length r + header_length ≤ length bs
  unfolding header_next
  header_yields bs m r (throws x) h e = cc
  header_yields bs m r (ok p) h e =
      elim (Bool-cases (ltb (length bs) (header_length + p.body_length))) [
        | inl short ↦ cc (e, short)
        | inr whole ↦
            let rest = body_yields _ _ m r (rw whole at e) in
            omega (
              arith,
              ap length rest,
              length-drop p.body_length (drop header_length bs),
              length-drop header_length bs,
            )
      ]

  -- A message takes ten bytes at least.
  pub yields_shorter :
      (bs : Buffer) (m : RpcMessage Value) (r : Buffer)
      → next codec bs ≡ yields m r
      → length r + header_length ≤ length bs
  unfolding next
  yields_shorter bs m r e = elim (Bool-cases (ltb (length bs) header_length)) [
    | inl short ↦ cc (e, short)
    | inr enough ↦ header_yields bs m r _ (ltb→le (length bs) header_length enough) (rw enough at e)
  ]

  decided_waits : (bs xs : Buffer) → next codec bs ≢ waits → next codec (bs ++ xs) ≡ waits → ⊥
  decided_waits bs xs d h = elim (Next-cases (next codec bs)) [
    | inl n ↦ d n
    | inr (inl (x, r, n)) ↦ cc (next-append codec bs xs d, n, h)
    | inr (inr (m, r, n)) ↦ cc (next-append codec bs xs d, n, h)
  ]

  -- A stream that ends well may be cut anywhere: its first part drains, and what that leaves, with
  -- the second part behind it, drains to the other messages.
  pub Drains-split :
      (bs xs : Buffer) {all : Buffer} {ms : List (RpcMessage Value)} {last : Buffer}
      → Drains codec all ms none last
      → all ≡ bs ++ xs
      → (front back : List (RpcMessage Value)) × (mid : Buffer) × Drains codec bs front none mid
        × Drains codec (mid ++ xs) back none last
        × (ms ≡ front ++ back)
  Drains-split bs xs {all} (rests h) e = elim (Next-cases (next codec bs)) [
    | inl n ↦ ([], [], bs, rests n, subst (λ b. Drains codec b [] none all) e (rests h), refl)
    | inr (inl (x, r, n)) ↦
        absurd (decided_waits bs xs (λ w. cc (w, n)) (ap (next codec) (sym e) ∙ h))
    | inr (inr (m, r, n)) ↦
        absurd (decided_waits bs xs (λ w. cc (w, n)) (ap (next codec) (sym e) ∙ h))
  ]
  Drains-split bs xs {all} {last = last} (reads {rest = rest} {m = m'} {ms = ms'} h d) e =
      elim (Next-cases (next codec bs)) [
        | inl n ↦ (
          [],
          m' ∷ ms',
          bs,
          rests n,
          subst (λ b. Drains codec b (m' ∷ ms') none last) e (reads h d),
          refl,
        )
        | inr (inl (x, r, n)) ↦
            let grown = next-append codec bs xs (λ w. cc (w, n)) in
            cc (grown, n, ap (next codec) (sym e), h)
        | inr (inr (m, r, n)) ↦
            let grown = next-append codec bs xs (λ w. cc (w, n)) in
            let same : rest ≡ r ++ xs = cc (grown, n, ap (next codec) (sym e), h) in
            let first : m' ≡ m = cc (grown, n, ap (next codec) (sym e), h) in
            let (front, back, mid, d1, d2, sum) = Drains-split r xs d same in
            (m ∷ front, back, mid, reads n d1, d2, cc (first, sum))
      ]

  -- The loop over whole packets ends, with messages and the bytes that stay or with an error.
  pub Drains-total :
      (f : ℕ) (bs : Buffer)
      → length bs < f
      → (ms : List (RpcMessage Value)) × (end : Option ProtocolError) × (last : Buffer) × Drains
          codec bs ms end last
  Drains-total zero bs h = elim h [ ]
  Drains-total (suc f) bs h = elim (Next-cases (next codec bs)) [
    | inl n ↦ ([], none, bs, rests n)
    | inr (inl (e, r, n)) ↦ ([], some e, r, breaks n)
    | inr (inr (m, r, n)) ↦
        let (ms, end, last, d) = Drains-total f r (omega (arith, yields_shorter bs m r n)) in
        (m ∷ ms, end, last, reads n d)
  ]
