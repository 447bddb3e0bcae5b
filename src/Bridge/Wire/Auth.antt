-- ===== src/Bridge/Wire/Auth.antt =====
-- Signed requests: what bwp_sign writes, bwp_verify accepts; what it accepts is signed as a whole.
use benchpod_firmware.Base.{
  take-append, ℕ, ◌+◌, ◌-◌, ◌*◌, ◌/◌, ◌%◌, ◌≤◌, min, ◌≡◌, refl, sym, ap, ◌∙◌, inl, inr, false, none,
  some, List, [], ◌∷◌, ◌++◌, arith, ltb, if◌then◌else◌, Option-cases, length, take, drop,
  length-append, length-take, Bytes, str_eq_iff,
}
use mathlib.Core.List.{append-nil, append_assoc}
use benchpod_firmware.Bridge.Wire.{
  sign_frame, be32, Writer, Msg, verified, put_u32, finish, max_frame, min_frame, auth_len,
  eth_hdr_len, hdr_len, tag_auth, tag_counter, auth_mac, sign, verify, get_u32,
}
use benchpod_firmware.Bridge.Wire.Tlv.{Tlv, encode, assoc}
use benchpod_firmware.Bridge.Wire.Scan.{auth_scan, loop-scan, scan-inv}
use benchpod_firmware.Bridge.Wire.Frame.{writer, Ends, header, put_lem, finish_lem}

-- The TLVs of a signed message.
abbrev pub signed_body : List Tlv → ℕ → Bytes → List Tlv
signed_body ts counter mac = (ts ++ ((tag_counter, be32 counter) ∷ [])) ++ ((tag_auth, mac) ∷ [])

module _ (hmac : Bytes → Bytes → Bytes) where
  -- What bwp_verify accepts ends with its one AUTH, of 16 bytes: the MAC, under the key and the nonce,
  -- of the message header and every TLV before it; the counter is the body's first COUNTER.
  pub verify_lem :
      (ts : List Tlv) (frame : Bytes) (m : Msg) (key nonce : Bytes) (c : ℕ)
      → m.body ≡ encode ts
      → verify hmac frame m key nonce ≡ verified c
      → (init : List Tlv) × (mac : Bytes) × (ts ≡ init ++ ((tag_auth, mac) ∷ []))
        × (assoc tag_auth init ≡ none)
        × (length mac ≡ auth_len)
        × (auth_mac hmac key nonce (take (8 + length (encode init)) (drop 14 frame)) ≡ mac)
        × (get_u32 (encode ts) tag_counter ≡ some c)
  unfolding verify
  verify_lem ts frame m key nonce c b h =
      let s = loop-scan ts in
      elim (Option-cases (auth_scan 0 ts none false).0) [
        | inl z ↦ absurd (ground arith)
        | inr ((o, v), z) ↦ elim (Option-cases (get_u32 (encode ts) tag_counter)) [
          | inl y ↦ absurd (ground arith)
          | inr (d, y) ↦
              let bad : (auth_scan 0 ts none false).1 ≡ false = ground arith in
              let (init, et, a, l, eo) = scan-inv ts 0 o v (λ i. (z i, bad i)) in
              let eo' : o ≡ length (encode init) = omega arith in
              let mac = auth_mac hmac key nonce (take (8 + o) (drop 14 frame)) in
              let is_mac : mac ≡ v = (str_eq_iff mac v).0 (ground arith) in
              (init, v, et, a, l, rw (← eo') is_mac, ground arith)
        ]
      ]

  length-auth_mac :
      ((k m : Bytes) → length (hmac k m) ≡ 32)
      → (key nonce from : Bytes) → length (auth_mac hmac key nonce from) ≡ auth_len
  unfolding auth_mac
  length-auth_mac hl key nonce from =
      length-take {0} 16 (hmac key (nonce ++ from)) ∙ rw (hl key (nonce ++ from)) refl

  -- bwp_sign's frame.
  sign_lem :
      (e : Ends) (cap type seq n0 : ℕ) (body key nonce : Bytes) (counter : ℕ)
      → ((k m : Bytes) → length (hmac k m) ≡ 32)
      → 22 + length body + 26 ≤ cap
      → (mac : Bytes) × (length mac ≡ auth_len)
        × (mac
            ≡ auth_mac hmac key nonce (
                drop 14 (
                  header e type seq (length body + 26)
                  ++ (body ++ encode ((tag_counter, be32 counter) ∷ [])))))
        × (sign hmac key nonce counter (writer e type seq n0 cap body) ≡ record {
          out =
              header e type seq (length body + 26)
              ++ (body ++ encode ((tag_counter, be32 counter) ∷ (tag_auth, mac) ∷ []));
          cap = cap;
          nest_at = 0;
          overflow = false;
        })
  unfolding sign put_u32 encode
  sign_lem e room type seq n0 body key nonce counter hl h =
      let cnt = tag_counter ∷ 0 ∷ 4 ∷ be32 counter in
      let n = length body + 26 in
      let mac = auth_mac hmac key nonce (drop 14 (header e type seq n ++ (body ++ cnt))) in
      let w : Writer = writer e type seq n0 room (body) in
      let w1 = put_lem tag_counter (be32 counter) w (omega arith) refl (omega arith) in
      let len_mac : length mac ≡ auth_len =
        length-auth_mac hl key nonce (drop 14 (header e type seq n ++ (body ++ cnt))) in
      let len : length (body ++ cnt) ≡ length body + 7 = length-append {0} body cnt in
      let covered = length (header e type seq n0 ++ (body ++ cnt)) + 3 + auth_len in
      let field : covered - eth_hdr_len - hdr_len ≡ n = omega arith in
      let fits : ltb room covered ≡ false = ground arith in
      let w2 =
        put_lem tag_auth mac (record w { out = header e type seq n ++ (body ++ cnt) }) (omega arith)
          refl (omega arith) in
      (
        mac,
        len_mac,
        refl,
        rw (sign, w1, fits, field)
            (w2
              ∙ rw
                  (
                    append_assoc body cnt
                        (tag_auth ∷ (length mac / 256) ∷ (length mac % 256) ∷ mac),
                    append-nil mac,
                  )
                  refl),
      )

  finish-sign :
      (e : Ends) (type seq n0 n1 cap : ℕ) (body key nonce : Bytes) (counter : ℕ)
      → ((k m : Bytes) → length (hmac k m) ≡ 32)
      → 22 + length body + 26 ≤ cap
      → sign hmac key nonce counter (writer e type seq n0 cap body)
        ≡ sign hmac key nonce counter (writer e type seq n1 cap body)
  finish-sign e type seq n0 n1 room body key nonce counter hl h =
      let (m0, l0, e0, s0) = sign_lem e room type seq n0 body key nonce counter hl h in
      let (m1, l1, e1, s1) = sign_lem e room type seq n1 body key nonce counter hl h in
      s0
      ∙ (ap
            (λ m.
              writer e type seq (length body + 26) room
                (body ++ encode ((tag_counter, be32 counter) ∷ (tag_auth, m) ∷ [])))
            (e0 ∙ sym e1)
          ∙ sym s1)

  -- Signing a finished frame in place writes the same frame as signing it before it is finished, where
  -- there is room: the padding is taken off.
  pub sign_frame-finish :
      (e : Ends) (type seq n cap : ℕ) (body key nonce : Bytes) (counter : ℕ)
      → ((k m : Bytes) → length (hmac k m) ≡ 32)
      → min_frame ≤ cap
      → 22 + length body + 26 ≤ min max_frame cap
      → (f : Bytes) × (finish (writer e type seq n (min max_frame cap) body) ≡ some f)
        × (sign_frame hmac key nonce counter f cap
            ≡ finish (sign hmac key nonce counter (writer e type seq n (min max_frame cap) body)))
  unfolding sign_frame
  sign_frame-finish e type seq n cap' body key nonce counter hl hc h =
      let r = min max_frame cap' in
      let (pad, written) = finish_lem e r type seq n body (omega arith) in
      let f = header e type seq (length body) ++ (body ++ pad) in
      let field : 256 * (length body / 256) + length body % 256 ≡ length body = omega arith in
      let room : (if ltb max_frame cap' then max_frame else cap') ≡ r = ground arith in
      let fits : ltb r (22 + length body) ≡ false = ground arith in
      let size : 22 + length body ≡ length (header e type seq (length body) ++ body) =
        omega arith in
      let taken : take (22 + length body) f ≡ header e type seq (length body) ++ body =
        ap (λ k. take k f) size ∙ take-append (header e type seq (length body) ++ body) pad in
      let same = finish-sign e type seq (length body) n r body key nonce counter hl h in
      (
        f,
        written,
        rw (sign_frame, field, room, fits)
            (ap
                (λ o. finish (
                  sign hmac key nonce counter
                    (record { out = o; cap = r; nest_at = 0; overflow = false })))
                taken
              ∙ ap finish same),
      )
