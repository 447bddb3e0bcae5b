-- ===== src/Bridge/Control/Guard.antt =====
-- wifi-bridge/main/control.c: what a frame can make the bridge do, and what of its state it can change.
use benchpod_firmware.Base.{
  ℕ, ◌/◌, ◌%◌, ◌<◌, ◌≡◌, refl, sym, ap, ◌∙◌, ◌⊎◌, inl, inr, true, false, Option, none, some, List,
  [], ◌∷◌, arith, ◌==◌, Bool-cases, Option-cases, All, Bytes,
}
use mathlib.Core.Path.{subst}
use benchpod_firmware.Access.FwSign.{Crypto}
use benchpod_firmware.Bridge.Wire.{
  Msg, Parsed, not_bwp, bad_version, malformed, ok, parse, verified, verify,
}
use benchpod_firmware.Bridge.Pairing.{
  PairVerdict, accept, store_key, not_paired, already_paired, auth_missing, auth_bad, replay,
  bad_key, Outcome, check, bwp_status, bwp_scan, bwp_pair,
}
use benchpod_firmware.Bridge.Pairing.Replay.{authed_iff, check-open, check-plain, IsIn}
use benchpod_firmware.Bridge.Requests.{
  scan_answer, pair_answer, status_answer, Control, World, Output, sends, confirms, stores_key,
  answer, pair_request,
}
use benchpod_firmware.Bridge.Control.{
  set_key, serve, admitted, refused, by_verdict, request, handle, receive,
}

parsed-cases :
    (p : Parsed)
    → ((m : Msg) × (p ≡ ok m)) ⊎ ((p ≡ not_bwp) ⊎ ((p ≡ bad_version) ⊎ (p ≡ malformed)))
parsed-cases (ok m) = inl (m, refl)
parsed-cases not_bwp = inr (inl refl)
parsed-cases bad_version = inr (inr (inl refl))
parsed-cases malformed = inr (inr (inr refl))

-- What an unpaired bridge may do: answer, keep its image, and store the key of a new pairing.
abbrev pub IsOpen : Output → Type 0
IsOpen (sends k a) = Unit
IsOpen confirms = Unit
IsOpen (stores_key key pub_key) = Unit
IsOpen _ = ⊥

-- What anybody may make a bridge do: answer, and nothing else.
abbrev pub IsAnswer : Output → Type 0
IsAnswer (sends k a) = Unit
IsAnswer _ = ⊥

-- A step with such outputs that leaves the update alone, and the pairing or makes a new one.
pub Opens : Control → List Output × Control → Type 0
Opens s r =
    All IsOpen r.0
    × (r.1.update ≡ s.update)
    × ((r.1.pair ≡ s.pair) ⊎ ((key : Bytes) × (r.1.pair ≡ set_key key s.pair)))

pair_request-Opens : (w : World) (key : Option Bytes) (s : Control) → Opens s (pair_request w key s)
unfolding pair_request answer Opens
pair_request-Opens w none s = ((tt, tt), refl, inl refl)
pair_request-Opens w (some k) s = elim (Option-cases (w.derived k)) [
  | inl e ↦
      let q : pair_request w (some k) s ≡ (answer s (pair_answer 1 none) ∷ [], s) = ground arith in
      subst (Opens s) (sym q) ((tt, tt), refl, inl refl)
  | inr (key, e) ↦ elim (Bool-cases w.key_stored) [
    | inl b ↦
        let q : pair_request w (some k) s ≡ (
          stores_key key w.public ∷ answer s (pair_answer 0 (some w.public)) ∷ [],
          record s { pair = set_key key s.pair; pub_key = w.public; paired = true },
        ) =
          ground arith in
        subst (Opens s) (sym q) ((tt, (tt, tt)), refl, inr (key, refl))
    | inr b ↦
        let q : pair_request w (some k) s
            ≡ (stores_key key w.public ∷ answer s (pair_answer 4 none) ∷ [], s) =
          ground arith in
        subst (Opens s) (sym q) ((tt, (tt, tt)), refl, inl refl)
  ]
]

-- What anybody may cause: an answer at most, the update, the key, the counter and what the bridge
-- knows of its pairing as they were.
pub Answers : Control → List Output × Control → Type 0
Answers s r =
    All IsAnswer r.0
    × (r.1.update ≡ s.update)
    × (r.1.pair ≡ s.pair)
    × (r.1.paired ≡ s.paired)
    × (r.1.pub_key ≡ s.pub_key)

module _ (hmac : Bytes → Bytes → Bytes) (open_pass : Bytes → Bytes → Option Bytes) where
  module _ (c : Crypto) (keys : List Bytes) (sha256 : Bytes → Bytes) (project_name : Bytes) where
    serve-Opens :
        (w : World) (m : Msg) (key : Option Bytes) (s : Control)
        → (m.type ≡ bwp_status) ⊎ ((m.type ≡ bwp_scan) ⊎ (m.type ≡ bwp_pair))
        → Opens s (serve hmac open_pass c keys sha256 project_name w m key s)
    unfolding serve answer Opens
    serve-Opens w m key s (inl e) =
        let q : serve hmac open_pass c keys sha256 project_name w m key s
            ≡ (answer s status_answer ∷ [], s) =
          ground arith in
        subst (Opens s) (sym q) ((tt, tt), refl, inl refl)
    serve-Opens w m key s (inr (inl e)) =
        let q : serve hmac open_pass c keys sha256 project_name w m key s
            ≡ (answer s (scan_answer w.scan_result) ∷ [], s) =
          ground arith in
        subst (Opens s) (sym q) ((tt, tt), refl, inl refl)
    serve-Opens w m key s (inr (inr e)) =
        let q : serve hmac open_pass c keys sha256 project_name w m key s ≡ pair_request w key s =
          ground arith in
        subst (Opens s) (sym q) (pair_request-Opens w key s)

    admitted-Opens :
        (w : World) (m : Msg) (o : Outcome) (s : Control)
        → (m.type ≡ bwp_status) ⊎ ((m.type ≡ bwp_scan) ⊎ (m.type ≡ bwp_pair))
        → Opens s (admitted hmac open_pass c keys sha256 project_name w m o s)
    unfolding admitted Opens
    admitted-Opens w m o s t =
        let (a, u, k) = serve-Opens w m o.new_key (record s { sign = o.authed }) t in
        ((tt, a), u, k)

    by_verdict-cases :
        (v : PairVerdict) (w : World) (m : Msg) (o : Outcome) (s : Control)
        → (IsIn v
            × (by_verdict hmac open_pass c keys sha256 project_name v w m o s
                ≡ admitted hmac open_pass c keys sha256 project_name w m o s))
          ⊎ Answers s (by_verdict hmac open_pass c keys sha256 project_name v w m o s)
    unfolding by_verdict refused answer Answers IsIn
    by_verdict-cases accept w m o s = inl (inl refl, refl)
    by_verdict-cases store_key w m o s = inl (inr refl, refl)
    by_verdict-cases not_paired w m o s = inr ((tt, tt), refl, refl, refl, refl)
    by_verdict-cases already_paired w m o s = inr ((tt, tt), refl, refl, refl, refl)
    by_verdict-cases auth_missing w m o s = inr ((tt, tt), refl, refl, refl, refl)
    by_verdict-cases auth_bad w m o s = inr ((tt, tt), refl, refl, refl, refl)
    by_verdict-cases replay w m o s = inr ((tt, tt), refl, refl, refl, refl)
    by_verdict-cases bad_key w m o s = inr ((tt, tt), refl, refl, refl, refl)

    -- A frame that does more than to be answered, or to be answered and to pair an unpaired bridge:
    -- a fresh request signed under the pairing's key.
    pub Signed : Bytes → Control → Type 0
    Signed frame s =
        (m : Msg) × (n : ℕ) × (parse frame ≡ ok m)
        × (s.pair.paired ≡ true)
        × (verify hmac frame m s.pair.key s.pair.nonce ≡ verified n)
        × (s.pair.last_counter < n)

    request-guarded :
        (w : World) (frame : Bytes) (m : Msg) (s : Control)
        → parse frame ≡ ok m
        → Answers s (request hmac open_pass c keys sha256 project_name w frame m s)
          ⊎ (((s.pair.paired ≡ false)
                × Opens s (request hmac open_pass c keys sha256 project_name w frame m s))
              ⊎ Signed frame s)
    unfolding request Answers Opens Signed
    request-guarded w frame m s p =
        let r = check hmac frame m s.pair in
        let s' : Control = record s { pair = r.1; counter = r.0.counter } in
        elim (Bool-cases r.0.authed) [
          | inl authed ↦
              let (paired, (n, v, f, k)) = (authed_iff hmac frame m s.pair).0 authed in
              inr (inr (m, n, p, paired, v, f))
          | inr plain ↦
              let kept = check-plain hmac frame m s.pair plain in
              elim (by_verdict-cases r.0.verdict w m r.0 s') [
                | inr (a, u, k, same, known) ↦ inl (a, u, k ∙ kept, same, known)
                | inl (i, q) ↦
                    let (unpaired, t) = check-open hmac frame m s.pair i plain in
                    let (a, u, k) = admitted-Opens w m r.0 s' t in
                    let r' = admitted hmac open_pass c keys sha256 project_name w m r.0 s' in
                    let k' : (r'.1.pair ≡ s.pair)
                        ⊎ ((key : Bytes) × (r'.1.pair ≡ set_key key s.pair)) =
                      elim k [
                        | inl e ↦ inl (e ∙ kept)
                        | inr (key, e) ↦ inr (key, e ∙ ap (set_key key) kept)
                      ] in
                    inr (inl (unpaired, subst (Opens s) (sym q) (a, u, k')))
              ]
        ]

    -- Whatever frame the bridge gets and whatever its calls return, one of three holds: it does no
    -- more than to answer, and its pairing, key and counter stay as they were; it is unpaired and
    -- does no more than to answer, to keep its new image and to store the key of a pairing, and its
    -- pairing stays as it was or gets a key; or it is paired, and the frame is a request whose MAC
    -- verifies under the pairing's key with a counter above the last one. In the first two its
    -- update stays as it was.
    pub receive-guarded :
        (w : World) (frame : Bytes) (s : Control)
        → Answers s (receive hmac open_pass c keys sha256 project_name w frame s)
          ⊎ (((s.pair.paired ≡ false)
                × Opens s (receive hmac open_pass c keys sha256 project_name w frame s))
              ⊎ Signed frame s)
    unfolding receive handle Answers Opens
    receive-guarded w frame s =
        let r = receive hmac open_pass c keys sha256 project_name w frame s in
        elim (parsed-cases (parse frame)) [
          | inl (m, e) ↦ elim (Bool-cases (m.type / 128 % 2 == 1)) [
            | inl b ↦
                let q : r ≡ ([], record s { sign = false }) = ground arith in
                inl (subst (Answers s) (sym q) (tt, refl, refl, refl, refl))
            | inr b ↦
                let h = request hmac open_pass c keys sha256 project_name w frame m s in
                let q : r ≡ (h.0, record h.1 { sign = false }) = ground arith in
                elim (request-guarded w frame m s e) [
                  | inl a ↦ inl (subst (Answers s) (sym q) a)
                  | inr (inl (u, o)) ↦ inr (inl (u, subst (Opens s) (sym q) o))
                  | inr (inr g) ↦ inr (inr g)
                ]
          ]
          | inr e ↦
              let q : r ≡ ([], record s { sign = false }) = ground arith in
              inl (subst (Answers s) (sym q) (tt, refl, refl, refl, refl))
        ]
