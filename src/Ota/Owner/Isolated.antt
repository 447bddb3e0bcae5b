-- ===== src/Ota/Owner/Isolated.antt =====
-- stm32h563/src/ota.c: what the calls of other transports do to a session that is somebody's.
use benchpod_firmware.Ota.{Session, Target, World, owner_none}
use benchpod_firmware.Access.FwSign.{Policy}
use benchpod_firmware.Ota.Owner.{
  session_active, abandoned, may_act, may_replace, busy_for, busy_replace_for, refuse, begin_owned,
  begin_owned_b64, data_by, end_by, abort_by, owner_gone, Request, begin, data_chunk, finish, ask,
  give_up, complain, gone, serve, serve_all,
}
use mathlib.Core.Path.{subst}
use benchpod_firmware.Base.{
  ℕ, ◌≡◌, refl, sym, ap, ◌∙◌, ◌≢◌, Bool, true, false, Option, some, List, [], ◌∷◌, arith, ◌==◌, All,
  Bytes,
}

-- A session without the last refusal and the count of refusals.
unfoldable pub update_of : Session → Session
update_of s = record s { ref_owner = owner_none; ref_err = []; ref_seq = 0 }

-- A session under way that belongs to a transport which is connected and not idle.
unfoldable pub IsHeld : Session → Type 0
IsHeld s =
    (session_active s ≡ true)
    × ((s.owner == owner_none) ≡ false)
    × (s.orphan ≡ false)
    × (abandoned s ≡ false)

IsHeld-update_of : (s s' : Session) → update_of s' ≡ update_of s → IsHeld s → IsHeld s'
unfolding IsHeld update_of
IsHeld-update_of s s' e h = subst IsHeld' (sym e) h
  where
    IsHeld' : Session → Type 0
    IsHeld' s = IsHeld s

others : (who : ℕ) (s : Session) → IsHeld s → who ≢ s.owner → may_replace who s ≡ false
unfolding IsHeld
others who s h n = ground arith

refuse-update_of :
    (who : ℕ) (why : Bytes) (fresh : Bool) (s : Session)
    → may_replace who s ≡ false
    → update_of (refuse who why fresh s) ≡ update_of s
unfolding update_of refuse
refuse-update_of who why fresh s e = ground arith

may_act-may_replace : (who : ℕ) (s : Session) → may_replace who s ≡ false → may_act who s ≡ false
may_act-may_replace who s e = ground arith

module _ (w : World) where
  busy_for-may_replace :
      (who : ℕ) (s : Session)
      → may_replace who s ≡ false
      → busy_for w who s ≡ (some (w.texts.busy s.target s.owner), s)
  unfolding busy_for
  busy_for-may_replace who s e = rw (may_act-may_replace who s e) refl

  busy_replace_for-may_replace :
      (who : ℕ) (s : Session)
      → may_replace who s ≡ false
      → busy_replace_for w who s ≡ some (w.texts.busy s.target s.owner)
  unfolding busy_replace_for
  busy_replace_for-may_replace who s e = rw e refl

  begin_owned-refused :
      (policy : Policy) (who size : ℕ) (hex : Bytes) (target : Target) (version : ℕ) (sig : Bytes)
      (s : Session)
      → may_replace who s ≡ false
      → begin_owned w policy who size hex target version sig s
        ≡ (false, refuse who (w.texts.busy s.target s.owner) true s)
  unfolding begin_owned
  begin_owned-refused policy who size hex target version sig s e =
      rw (busy_replace_for-may_replace who s e, begin_owned) refl

  data_by-refused :
      (who offset len : ℕ) (wrote : Bool) (s : Session)
      → may_replace who s ≡ false
      → data_by w who offset len wrote s
        ≡ (false, refuse who (w.texts.busy s.target s.owner) false s)
  unfolding data_by
  data_by-refused who offset len wrote s e =
      let b = busy_for-may_replace who s e in
      rw
        (
          ap (λ (x : Option Bytes × Session). x.0) b,
          ap (λ (x : Option Bytes × Session). x.1) b,
          data_by,
        )
        refl

  end_by-refused :
      (policy : Policy) (read : ℕ → ℕ → Option Bytes) (invalid : Option Bytes) (who : ℕ)
      (s : Session)
      → may_replace who s ≡ false
      → end_by w policy read invalid who s
        ≡ (false, refuse who (w.texts.busy s.target s.owner) false s)
  unfolding end_by
  end_by-refused policy read invalid who s e =
      let b = busy_for-may_replace who s e in
      rw
        (
          ap (λ (x : Option Bytes × Session). x.0) b,
          ap (λ (x : Option Bytes × Session). x.1) b,
          end_by,
        )
        refl

  abort_by-refused :
      (who : ℕ) (s : Session) → may_replace who s ≡ false → abort_by who s ≡ (false, s)
  unfolding abort_by
  abort_by-refused who s e = rw e refl

  owner_gone-others : (who : ℕ) (s : Session) → who ≢ s.owner → owner_gone who s ≡ s
  unfolding owner_gone
  owner_gone-others who s n = ground arith

  refused-update_of :
      (who : ℕ) (fresh : Bool) (s : Session) (r : Bool × Session)
      → may_replace who s ≡ false
      → r ≡ (false, refuse who (w.texts.busy s.target s.owner) fresh s)
      → update_of r.1 ≡ update_of s
  refused-update_of who fresh s r e p =
      ap (λ x. update_of x.1) p ∙ refuse-update_of who (w.texts.busy s.target s.owner) fresh s e

  serve-update_of :
      (who : ℕ) (r : Request) (s : Session)
      → who ≢ s.owner
      → may_replace who s ≡ false
      → update_of (serve w who r s) ≡ update_of s
  unfolding serve begin_owned_b64
  serve-update_of who (begin policy size hex target version b64) s n e =
      refused-update_of who true s _ e
        (begin_owned-refused policy who size hex target version _ s e)
  serve-update_of who (data_chunk offset len wrote) s n e =
      refused-update_of who false s _ e (data_by-refused who offset len wrote s e)
  serve-update_of who (finish policy read invalid) s n e =
      refused-update_of who false s _ e (end_by-refused policy read invalid who s e)
  serve-update_of who ask s n e = ap (λ x. update_of x.1) (busy_for-may_replace who s e)
  serve-update_of who give_up s n e = ap (λ x. update_of x.1) (abort_by-refused who s e)
  serve-update_of who (complain why) s n e = refuse-update_of who why true s e
  serve-update_of who gone s n e = ap update_of (owner_gone-others who s n)

  -- A session that belongs to a connected transport with progress in the last 30 s: whatever other
  -- transports call, in any order and any number of times (a begin, data, an end, an abort, a refusal,
  -- a question, a closed connection), every field but those of the last refusal stays as it was.
  pub serve_all-others :
      (rs : List (ℕ × Request)) (s : Session)
      → IsHeld s
      → All (λ (r : ℕ × Request). r.0 ≢ s.owner) rs
      → update_of (serve_all w rs s) ≡ update_of s
  unfolding serve_all update_of
  serve_all-others [] s h a = refl
  serve_all-others (r ∷ rs) s h (n, a) =
      let e = serve-update_of r.0 r.1 s n (others r.0 s h n) in
      let same : (serve w r.0 r.1 s).owner ≡ s.owner = ap (λ x. x.owner) e in
      let a' = subst (λ k. All (λ (r : ℕ × Request). r.0 ≢ k) rs) (sym same) a in
      serve_all-others rs (serve w r.0 r.1 s) (IsHeld-update_of s (serve w r.0 r.1 s) e h) a' ∙ e
