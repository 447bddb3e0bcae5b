-- ===== src/Psram/Regions.antt =====
-- stm32h563/src/psram_regions.c: whether the last capture in the PSRAM has been written over. The
-- array of at most two ranges with its count is a list; `stale` is NULL or the first reason.
use benchpod_firmware.Base.{
  ◌⊎◌, refl, inr, max, inl, Bool-cases, All, arith, ◌↔◌, ◌≢◌, ◌≤◌, ℕ, ◌+◌, ◌<◌, ◌≡◌, Bool, true,
  false, ◌&&◌, ◌||◌, Option, none, some, List, [], ◌∷◌, ltb, ◌==◌, if◌then◌else◌, Bytes, codes,
}

pub record Region : Type 0 where
  pub base : ℕ
  pub len : ℕ

pub record State : Type 0 where
  pub tracked : List Region
  pub stale : Option Bytes

unless_empty : Region → List Region → List Region
unless_empty r rs = if r.len == 0 then rs else r ∷ rs

unfoldable pub track : ℕ → ℕ → ℕ → ℕ → State → State
unfolding unless_empty
track base0 len0 base1 len1 s = record {
  tracked =
      unless_empty (record { base = base0; len = len0 })
        (unless_empty (record { base = base1; len = len1 }) []);
  stale = none;
}

pub forget : State → State
forget s = record { tracked = []; stale = none }

-- `why ? why : "another PSRAM write"`.
abbrev pub reason : Option Bytes → Bytes
reason (some why) = why
reason none = codes "another PSRAM write"

-- The loop over the ranges: is one of them met? The sums are `uint64_t`.
hits : ℕ → ℕ → List Region → Bool
hits base len [] = false
hits base len (r ∷ rs) = (ltb base (r.base + r.len) && ltb r.base (base + len)) || hits base len rs

abbrev is_stale : Option Bytes → Bool
is_stale none = false
is_stale (some _) = true

unfoldable pub dirty : ℕ → ℕ → Option Bytes → State → State
unfolding hits
dirty base len why s =
    if len == 0 || is_stale s.stale
    then s
    else if hits base len s.tracked
    then record s { stale = some (reason why) }
    else s

abbrev is_empty : List Region → Bool
is_empty [] = true
is_empty (_ ∷ _) = false

pub dirty_all : Option Bytes → State → State
dirty_all why s =
    if is_empty s.tracked || is_stale s.stale then s else record s { stale = some (reason why) }

-- Writes since the capture, oldest first.
pub record Write : Type 0 where
  pub base : ℕ
  pub len : ℕ
  pub why : Option Bytes

unfoldable pub run : List Write → State → State
run [] s = s
run (w ∷ ws) s = run ws (dirty w.base w.len w.why s)

-- A byte of a tracked range that a write covers.
abbrev pub Covers : ℕ → ℕ → ℕ → Type 0
Covers base len x = (base ≤ x) × (x < base + len)

pub data Overwritten (w : Write) : List Region → Type 0 where
  here :
      (r : Region) (rs : List Region) (x : ℕ)
      → Covers r.base r.len x
      → Covers w.base w.len x
      → Overwritten w (r ∷ rs)
  there : (r : Region) (rs : List Region) → Overwritten w rs → Overwritten w (r ∷ rs)

Overwritten-hits : (w : Write) (rs : List Region) → Overwritten w rs → hits w.base w.len rs ≡ true
unfolding hits
Overwritten-hits w _ (here r rs x a b) = ground arith
Overwritten-hits w _ (there r rs o) = ground (arith, Overwritten-hits w rs o)

-- Ranges of some length, as `track` keeps them.
abbrev pub AllFull : List Region → Type 0
AllFull rs = All (λ (r : Region). 0 < r.len) rs

hits-Overwritten :
    (w : Write) (rs : List Region)
    → 0 < w.len
    → AllFull rs
    → hits w.base w.len rs ≡ true
    → Overwritten w rs
unfolding hits
hits-Overwritten w [] l f h = absurd (cc)
hits-Overwritten w (r ∷ rs) l (f, fs) h =
    elim (Bool-cases (ltb w.base (r.base + r.len) && ltb r.base (w.base + w.len))) [
      | inl e ↦ here r rs (max r.base w.base) (ground arith) (ground arith)
      | inr e ↦ there r rs (hits-Overwritten w rs l fs (ground arith))
    ]

run-stale : (ws : List Write) (s : State) (y : Bytes) → s.stale ≡ some y → run ws s ≡ s
unfolding run dirty
run-stale [] s y h = refl
run-stale (w ∷ ws) s y h = ground (arith, run-stale ws s y)

run-tracked : (w : Write) (s : State) → (dirty w.base w.len w.why s).tracked ≡ s.tracked
unfolding dirty
run-tracked w s = ground arith

-- Some write of the history, of some length, met the tracked ranges.
pub data Hit (rs : List Region) : List Write → Type 0 where
  now : (w : Write) (ws : List Write) → Overwritten w rs → Hit rs (w ∷ ws)
  later : (w : Write) (ws : List Write) → Hit rs ws → Hit rs (w ∷ ws)

no_room : (w : Write) (rs : List Region) → Overwritten w rs → 0 < w.len
no_room w _ (here r rs x a b) = omega arith
no_room w _ (there r rs o) = no_room w rs o

track_intact : (b0 l0 b1 l1 : ℕ) (s : State) → (track b0 l0 b1 l1 s).stale ≡ none
unfolding track
track_intact b0 l0 b1 l1 s = refl

-- One write on a capture that is intact.
dirty_step :
    (w : Write) (s : State)
    → AllFull s.tracked
    → s.stale ≡ none
    → (Overwritten w s.tracked
        × (s' : State) × (y : Bytes) × (dirty w.base w.len w.why s ≡ s')
        × (s'.stale ≡ some y))
      ⊎ (¬ Overwritten w s.tracked × (dirty w.base w.len w.why s ≡ s))
unfolding dirty
dirty_step w s f n = elim (Bool-cases (w.len == 0)) [
  | inl z ↦ inr ((λ o. ground (arith, no_room w s.tracked o)), ground arith)
  | inr z ↦ elim (Bool-cases (hits w.base w.len s.tracked)) [
    | inl h ↦ inl (
      hits-Overwritten w s.tracked (ground arith) f h,
      record s { stale = some (reason w.why) },
      reason w.why,
      rw (z, n, h) refl,
      refl,
    )
    | inr h ↦ inr ((λ o. ground (arith, Overwritten-hits w s.tracked o)), rw (z, n, h) refl)
  ]
]

Hit-cons :
    (w : Write) (ws : List Write) (rs : List Region)
    → Hit rs (w ∷ ws)
    → ¬ Overwritten w rs
    → Hit rs ws
Hit-cons w ws rs (now _ _ o) n = absurd (n o)
Hit-cons w ws rs (later _ _ h) n = h

run_exact :
    (ws : List Write) (s : State)
    → AllFull s.tracked
    → s.stale ≡ none
    → ((run ws s).stale ≢ none → Hit s.tracked ws) × (Hit s.tracked ws → (run ws s).stale ≢ none)
unfolding run
run_exact [] s f n = ((λ h. absurd (h n)), λ h. elim h [ ])
run_exact (w ∷ ws) s f n = elim (dirty_step w s f n) [
  | inl (o, s', y, d, e) ↦ ((λ _. now w ws o), λ _ q. cc (d, run-stale ws s' y e))
  | inr (o, d) ↦
      let (a, b) = run_exact ws s f n in
      rw (d, run) ((λ h. later w ws (a h)), λ h. b (Hit-cons w ws s.tracked h o))
]

track-Full : (b0 l0 b1 l1 : ℕ) (s : State) → AllFull (track b0 l0 b1 l1 s).tracked
unfolding track
track-Full b0 l0 b1 l1 s = ground arith

-- The two ranges that a capture is given, as they are, the empty ones too.
abbrev pub given : ℕ → ℕ → ℕ → ℕ → List Region
given base0 len0 base1 len1 =
    record { base = base0; len = len0 } ∷ record { base = base1; len = len1 } ∷ []

Overwritten-empty :
    (w : Write) (r : Region) (rs : List Region)
    → r.len ≡ 0
    → Overwritten w (r ∷ rs)
    → Overwritten w rs
Overwritten-empty w r rs e (here _ _ x a b) = absurd (omega arith)
Overwritten-empty w r rs e (there _ _ o) = o

Overwritten-unless_empty :
    (w : Write) (r : Region) (rs : List Region)
    → Overwritten w (unless_empty r rs) ↔ Overwritten w (r ∷ rs)
unfolding unless_empty
Overwritten-unless_empty w r rs = elim (Bool-cases (r.len == 0)) [
  | inl e ↦ rw e ((λ o. there r rs o), λ o. Overwritten-empty w r rs (ground arith) o)
  | inr e ↦ rw e ((λ o. o), λ o. o)
]

Overwritten-tail :
    (w : Write) (r : Region) (rs rs' : List Region)
    → (Overwritten w rs → Overwritten w rs')
    → Overwritten w (r ∷ rs)
    → Overwritten w (r ∷ rs')
Overwritten-tail w r rs rs' f (here _ _ x a b) = here r rs' x a b
Overwritten-tail w r rs rs' f (there _ _ o) = there r rs' (f o)

track-given :
    (w : Write) (b0 l0 b1 l1 : ℕ) (s : State)
    → Overwritten w (track b0 l0 b1 l1 s).tracked ↔ Overwritten w (given b0 l0 b1 l1)
unfolding track
track-given w b0 l0 b1 l1 s =
    let r0 : Region = record { base = b0; len = l0 } in
    let r1 : Region = record { base = b1; len = l1 } in
    let first = Overwritten-unless_empty w r0 (unless_empty r1 []) in
    let second = Overwritten-unless_empty w r1 [] in
    (
      (λ o. Overwritten-tail w r0 _ _ second.0 (first.0 o)),
      λ o. first.1 (Overwritten-tail w r0 _ _ second.1 o),
    )

Hit-map :
    (rs rs' : List Region) (ws : List Write)
    → ((w : Write) → Overwritten w rs → Overwritten w rs')
    → Hit rs ws
    → Hit rs' ws
Hit-map rs rs' _ f (now w ws o) = now w ws (f w o)
Hit-map rs rs' _ f (later w ws h) = later w ws (Hit-map rs rs' ws f h)

-- After a capture is tracked in two ranges, of which either may be empty, and any sequence of PSRAM
-- writes: it is reported stale exactly when one of the writes covered a byte of one of them.
pub stale_exactly :
    (base0 len0 base1 len1 : ℕ) (s : State) (ws : List Write)
    → let t = run ws (track base0 len0 base1 len1 s) in
      (t.stale ≢ none → Hit (given base0 len0 base1 len1) ws)
      × (Hit (given base0 len0 base1 len1) ws → t.stale ≢ none)
stale_exactly base0 len0 base1 len1 s ws =
    let t = track base0 len0 base1 len1 s in
    let (a, b) =
      run_exact ws t (track-Full base0 len0 base1 len1 s) (track_intact base0 len0 base1 len1 s) in
    (
      (λ h.
          Hit-map t.tracked (given base0 len0 base1 len1) ws
            (λ w. (track-given w base0 len0 base1 len1 s).0) (a h)),
      λ h. b (
          Hit-map (given base0 len0 base1 len1) t.tracked ws
            (λ w. (track-given w base0 len0 base1 len1 s).1) h),
    )
