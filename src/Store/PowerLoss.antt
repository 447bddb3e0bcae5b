-- ===== src/Store/PowerLoss.antt =====
-- What is read after a loss of power while a record is written beside the newest one.
use benchpod_firmware.Base.{
  ℕ, zero, suc, ◌+◌, ◌-◌, ◌*◌, ◌/◌, ◌^◌, ◌≤◌, ◌<◌, ◌≡◌, refl, sym, ap, ◌∙◌, ◌≢◌, ◌⊎◌, inl, inr,
  Bool, true, false, not, none, some, List, [], ◌∷◌, ◌++◌, arith, Option-cases, length, replicate,
  All, length-append, length-replicate, Bytes,
}
use benchpod_firmware.Store.{
  word, Flash, Chip, Store, Hdr, slot_off, store_max, slot_read, slot_payload, read_checked, hdr_of,
  ahead, scan, newest_slot, push, Op, erase_at, program_at, perform, perform_all, pages, padded,
  record_ops, load, new_hdr, hdr_bytes,
}
use benchpod_firmware.Store.Commit.{
  IsChip, Quad, Torn, Cut, off_now, off_within, off_later, Outside, Within, Cut-elsewhere,
  pages-Within, read-agree, slot_read-agree,
}

-- Where a store keeps its records: two sectors apart, and records that fit.
pub record IsPlaced (s : Store) : Type 0 where
  pub apart : (s.slot_a + 8192 ≤ s.slot_b) ⊎ (s.slot_b + 8192 ≤ s.slot_a)
  pub fitting : store_max s ≤ 8176
  pub not_blank : s.magic ≢ 0xFFFFFFFF

-- Slot `n` holds a record, and whatever header with the store's magic can be read in the other
-- slot is of an earlier one.
pub record Newest (s : Store) (f : Flash) (n : Bool) (h : Hdr) (p : Bytes) : Type 0 where
  pub holds : slot_read s n f ≡ some (h, p)
  pub in_range : h.seq < 2 ^ 32
  pub behind :
      (q : Bytes)
      → read_checked (slot_off s (not n)) 16 f ≡ some q
      → (hdr_of q).magic ≡ s.magic
      → ((hdr_of q).seq < 2 ^ 32) × (ahead h.seq (hdr_of q).seq ≡ true)

slot_read-header :
    (s : Store) (i : Bool) (f : Flash) (b : Hdr) (r : Bytes)
    → slot_read s i f ≡ some (b, r)
    → (q : Bytes) × (read_checked (slot_off s i) 16 f ≡ some q)
      × (hdr_of q ≡ b)
      × (b.magic ≡ s.magic)
unfolding slot_read slot_payload
slot_read-header s i f b r h = elim (Option-cases (read_checked (slot_off s i) 16 f)) [
  | inl n ↦ absurd (ground arith)
  | inr (q, n) ↦ (q, n, ground arith, ground arith)
]

Newest-scan :
    (s : Store) (f : Flash) (n : Bool) (h : Hdr) (p : Bytes)
    → Newest s f n h p
    → scan s f ≡ some (n, h, p)
unfolding scan newest_slot
Newest-scan s f true h p v = elim (Option-cases (slot_read s false f)) [
  | inl e ↦ rw (e, v.holds) refl
  | inr ((b, r), e) ↦
      let (q, rd, same, m) = slot_read-header s false f b r e in
      let (small, late) = v.behind q rd (ground arith) in ground (arith, v.holds)
]
Newest-scan s f false h p v = elim (Option-cases (slot_read s true f)) [
  | inl e ↦ rw (e, v.holds) refl
  | inr ((b, r), e) ↦
      let (q, rd, same, m) = slot_read-header s true f b r e in
      let (small, late) = v.behind q rd (ground arith) in ground (arith, v.holds, v.in_range)
]

read-blank :
    (n off : ℕ) (g : Flash)
    → ((k : ℕ) → k < n → g (off + k) ≡ some 255)
    → read_checked off n g ≡ some (replicate n 255)
unfolding read_checked push
read-blank zero off g h = refl
read-blank (suc n) off g h =
    let ih =
      read-blank n (off + 1) g (λ k l.
        let e : off + 1 + k ≡ off + suc k = omega arith in rw e (h (suc k) (omega arith))) in
    let e0 : off + 0 ≡ off = omega arith in
    let first : g off ≡ some 255 = rw e0 at (h 0 (omega arith)) in rw (first, ih) refl

dead_header : (off : ℕ) (g : Flash) → g off ≡ none → read_checked off 16 g ≡ none
unfolding read_checked push
dead_header off g dead = rw dead refl

-- A header that can be read after the cut was there before it.
header_kept :
    (s : Store) (f g : Flash) (off : ℕ) (q : Bytes)
    → s.magic ≢ 0xFFFFFFFF
    → Quad g f off
    → read_checked off 16 g ≡ some q
    → (hdr_of q).magic ≡ s.magic
    → read_checked off 16 f ≡ some q
unfolding hdr_of
header_kept s f g off q nb (inl same) rd m =
    sym (
      read-agree 16 off f g (λ i a b.
        let e : off + (i - off) ≡ i = omega arith in rw e at (same (i - off) (omega arith))))
    ∙ rd
header_kept s f g off q nb (inr (inl blank)) rd m =
    let e = read-blank 16 off g blank in
    let w : q ≡ replicate 16 255 = cc in absurd (nb (sym m ∙ ap (λ (l : Bytes). word 0 l) w))
header_kept s f g off q nb (inr (inr dead)) rd m = let e = dead_header off g dead in absurd (cc)

-- A byte of one slot's sector is outside the other's.
other :
    (s : Store) (n : Bool) (j : ℕ)
    → (s.slot_a + 8192 ≤ s.slot_b) ⊎ (s.slot_b + 8192 ≤ s.slot_a)
    → slot_off s n ≤ j
    → j < slot_off s n + 8192
    → Outside (slot_off s (not n)) (slot_off s (not n) + 8192) j
other s true j apart a b = ground arith
other s false j apart a b = ground arith

-- A flash that differs only in the other slot's sector, its header as a cut leaves it.
spared :
    (s : Store) (f g : Flash) (n : Bool) (h : Hdr) (p : Bytes)
    → IsPlaced s
    → ((i : ℕ) → Outside (slot_off s (not n)) (slot_off s (not n) + 8192) i → g i ≡ f i)
    → Quad g f (slot_off s (not n))
    → Newest s f n h p
    → Newest s g n h p
spared s f g n h p v out quad new = record {
  holds =
      slot_read-agree s n f g (omega (arith, v.fitting)) (λ j a b. out j (other s n j v.apart a b))
      ∙ new.holds;
  in_range = new.in_range;
  behind =
      λ q rd m. new.behind q (header_kept s f g (slot_off s (not n)) q v.not_blank quad rd m) m;
}

-- The flash between the erase and the header.
abbrev body_ops : Store → Bool → Bytes → List Op
body_ops s i body =
    erase_at (slot_off s i)
    ∷ pages ((length (padded body) + 255) / 256) (slot_off s i + 16) (padded body)

padded-Within :
    (off : ℕ) (body : Bytes)
    → length body ≤ 8176
    → All
        (Within (off + 16) (off + 8192))
        (pages ((length (padded body) + 255) / 256) (off + 16) (padded body))
unfolding padded
padded-Within off body l =
    let n = length-append {0} body (replicate ((length body + 15) / 16 * 16 - length body) 255) in
    let r = length-replicate {0} {A = ℕ} ((length body + 15) / 16 * 16 - length body) 255 in
    pages-Within _ (off + 16) (off + 16) (off + 8192) _ (omega arith) (omega arith)
      (omega (arith, n, r))

Cut-body :
    (c : Chip) (s : Store) (i : Bool) (body : Bytes) (f g : Flash)
    → IsChip c
    → length body ≤ 8176
    → Cut c g (body_ops s i body) f
    → ((j : ℕ) → Outside (slot_off s i) (slot_off s i + 8192) j → g j ≡ f j)
      × Quad g f (slot_off s i)
unfolding perform
Cut-body c s i body f g v l (off_now _ _ e) =
    ((λ j o. ap (λ (x : Flash). x j) e), inl (λ k o. ap (λ (x : Flash). x (slot_off s i + k)) e))
Cut-body c s i body f g v l (off_within _ _ _ t) = (t.elsewhere, t.first_quad)
Cut-body c s i body f g v l (off_later _ _ _ k) =
    let off = slot_off s i in
    let far =
      Cut-elsewhere c g _ (c.erase off f) (off + 16) (off + 8192) v k (padded-Within off body l) in
    (
      (λ j o. far j (omega (arith, o)) ∙ v.local (erase_at off) f j o),
      inr (
          inl (λ k o.
            far (off + k) (inl (omega arith))
            ∙ v.blanks off f (off + k) (omega arith) (omega arith))),
    )

Cut-done : (c : Chip) (os : List Op) (f : Flash) → Cut c (perform_all c os f) os f
unfolding perform_all
Cut-done c [] f = off_now [] f refl
Cut-done c (o ∷ os) f = off_later o os f (Cut-done c os (perform c o f))

Cut-last :
    (c : Chip) (g : Flash) (os : List Op) (o : Op) (f : Flash)
    → Cut c g (os ++ o ∷ []) f
    → Cut c g os f ⊎ (Torn o (perform_all c os f) g ⊎ (g ≡ perform_all c (os ++ o ∷ []) f))
unfolding perform_all
Cut-last c g [] o f (off_now _ _ e) = inl (off_now [] f e)
Cut-last c g [] o f (off_within _ _ _ t) = inr (inl t)
Cut-last c g [] o f (off_later _ _ _ (off_now _ _ e)) = inr (inr e)
Cut-last c g (o' ∷ os) o f (off_now _ _ e) = inl (off_now (o' ∷ os) f e)
Cut-last c g (o' ∷ os) o f (off_within _ _ _ t) = inl (off_within o' os f t)
Cut-last c g (o' ∷ os) o f (off_later _ _ _ k) = elim (Cut-last c g os o (perform c o' f) k) [
  | inl a ↦ inl (off_later o' os f a)
  | inr b ↦ inr b
]

load-Newest :
    (s : Store) (f g : Flash) (n : Bool) (h : Hdr) (p : Bytes) (len : ℕ)
    → Newest s f n h p
    → Newest s g n h p
    → load s len g ≡ load s len f
unfolding load
load-Newest s f g n h p len a b =
    let ea = Newest-scan s f n h p a in
    let eb = Newest-scan s g n h p b in let ha = a.holds in let hb = b.holds in ground arith

-- On a chip that keeps to its data sheet, with the newest record in slot `n`: when the power goes
-- off at any point while a record of up to 8176 bytes is written to the other slot, either the
-- write was complete, or slot `n` still holds the newest record and ab_store_load returns, for any
-- length, what it returned before.
pub power_loss :
    (c : Chip) (s : Store) (n : Bool) (h : Hdr) (p : Bytes) (seq : ℕ) (body : Bytes) (f g : Flash)
    → IsChip c
    → IsPlaced s
    → Newest s f n h p
    → length body ≤ 8176
    → Cut c g (record_ops s (not n) seq body) f
    → (g ≡ perform_all c (record_ops s (not n) seq body) f)
      ⊎ (Newest s g n h p × ((len : ℕ) → load s len g ≡ load s len f))
unfolding record_ops hdr_bytes
power_loss c s n h p seq body f g v w new l cut =
    let header = program_at (slot_off s (not n)) (hdr_bytes (new_hdr s seq body)) in
    let ops = body_ops s (not n) body in
    let before = λ (x : Flash) (k : Cut c x ops f).
      let (out, quad) = Cut-body c s (not n) body f x v l k in spared s f x n h p w out quad new in
    elim (Cut-last c g ops header f cut) [
      | inl k ↦ inr (before g k, λ len. load-Newest s f g n h p len new (before g k))
      | inr (inr e) ↦ inl e
      | inr (inl t) ↦
          let mid = before (perform_all c ops f) (Cut-done c ops f) in
          let after =
            spared s (perform_all c ops f) g n h p w (λ j o. t.elsewhere j (omega (arith, o)))
              t.first_quad mid in
          inr (after, λ len. load-Newest s f g n h p len new after)
    ]
