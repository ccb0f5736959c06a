-- ===== src/Serial/Framing/Receive.antt =====
-- What the receiver accepts as a frame: START1, the two bytes of the length, the body.
use mathlib.Core.List.{append_assoc}
use meshtastic_mini.Base.{ℕ, suc, ◌+◌, ◌*◌, ◌/◌, ◌%◌, ◌≤◌, ◌<◌, ◌≡◌, refl, ap, ◌∙◌, ◌≢◌, Bool, true}
use meshtastic_mini.Base.{map, List, [], ◌∷◌, ◌++◌, some, none, Option, arith, length, take, set}
use meshtastic_mini.Base.{length-set, take-set_next, bit_or, ◌<<<◌, u16}
use meshtastic_mini.Serial.Framing.{Framing, Call, deliver, sync, body, start, rx_switch}
use meshtastic_mini.Serial.Framing.{serial_rx_byte, feed}
use meshtastic_mini.Serial.Framing.Safety.{join_len}

deliver-append :
    (c : Option Call) (xs ys : List (List ℕ)) → deliver c (xs ++ ys) ≡ deliver c xs ++ ys
unfolding deliver
deliver-append none xs ys = refl
deliver-append (some c) xs ys = refl

-- Bytes in two portions are received as in one.
pub feed-append :
    (xs ys : List ℕ) (s : Framing)
    → let (s', early) = feed s xs in
      let (t, late) = feed s' ys in feed s (xs ++ ys) ≡ (t, early ++ late)
unfolding feed
feed-append [] ys s = refl
feed-append (x ∷ xs) ys s =
    let o = serial_rx_byte s x true in
    let ih = feed-append xs ys o.next in
    λ i. (
      (ih i).0,
      (ap (λ r. deliver o.called r.1) ih
            ∙ deliver-append o.called (feed o.next xs).1 (feed (feed o.next xs).0 ys).1)
          i,
    )

abbrev in_body : ℕ → ℕ → List ℕ → Bool → Framing
in_body len idx buf cb = record {
  rx_state = body;
  rx_len = len;
  rx_idx = idx;
  rx_buf = buf;
  rx_cb = cb;
}

abbrev idle : ℕ → ℕ → List ℕ → Framing
idle len idx buf = record {
  rx_state = sync;
  rx_len = len;
  rx_idx = idx;
  rx_buf = buf;
  rx_cb = true;
}

-- The last byte of a body completes the packet.
last_byte :
    (idx : ℕ) (buf : List ℕ) (cb : Bool) (x : ℕ)
    → idx < 512
    → length buf ≡ 512
    → feed (in_body (suc idx) idx buf cb) (x ∷ [])
      ≡ (idle (suc idx) (suc idx) (set buf idx x), (take idx buf ++ x ∷ []) ∷ [])
unfolding feed deliver serial_rx_byte rx_switch
last_byte idx buf cb x small full = ground (arith, take-set_next buf idx x)

-- Any other is stored, and the receiver stays in the body.
next_byte :
    (len idx : ℕ) (buf : List ℕ) (cb : Bool) (x : ℕ) (xs : List ℕ)
    → idx + 1 < len
    → len ≤ 512
    → feed (in_body len idx buf cb) (x ∷ xs) ≡ feed (in_body len (suc idx) (set buf idx x) true) xs
unfolding feed deliver serial_rx_byte rx_switch
next_byte len idx buf cb x xs more small = ground arith

-- The rest of a body that is `len` bytes long, of which `idx` are there.
feed_body :
    (xs : List ℕ) (x len idx : ℕ) (buf : List ℕ) (cb : Bool)
    → idx + length (x ∷ xs) ≡ len
    → len ≤ 512
    → length buf ≡ 512
    → (buf' : List ℕ) × (length buf' ≡ 512)
      × (feed (in_body len idx buf cb) (x ∷ xs)
          ≡ (idle len len buf', (take idx buf ++ x ∷ xs) ∷ []))
feed_body [] x len idx buf cb e small full =
    let e' : len ≡ suc idx = omega arith in
    (set buf idx x, length-set buf idx x ∙ full, rw e' (last_byte idx buf cb x (omega arith) full))
feed_body (y ∷ xs) x len idx buf cb e small full =
    let (buf', size, done) =
      feed_body xs y len (suc idx) (set buf idx x) true (omega arith) small
        (length-set buf idx x ∙ full) in
    (
      buf',
      size,
      next_byte len idx buf cb x (y ∷ xs) (omega arith) small
          ∙ done
          ∙ ap (λ l. (idle len len buf', l ∷ []))
              (ap (λ l. l ++ y ∷ xs) (take-set_next buf idx x (omega arith))
                ∙ append_assoc (take idx buf) (x ∷ []) (y ∷ xs)),
    )

-- The three bytes before a body.
feed_prefix :
    (hi lo len idx : ℕ) (buf : List ℕ) (cb : Bool)
    → hi * 256 + lo ≤ 512
    → lo < 256
    → feed
        (record { rx_state = sync; rx_len = len; rx_idx = idx; rx_buf = buf; rx_cb = cb })
        (0x94 ∷ hi ∷ lo ∷ [])
      ≡ (in_body (hi * 256 + lo) 0 buf true, [])
unfolding feed deliver serial_rx_byte rx_switch
feed_prefix hi lo len idx buf cb small lo_small = rw joined (ground arith)
  where
    joined : bit_or (u16 (hi <<< 8)) lo ≡ hi * 256 + lo
    joined = ap (λ t. bit_or t lo) {y = hi * 256} (omega arith) ∙ join_len hi lo lo_small

-- The receiver's own format of a frame.
abbrev pub frame : List ℕ → List ℕ
frame packet = 0x94 ∷ length packet / 256 ∷ length packet % 256 ∷ packet

feed-frame :
    (x : ℕ) (xs : List ℕ) (len idx : ℕ) (buf : List ℕ) (cb : Bool)
    → length (x ∷ xs) ≤ 512
    → length buf ≡ 512
    → (buf' : List ℕ) × (length buf' ≡ 512)
      × (feed
            (record { rx_state = sync; rx_len = len; rx_idx = idx; rx_buf = buf; rx_cb = cb })
            (frame (x ∷ xs))
          ≡ (idle (length (x ∷ xs)) (length (x ∷ xs)) buf', (x ∷ xs) ∷ []))
feed-frame x xs len idx buf cb small full =
    let n = length (x ∷ xs) in
    let (buf', size, done) = feed_body xs x n 0 buf true (omega arith) small full in
    let prefix = feed_prefix (n / 256) (n % 256) len idx buf cb (omega arith) (omega arith) in
    let same : n / 256 * 256 + n % 256 ≡ n = omega arith in
    (
      buf',
      size,
      feed-append (0x94 ∷ n / 256 ∷ n % 256 ∷ []) (x ∷ xs) _ ∙ rw (prefix, same) (rw done refl),
    )

-- A packet that a frame can carry.
abbrev pub Fits : List ℕ → Type 0
Fits packet = (1 ≤ length packet) × (length packet ≤ 512)

-- Bytes that no frame starts with.
abbrev pub IsNoise : List ℕ → Type 0
IsNoise [] = Unit
IsNoise (b ∷ bs) = (b ≢ 0x94) × IsNoise bs

-- Between two frames the receiver waits for START1.
pub record IsIdle (s : Framing) : Type 0 where
  pub waits : s.rx_state ≡ sync
  pub full_size : length s.rx_buf ≡ 512

-- In that state a frame delivers exactly its packet, and the receiver waits for the next.
pub receives_frame :
    (packet : List ℕ) (s : Framing)
    → IsIdle s
    → Fits packet
    → (s' : Framing) × (feed s (frame packet) ≡ (s', packet ∷ [])) × IsIdle s'
receives_frame [] s v fits = absurd (omega arith)
receives_frame (x ∷ xs) s v fits =
    let (buf', size, done) =
      feed-frame x xs s.rx_len s.rx_idx s.rx_buf s.rx_cb fits.1 v.full_size in
    (
      idle (length (x ∷ xs)) (length (x ∷ xs)) buf',
      ap (λ q. feed (record s { rx_state = q }) (frame (x ∷ xs))) v.waits ∙ done,
      record { waits = refl; full_size = size },
    )

skips_byte :
    (s : Framing) (b : ℕ)
    → s.rx_state ≡ sync
    → b ≢ 0x94
    → serial_rx_byte s b true
      ≡ record { next = record s { rx_cb = true }; called = none; returned = 0 }
unfolding serial_rx_byte rx_switch
skips_byte s b e ne = ap (λ q. rx_switch q (record s { rx_cb = true }) b) e ∙ ground arith

-- What is no START1 is skipped.
pub skips_noise :
    (noise : List ℕ) (s : Framing)
    → IsIdle s
    → IsNoise noise
    → (s' : Framing) × (feed s noise ≡ (s', [])) × IsIdle s'
unfolding feed deliver
skips_noise [] s v quiet = (s, refl, v)
skips_noise (b ∷ bs) s v quiet =
    let (s', done, w) =
      skips_noise bs (record s { rx_cb = true })
        (record { waits = v.waits; full_size = v.full_size }) quiet.1 in
    (
      s',
      ap (λ o. ((feed o.next bs).0, deliver o.called (feed o.next bs).1))
            (skips_byte s b v.waits quiet.0)
          ∙ done,
      w,
    )

-- A line of frames, each after some noise, and the packets in them.
pub record Piece : Type 0 where
  pub noise : List ℕ
  pub packet : List ℕ

unfoldable pub spoken : List Piece → List ℕ
spoken [] = []
spoken (p ∷ ps) = p.noise ++ frame p.packet ++ spoken ps

abbrev pub AllFit : List Piece → Type 0
AllFit [] = Unit
AllFit (p ∷ ps) = IsNoise p.noise × Fits p.packet × AllFit ps

receives_from :
    (ps : List Piece) (s : Framing)
    → IsIdle s
    → AllFit ps
    → (feed s (spoken ps)).1 ≡ map (λ p. p.packet) ps
unfolding spoken
receives_from [] s v fits = unfold feed in refl
receives_from (p ∷ ps) s v fits =
    let (s1, skipped, v1) = skips_noise p.noise s v fits.0 in
    let (s2, received, v2) = receives_frame p.packet s1 v1 fits.1 in
    ap (λ r. r.1)
      (ap (λ l. feed s l) (append_assoc p.noise (frame p.packet) (spoken ps))
        ∙ feed-append p.noise (frame p.packet ++ spoken ps) s)
    ∙ rw (skipped, feed-append (frame p.packet) (spoken ps) s1, received)
        (ap (λ l. p.packet ∷ l) (receives_from ps s2 v2 fits.2))

-- From start-up, a line of frames with noise between them delivers exactly the packets of the
-- frames, in order. A frame is START1, the length in two bytes, and the packet of 1 to 512 bytes;
-- noise is any bytes but START1.
pub receives_line :
    (ps : List Piece) → AllFit ps → (feed start (spoken ps)).1 ≡ map (λ p. p.packet) ps
receives_line ps fits = receives_from ps start (record { waits = refl; full_size = refl }) fits
