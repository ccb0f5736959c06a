-- ===== src/Crypto/Failure.antt =====
-- What becomes of a payload when the hardware fails.
use meshtastic_mini.Base.{ℕ, suc, ◌<◌, ◌≡◌, refl, ap, false, some, none, List, arith, lt→ltb, ◌==◌}
use meshtastic_mini.Crypto.{Cryp, Aes, ensure_cryp, aes_ecb_block, ctr_loop, aes_ctr_crypt}
use meshtastic_mini.Crypto.{first_nonce}

block_fails :
    (hal : Cryp) (block : List ℕ) (s : Aes hal)
    → s.cryp_ready ≡ false
    → (hal.init s.device).1 ≡ false
    → aes_ecb_block hal block s ≡ (record s { device = (hal.init s.device).0 }, none)
unfolding aes_ecb_block ensure_cryp
block_fails hal block s cold broken = rw (cold, broken) refl

-- If the hardware is not ready and does not initialise, `aes_ctr_crypt` of at least one byte returns
-- after its first round with the payload as it was.
pub fails_in_the_clear :
    (hal : Cryp) (fuel : ℕ) (payload : List ℕ) (len p f : ℕ) (s : Aes hal)
    → 0 < len
    → s.cryp_ready ≡ false
    → (hal.init s.device).1 ≡ false
    → (s' : Aes hal) × (aes_ctr_crypt hal (suc fuel) payload len p f s ≡ some (s', payload))
unfolding aes_ctr_crypt ctr_loop
fails_in_the_clear hal fuel payload len p f s some_bytes cold broken =
    let not_empty : (len == 0) ≡ false = ground arith in
    let fails = block_fails hal (first_nonce p f) s cold broken in
    (
      record s { device = (hal.init s.device).0 },
      rw (not_empty, lt→ltb 0 len some_bytes, fails) (ap (λ r. some (r.0, payload)) fails),
    )
