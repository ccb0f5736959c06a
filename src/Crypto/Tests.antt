-- ===== src/Crypto/Tests.antt =====
-- The cipher on a device that answers a block with its own words and the key's.
use meshtastic_mini.Base.{ℕ, ◌+◌, ◌≡◌, refl, some, List, [], ◌∷◌, arith, false, true, get_or}
use meshtastic_mini.Base.{replicate, length, ◌≢◌, inr}
use meshtastic_mini.Crypto.{Cryp, Aes, aes_ctr_crypt}
use meshtastic_mini.Crypto.Block.{Works}
use meshtastic_mini.Crypto.Stream.{IsCrypted, aes_ctr_crypt-IsCrypted, decrypts}
use meshtastic_mini.Crypto.Noted.{blocks_differ, noting}

abbrev toy_cipher : List ℕ → List ℕ → List ℕ
toy_cipher key block = get_or key 0 0 ∷ get_or block 0 0 ∷ get_or block 3 0 ∷ get_or key 3 0 ∷ []

abbrev toy_device : Cryp
toy_device = record {
  Device = ℕ;
  init = λ d. (d, true);
  encrypt = λ d key block. (d + 1, some (toy_cipher key block));
}

toy_device-Works : Works toy_device toy_cipher
toy_device-Works = record { init_ok = λ d. refl; encrypt_ok = λ d key block. refl }

abbrev idle : Aes toy_device
idle = record {
  channel_key = replicate 16 0;
  hw_key = 1 ∷ 2 ∷ 3 ∷ 4 ∷ [];
  cryp_ready = false;
  device = 0;
}

abbrev warm : Aes toy_device
warm = record idle { cryp_ready = true; device = 9 }

abbrev twenty : List ℕ
twenty = replicate 20 65

abbrev sixteen : List ℕ
sixteen = 0 ∷ 255 ∷ 1 ∷ 128 ∷ replicate 12 7

aes_ctr_crypt-IsCrypted_example :
    (s' : Aes toy_device) × (out : List ℕ) × (aes_ctr_crypt toy_device 3 twenty 20 7 1 idle
      ≡ some (s', out))
    × IsCrypted toy_cipher idle.hw_key 7 1 0 20 twenty out
    × (s'.hw_key ≡ idle.hw_key)
aes_ctr_crypt-IsCrypted_example =
    aes_ctr_crypt-IsCrypted toy_device toy_cipher toy_device-Works 3 twenty 20 7 1 idle
      (omega arith) (omega arith) (omega arith)

decrypts_example :
    (s' t' : Aes toy_device) × (sealed : List ℕ) × (aes_ctr_crypt toy_device 3 twenty 20 7 1 idle
      ≡ some (s', sealed))
    × (aes_ctr_crypt toy_device 3 sealed 20 7 1 warm ≡ some (t', twenty))
decrypts_example =
    decrypts toy_device toy_cipher toy_device-Works 3 twenty 20 7 1 idle warm (omega arith)
      (omega arith) (omega arith) refl

abbrev echo : List (List ℕ) → List ℕ → List ℕ → List ℕ
echo handed key block = block

abbrev fresh : Aes (noting echo)
fresh = record {
  channel_key = replicate 16 0;
  hw_key = 1 ∷ 2 ∷ 3 ∷ 4 ∷ [];
  cryp_ready = false;
  device = [];
}

blocks_differ_example :
    (t t' : Aes (noting echo)) × (out out' : List ℕ) × (aes_ctr_crypt
        (noting echo)
        16
        twenty
        20
        7
        1
        fresh
      ≡ some (t, out))
    × (aes_ctr_crypt (noting echo) 16 twenty 20 7 1 fresh ≡ some (t', out'))
    × (length t.device ≡ 2)
    × (length t'.device ≡ 2)
    × (get_or t.device 0 [] ≢ get_or t'.device 1 [])
blocks_differ_example =
    blocks_differ echo 16 20 20 7 7 1 1 0 1 twenty twenty fresh fresh refl refl (omega arith)
      (omega arith) (omega arith) (omega arith) (omega arith) (omega arith) (omega arith)
      (omega arith) (omega arith) (inr (inr (λ e. omega arith)))
