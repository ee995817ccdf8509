-- ===== src/WsProxy/Frame/Masking.antt =====
-- The masking of `readWsFrame` against masking as a stream.
use betaflight_sitl_udp.Base.{
  ℕ, bit_xor, suc, ◌+◌, ◌%◌, ◌≡◌, ◌==◌, refl, sym, ap, Bool, true, false, List, [], ◌∷◌, ◌++◌,
  if◌then◌else◌, arith, length, bit_xor_twice,
}
use betaflight_sitl_udp.WsProxy.Frame.{byte_at, apply_mask}

-- Masking as a stream: each byte takes the key's first one, which then goes to its end.
abbrev pub cycle_mask : List ℕ → List ℕ → List ℕ
cycle_mask [] bytes = bytes
cycle_mask (k ∷ ks) [] = []
cycle_mask (k ∷ ks) (b ∷ bytes) = bit_xor b k ∷ cycle_mask (ks ++ k ∷ []) bytes

apply_mask-cycle :
    (a b c d i : ℕ) (bytes : List ℕ)
    → apply_mask (a ∷ b ∷ c ∷ d ∷ []) i bytes ≡ (
        if i % 4 == 0
        then cycle_mask (a ∷ b ∷ c ∷ d ∷ []) bytes
        else if i % 4 == 1
        then cycle_mask (b ∷ c ∷ d ∷ a ∷ []) bytes
        else if i % 4 == 2
        then cycle_mask (c ∷ d ∷ a ∷ b ∷ []) bytes
        else cycle_mask (d ∷ a ∷ b ∷ c ∷ []) bytes)
unfolding apply_mask
apply_mask-cycle a b c d i [] = ground arith
apply_mask-cycle a b c d i (x ∷ bytes) = ground (arith, apply_mask-cycle a b c d (i + 1) bytes)

mask_same :
    (key payload : List ℕ) → length key ≡ 4 → cycle_mask key payload ≡ apply_mask key 0 payload
mask_same (a ∷ b ∷ c ∷ d ∷ []) payload e = sym (apply_mask-cycle a b c d 0 payload)
mask_same [] payload e = absurd (omega arith)
mask_same (a ∷ []) payload e = absurd (omega arith)
mask_same (a ∷ b ∷ []) payload e = absurd (omega arith)
mask_same (a ∷ b ∷ c ∷ []) payload e = absurd (omega arith)
mask_same (a ∷ b ∷ c ∷ d ∷ k ∷ key) payload e = absurd (omega arith)

pub body_same :
    (masked : Bool) (key payload : List ℕ)
    → length key ≡ (if masked then 4 else 0)
    → (if masked then cycle_mask key payload else payload)
      ≡ (if masked then apply_mask key 0 payload else payload)
body_same true key payload e = mask_same key payload e
body_same false key payload e = refl

pub apply_mask_twice :
    (key : List ℕ) (i : ℕ) (bytes : List ℕ) → apply_mask key i (apply_mask key i bytes) ≡ bytes
unfolding apply_mask
apply_mask_twice key i [] = refl
apply_mask_twice key i (b ∷ bytes) =
    ground (arith, bit_xor_twice b (byte_at key (i % 4)), apply_mask_twice key (i + 1) bytes)

pub length-apply_mask :
    (key : List ℕ) (i : ℕ) (bytes : List ℕ) → length (apply_mask key i bytes) ≡ length bytes
unfolding apply_mask
length-apply_mask key i [] = refl
length-apply_mask key i (b ∷ bytes) = ap suc (length-apply_mask key (i + 1) bytes)
