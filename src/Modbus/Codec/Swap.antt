-- ===== src/Modbus/Codec/Swap.antt =====
-- adapters/modbus/_codec.py: swapping the bytes of registers twice gives them back.
use xime_framework.Prelude.{
  ℕ, zero, suc, ◌<◌, ◌≡◌, refl, List, [], ◌∷◌, ◌++◌, arith, ap, ap₂, All, All-append, length, Bool,
  true, false,
}
use xime_framework.Modbus.Codec.{swap_register, swap_bytes, zeros, ordered, take}

pub swap_register_swap : (r : ℕ) → r < 65536 → swap_register (swap_register r) ≡ r
swap_register_swap r h = omega arith

swap_register_bound : (r : ℕ) → swap_register r < 65536
swap_register_bound r = omega arith

-- The words of a register field, as many bits each as a register has.
abbrev pub IsWord : ℕ → Type 0
IsWord r = r < 65536

swap_zeros : (k : ℕ) → swap_bytes (zeros k) ≡ zeros k
unfolding swap_bytes
swap_zeros zero = refl
swap_zeros (suc k) = ap (λ ws. 0 ∷ ws) (swap_zeros k)

swap_swap :
    (words : List ℕ) (k : ℕ)
    → All IsWord words
    → swap_bytes (swap_bytes words ++ zeros k) ≡ words ++ zeros k
unfolding swap_bytes
swap_swap [] k all = swap_zeros k
swap_swap (w ∷ ws) k all = ap₂ (λ v vs. v ∷ vs) (swap_register_swap w all.0) (swap_swap ws k all.1)

pub ordered-ordered :
    (little : Bool) (words : List ℕ) (k : ℕ)
    → All IsWord words
    → ordered little (ordered little words ++ zeros k) ≡ words ++ zeros k
ordered-ordered true words k all = swap_swap words k all
ordered-ordered false words k all = refl

length-swap_bytes : (words : List ℕ) → length (swap_bytes words) ≡ length words
unfolding swap_bytes
length-swap_bytes [] = refl
length-swap_bytes (w ∷ ws) = ap suc (length-swap_bytes ws)

pub length-ordered : (little : Bool) (words : List ℕ) → length (ordered little words) ≡ length words
length-ordered true words = length-swap_bytes words
length-ordered false words = refl

pub length-zeros : (k : ℕ) → length (zeros k) ≡ k
length-zeros zero = refl
length-zeros (suc k) = ap suc (length-zeros k)

zeros-IsWord : (k : ℕ) → All IsWord (zeros k)
zeros-IsWord zero = tt
zeros-IsWord (suc k) = (omega arith, zeros-IsWord k)

swap_bytes-IsWord : (words : List ℕ) → All IsWord (swap_bytes words)
unfolding swap_bytes
swap_bytes-IsWord [] = tt
swap_bytes-IsWord (w ∷ ws) = (swap_register_bound w, swap_bytes-IsWord ws)

pub filled-IsWord :
    (little : Bool) (words : List ℕ) (k : ℕ)
    → All IsWord words
    → All IsWord (ordered little words ++ zeros k)
filled-IsWord true words k all =
    All-append IsWord (swap_bytes words) (zeros k) (swap_bytes-IsWord words) (zeros-IsWord k)
filled-IsWord false words k all = All-append IsWord words (zeros k) all (zeros-IsWord k)

pub take_all {ℓ} : {A : Type ℓ} (n : ℕ) (xs : List A) → length xs ≡ n → take n xs ≡ xs
take_all zero [] e = refl
take_all zero (x ∷ xs) e = absurd (omega (arith, e))
take_all (suc n) [] e = absurd (omega (arith, e))
take_all (suc n) (x ∷ xs) e = ap (λ ys. x ∷ ys) (take_all n xs (omega (arith, e)))
