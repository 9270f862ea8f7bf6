-- ===== src/RefData/Bytes.antt =====
-- core/refdata/_layout.py: bytes that were written into a slot are read from it.
use xime_framework.Prelude.{ℕ, ◌+◌, ◌<◌, ◌≡◌, refl, List, [], ◌∷◌, arith, length, ap₂, ◌∙◌}
use xime_framework.Container.Registry.{put}
use xime_framework.RefData.{write_bytes, read_bytes}

write_bytes-before : (bs : List ℕ) (i : ℕ) (f : ℕ → ℕ) (j : ℕ) → j < i → write_bytes bs i f j ≡ f j
write_bytes-before [] i f j h = refl
write_bytes-before (b ∷ bs) i f j h =
    write_bytes-before bs (i + 1) (put i b f) j (omega arith) ∙ ground arith

pub read_bytes-write_bytes :
    (bs : List ℕ) (i : ℕ) (f : ℕ → ℕ) → read_bytes (write_bytes bs i f) i (length bs) ≡ bs
read_bytes-write_bytes [] i f = refl
read_bytes-write_bytes (b ∷ bs) i f =
    ap₂ (λ x xs. x ∷ xs) (write_bytes-before bs (i + 1) (put i b f) i (omega arith) ∙ ground arith)
      (read_bytes-write_bytes bs (i + 1) (put i b f))
